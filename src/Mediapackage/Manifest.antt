-- ===== src/Mediapackage/Manifest.antt =====
-- `ParseManifest` and `Load` of internal/mediapackage/mediapackage.go.
use gophercast.Prelude.{
  ℕ, String, Option, none, some, List, ◌++◌, map, Result, ok, err, str_eq, if◌then◌else◌,
}
use gophercast.Text.{Codes}
use gophercast.Mediapackage.Materialise.{
  ManifestElement, Manifest, Failure, World, Files, materialise,
}

pub record XmlElement : Type 0 where
  pub id : String
  pub type_attr : String
  pub mimetype : String
  pub url : String
  pub checksum_type : String
  pub checksum_value : String
  pub tags : List String

pub record XmlManifest : Type 0 where
  pub id : String
  pub start : String
  pub duration : ℕ
  pub title : String
  pub tracks : List XmlElement
  pub catalogs : List XmlElement
  pub attachments : List XmlElement

pub data LoadError : Type 0 where
  unreadable malformed no_id bad_start : LoadError
  materialising : Failure → LoadError

-- What reads a file, `xml.Unmarshal`, and `time.Parse` for RFC 3339.
pub record Reader : Type 0 where
  pub read_file : String → Option Codes
  pub unmarshal : Codes → Option XmlManifest
  pub parse_time : String → Option ℕ

unfoldable pub manifest_element : String → XmlElement → ManifestElement
manifest_element kind el = record {
  id = el.id;
  kind = kind;
  flavor = el.type_attr;
  mimetype = el.mimetype;
  url = el.url;
  md5 = if str_eq el.checksum_type "md5" then el.checksum_value else "";
  tags = el.tags;
}

-- The groups, in order.
unfoldable pub manifest_elements : XmlManifest → List ManifestElement
unfolding manifest_element
manifest_elements m =
    map (manifest_element "track") m.tracks
    ++ (map (manifest_element "catalog") m.catalogs
        ++ map (manifest_element "attachment") m.attachments)

module _ (reader : Reader) where
  -- A start that is given must parse.
  abbrev pub start_of : String → Option ℕ → Result LoadError (Option ℕ)
  start_of text parsed =
      if str_eq text ""
      then ok none
      else (elim parsed [ none ↦ err bad_start | some t ↦ ok (some t) ])

  abbrev pub with_start : XmlManifest → Result LoadError (Option ℕ) → Result LoadError Manifest
  with_start m (err e) = err e
  with_start m (ok start) = ok (record {
    id = m.id;
    title = m.title;
    start = start;
    duration_ms = m.duration;
    elements = manifest_elements m;
  })

  abbrev pub of_document : Option XmlManifest → Result LoadError Manifest
  of_document none = err malformed
  of_document (some m) =
      if str_eq m.id ""
      then err no_id
      else with_start m (start_of m.start (reader.parse_time m.start))

  unfoldable pub parse_manifest : Codes → Result LoadError Manifest
  unfolding manifest_elements
  parse_manifest raw = of_document (reader.unmarshal raw)

  module _ (files : Files) where
    abbrev pub materialised :
        String → Result Failure (Unit {0}) × World → Result LoadError String × World
    materialised id (ok done, w) = (ok id, w)
    materialised id (err e, w) = (err (materialising e), w)

    abbrev pub parsed : Result LoadError Manifest → World → Result LoadError String × World
    parsed (err e) w = (err e, w)
    parsed (ok m) w = materialised m.id (materialise files m w)

    abbrev pub contents : Option Codes → World → Result LoadError String × World
    contents none w = (err unreadable, w)
    contents (some raw) w = parsed (parse_manifest raw) w

    unfoldable pub load : String → World → Result LoadError String × World
    unfolding parse_manifest materialise
    load path w = contents (reader.read_file path) w
