-- ===== src/Mediapackage/Materialise.antt =====
-- `Materialise`, the write path of the loader and of ingest, the element rows and `FlavorMatches`:
-- internal/mediapackage/mediapackage.go; `PutFile` of internal/cas/cas.go.
use gophercast.Prelude.{
  ℕ, String, Bool, true, not, ◌&&◌, ◌||◌, Option, none, some, List, [], ◌∷◌, ◌++◌, ok, err, Result,
  str_eq, if◌then◌else◌, ◌==◌, any, length,
}
use gophercast.Prelude.Table.{find_by, insert_by, update_where}
use gophercast.Text.{Codes, eq_codes}
use gophercast.Search.Rows.{Package, Element, Db, package_key}
use gophercast.Search.Project as Project
use gophercast.Search.Project.{
  foreign_key, unique_violation, is_some, find_package, coalesce, project_event, begin_func, ◌>>=◌,
}
use gophercast.Mediapackage.Metadata.{nullif}

pub record ManifestElement : Type 0 where
  pub id : String
  pub kind : String
  pub flavor : String
  pub mimetype : String
  pub url : String
  pub md5 : String
  pub tags : List String

pub record Manifest : Type 0 where
  pub id : String
  pub title : String
  pub start : Option ℕ
  pub duration_ms : ℕ
  pub elements : List ManifestElement

pub data Failure : Type 0 where
  no_mediapackage_id unresolved checksum not_stored : Failure
  database : Project.Error → Failure

-- The database and the bucket: the objects by their digests.
pub record World : Type 0 where
  pub db : Db
  pub objects : List (String × Codes)

abbrev pub element_key : Element → String
element_key e = e.id

abbrev pub object_key : String × Codes → String
object_key o = o.0

-- `nullif($4, 0)`
abbrev pub nullif_zero : ℕ → Option ℕ
nullif_zero n = if n == 0 then none else some n

unfoldable pub new_package : Manifest → Package
new_package m = record {
  id = m.id;
  title = nullif m.title;
  start_time = m.start;
  duration_ms = nullif_zero m.duration_ms;
  series_id = none;
  deleted_at = none;
}

-- The first transaction: the mediapackage, if there is none yet, and its row of the projection.
unfoldable pub record_package : Manifest → Db → Result Project.Error (Unit {0}) × Db
unfolding new_package project_event
record_package m db =
    begin_func
      (project_event m.id
        (record db { packages = insert_by package_key (new_package m) db.packages }))
      db

abbrev pub is_tag : String → String → String × String → Bool
is_tag e t (f, u) = str_eq f e && str_eq u t

-- `on conflict do nothing`
unfoldable pub insert_tags : String → List String → List (String × String) → List (String × String)
insert_tags e [] rows = rows
insert_tags e (t ∷ ts) rows =
    insert_tags e ts (if any (is_tag e t) rows then rows else rows ++ (e, t) ∷ [])

-- `insertElement`; without `idempotent` an element id that is taken violates the primary key.
unfoldable pub insert_element : Bool → Element → List String → Db → Result Project.Error Db
unfolding insert_tags
insert_element idempotent el tags db =
    if not (is_some (find_package el.mediapackage_id db))
    then err foreign_key
    else if is_some (find_by element_key el.id db.elements) && not idempotent
    then err unique_violation
    else ok (record db {
      elements = insert_by element_key el db.elements;
      element_tags = insert_tags el.id tags db.element_tags;
    })

-- `resolve` gives the bytes behind a URL; `md5` and `sha256` are the hex digests of the libraries, and
-- `refuses` says of which bytes the store refuses the upload.
pub record Files : Type 0 where
  pub resolve : String → Option Codes
  pub md5 : Codes → String
  pub sha256 : Codes → String
  pub refuses : Codes → Bool

module _ (files : Files) where
  -- Only what is not there yet is uploaded.
  abbrev pub is_refused : Codes → List (String × Codes) → Bool
  is_refused bytes objects =
      not (is_some (find_by object_key (files.sha256 bytes) objects)) && files.refuses bytes

  -- `PutFile`: the digest, and the bucket with the bytes under it.
  unfoldable pub put_file : Codes → List (String × Codes) → Option (String × List (String × Codes))
  put_file bytes objects =
      if is_refused bytes objects
      then none
      else some (files.sha256 bytes, insert_by object_key (files.sha256 bytes, bytes) objects)

  abbrev pub element_of : String → ManifestElement → Codes → String → Element
  element_of mp el bytes sum = record {
    id = el.id;
    mediapackage_id = mp;
    kind = el.kind;
    flavor = el.flavor;
    mimetype = nullif el.mimetype;
    sha256 = sum;
    size_bytes = length bytes;
    source_url = nullif el.url;
  }

  abbrev pub inserted : Result Project.Error Db → World → Result Failure (Unit {0}) × World
  inserted (ok db) w = (ok tt, record w { db = db })
  inserted (err e) w = (err (database e), w)

  abbrev pub put_then :
      Option (String × List (String × Codes))
      → String
      → ManifestElement
      → Codes
      → World
      → Result Failure (Unit {0}) × World
  put_then none mp el bytes w = (err not_stored, w)
  put_then (some (sum, objects)) mp el bytes w =
      inserted (insert_element true (element_of mp el bytes sum) el.tags w.db)
        (record w { objects = objects })

  unfoldable pub resolved :
      String → ManifestElement → Option Codes → World → Result Failure (Unit {0}) × World
  unfolding put_file insert_element
  resolved mp el none w = (err unresolved, w)
  resolved mp el (some bytes) w =
      if not (str_eq el.md5 "") && not (str_eq (files.md5 bytes) el.md5)
      then (err checksum, w)
      else put_then (put_file bytes w.objects) mp el bytes w

  unfoldable pub materialise_element :
      String → ManifestElement → World → Result Failure (Unit {0}) × World
  unfolding resolved
  materialise_element mp el w = resolved mp el (files.resolve el.url) w

  abbrev pub and_then :
      Result Failure (Unit {0}) × World
      → (World → Result Failure (Unit {0}) × World)
      → Result Failure (Unit {0}) × World
  and_then (ok done, w) f = f w
  and_then (err e, w) f = (err e, w)

  unfoldable pub materialise_elements :
      String → List ManifestElement → World → Result Failure (Unit {0}) × World
  unfolding materialise_element
  materialise_elements mp [] w = (ok tt, w)
  materialise_elements mp (el ∷ els) w =
      and_then (materialise_element mp el w) (materialise_elements mp els)

  abbrev pub recorded :
      Result Project.Error (Unit {0}) × Db → World → Result Failure (Unit {0}) × World
  recorded (ok done, db) w = (ok tt, record w { db = db })
  recorded (err e, db) w = (err (database e), record w { db = db })

  unfoldable pub materialise : Manifest → World → Result Failure (Unit {0}) × World
  unfolding record_package materialise_elements
  materialise m w =
      if str_eq m.id ""
      then (err no_mediapackage_id, w)
      else and_then (recorded (record_package m w.db) w) (materialise_elements m.id m.elements)

-- `strings.SplitN(s, "/", 2)`: `none` without a slash.
unfoldable pub split_flavor : Codes → Option (Codes × Codes)
split_flavor [] = none
split_flavor (c ∷ s) =
    let rest = split_flavor s in
    if c == b'/' then some ([], s) else (elim rest [ none ↦ none | some (a, b) ↦ some (c ∷ a, b) ])

abbrev pub part_matches : Codes → Codes → Bool
part_matches p f = eq_codes p (b'*' ∷ []) || eq_codes p f

abbrev pub parts_match : Option (Codes × Codes) → Option (Codes × Codes) → Bool → Bool
parts_match (some (p, q)) (some (f, g)) same = part_matches p f && part_matches q g
parts_match _ _ same = same

unfoldable pub flavor_matches : Codes → Codes → Bool
unfolding split_flavor
flavor_matches pattern flavor =
    parts_match (split_flavor pattern) (split_flavor flavor) (eq_codes pattern flavor)

-- internal/mediapackage/tech.go: only a duration that is not known yet is written.
abbrev pub lacks_duration : String → Package → Bool
lacks_duration id p = str_eq p.id id && not (is_some p.duration_ms)

unfoldable pub set_duration_if_null : String → ℕ → Db → Db
set_duration_if_null id ms db = record db {
  packages =
      update_where package_key (lacks_duration id) (λ p. record p { duration_ms = some ms })
        db.packages;
}

-- The completion of an inspection (internal/worker/encode_inspect.go).
unfoldable pub record_duration : String → ℕ → Db → Result Project.Error (Unit {0}) × Db
unfolding set_duration_if_null project_event
record_duration id ms db = begin_func (project_event id (set_duration_if_null id ms db)) db
