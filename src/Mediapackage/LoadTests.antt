-- ===== src/Mediapackage/LoadTests.antt =====
-- Loads of internal/mediapackage at a concrete manifest.
use gophercast.Prelude.{
  false, String, ◌≡◌, refl, none, some, [], ◌∷◌, ok, err, str_eq, if◌then◌else◌, All,
}
use gophercast.Prelude.Table.{find_by, insert_by}
use gophercast.Text.{Codes}
use gophercast.Mediapackage.Materialise.{Manifest, checksum, World, Files}
use gophercast.Mediapackage.Manifest.{
  XmlElement, XmlManifest, bad_start, materialising, Reader, parse_manifest, load,
}
use gophercast.Mediapackage.Runs.{empty_db}
use gophercast.Mediapackage.Loaded.{IsLoaded}
use gophercast.Mediapackage.Reloaded.{load_again}

abbrev camera : XmlElement
camera = record {
  id = "t1";
  type_attr = "presenter/source";
  mimetype = "video/mp4";
  url = "http://host/a.mp4";
  checksum_type = "md5";
  checksum_value = "m-1";
  tags = "archive" ∷ "archive" ∷ [];
}

abbrev document : String → XmlManifest
document start = record {
  id = "m1";
  start = start;
  duration = 60;
  title = "Lecture";
  tracks = camera ∷ [];
  catalogs = [];
  attachments = [];
}

-- The file "good" has a start that parses, every other one has not.
abbrev reader : Reader
reader = record {
  read_file = λ path. some (if str_eq path "good" then 1 ∷ [] else []);
  unmarshal = λ raw. elim raw [
    | [] ↦ some (document "soon")
    | ◌∷◌ c cs ↦ some (document "2026-01-01T00:00:00Z")
  ];
  parse_time = λ s. if str_eq s "soon" then none else some 5;
}

abbrev files_of : String → Files
files_of digest = record {
  resolve = λ url. some (7 ∷ 8 ∷ []);
  md5 = λ bytes. digest;
  sha256 = λ bytes. "d-1";
  refuses = λ bytes. false;
}

abbrev files : Files
files = files_of "m-1"

abbrev at_first : World
at_first = record { db = empty_db; objects = [] }

abbrev after : World
after = (load reader files "good" at_first).1

loads : (load reader files "good" at_first).0 ≡ ok "m1"
unfolding load find_by insert_by
loads = refl

refuses_start : load reader files "other" at_first ≡ (err bad_start, at_first)
unfolding load find_by insert_by
refuses_start = refl

-- The objects of a wrong resolver are not stored.
refuses_bytes :
    let (r, w) = load reader (files_of "m-2") "good" at_first in
    (r ≡ err (materialising checksum)) × (w.objects ≡ []) × (w.db.elements ≡ [])
unfolding load find_by insert_by
refuses_bytes = (refl, refl, refl)

load_again_example :
    (raw : Codes) × (reader.read_file "good" ≡ some raw)
    × (m : Manifest) × (parse_manifest reader raw ≡ ok m)
    × (m.id ≡ "m1")
    × All (λ el. IsLoaded files m.id el after) m.elements
    × (load reader files "good" after ≡ (ok "m1", after))
unfolding load find_by insert_by
load_again_example = load_again reader files "good" "m1" at_first after refl
