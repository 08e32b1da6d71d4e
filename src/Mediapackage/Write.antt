-- ===== src/Mediapackage/Write.antt =====
-- internal/mediapackage/write.go.
use gophercast.Prelude.{
  ℕ, String, Bool, true, false, not, ◌&&◌, ◌||◌, Option, none, some, List, [], map, ok, err, Result,
  str_eq, if◌then◌else◌, any, keep,
}
use gophercast.Prelude.Table.{find_by, update_where}
use gophercast.Search.Rows.{
  Package, MetadataRow, Series, Publication, Element, Snapshot, Db, package_key, metadata_key,
  series_key,
}
use gophercast.Search.Project.{
  Error, no_rows, foreign_key, is_some, find_package, find_series, coalesce, begin_func,
  project_event, project_series, ◌>>=◌,
}
use gophercast.Mediapackage.Metadata.{Metadata, SeriesMetadata, nullif, refers, put_metadata}

abbrev pub text_or_empty : Option String → String
text_or_empty s = coalesce s ""

abbrev pub is_live_id : String → Package → Bool
is_live_id id p = str_eq p.id id && not (is_some p.deleted_at)

abbrev pub find_live : Option Package → Option Package
find_live none = none
find_live (some p) = if is_some p.deleted_at then none else some p

abbrev pub metadata_of : String → Option MetadataRow → Metadata
metadata_of series none = record {
  creators = [];
  contributors = [];
  language = "";
  description = "";
  subjects = [];
  location = "";
  license = "";
  created = none;
  series_id = series;
  status = "";
}
metadata_of series (some m) = record {
  creators = m.creators;
  contributors = m.contributors;
  language = text_or_empty m.language;
  description = text_or_empty m.description;
  subjects = m.subjects;
  location = text_or_empty m.location;
  license = text_or_empty m.license;
  created = m.created;
  series_id = series;
  status = text_or_empty m.status;
}

abbrev pub dc_of : Option Package → Db → Result Error (String × Option ℕ × Metadata)
dc_of none db = err no_rows
dc_of (some p) db = ok (
  text_or_empty p.title,
  p.start_time,
  metadata_of (text_or_empty p.series_id) (find_by metadata_key p.id db.metadata),
)

-- A missing or tombstoned event is an error.
unfoldable pub get_event_dc : String → Db → Result Error (String × Option ℕ × Metadata)
get_event_dc id db = dc_of (find_live (find_package id db)) db

abbrev pub with_dc : String → Option ℕ → Option String → Package → Package
with_dc title start s p = record p { title = nullif title; start_time = start; series_id = s }

unfoldable pub update_dc : String → String → Option ℕ → Option String → Db → Result Error Db
update_dc id title start s db =
    if refers s db || not (any (is_live_id id) db.packages)
    then ok (record db {
      packages = update_where package_key (is_live_id id) (with_dc title start s) db.packages;
    })
    else err foreign_key

unfoldable pub set_event_dc_body : String → String → Option ℕ → Metadata → Db → Result Error Db
unfolding update_dc put_metadata project_event
set_event_dc_body id title start md db = do
  updated ← update_dc id title start (nullif md.series_id) db
  written ← put_metadata id md updated
  project_event id written

unfoldable pub set_event_dc :
    String → String → Option ℕ → Metadata → Db → Result Error (Unit {0}) × Db
unfolding set_event_dc_body
set_event_dc id title start md db = begin_func (set_event_dc_body id title start md db) db

abbrev pub series_dc : Option Series → Option SeriesMetadata
series_dc none = none
series_dc (some s) =
    if is_some s.deleted_at
    then none
    else some (record {
      title = text_or_empty s.title;
      contributors = s.contributors;
      organizers = s.organizers;
      language = text_or_empty s.language;
      description = text_or_empty s.description;
      subjects = s.subjects;
      created = s.created;
    })

-- `none` is `found = false`.
unfoldable pub get_series_dc : String → Db → Option SeriesMetadata
get_series_dc id db = series_dc (find_series id db)

abbrev pub of_package : String → List Element → List String
of_package id es = map (λ e. e.id) (keep (λ (e : Element). str_eq e.mediapackage_id id) es)

abbrev pub holds_tag : List String → String × String → Bool
holds_tag ids (e, t) = any (str_eq e) ids

-- The deletes: publications, the tags of the event's elements, the elements, the snapshots.
unfoldable pub drop_archive : String → Db → Db
drop_archive id db = record db {
  publications = keep (λ (p : Publication). not (str_eq p.mediapackage_id id)) db.publications;
  element_tags = keep (λ t. not (holds_tag (of_package id db.elements) t)) db.element_tags;
  elements = keep (λ (e : Element). not (str_eq e.mediapackage_id id)) db.elements;
  snapshots = keep (λ (s : Snapshot). not (str_eq s.mediapackage_id id)) db.snapshots;
}

abbrev pub mark_deleted : ℕ → Package → Package
mark_deleted now p = record p { deleted_at = some now }

-- The transaction's result, and whether the event was found.
abbrev pub committed : Result Error Db → Db → Result Error Bool × Db
committed (ok after) before = (ok true, after)
committed (err e) before = (err e, before)

unfoldable pub tombstone_event : ℕ → String → Db → Result Error Bool × Db
unfolding drop_archive project_event
tombstone_event now id db =
    if any (is_live_id id) db.packages
    then committed
        (project_event id (
          drop_archive id (record db {
            packages = update_where package_key (is_live_id id) (mark_deleted now) db.packages;
          })))
        db
    else (ok false, db)

abbrev pub is_live_series_id : String → Series → Bool
is_live_series_id id s = str_eq s.id id && not (is_some s.deleted_at)

unfoldable pub tombstone_series : ℕ → String → Db → Result Error Bool × Db
unfolding project_series
tombstone_series now id db =
    if any (is_live_series_id id) db.series
    then committed
        (ok (
          project_series id (record db {
            series =
                update_where series_key (is_live_series_id id)
                  (λ s. record s { deleted_at = some now }) db.series;
          })))
        db
    else (ok false, db)
