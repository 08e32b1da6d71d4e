-- ===== src/Mediapackage/Metadata.antt =====
-- internal/mediapackage/metadata.go.
use gophercast.Prelude.{
  ℕ, String, Bool, true, not, ◌&&◌, ◌||◌, Option, none, some, List, [], ◌∷◌, ok, err, Result,
  str_eq, if◌then◌else◌, any, keep,
}
use gophercast.Prelude.Table.{put_by, update_where}
use gophercast.Acl.Policy.{event, in_scope, policy_of}
use gophercast.Search.Rows.{
  Package, MetadataRow, Series, Publication, Db, package_key, metadata_key, series_key,
}
use gophercast.Search.Project.{
  Error, foreign_key, is_some, find_package, find_series, allowed_roles, acl_state_of, begin_func,
  project_event, project_series, ◌>>=◌,
}

pub record Metadata : Type 0 where
  pub creators : List String
  pub contributors : List String
  pub language : String
  pub description : String
  pub subjects : List String
  pub location : String
  pub license : String
  pub created : Option ℕ
  pub series_id : String
  pub status : String

pub record SeriesMetadata : Type 0 where
  pub title : String
  pub contributors : List String
  pub organizers : List String
  pub language : String
  pub description : String
  pub subjects : List String
  pub created : Option ℕ

-- `nullif($1, '')`
abbrev pub nullif : String → Option String
nullif s = if str_eq s "" then none else some s

-- A column that references `series(id)`.
abbrev pub refers : Option String → Db → Bool
refers none db = true
refers (some s) db = is_some (find_series s db)

unfoldable pub metadata_row : String → Metadata → MetadataRow
metadata_row id md = record {
  mediapackage_id = id;
  creators = md.creators;
  contributors = md.contributors;
  language = nullif md.language;
  description = nullif md.description;
  subjects = md.subjects;
  location = nullif md.location;
  license = nullif md.license;
  created = md.created;
  status = nullif md.status;
}

-- `insert into mp_metadata … on conflict … do update`; the row references its mediapackage.
unfoldable pub put_metadata : String → Metadata → Db → Result Error Db
unfolding metadata_row
put_metadata id md db =
    if is_some (find_package id db)
    then ok (record db { metadata = put_by metadata_key (metadata_row id md) db.metadata })
    else err foreign_key

abbrev pub has_id : String → Package → Bool
has_id id p = str_eq p.id id

unfoldable pub set_series_id : String → Option String → Db → Result Error Db
set_series_id id s db =
    if refers s db || not (is_some (find_package id db))
    then ok (record db {
      packages = update_where package_key (has_id id) (λ p. record p { series_id = s }) db.packages;
    })
    else err foreign_key

unfoldable pub set_metadata_body : String → Metadata → Db → Result Error Db
unfolding put_metadata set_series_id project_event
set_metadata_body id md db = do
  written ← put_metadata id md db
  moved ← set_series_id id (nullif md.series_id) written
  project_event id moved

unfoldable pub set_metadata : String → Metadata → Db → Result Error (Unit {0}) × Db
unfolding set_metadata_body
set_metadata id md db = begin_func (set_metadata_body id md db) db

-- On a conflict `deleted_at` stays as it was.
abbrev pub kept_deleted : Option Series → Option ℕ
kept_deleted none = none
kept_deleted (some s) = s.deleted_at

unfoldable pub series_of : String → SeriesMetadata → Option ℕ → Series
series_of id md deleted = record {
  id = id;
  title = nullif md.title;
  contributors = md.contributors;
  organizers = md.organizers;
  language = nullif md.language;
  description = nullif md.description;
  subjects = md.subjects;
  created = md.created;
  deleted_at = deleted;
}

abbrev pub put_series_tx : String → SeriesMetadata → Db → Db
put_series_tx id md db = record db {
  series = put_by series_key (series_of id md (kept_deleted (find_series id db))) db.series;
}

unfoldable pub put_series : String → SeriesMetadata → Db → Result Error (Unit {0}) × Db
unfolding series_of project_series
put_series id md db = begin_func (ok (project_series id (put_series_tx id md db))) db

abbrev pub is_pin : String → String → Publication → Bool
is_pin mp channel p = str_eq p.mediapackage_id mp && str_eq p.channel channel

-- `on conflict (mediapackage_id, channel) do update set acl_read, acl_state`: the id stays.
unfoldable pub put_publication : Publication → List Publication → List Publication
put_publication n [] = n ∷ []
put_publication n (p ∷ ps) =
    if is_pin n.mediapackage_id n.channel p
    then record n { id = p.id } ∷ ps
    else p ∷ put_publication n ps

-- The pin: the event's policy as it reads at this instant.
unfoldable pub pin : String → String → String → Db → Publication
unfolding allowed_roles
pin fresh id channel db =
    let entries = keep (in_scope event id) db.acl.entries in
    record {
      id = fresh;
      mediapackage_id = id;
      channel = channel;
      acl_read = allowed_roles "read" entries;
      acl_state = acl_state_of (any (policy_of event id) db.acl.policies) entries;
    }

-- `fresh` is the `uuid.NewString()` of the call.
unfoldable pub publish_tx : String → String → String → Db → Result Error Db
unfolding put_publication pin
publish_tx fresh id channel db =
    if is_some (find_package id db)
    then ok (record db { publications = put_publication (pin fresh id channel db) db.publications })
    else err foreign_key

unfoldable pub publish : String → String → String → Db → Result Error (Unit {0}) × Db
unfolding publish_tx project_event
publish fresh id channel db = begin_func (publish_tx fresh id channel db >>= project_event id) db
