-- ===== src/Search/Project/Derive.antt =====
-- internal/search/project.go: the rows of the projection, derived from the other tables.
use gophercast.Prelude.{
  String, Bool, true, false, not, ◌&&◌, Option, none, some, List, [], ◌∷◌, ◌++◌, map, str_eq,
  if◌then◌else◌, any, keep,
}
use gophercast.Prelude.Table.{find_by, put_by}
use gophercast.Acl.Policy.{
  event, series, State, absent, empty, populated, Entry, EntryRow, in_scope, policy_of,
}
use gophercast.Search.Rows.{
  Package, MetadataRow, Series, Publication, EventRow, SeriesRow, Db, package_key, metadata_key,
  series_key, event_key, row_key,
}

-- A column of a row that an outer join may not find; and `coalesce`.
abbrev pub column {ℓ κ} : {A : Type ℓ} {B : Type κ} → Option A → (A → Option B) → Option B
column none f = none
column (some a) f = f a

abbrev pub array {ℓ} : {A : Type ℓ} → Option A → (A → List String) → List String
array none f = []
array (some a) f = f a

abbrev pub coalesce {ℓ} : {A : Type ℓ} → Option A → A → A
coalesce none d = d
coalesce (some a) d = a

abbrev pub is_text : String → Option String → Bool
is_text s none = false
is_text s (some t) = str_eq t s

abbrev pub holds : String → List String → Bool
holds r roles = any (str_eq r) roles

-- `array_agg(distinct …)`
unfoldable pub distinct : List String → List String
distinct [] = []
distinct (r ∷ rs) = let rest = distinct rs in if holds r rest then rest else r ∷ rest

abbrev pub is_allow : String → Entry → Bool
is_allow action e = str_eq e.action action && e.allow

abbrev pub is_deny : String → String → EntryRow → Bool
is_deny role action r =
    str_eq r.entry.role role && (str_eq r.entry.action action && not r.entry.allow)

-- The roles that a policy's entries allow the action, less those that they deny it.
unfoldable pub allowed_roles : String → List EntryRow → List String
unfolding distinct
allowed_roles action rows = distinct (
    map (λ r. r.entry.role)
      (keep (λ a. is_allow action a.entry && not (any (is_deny a.entry.role action) rows)) rows))

abbrev pub acl_state_of : Bool → List EntryRow → State
acl_state_of false rows = absent
acl_state_of true [] = empty
acl_state_of true (r ∷ rows) = populated

abbrev pub is_engage : Publication → Bool
is_engage p = str_eq p.channel "engage-player"

abbrev pub is_nonempty {ℓ} : {A : Type ℓ} → List A → Bool
is_nonempty [] = false
is_nonempty (x ∷ xs) = true

abbrev pub engage_roles : List Publication → List String
engage_roles [] = []
engage_roles (p ∷ ps) = if is_engage p then p.acl_read else engage_roles ps

-- The row of `projectEventSQL`, from what its joins and subqueries find.
unfoldable pub event_row_of :
    Package
    → Option MetadataRow
    → Option Series
    → Bool
    → List EntryRow
    → List Publication
    → EventRow
unfolding allowed_roles
event_row_of mp md s has_policy entries pubs = record {
  mediapackage_id = mp.id;
  title = mp.title;
  series_id = mp.series_id;
  series_title = column s (λ r. r.title);
  status = column md (λ r. r.status);
  presenters = array md (λ r. r.creators);
  contributors = array md (λ r. r.contributors);
  location = column md (λ r. r.location);
  language = column md (λ r. r.language);
  description = column md (λ r. r.description);
  subjects = array md (λ r. r.subjects);
  license = column md (λ r. r.license);
  start_date = elim (mp.start_time) [ none ↦ column md (λ r. r.created) | some t ↦ some t ];
  created = column md (λ r. r.created);
  duration_ms = mp.duration_ms;
  acl_state = acl_state_of has_policy entries;
  acl_read = allowed_roles "read" entries;
  acl_write = allowed_roles "write" entries;
  published = is_nonempty pubs;
  pub_read = engage_roles pubs;
  fts =
      coalesce mp.title ""
      ∷ (array md (λ r. r.creators)
          ++ (array md (λ r. r.contributors)
              ++ (coalesce (column md (λ r. r.description)) ""
                  ∷ (array md (λ r. r.subjects)
                      ++ (coalesce (column md (λ r. r.location)) ""
                          ∷ coalesce (column s (λ r. r.title)) ""
                          ∷ [])))));
}

abbrev pub find_package : String → Db → Option Package
find_package id db = find_by package_key id db.packages

abbrev pub find_series : String → Db → Option Series
find_series id db = find_by series_key id db.series

abbrev pub find_event : String → Db → Option EventRow
find_event id db = find_by event_key id db.events

abbrev pub find_row : String → Db → Option SeriesRow
find_row id db = find_by row_key id db.series_rows

abbrev pub publications_of : String → List Publication → List Publication
publications_of id = keep (λ p. str_eq p.mediapackage_id id)

abbrev pub joined_series : Option String → List Series → Option Series
joined_series none ss = none
joined_series (some s) ss = find_by series_key s ss

abbrev pub event_row : Db → Package → EventRow
event_row db mp =
    event_row_of mp (find_by metadata_key mp.id db.metadata) (joined_series mp.series_id db.series)
      (any (policy_of event mp.id) db.acl.policies) (keep (in_scope event mp.id) db.acl.entries)
      (publications_of mp.id db.publications)

-- `projectEventSQL`: no row where the package is not there.
unfoldable pub put_event : Option Package → Db → Db
put_event none db = db
put_event (some mp) db = record db { events = put_by event_key (event_row db mp) db.events }

abbrev pub project_event_sql : String → Db → Db
project_event_sql id db = put_event (find_package id db) db

-- `where se.series_id = s.id and se.published`
abbrev pub is_published_in : String → EventRow → Bool
is_published_in s se = is_text s se.series_id && se.published

unfoldable pub union_roles : List EventRow → List String
unfolding distinct
union_roles [] = []
union_roles (e ∷ es) = distinct (e.pub_read ++ union_roles es)

unfoldable pub series_row_of : Series → Bool → List EntryRow → List EventRow → SeriesRow
unfolding allowed_roles union_roles
series_row_of s has_policy entries members = record {
  series_id = s.id;
  title = s.title;
  contributors = s.contributors;
  organizers = s.organizers;
  language = s.language;
  description = s.description;
  subjects = s.subjects;
  created = s.created;
  acl_state = acl_state_of has_policy entries;
  acl_read = allowed_roles "read" entries;
  acl_write = allowed_roles "write" entries;
  pub_read = union_roles members;
  has_published = is_nonempty members;
  fts =
      coalesce s.title ""
      ∷ (s.contributors ++ (s.organizers ++ (coalesce s.description "" ∷ s.subjects)));
}

abbrev pub series_row : Db → Series → SeriesRow
series_row db s =
    series_row_of s (any (policy_of series s.id) db.acl.policies)
      (keep (in_scope series s.id) db.acl.entries) (keep (is_published_in s.id) db.events)

unfoldable pub put_series_row : Option Series → Db → Db
put_series_row none db = db
put_series_row (some s) db = record db {
  series_rows = put_by row_key (series_row db s) db.series_rows;
}

abbrev pub project_series_sql : String → Db → Db
project_series_sql id db = put_series_row (find_series id db) db
