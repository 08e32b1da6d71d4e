-- ===== src/Search/Project.antt =====
-- internal/search/project.go: the derivation of the rows and the writes that refresh them.
mod Derive
unfoldable pub use Derive.*
use gophercast.Prelude.{
  String, Bool, true, false, not, ◌&&◌, Option, none, some, List, [], ◌∷◌, ◌++◌, map, Result, ok,
  err, str_eq, if◌then◌else◌, any, keep,
}
use gophercast.Prelude.Table.{find_by, put_by, drop_by}
use gophercast.Acl.Policy as Policy
use gophercast.Acl.Policy.{
  Scope, event, series, State, absent, empty, populated, Entry, EntryRow, in_scope, policy_of,
  set_tx,
}
use gophercast.Search.Rows.{
  Package, MetadataRow, Series, Publication, EventRow, SeriesRow, Db, package_key, metadata_key,
  series_key, event_key, row_key,
}

pub data Error : Type 0 where
  no_rows foreign_key unique_violation : Error
  bad_policy : Policy.Error → Error

abbrev pub is_some {ℓ} : {A : Type ℓ} → Option A → Bool
is_some none = false
is_some (some a) = true

abbrev pub is_live_series : Option Series → Bool
is_live_series none = false
is_live_series (some s) = not (is_some s.deleted_at)

-- `projectSeries`: a tombstoned or vanished series has no row.
unfoldable pub refresh_series : String → Db → Db
unfolding put_series_row
refresh_series id db =
    if is_live_series (find_series id db)
    then project_series_sql id db
    else record db { series_rows = drop_by row_key id db.series_rows }

abbrev pub refresh_series_of : Option String → Db → Db
refresh_series_of none db = db
refresh_series_of (some id) db = refresh_series id db

unfoldable pub project_package : String → Option Package → Db → Result Error Db
unfolding put_event refresh_series
project_package id none db = err no_rows
project_package id (some mp) db = ok (
    refresh_series_of mp.series_id (
      if is_some mp.deleted_at
      then record db { events = drop_by event_key id db.events }
      else project_event_sql id db))

unfoldable pub project_event : String → Db → Result Error Db
unfolding project_package
project_event id db = project_package id (find_package id db) db

-- `select id from mediapackage where series_id=$1 and deleted_at is null`
abbrev pub is_live_member : String → Package → Bool
is_live_member s p = is_text s p.series_id && not (is_some p.deleted_at)

unfoldable pub live_members : String → Db → List String
live_members s db = map (λ p. p.id) (keep (is_live_member s) db.packages)

unfoldable pub project_events : List String → Db → Db
unfolding put_event
project_events [] db = db
project_events (id ∷ ids) db = project_events ids (project_event_sql id db)

unfoldable pub project_series : String → Db → Db
unfolding project_events live_members refresh_series
project_series id db = refresh_series id (project_events (live_members id db) db)

-- `pgx.BeginFunc`: an error rolls the transaction back.
abbrev pub begin_func : Result Error Db → Db → Result Error (Unit {0}) × Db
begin_func (ok after) before = (ok tt, after)
begin_func (err e) before = (err e, before)

-- `acl.SetTx` in the transaction.
abbrev pub acl_result : Result Policy.Error (Unit {0}) × Policy.Tables → Db → Result Error Db
acl_result (ok done, t) db = ok (record db { acl = t })
acl_result (err e, t) db = err (bad_policy e)

unfoldable pub set_acl_tx : Scope → String → List Entry → Db → Result Error Db
unfolding set_tx
set_acl_tx scope id entries db = acl_result (set_tx scope id entries db.acl) db

infixl 5 ◌>>=◌
abbrev pub ◌>>=◌ : Result Error Db → (Db → Result Error Db) → Result Error Db
ok db >>= f = f db
err e >>= f = err e

abbrev pub project_scope : Scope → String → Db → Result Error Db
project_scope event id db = project_event id db
project_scope series id db = ok (project_series id db)

unfoldable pub set_acl_body : Scope → String → List Entry → Db → Result Error Db
unfolding set_acl_tx project_event project_series
set_acl_body scope id entries db = set_acl_tx scope id entries db >>= project_scope scope id

unfoldable pub set_acl : Scope → String → List Entry → Db → Result Error (Unit {0}) × Db
unfolding set_acl_body
set_acl scope id entries db = begin_func (set_acl_body scope id entries db) db

unfoldable pub set_events_acl : List String → List Entry → Db → Result Error Db
unfolding set_acl_tx
set_events_acl [] entries db = ok db
set_events_acl (e ∷ es) entries db = set_acl_tx event e entries db >>= set_events_acl es entries

unfoldable pub set_series_acl_body : String → List Entry → Bool → Db → Result Error Db
unfolding set_acl_tx set_events_acl live_members project_series
set_series_acl_body id entries override db = do
  written ← set_acl_tx series id entries db
  overridden ←
      if override then set_events_acl (live_members id written) entries written else ok written
  ok (project_series id overridden)

unfoldable pub set_series_acl : String → List Entry → Bool → Db → Result Error (Unit {0}) × Db
unfolding set_series_acl_body
set_series_acl id entries override db = begin_func (set_series_acl_body id entries override db) db

unfoldable pub project_series_rows : List String → Db → Db
unfolding put_series_row
project_series_rows [] db = db
project_series_rows (id ∷ ids) db = project_series_rows ids (project_series_sql id db)

abbrev pub live_packages : Db → List String
live_packages db = map (λ p. p.id) (keep (λ (p : Package). not (is_some p.deleted_at)) db.packages)

abbrev pub live_series : Db → List String
live_series db = map (λ s. s.id) (keep (λ (s : Series). not (is_some s.deleted_at)) db.series)

unfoldable pub rebuild : Db → Db
unfolding project_events project_series_rows
rebuild db =
    let empty_db = record db { events = []; series_rows = [] } in
    let with_events = project_events (live_packages empty_db) empty_db in
    project_series_rows (live_series with_events) with_events
