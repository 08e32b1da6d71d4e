-- ===== src/Search/Keys.antt =====
-- The primary keys of the authoritative tables hold after every write of internal/search.
use gophercast.Prelude.{
  String, Bool, true, false, Option, none, some, List, [], ◌∷◌, ok, err, Result, inl, inr,
  if◌then◌else◌, Bool-cases, Option-cases,
}
use gophercast.Acl.Policy as Policy
use gophercast.Acl.Policy.{Scope, event, series, Entry, set_tx}
use gophercast.Search.Rows.{Package, Db}
use gophercast.Search.Project.{
  Error, is_some, find_package, find_series, put_event, put_series_row, is_live_series,
  refresh_series, refresh_series_of, project_package, project_event, project_events, live_members,
  project_series, begin_func, acl_result, set_acl_tx, ◌>>=◌, project_scope, set_acl_body, set_acl,
  set_events_acl, set_series_acl_body, set_series_acl, rebuild,
}
use gophercast.Search.Members.{IsKeyed, rebuild_lem}

-- Of a transaction's result, if it commits.
abbrev pub Keeps : Result Error Db → Type 0
Keeps (ok after) = IsKeyed after
Keeps (err e) = Unit {0}

pub begin_func-IsKeyed :
    (r : Result Error Db) (db : Db) → IsKeyed db → Keeps r → IsKeyed (begin_func r db).1
begin_func-IsKeyed (ok after) db k h = h
begin_func-IsKeyed (err e) db k h = k

pub bind-Keeps :
    (r : Result Error Db) (f : Db → Result Error Db)
    → Keeps r
    → ((db : Db) → IsKeyed db → Keeps (f db))
    → Keeps (r >>= f)
bind-Keeps (ok after) f h k = k after h
bind-Keeps (err e) f h k = tt

pub guard-Keeps : (b : Bool) (e : Error) (db : Db) → IsKeyed db → Keeps (if b then ok db else err e)
guard-Keeps true e db k = k
guard-Keeps false e db k = tt

refresh_series-IsKeyed : (s : String) (db : Db) → IsKeyed db → IsKeyed (refresh_series s db)
unfolding refresh_series put_series_row
refresh_series-IsKeyed s db k = elim (Bool-cases (is_live_series (find_series s db))) [
  | inr gone ↦ rw gone (record { packages = k.packages; series = k.series })
  | inl live ↦ rw live (elim (Option-cases (find_series s db)) [
    | inl f ↦ rw f k
    | inr (r, f) ↦ rw f (record { packages = k.packages; series = k.series })
  ])
]

refresh_series_of-IsKeyed :
    (s : Option String) (db : Db) → IsKeyed db → IsKeyed (refresh_series_of s db)
refresh_series_of-IsKeyed none db k = k
refresh_series_of-IsKeyed (some s) db k = refresh_series-IsKeyed s db k

put_event-IsKeyed : (o : Option Package) (db : Db) → IsKeyed db → IsKeyed (put_event o db)
unfolding put_event
put_event-IsKeyed none db k = k
put_event-IsKeyed (some mp) db k = record { packages = k.packages; series = k.series }

project_package-Keeps :
    (id : String) (o : Option Package) (db : Db) → IsKeyed db → Keeps (project_package id o db)
unfolding project_package
project_package-Keeps id none db k = tt
project_package-Keeps id (some mp) db k = elim (Bool-cases (is_some mp.deleted_at)) [
  | inl gone ↦ rw gone (
      refresh_series_of-IsKeyed mp.series_id _
        (record { packages = k.packages; series = k.series }))
  | inr live ↦
      rw live
        (refresh_series_of-IsKeyed mp.series_id _ (put_event-IsKeyed (find_package id db) db k))
]

pub project_event-Keeps : (id : String) (db : Db) → IsKeyed db → Keeps (project_event id db)
unfolding project_event
project_event-Keeps id db k = project_package-Keeps id (find_package id db) db k

project_events-IsKeyed :
    (ids : List String) (db : Db) → IsKeyed db → IsKeyed (project_events ids db)
unfolding project_events
project_events-IsKeyed [] db k = k
project_events-IsKeyed (id ∷ ids) db k =
    project_events-IsKeyed ids _ (put_event-IsKeyed (find_package id db) db k)

pub project_series-IsKeyed : (s : String) (db : Db) → IsKeyed db → IsKeyed (project_series s db)
unfolding project_series
project_series-IsKeyed s db k =
    refresh_series-IsKeyed s _ (project_events-IsKeyed (live_members s db) db k)

acl_result-Keeps :
    (r : Result Policy.Error (Unit {0})) (t : Policy.Tables) (db : Db)
    → IsKeyed db
    → Keeps (acl_result (r, t) db)
acl_result-Keeps (ok done) t db k = record { packages = k.packages; series = k.series }
acl_result-Keeps (err e) t db k = tt

set_acl_tx-Keeps :
    (scope : Scope) (id : String) (es : List Entry) (db : Db)
    → IsKeyed db
    → Keeps (set_acl_tx scope id es db)
unfolding set_acl_tx
set_acl_tx-Keeps scope id es db k =
    let (r, t) = set_tx scope id es db.acl in acl_result-Keeps r t db k

project_scope-Keeps :
    (scope : Scope) (id : String) (db : Db) → IsKeyed db → Keeps (project_scope scope id db)
project_scope-Keeps event id db k = project_event-Keeps id db k
project_scope-Keeps series id db k = project_series-IsKeyed id db k

pub set_acl-IsKeyed :
    (scope : Scope) (id : String) (es : List Entry) (db : Db)
    → IsKeyed db
    → IsKeyed (set_acl scope id es db).1
unfolding set_acl set_acl_body
set_acl-IsKeyed scope id es db k = begin_func-IsKeyed _ db k (
    bind-Keeps (set_acl_tx scope id es db) (project_scope scope id)
      (set_acl_tx-Keeps scope id es db k) (project_scope-Keeps scope id))

set_events_acl-Keeps :
    (ids : List String) (es : List Entry) (db : Db) → IsKeyed db → Keeps (set_events_acl ids es db)
unfolding set_events_acl
set_events_acl-Keeps [] es db k = k
set_events_acl-Keeps (id ∷ ids) es db k =
    bind-Keeps (set_acl_tx event id es db) (set_events_acl ids es)
      (set_acl_tx-Keeps event id es db k) (set_events_acl-Keeps ids es)

override-Keeps :
    (override : Bool) (id : String) (es : List Entry) (db : Db)
    → IsKeyed db
    → Keeps (if override then set_events_acl (live_members id db) es db else ok db)
override-Keeps true id es db k = set_events_acl-Keeps (live_members id db) es db k
override-Keeps false id es db k = k

pub set_series_acl-IsKeyed :
    (id : String) (es : List Entry) (override : Bool) (db : Db)
    → IsKeyed db
    → IsKeyed (set_series_acl id es override db).1
unfolding set_series_acl set_series_acl_body
set_series_acl-IsKeyed id es override db k = begin_func-IsKeyed _ db k (
    bind-Keeps (set_acl_tx series id es db) _ (set_acl_tx-Keeps series id es db k) (λ w h.
      bind-Keeps (if override then set_events_acl (live_members id w) es w else ok w) _
        (override-Keeps override id es w h) (λ o g. project_series-IsKeyed id o g)))

pub rebuild-IsKeyed : (db : Db) → IsKeyed db → IsKeyed (rebuild db)
rebuild-IsKeyed db k =
    let (evs, rows, e, c) = rebuild_lem db k in
    rw e (record { packages = k.packages; series = k.series })
