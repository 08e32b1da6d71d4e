-- ===== src/Mediapackage/Keys.antt =====
-- The primary keys of the authoritative tables hold after every write of internal/mediapackage.
use gophercast.Prelude.{
  ℕ, String, refl, not, ◌||◌, Option, some, ok, err, Result, inl, inr, Bool-cases, any,
}
use gophercast.Prelude.Table.{Keyed-insert_by, Keyed-update_where, Keyed-put_by}
use gophercast.Search.Rows.{Db, package_key, series_key}
use gophercast.Search.Project.{Error, is_some, find_package, find_series, project_event}
use gophercast.Search.Members.{IsKeyed}
use gophercast.Mediapackage.Metadata.{
  Metadata, SeriesMetadata, kept_deleted, series_of, nullif, refers, put_metadata, has_id,
  set_series_id, set_metadata_body, set_metadata, put_series, publish_tx, publish,
}
use gophercast.Mediapackage.Write.{
  is_live_id, with_dc, update_dc, set_event_dc_body, set_event_dc, drop_archive, mark_deleted,
  committed, tombstone_event, is_live_series_id, tombstone_series,
}
use gophercast.Mediapackage.Materialise.{
  Manifest, new_package, record_package, lacks_duration, set_duration_if_null, record_duration,
}
use gophercast.Search.Keys.{
  Keeps, begin_func-IsKeyed, bind-Keeps, guard-Keeps, project_event-Keeps, project_series-IsKeyed,
}

committed-IsKeyed :
    (r : Result Error Db) (db : Db) → IsKeyed db → Keeps r → IsKeyed (committed r db).1
committed-IsKeyed (ok after) db k h = h
committed-IsKeyed (err e) db k h = k

put_metadata-Keeps :
    (id : String) (md : Metadata) (db : Db) → IsKeyed db → Keeps (put_metadata id md db)
unfolding put_metadata
put_metadata-Keeps id md db k =
    guard-Keeps (is_some (find_package id db)) _ _
      (record { packages = k.packages; series = k.series })

set_series_id-Keeps :
    (id : String) (s : Option String) (db : Db) → IsKeyed db → Keeps (set_series_id id s db)
unfolding set_series_id
set_series_id-Keeps id s db k =
    guard-Keeps (refers s db || not (is_some (find_package id db))) _ _ (record {
      packages =
          Keyed-update_where package_key (has_id id) (λ p. record p { series_id = s }) (λ p. refl)
            db.packages k.packages;
      series = k.series;
    })

pub set_metadata-IsKeyed :
    (id : String) (md : Metadata) (db : Db) → IsKeyed db → IsKeyed (set_metadata id md db).1
unfolding set_metadata set_metadata_body
set_metadata-IsKeyed id md db k = begin_func-IsKeyed _ db k (
    bind-Keeps (put_metadata id md db) _ (put_metadata-Keeps id md db k) (λ w h.
      bind-Keeps (set_series_id id (nullif md.series_id) w) _
        (set_series_id-Keeps id (nullif md.series_id) w h) (project_event-Keeps id)))

pub put_series-IsKeyed :
    (id : String) (md : SeriesMetadata) (db : Db) → IsKeyed db → IsKeyed (put_series id md db).1
unfolding put_series
put_series-IsKeyed id md db k = project_series-IsKeyed id _ (record {
  packages = k.packages;
  series =
      Keyed-put_by series_key (series_of id md (kept_deleted (find_series id db))) db.series
        k.series;
})

pub publish-IsKeyed :
    (fresh id channel : String) (db : Db) → IsKeyed db → IsKeyed (publish fresh id channel db).1
unfolding publish publish_tx
publish-IsKeyed fresh id channel db k = begin_func-IsKeyed _ db k (
    bind-Keeps _ (project_event id)
      (guard-Keeps (is_some (find_package id db)) _ _
        (record { packages = k.packages; series = k.series }))
      (project_event-Keeps id))

pub set_event_dc-IsKeyed :
    (id title : String) (start : Option ℕ) (md : Metadata) (db : Db)
    → IsKeyed db
    → IsKeyed (set_event_dc id title start md db).1
unfolding set_event_dc set_event_dc_body update_dc
set_event_dc-IsKeyed id title start md db k = begin_func-IsKeyed _ db k (
    bind-Keeps _ _
      (guard-Keeps (refers (nullif md.series_id) db || not (any (is_live_id id) db.packages)) _ _
        (record {
          packages =
              Keyed-update_where package_key (is_live_id id)
                (with_dc title start (nullif md.series_id)) (λ p. refl) db.packages k.packages;
          series = k.series;
        }))
      (λ w h.
        bind-Keeps (put_metadata id md w) (project_event id) (put_metadata-Keeps id md w h)
          (project_event-Keeps id)))

pub tombstone_event-IsKeyed :
    (now : ℕ) (id : String) (db : Db) → IsKeyed db → IsKeyed (tombstone_event now id db).1
unfolding tombstone_event drop_archive
tombstone_event-IsKeyed now id db k = elim (Bool-cases (any (is_live_id id) db.packages)) [
  | inr gone ↦ rw gone k
  | inl there ↦ rw there (
      committed-IsKeyed _ db k (
        project_event-Keeps id _ (record {
          packages =
              Keyed-update_where package_key (is_live_id id) (mark_deleted now) (λ p. refl)
                db.packages k.packages;
          series = k.series;
        })))
]

pub tombstone_series-IsKeyed :
    (now : ℕ) (id : String) (db : Db) → IsKeyed db → IsKeyed (tombstone_series now id db).1
unfolding tombstone_series
tombstone_series-IsKeyed now id db k = elim (Bool-cases (any (is_live_series_id id) db.series)) [
  | inr gone ↦ rw gone k
  | inl there ↦ rw there (
      project_series-IsKeyed id _ (record {
        packages = k.packages;
        series =
            Keyed-update_where series_key (is_live_series_id id)
              (λ s. record s { deleted_at = some now }) (λ s. refl) db.series k.series;
      }))
]

pub record_package-IsKeyed : (m : Manifest) (db : Db) → IsKeyed db → IsKeyed (record_package m db).1
unfolding record_package
record_package-IsKeyed m db k = begin_func-IsKeyed _ db k (
    project_event-Keeps m.id _ (record {
      packages = Keyed-insert_by package_key (new_package m) db.packages k.packages;
      series = k.series;
    }))

pub record_duration-IsKeyed :
    (id : String) (ms : ℕ) (db : Db) → IsKeyed db → IsKeyed (record_duration id ms db).1
unfolding record_duration set_duration_if_null
record_duration-IsKeyed id ms db k = begin_func-IsKeyed _ db k (
    project_event-Keeps id _ (record {
      packages =
          Keyed-update_where package_key (lacks_duration id)
            (λ p. record p { duration_ms = some ms }) (λ p. refl) db.packages k.packages;
      series = k.series;
    }))
