-- ===== src/Mediapackage/Runs.antt =====
-- The writes of internal/mediapackage and internal/search, in any order.
use gophercast.Prelude.{ℕ, String, ◌≡◌, refl, Bool, false, Option, List, []}
use gophercast.Prelude.Table.{find_by}
use gophercast.Acl.Policy.{Scope, Entry}
use gophercast.Search.Rows.{Db}
use gophercast.Search.Project.{find_event, find_row, set_acl, set_series_acl, rebuild}
use gophercast.Search.Current.{IsCurrent}
use gophercast.Search.Members.{IsKeyed, rebuild_lem}
use gophercast.Search.Agreement.{SameRow, rebuild_agrees}
use gophercast.Search.AclWrites.{set_acl-IsCurrent, set_series_acl-IsCurrent}
use gophercast.Mediapackage.Metadata.{
  Metadata, SeriesMetadata, nullif, set_metadata, put_series, publish,
}
use gophercast.Mediapackage.Write.{set_event_dc, tombstone_event, tombstone_series}
use gophercast.Mediapackage.Materialise.{Manifest, record_package, record_duration}
use gophercast.Mediapackage.Refresh.{publish-IsCurrent, tombstone_event-IsCurrent}
use gophercast.Mediapackage.Edits.{leaves_series, set_metadata-IsCurrent, set_event_dc-IsCurrent}
use gophercast.Mediapackage.SeriesWrites.{put_series-IsCurrent, tombstone_series-IsCurrent}
use gophercast.Mediapackage.Recorded.{record_package-IsCurrent, record_duration-IsCurrent}
use gophercast.Search.Keys.{set_acl-IsKeyed, set_series_acl-IsKeyed, rebuild-IsKeyed}
use gophercast.Mediapackage.Keys.{
  set_metadata-IsKeyed, put_series-IsKeyed, publish-IsKeyed, set_event_dc-IsKeyed,
  tombstone_event-IsKeyed, tombstone_series-IsKeyed, record_package-IsKeyed,
  record_duration-IsKeyed,
}

-- A write, committed or rolled back. An edit does not take an event out of a series in which it is
-- published.
pub data Write (db : Db) : Db → Type 0 where
  materialised : (m : Manifest) → Write db (record_package m db).1
  inspected : (id : String) (ms : ℕ) → Write db (record_duration id ms db).1
  described :
      (id : String) (md : Metadata)
      → leaves_series id (nullif md.series_id) db ≡ false
      → Write db (set_metadata id md db).1
  edited :
      (id title : String) (start : Option ℕ) (md : Metadata)
      → leaves_series id (nullif md.series_id) db ≡ false
      → Write db (set_event_dc id title start md db).1
  series_put : (id : String) (md : SeriesMetadata) → Write db (put_series id md db).1
  published : (fresh id channel : String) → Write db (publish fresh id channel db).1
  event_deleted : (now : ℕ) (id : String) → Write db (tombstone_event now id db).1
  series_deleted : (now : ℕ) (id : String) → Write db (tombstone_series now id db).1
  policy_set : (scope : Scope) (id : String) (es : List Entry) → Write db (set_acl scope id es db).1
  series_policy_set :
      (id : String) (es : List Entry) (override : Bool)
      → Write db (set_series_acl id es override db).1
  rebuilt : Write db (rebuild db)

abbrev pub empty_db : Db
empty_db = record {
  packages = [];
  metadata = [];
  series = [];
  acl = record { policies = []; entries = [] };
  publications = [];
  elements = [];
  element_tags = [];
  snapshots = [];
  events = [];
  series_rows = [];
}

-- From a fresh installation.
pub data Run : Db → Type 0 where
  fresh : Run empty_db
  write : {db db' : Db} → Run db → Write db db' → Run db'

Write-IsKeyed : {db db' : Db} → Write db db' → IsKeyed db → IsKeyed db'
Write-IsKeyed {db} (materialised m) k = record_package-IsKeyed m db k
Write-IsKeyed {db} (inspected id ms) k = record_duration-IsKeyed id ms db k
Write-IsKeyed {db} (described id md h) k = set_metadata-IsKeyed id md db k
Write-IsKeyed {db} (edited id title start md h) k = set_event_dc-IsKeyed id title start md db k
Write-IsKeyed {db} (series_put id md) k = put_series-IsKeyed id md db k
Write-IsKeyed {db} (published f id channel) k = publish-IsKeyed f id channel db k
Write-IsKeyed {db} (event_deleted now id) k = tombstone_event-IsKeyed now id db k
Write-IsKeyed {db} (series_deleted now id) k = tombstone_series-IsKeyed now id db k
Write-IsKeyed {db} (policy_set scope id es) k = set_acl-IsKeyed scope id es db k
Write-IsKeyed {db} (series_policy_set id es override) k = set_series_acl-IsKeyed id es override db k
Write-IsKeyed {db} rebuilt k = rebuild-IsKeyed db k

rebuild-IsCurrent : (db : Db) → IsKeyed db → IsCurrent (rebuild db)
rebuild-IsCurrent db k = let (evs, rows, e, c) = rebuild_lem db k in rw e c

Write-IsCurrent : {db db' : Db} → Write db db' → IsKeyed db → IsCurrent db → IsCurrent db'
Write-IsCurrent {db} (materialised m) k c = record_package-IsCurrent m db c
Write-IsCurrent {db} (inspected id ms) k c = record_duration-IsCurrent id ms db c
Write-IsCurrent {db} (described id md h) k c = set_metadata-IsCurrent id md db c h
Write-IsCurrent {db} (edited id title start md h) k c =
    set_event_dc-IsCurrent id title start md db c h
Write-IsCurrent {db} (series_put id md) k c = put_series-IsCurrent id md db k c
Write-IsCurrent {db} (published f id channel) k c = publish-IsCurrent f id channel db c
Write-IsCurrent {db} (event_deleted now id) k c = tombstone_event-IsCurrent now id db k c
Write-IsCurrent {db} (series_deleted now id) k c = tombstone_series-IsCurrent now id db k c
Write-IsCurrent {db} (policy_set scope id es) k c = set_acl-IsCurrent scope id es db k c
Write-IsCurrent {db} (series_policy_set id es override) k c =
    set_series_acl-IsCurrent id es override db k c
Write-IsCurrent {db} rebuilt k c = rebuild-IsCurrent db k

pub Run-invariant : {db : Db} → Run db → IsKeyed db × IsCurrent db
unfolding find_by
Run-invariant fresh = (
  record { packages = tt; series = tt },
  record { events_current = λ id. refl; series_current = λ id. refl; events_keyed = tt },
)
Run-invariant (write r w) =
    let (k, c) = Run-invariant r in (Write-IsKeyed w k, Write-IsCurrent w k c)

-- After any writes, each committed or rolled back, the projection is what a rebuild would derive:
-- the same rows of events, and of series the same rows up to the order of their pinned roles. No
-- write of them has taken a published event out of its series.
pub Run-rebuild :
    {db : Db}
    → Run db
    → (id : String)
    → (find_event id (rebuild db) ≡ find_event id db)
      × SameRow (find_row id (rebuild db)) (find_row id db)
Run-rebuild {db} r = let (k, c) = Run-invariant r in rebuild_agrees db k c
