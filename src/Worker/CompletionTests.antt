-- ===== src/Worker/CompletionTests.antt =====
-- A task of internal/engine that completes with an inspection, at a concrete archive.
use gophercast.Prelude.{ℕ, ◌≡◌, refl, sym, ap, arith, String, Option, none, some, [], ◌∷◌, ok, err}
use gophercast.Prelude.Table.{find_by, insert_by, put_by, update_where}
use gophercast.Engine.Store as Store
use gophercast.Engine.Store.{TaskRow, assigned, Env, statement, update_tasks}
use gophercast.Engine.Client.{
  run_mutation, close_update, complete_over, start_task, renew_lease, complete_task, commit,
  scan_task,
}
use gophercast.Engine.Lifecycle.{Body, execute_task}
use gophercast.Search.Rows.{Db}
use gophercast.Search.Project.{find_event, find_row, event_row_of, rebuild}
use gophercast.Search.Agreement.{SameRow}
use gophercast.Mediapackage.Materialise.{Manifest, record_package}
use gophercast.Mediapackage.Runs.{materialised, Run, fresh, write, empty_db, Run-invariant}
use gophercast.Worker.Completions.{inspected, completion_tx, completion, snapshot_tx}
use gophercast.Worker.Sound.{IsSound}
use gophercast.Worker.Projected.{IsOperation, execute_task-IsSound}

-- An event whose duration is not known.
abbrev lecture : Manifest
lecture = record { id = "m1"; title = "Lecture"; start = none; duration_ms = 0; elements = [] }

abbrev archive : Db
archive = (record_package lecture empty_db).1

archive_run : Run archive
archive_run = write fresh (materialised lecture)

archive-IsSound : IsSound archive
unfolding record_package find_by insert_by
archive-IsSound = record {
  keyed = (Run-invariant archive_run).0;
  current = (Run-invariant archive_run).1;
  numbered = tt;
}

abbrev row : TaskRow
row = record {
  id = 1;
  workflow_id = 1;
  op_index = 0;
  operation = "inspect";
  config = [];
  state = assigned;
  owner = none;
  lease_expires = 10;
  result = none;
  attempt = 1;
  spec = record { cpu_millis = none; memory_mb = none; gpu = none; runtime_s = none };
  updated_at = 0;
}

abbrev before : Store.Db Db
before = record {
  now = 0;
  workflows = [];
  tasks = row ∷ [];
  next_workflow = 2;
  next_task = 2;
  rows = archive;
}

abbrev alone : Env Db
alone db = some db

abbrev inspection : Body Db
inspection seen = ok ("inspected", completion (inspected "m1" 90))

abbrev after : Db
after = (execute_task alone 1 (scan_task row) "w" 30 inspection before).1.rows

-- The duration is found, and projected.
abbrev duration_of : Option ℕ × Option (Option ℕ)
duration_of = (
  elim (find_by (λ p. p.id) "m1" after.packages) [ none ↦ none | some p ↦ p.duration_ms ],
  elim (find_event "m1" after) [ none ↦ none | some e ↦ some e.duration_ms ],
)

finds_duration : duration_of ≡ (some 90, some (some 90))
unfolding find_by execute_task start_task scan_task renew_lease complete_task complete_over
    run_mutation completion_tx update_where record_package insert_by commit close_update put_by
    event_row_of
finds_duration = refl

-- Two snapshots of one event have two versions.
numbers :
    elim (snapshot_tx "m1" "d-1" archive) [
      | err e ↦ []
      | ok db ↦ elim (snapshot_tx "m1" "d-1" db) [ err e ↦ [] | ok again ↦ again.snapshots ]
    ]
    ≡ record { mediapackage_id = "m1"; version = 1; manifest_sha256 = "d-1" }
      ∷ record { mediapackage_id = "m1"; version = 2; manifest_sha256 = "d-1" }
      ∷ []
unfolding snapshot_tx find_by record_package insert_by
numbers = refl

handed_over : IsOperation inspection
handed_over seen out mutate e =
    (inspected "m1" 90, ap (λ r. elim r [ ok p ↦ p.1 | err x ↦ mutate ]) (sym e))

execute_task-IsSound_example :
    IsSound after
    × ((id : String)
        → (find_event id (rebuild after) ≡ find_event id after)
          × SameRow (find_row id (rebuild after)) (find_row id after))
execute_task-IsSound_example =
    execute_task-IsSound alone 1 (scan_task row) "w" 30 inspection before
      (λ a b e s. let same : a ≡ b = ground arith in rw (← ap (λ (d : Store.Db Db). d.rows) same) s)
      handed_over archive-IsSound
