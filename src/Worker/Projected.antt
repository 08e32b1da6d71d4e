-- ===== src/Worker/Projected.antt =====
-- Tasks of internal/engine that complete with the mutations of internal/ops and internal/worker.
use gophercast.Prelude.{ℕ, ◌≡◌, String, some, Result, ok, err, arith}
use gophercast.Engine.Store as Store
use gophercast.Engine.Store.{Env}
use gophercast.Engine.Client.{Mutation, Task, run_mutation}
use gophercast.Engine.Lifecycle.{Body, execute_task}
use gophercast.Engine.Invariants.{SessionsKeep, MutationKeeps, execute_task-Holds}
use gophercast.Search.Rows.{Db}
use gophercast.Search.Project.{Error, find_event, find_row, rebuild}
use gophercast.Search.Agreement.{SameRow, rebuild_agrees}
use gophercast.Worker.Completions.{Completion, completion_tx, committed_rows, completion}
use gophercast.Worker.Sound.{IsSound, Sound, completion_tx-Sound}

committed_rows-IsSound :
    (r : Result Error Db) (after : Db) → committed_rows r ≡ some after → Sound r → IsSound after
committed_rows-IsSound (ok db) after e s = let same : db ≡ after = ground arith in rw (← same) s
committed_rows-IsSound (err x) after e s = absurd (cc)

completion-MutationKeeps : (k : Completion) → MutationKeeps IsSound (completion k)
unfolding run_mutation
completion-MutationKeeps k a b e s =
    committed_rows-IsSound (completion_tx k a) b e (completion_tx-Sound k a s)

-- Every work of the body that succeeds hands over the mutation of an operation.
abbrev pub IsOperation : Body Db → Type 0
IsOperation body =
    (seen : Store.Db Db) (out : String) (mutate : Mutation Db)
    → body seen ≡ ok (out, mutate)
    → (k : Completion) × (mutate ≡ completion k)

-- A task whose body is that of a snapshot, a publication, an inspection, an encoding or a speech
-- recognition, executed by any worker and however it ends, leaves the tables with their keys, the
-- snapshots of each event with distinct versions, and the projection as a rebuild would derive it, if
-- they were so before and what the other sessions commit meanwhile keeps them so.
pub execute_task-IsSound :
    (env : Env Db) (ticks : ℕ) (task : Task) (owner : String) (lease : ℕ) (body : Body Db)
    (db : Store.Db Db)
    → SessionsKeep IsSound env
    → IsOperation body
    → IsSound db.rows
    → let after = (execute_task env ticks task owner lease body db).1.rows in
      IsSound after
      × ((id : String)
          → (find_event id (rebuild after) ≡ find_event id after)
            × SameRow (find_row id (rebuild after)) (find_row id after))
execute_task-IsSound env ticks task owner lease body db kept op s =
    let sound =
      execute_task-Holds IsSound env kept ticks task owner lease body db
        (λ seen out mutate e.
          let (k, same) = op seen out mutate e in rw same (completion-MutationKeeps k))
        s in
    (sound, rebuild_agrees _ sound.keyed sound.current)
