-- ===== src/Engine/Tests.antt =====
-- Small runs of the model of internal/engine, and its theorems at them.
use gophercast.Prelude.{
  ℕ, ◌+◌, ◌≡◌, refl, true, List, [], ◌∷◌, Option, none, some, Memᴰ, ok, err, arith, All,
}
use gophercast.Prelude.Int.{pos}
use gophercast.Engine.Store.{
  assigned, finished, succeeded, Spec, OpDef, output, TaskRow, Workflow, Db, task_lost, statement,
  is_terminal, update_tasks, update_tasks_returning, update_workflows,
}
use gophercast.Engine.Class.{inline_ops, unclear_ops, worker_ops, class_of}
use gophercast.Engine.Client.{
  Task, Mutation, scan_task, run_mutation, start_update, close_update, commit, complete_over,
  complete_transaction, start_task, complete_task, fail_task,
}
use gophercast.Engine.Statements.{
  Engine, new_row, spec_columns, insert_rows, reassign_update, exhaust_update, advance_update,
  abort_update, assign_insert, create_insert,
}
use gophercast.Engine.Orchestrator.{
  create_workflow, reap, assign as assign_all, advance as advance_all, step,
}
use gophercast.Engine.Lifecycle.{Body, execute_task}
use gophercast.Engine.Run.{
  create, start, complete, reassign, advance, assign, Reach, here, next, empty_db,
}
use gophercast.Engine.Frame.{terminal_immutable}
use gophercast.Engine.Progress.{Accounted, workflow-Accounted}
use gophercast.Engine.Races.{quiet, start_task-single_winner}
use gophercast.Engine.Pass.{MovesOn, step-serves}
use gophercast.Engine.Orchestrator.{Dispatch}
use gophercast.Engine.Progress.{Reach-IsPlaced}
use gophercast.Prelude.{Memᴰ}
use gophercast.Engine.Atomic.{AllOrNothing, execute_task-AllOrNothing}
use gophercast.Engine.Assignment.{Distinct, Reach-Distinct}
use gophercast.Engine.Served.{AllServed, assign_insert-serves}
use gophercast.Engine.Attempts.{reap_times, reap_times-terminal}

abbrev engine : Engine
engine = record { lease = 10; max_attempts = 3; has_inline = true }

abbrev inspect : OpDef
inspect = record { operation = "inspect"; config = []; spec = none }

-- The other tables hold one number, and a mutation adds to it.
abbrev add_one : Mutation ℕ
add_one = some (λ n. some (n + 1))

abbrev body : Body ℕ
body db = ok ("out", add_one)

abbrev d0 : Db ℕ
d0 = empty_db 0

abbrev d1 : Db ℕ
d1 = (create_insert "mp" (inspect ∷ []) d0).1

abbrev d2 : Db ℕ
d2 = (assign_insert engine.lease d1 d1).1

abbrev d3 : Db ℕ
d3 = (start_update 1 "w" 10 d2).1

abbrev d4 : Db ℕ
d4 = (complete_transaction 1 "w" "out" add_one d3).1

abbrev d5 : Db ℕ
d5 = (advance_update d4).1

-- What the runs below compute with.
program : Unit {0}
unfolding statement update_tasks update_tasks_returning update_workflows scan_task run_mutation
    start_update close_update commit complete_over complete_transaction start_task complete_task
    fail_task spec_columns new_row insert_rows reassign_update exhaust_update advance_update
    abort_update assign_insert create_insert create_workflow class_of inline_ops unclear_ops
    worker_ops reap assign_all advance_all step execute_task empty_db
program = tt

abbrev row : TaskRow
row = record {
  id = 1;
  workflow_id = 1;
  op_index = 0;
  operation = "inspect";
  config = [];
  state = assigned;
  owner = none;
  lease_expires = 10;
  result = none;
  attempt = 1;
  spec = record { cpu_millis = none; memory_mb = none; gpu = none; runtime_s = none };
  updated_at = 0;
}

abbrev done_row : TaskRow
done_row = record row { state = finished; owner = some "w"; result = some (output "out") }

abbrev done_workflow : Workflow
done_workflow = record {
  id = 1;
  mediapackage_id = "mp";
  definition = inspect ∷ [];
  state = succeeded;
  current_op = 1;
  updated_at = 0;
}

run-d2 : d2.tasks ≡ row ∷ []
unfolding program
run-d2 = refl

run-d5 : (d5.tasks ≡ done_row ∷ []) × (d5.workflows ≡ done_workflow ∷ []) × (d5.rows ≡ 1)
unfolding program
run-d5 = (refl, refl, refl)

d2-Reach : Reach engine d0 d2
d2-Reach = next (next here (create d0 "mp" (inspect ∷ []) (omega arith))) (assign d1 d1)

d5-Reach : Reach engine d0 d5
d5-Reach =
    next (next (next d2-Reach (start d2 1 "w" 10)) (complete d3 1 "w" "out" add_one)) (advance d4)

terminal_immutable_example : Memᴰ done_row (reassign_update engine d5).1.tasks
unfolding program
terminal_immutable_example =
    terminal_immutable {e = engine} {a = d5} (next here (reassign d5)) refl (Memᴰ.head refl)

workflow-Accounted_example : Accounted succeeded d5.tasks done_workflow
unfolding program
workflow-Accounted_example =
    workflow-Accounted {e = engine} 0 {db = d5} {w = done_workflow} d5-Reach (Memᴰ.head refl)

start_task-single_winner_example : start_task quiet 1 "v" 10 d3 ≡ (err task_lost, d3)
unfolding program
start_task-single_winner_example =
    start_task-single_winner {e = engine} 1 1 "w" "v" 10 10 d2 {db' = d3} (omega arith)
      (ground arith) here (ground arith)

-- The lease of the started task has run out.
abbrev late : Db ℕ
late = record d3 { now = 50 }

abbrev claim : Task
claim = record {
  id = 1;
  workflow_id = 1;
  op_index = 0;
  operation = "inspect";
  config = [];
  state = assigned;
  attempt = 1;
}

-- An execution that completes its task.
run_execute : (execute_task quiet 0 claim "w" 10 body d2).1.rows ≡ 1
unfolding program
run_execute = refl

execute_task-AllOrNothing_example : AllOrNothing body d2 (execute_task quiet 0 claim "w" 10 body d2)
execute_task-AllOrNothing_example =
    execute_task-AllOrNothing quiet (λ a b e. ground arith) 0 claim "w" 10 body d2

step-serves_example :
    ((provisioned : List (Task × Dispatch)) × ((step quiet engine d4).0 ≡ ok provisioned))
    × AllServed (step quiet engine d4).1
    × ((w : Workflow) → Memᴰ w d4.workflows → MovesOn d4 (step quiet engine d4).1 w)
unfolding empty_db
step-serves_example = step-serves engine d4 (
    Reach-IsPlaced {e = engine}
      (next (next d2-Reach (start d2 1 "w" 10)) (complete d3 1 "w" "out" add_one)) tt)

-- An insert whose snapshot is from before another one finds the task there.
raced : (assign_insert engine.lease d1 d2).1.tasks ≡ row ∷ []
unfolding program
raced = refl

Reach-Distinct_example : Distinct (assign_insert engine.lease d1 d2).1.tasks
Reach-Distinct_example = Reach-Distinct 0 (next d2-Reach (assign d1 d2))

assign_insert-serves_example :
    (created : List TaskRow) × ((assign_insert 10 d1 d1).0 ≡ ok created)
    × AllServed (assign_insert 10 d1 d1).1
unfolding program
assign_insert-serves_example = assign_insert-serves d1 10 (
  record {
    in_range = λ s. omega arith;
    at_end = λ s. cc;
    done = λ i lt. elim lt [ ];
    broken = λ s. cc;
  },
  tt,
)

reap_times-terminal_example :
    All (λ t. is_terminal t.state ≡ true) (reap_times engine 20 3 d3).tasks
unfolding program
reap_times-terminal_example =
    reap_times-terminal engine 20 2 d3 (omega arith) ((λ live. omega arith), tt)

abbrev two_cores : Option Spec
two_cores =
    some (record { cpu_millis = pos 2000; memory_mb = pos 0; gpu = pos 1; runtime_s = pos 0 })
