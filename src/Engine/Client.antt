-- ===== src/Engine/Client.antt =====
-- internal/engine/engine.go, the worker-side task client: reads of a task, and the guarded
-- transitions of its row. Each call is one statement; `CompleteTask` is one transaction.
use gophercast.Prelude.{
  ℕ, ◌+◌, String, Bool, ◌&&◌, Option, none, some, Result, ok, err, ◌==◌, if◌then◌else◌, find?,
}
use gophercast.Prelude.Int.{ℤ, pos}
use gophercast.Engine.Store.{
  TaskState, running, finished, failed, Spec, Config, Outcome, output, reason, SpecColumns, TaskRow,
  Workflow, Db, Error, task_lost, no_rows, mutation_failed, Action, ◌>>=◌, pure, fail, Env,
  statement, is_assigned, is_running, owned_by, update_tasks, require_row,
}

-- What a caller holds of a task: identity and configuration, never the lease.
pub record Task : Type 0 where
  pub id : ℕ
  pub workflow_id : ℕ
  pub op_index : ℕ
  pub operation : String
  pub config : Config
  pub state : TaskState
  pub attempt : ℕ

-- One round of `scanTasks`: a row as a `Task`.
unfoldable pub scan_task : TaskRow → Task
scan_task t = record {
  id = t.id;
  workflow_id = t.workflow_id;
  op_index = t.op_index;
  operation = t.operation;
  config = t.config;
  state = t.state;
  attempt = t.attempt;
}

-- `coalesce(column, 0)`
unfoldable pub coalesce_zero : Option ℤ → ℤ
coalesce_zero none = pos 0
coalesce_zero (some n) = n

unfoldable pub spec_of_columns : SpecColumns → Spec
spec_of_columns c = record {
  cpu_millis = coalesce_zero c.cpu_millis;
  memory_mb = coalesce_zero c.memory_mb;
  gpu = coalesce_zero c.gpu;
  runtime_s = coalesce_zero c.runtime_s;
}

-- What a task's body hands over for its completion; `none` is the nil mutation.
abbrev pub Mutation : Type 0 → Type 0
Mutation R = Option (R → Option R)

unfoldable pub run_mutation : {R : Type 0} → Mutation R → R → Option R
run_mutation none rows = some rows
run_mutation (some f) rows = f rows

-- `where id = $1 and state = 'ASSIGNED'`
abbrev pub is_startable : ℕ → TaskRow → Bool
is_startable id t = t.id == id && is_assigned t.state

-- The assignments of the three statements, at the database's `now()`.
abbrev pub started : String → ℕ → ℕ → TaskRow → TaskRow
started owner lease now t = record t {
  state = running;
  owner = some owner;
  lease_expires = now + lease;
  updated_at = now;
}

abbrev pub renewed : ℕ → ℕ → TaskRow → TaskRow
renewed lease now t = record t { lease_expires = now + lease; updated_at = now }

abbrev pub closed : TaskState → Outcome → ℕ → TaskRow → TaskRow
closed state result now t = record t { state = state; result = some result; updated_at = now }

-- `where id = $1 and owner = $2 and state = 'RUNNING'`
abbrev pub held : ℕ → String → TaskRow → Bool
held id owner t = t.id == id && (owned_by t.owner owner && is_running t.state)

module _ {R : Type 0} where
  -- A query for one row: `pgx.ErrNoRows` when there is none.
  abbrev pub query_row : {A : Type 0} → Option A → Action R A
  query_row none = fail no_rows
  query_row (some a) = pure a

  unfoldable pub find_task : ℕ → Db R → Option TaskRow
  find_task id db = find? (λ t. t.id == id) db.tasks

  unfoldable pub find_workflow : ℕ → Db R → Option Workflow
  find_workflow id db = find? (λ w. w.id == id) db.workflows

  unfoldable pub start_update : ℕ → String → ℕ → Action R ℕ
  unfolding update_tasks
  start_update id owner lease db = update_tasks (is_startable id) (started owner lease db.now) db

  unfoldable pub renew_update : ℕ → String → ℕ → Action R ℕ
  unfolding update_tasks
  renew_update id owner lease db = update_tasks (held id owner) (renewed lease db.now) db

  -- The terminal write that `CompleteTask` and `FailTask` share.
  unfoldable pub close_update : TaskState → ℕ → String → Outcome → Action R ℕ
  unfolding update_tasks
  close_update state id owner result db =
      update_tasks (held id owner) (closed state result db.now) db

  -- The end of a transaction that began at the first state: it commits if a row was affected, and
  -- is rolled back otherwise.
  unfoldable pub commit : Db R → Result Error ℕ × Db R → Result Error (Unit {0}) × Db R
  commit before (err e, _) = (err e, before)
  commit before (ok n, after) = if n == 0 then (err task_lost, before) else (ok tt, after)

  -- The terminal write over what the mutation made of the other tables; `none` is its error.
  unfoldable pub complete_over : ℕ → String → String → Option R → Action R (Unit {0})
  complete_over id owner result none db = (err mutation_failed, db)
  complete_over id owner result (some rows') db =
      commit db (close_update finished id owner (output result) (record db { rows = rows' }))

  unfoldable pub complete_transaction : ℕ → String → String → Mutation R → Action R (Unit {0})
  complete_transaction id owner result mutate db =
      complete_over id owner result (run_mutation mutate db.rows) db

module _ {R : Type 0} (env : Env R) where
  unfoldable pub get_task : ℕ → Action R Task
  unfolding statement scan_task
  get_task id = statement env (λ db. query_row (find_task id db) db) >>= λ t. pure (scan_task t)

  unfoldable pub get_spec : ℕ → Action R Spec
  unfolding statement
  get_spec id =
      statement env (λ db. query_row (find_task id db) db) >>= λ t. pure (spec_of_columns t.spec)

  unfoldable pub mediapackage_id : ℕ → Action R String
  unfolding statement
  mediapackage_id id = statement env λ db.
      (query_row (find_task id db) >>= λ t.
      query_row (find_workflow t.workflow_id db) >>= λ w. pure w.mediapackage_id)
        db

  unfoldable pub start_task : ℕ → String → ℕ → Action R (Unit {0})
  unfolding statement start_update
  start_task id owner lease = statement env (start_update id owner lease) >>= require_row

  unfoldable pub renew_lease : ℕ → String → ℕ → Action R (Unit {0})
  unfolding statement renew_update
  renew_lease id owner lease = statement env (renew_update id owner lease) >>= require_row

  unfoldable pub complete_task : ℕ → String → String → Mutation R → Action R (Unit {0})
  unfolding statement complete_transaction
  complete_task id owner result mutate = statement env (complete_transaction id owner result mutate)

  unfoldable pub fail_task : ℕ → String → String → Action R (Unit {0})
  unfolding statement close_update
  fail_task id owner text =
      statement env (close_update failed id owner (reason text)) >>= require_row
