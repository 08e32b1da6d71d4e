-- ===== src/Engine/Statements.antt =====
-- internal/engine/engine.go: the engine's options, the rows that it inserts, and the SQL statements
-- of its orchestrator, one definition for each.
use gophercast.Prelude.{
  ℕ, suc, ◌+◌, String, Bool, not, ◌&&◌, Option, none, some, List, [], ◌∷◌, ◌++◌, ok, err, ltb, leb,
  ◌==◌, if◌then◌else◌, any, keep, length, get_elem?,
}
use mathlib.Core.Option
use gophercast.Prelude.Int.{ℤ, pos, negsuc}
use gophercast.Engine.Store.{
  assigned, failed, active, succeeded, aborted, Spec, OpDef, Definition, SpecColumns, TaskRow,
  Workflow, Db, null_violation, Action, is_live, is_finished, is_failed, is_active, update_tasks,
  update_tasks_returning, update_workflows,
}

-- `Options` as the caller fills it: nanoseconds and a count, of any sign.
pub record Options : Type 0 where
  pub lease : ℤ
  pub max_attempts : ℤ
  pub has_inline : Bool

pub record Engine : Type 0 where
  pub lease : ℕ
  pub max_attempts : ℕ
  pub has_inline : Bool

-- `if v <= 0 { v = def }`
unfoldable pub positive_or : ℕ → ℤ → ℕ
positive_or def (pos n) = if n == 0 then def else n
positive_or def (negsuc n) = def

unfoldable pub new_engine : Options → Engine
unfolding positive_or
new_engine o = record {
  lease = positive_or 60_000_000_000 o.lease;
  max_attempts = positive_or 3 o.max_attempts;
  has_inline = o.has_inline;
}

-- The columns that `assignSQL` reads out of a definition's JSON; a dimension that is 0 is omitted
-- there (`omitempty`), and reads as null.
unfoldable pub omit_zero : ℤ → Option ℤ
omit_zero (pos n) = if n == 0 then none else some (pos n)
omit_zero (negsuc n) = some (negsuc n)

unfoldable pub spec_columns : Option Spec → SpecColumns
spec_columns none = record { cpu_millis = none; memory_mb = none; gpu = none; runtime_s = none }
spec_columns (some s) = record {
  cpu_millis = omit_zero s.cpu_millis;
  memory_mb = omit_zero s.memory_mb;
  gpu = omit_zero s.gpu;
  runtime_s = omit_zero s.runtime_s;
}

unfoldable pub new_row : ℕ → ℕ → ℕ → Workflow → OpDef → TaskRow
new_row now lease id w op = record {
  id = id;
  workflow_id = w.id;
  op_index = w.current_op;
  operation = op.operation;
  config = op.config;
  state = assigned;
  owner = none;
  lease_expires = now + lease;
  result = none;
  attempt = 1;
  spec = spec_columns op.spec;
  updated_at = now;
}

-- The key of the unique index `task_wf_op_uidx`.
abbrev pub is_task_of : ℕ → ℕ → TaskRow → Bool
is_task_of workflow op t = t.workflow_id == workflow && t.op_index == op

-- The `where` clause of `assignSQL`, on the statement's snapshot.
abbrev pub lacks_task : List TaskRow → Workflow → Bool
lacks_task tasks w = is_active w.state && not (any (is_task_of w.id w.current_op) tasks)

pub record Inserted : Type 0 where
  pub created : List TaskRow
  pub tasks : List TaskRow
  pub next_task : ℕ

-- `returning`: a row that was inserted is reported.
abbrev pub with_created : Bool → TaskRow → Inserted → Inserted
with_created taken row r = record r { created = if taken then r.created else row ∷ r.created }

-- The insertion of the selected rows, one by one. `operation` is `not null`, so a current
-- operation that the definition lacks ends the statement; on a conflict with the unique index
-- nothing is inserted, and the sequence has moved on.
unfoldable pub insert_rows : ℕ → ℕ → List Workflow → List TaskRow → ℕ → Option Inserted
unfolding new_row
insert_rows now lease [] tasks next =
    some (record { created = []; tasks = tasks; next_task = next })
insert_rows now lease (w ∷ ws) tasks next = elim (get_elem? w.definition w.current_op) [
  | none ↦ none
  | some op ↦
      let row = new_row now lease next w op in
      let taken = any (is_task_of w.id w.current_op) tasks in
      Option.map (with_created taken row)
        (insert_rows now lease ws (if taken then tasks else tasks ++ row ∷ []) (suc next))
]

-- Expired, with attempts left; and out of attempts.
abbrev pub is_retryable : Engine → ℕ → TaskRow → Bool
is_retryable e now t = is_live t.state && (ltb t.lease_expires now && ltb t.attempt e.max_attempts)

abbrev pub is_exhausted : Engine → ℕ → TaskRow → Bool
is_exhausted e now t = is_live t.state && (ltb t.lease_expires now && leb e.max_attempts t.attempt)

abbrev pub reassigned : Engine → ℕ → TaskRow → TaskRow
reassigned e now t = record t {
  state = assigned;
  owner = none;
  attempt = suc t.attempt;
  lease_expires = now + e.lease;
  updated_at = now;
}

abbrev pub given_up : ℕ → TaskRow → TaskRow
given_up now t = record t { state = failed; updated_at = now }

-- The current task of a running workflow is FINISHED: the next operation, or SUCCEEDED.
abbrev pub is_due : List TaskRow → Workflow → Bool
is_due tasks w =
    is_active w.state && any (λ t. is_task_of w.id w.current_op t && is_finished t.state) tasks

abbrev pub advanced : ℕ → Workflow → Workflow
advanced now w = record w {
  current_op = suc w.current_op;
  state = if leb (length w.definition) (suc w.current_op) then succeeded else active;
  updated_at = now;
}

-- The current task of a running workflow is FAILED: so is the workflow.
abbrev pub is_broken : List TaskRow → Workflow → Bool
is_broken tasks w =
    is_active w.state && any (λ t. is_task_of w.id w.current_op t && is_failed t.state) tasks

abbrev pub broken_off : ℕ → Workflow → Workflow
broken_off now w = record w { state = aborted; updated_at = now }

module _ {R : Type 0} where
  -- Back to ASSIGNED, with a fresh lease.
  unfoldable pub reassign_update : Engine → Action R (List TaskRow)
  unfolding update_tasks_returning
  reassign_update e db = update_tasks_returning (is_retryable e db.now) (reassigned e db.now) db

  unfoldable pub exhaust_update : Engine → Action R ℕ
  unfolding update_tasks
  exhaust_update e db = update_tasks (is_exhausted e db.now) (given_up db.now) db

  unfoldable pub advance_update : Action R (Unit {0})
  unfolding update_workflows
  advance_update db = update_workflows (is_due db.tasks) (advanced db.now) db

  unfoldable pub abort_update : Action R (Unit {0})
  unfolding update_workflows
  abort_update db = update_workflows (is_broken db.tasks) (broken_off db.now) db

  -- `assignSQL`: it selects on the snapshot `seen` with which it begins, and inserts into the table as
  -- it is then. Other statements may have inserted in between, so that its `not exists` is no guard.
  unfoldable pub assign_insert : ℕ → Db R → Action R (List TaskRow)
  unfolding insert_rows
  assign_insert lease seen db =
      elim (insert_rows seen.now lease (keep (lacks_task seen.tasks) seen.workflows) db.tasks
        db.next_task) [
          | none ↦ (err null_violation, db)
          | some r ↦ (ok r.created, record db { tasks = r.tasks; next_task = r.next_task })
        ]

  -- The row that `CreateWorkflow` inserts.
  unfoldable pub create_insert : String → Definition → Action R ℕ
  create_insert mediapackage_id def db = (
    ok db.next_workflow,
    record db {
      workflows =
          db.workflows
          ++ record {
            id = db.next_workflow;
            mediapackage_id = mediapackage_id;
            definition = def;
            state = active;
            current_op = 0;
            updated_at = db.now;
          }
            ∷ [];
      next_workflow = suc db.next_workflow;
    },
  )
