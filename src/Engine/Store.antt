-- ===== src/Engine/Store.antt =====
-- internal/engine/engine.go and schema.sql: the rows of the tables `workflow` and `task`, and what
-- a statement does to them. `R` is the state of all other tables, which a task's mutation writes.
use gophercast.Prelude.{
  ℕ, String, Bool, true, false, ◌&&◌, Option, none, some, List, map, Result, ok, err, ◌==◌,
  if◌then◌else◌, any, keep, length, str_eq,
}
use gophercast.Prelude.Int.{ℤ}

-- The `state` column of `task`, with its check constraint.
pub data TaskState : Type 0 where
  assigned running finished failed : TaskState

-- The `state` column of `workflow`.
pub data WorkflowState : Type 0 where
  active succeeded aborted : WorkflowState

-- The per-task resource spec; a dimension that is 0 is not stated.
pub record Spec : Type 0 where
  pub cpu_millis : ℤ
  pub memory_mb : ℤ
  pub gpu : ℤ
  pub runtime_s : ℤ

abbrev pub Config : Type 0
Config = List (String × String)

pub record OpDef : Type 0 where
  pub operation : String
  pub config : Config
  pub spec : Option Spec

abbrev pub Definition : Type 0
Definition = List OpDef

-- What the `result` column holds: a body's answer, or the reason of a failure.
pub data Outcome : Type 0 where
  output : String → Outcome
  reason : String → Outcome

-- The spec columns are null where the definition states nothing.
pub record SpecColumns : Type 0 where
  pub cpu_millis : Option ℤ
  pub memory_mb : Option ℤ
  pub gpu : Option ℤ
  pub runtime_s : Option ℤ

pub record TaskRow : Type 0 where
  pub id : ℕ
  pub workflow_id : ℕ
  pub op_index : ℕ
  pub operation : String
  pub config : Config
  pub state : TaskState
  pub owner : Option String
  pub lease_expires : ℕ
  pub result : Option Outcome
  pub attempt : ℕ
  pub spec : SpecColumns
  pub updated_at : ℕ

pub record Workflow : Type 0 where
  pub id : ℕ
  pub mediapackage_id : String
  pub definition : Definition
  pub state : WorkflowState
  pub current_op : ℕ
  pub updated_at : ℕ

-- `now` is the database's clock; the two `next` fields are the id sequences.
pub record Db (R : Type 0) : Type 0 where
  pub now : ℕ
  pub workflows : List Workflow
  pub tasks : List TaskRow
  pub next_workflow : ℕ
  pub next_task : ℕ
  pub rows : R

-- `task_lost` is ErrTaskLost. `unavailable` is a statement that never reached the database, and
-- `mutation_failed` an error of a task's own mutation; the rest the database raises.
pub data Error : Type 0 where
  task_lost unavailable terminal_guard null_violation no_rows no_operations mutation_failed : Error
  body_failed : String → Error

-- A call runs on the database and leaves it in some state, also when it fails.
abbrev pub Action : Type 0 → Type 0 → Type 0
Action R A = Db R → Result Error A × Db R

module _ {R A B : Type 0} where
  abbrev pub and_then : Result Error A → (A → Action R B) → Action R B
  and_then (ok a) f db = f a db
  and_then (err e) f db = (err e, db)

  infixl 5 ◌>>=◌ ◌>>◌
  abbrev pub ◌>>=◌ : Action R A → (A → Action R B) → Action R B
  ◌>>=◌ m f db = and_then (m db).0 f (m db).1

  abbrev pub ◌>>◌ : Action R A → Action R B → Action R B
  m >> k = m >>= λ _. k

  -- `_ = f(…)`: the error is dropped.
  abbrev pub ignoring : Action R A → Action R B → Action R B
  ignoring m k db = k (m db).1

abbrev pub pure : {R A : Type 0} → A → Action R A
pure a db = (ok a, db)

abbrev pub fail : {R A : Type 0} → Error → Action R A
fail e db = (err e, db)

-- What happens before a statement runs: other sessions commit and time passes, or the database
-- cannot be reached.
abbrev pub Env : Type 0 → Type 0
Env R = Db R → Option (Db R)

pub arrive : {R A : Type 0} → Option (Db R) → Action R A → Action R A
arrive (some db') m db = m db'
arrive none m db = (err unavailable, db)

unfoldable pub statement : {R A : Type 0} → Env R → Action R A → Action R A
unfolding arrive
statement env m db = arrive (env db) m db

abbrev pub is_terminal : TaskState → Bool
is_terminal finished = true
is_terminal failed = true
is_terminal _ = false

abbrev pub is_assigned : TaskState → Bool
is_assigned assigned = true
is_assigned _ = false

abbrev pub is_running : TaskState → Bool
is_running running = true
is_running _ = false

-- `state in ('ASSIGNED','RUNNING')`
abbrev pub is_live : TaskState → Bool
is_live assigned = true
is_live running = true
is_live _ = false

abbrev pub is_finished : TaskState → Bool
is_finished finished = true
is_finished _ = false

abbrev pub is_failed : TaskState → Bool
is_failed failed = true
is_failed _ = false

abbrev pub is_active : WorkflowState → Bool
is_active active = true
is_active _ = false

-- `owner = $2`; null equals nothing.
abbrev pub owned_by : Option String → String → Bool
owned_by none name = false
owned_by (some o) name = str_eq o name

abbrev pub update_where {ℓ} : {A : Type ℓ} → (A → Bool) → (A → A) → A → A
update_where p f a = if p a then f a else a

-- `update task set … where …`, with the trigger `task_terminal_guard`: one matched row in a
-- terminal state aborts the statement. The answer is the number of rows affected.
module _ {R : Type 0} where
  unfoldable pub update_tasks : (TaskRow → Bool) → (TaskRow → TaskRow) → Action R ℕ
  update_tasks p f db =
      if any (λ t. p t && is_terminal t.state) db.tasks
      then (err terminal_guard, db)
      else (ok (length (keep p db.tasks)), record db { tasks = map (update_where p f) db.tasks })

  -- The same with a `returning` clause: the affected rows, as they are now.
  unfoldable pub update_tasks_returning :
      (TaskRow → Bool) → (TaskRow → TaskRow) → Action R (List TaskRow)
  update_tasks_returning p f db =
      if any (λ t. p t && is_terminal t.state) db.tasks
      then (err terminal_guard, db)
      else (ok (map f (keep p db.tasks)), record db { tasks = map (update_where p f) db.tasks })

  -- `update workflow set … where …`
  unfoldable pub update_workflows : (Workflow → Bool) → (Workflow → Workflow) → Action R (Unit {0})
  update_workflows p f db = (ok tt, record db { workflows = map (update_where p f) db.workflows })

  -- `if tag.RowsAffected() == 0 { return ErrTaskLost }`
  abbrev pub require_row : ℕ → Action R (Unit {0})
  require_row n = if n == 0 then fail task_lost else pure tt
