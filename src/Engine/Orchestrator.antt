-- ===== src/Engine/Orchestrator.antt =====
-- internal/engine/engine.go, the orchestrator: creating workflows, and the pass `Step`, which
-- reaps expired leases, advances workflows and assigns their current operations.
use Prim.Native.String.{◌++◌ as text_append}
use gophercast.Prelude.{ℕ, Result, String, List, [], ◌∷◌, ◌++◌, ok, err, if◌then◌else◌}
use gophercast.Engine.Store.{
  WorkflowState, Definition, TaskRow, no_operations, Error, ignoring, Action, ◌>>=◌, ◌>>◌, pure,
  fail, Env, statement,
}
use gophercast.Engine.Class.{ExecClass, unknown, worker, inline, unclear, class_of}
use gophercast.Engine.Client.{Task, scan_task, find_workflow, query_row, start_task, fail_task}
use gophercast.Engine.Statements.{
  Engine, reassign_update, exhaust_update, advance_update, abort_update, assign_insert,
  create_insert,
}

-- Where a task went: to a provisioner, whose own error is dropped, or to FAILED at once.
pub data Dispatch : Type 0 where
  to_worker to_inline unrunnable : Dispatch

-- `fmt.Sprintf("operation %q: %s", …)`, for a name in which `%q` escapes nothing.
abbrev unrunnable_text : String → String → String
unrunnable_text operation why =
    text_append "operation \"" (text_append operation (text_append "\": " why))

abbrev no_inline_runner : String
no_inline_runner = "inline-class operation but engine has no inline runner"

abbrev class_undecided : String
class_undecided =
    "execution class UNCLEAR (one of the 4 undecided ops, CONTRACTS §3.2) — refusing to guess"

abbrev no_class : String
no_class = "not one of the 98 operations (no execution class)"

-- The owner under which the engine itself fails a task.
abbrev pub dispatch_owner : String
dispatch_owner = "engine-dispatch"

module _ {R : Type 0} (env : Env R) where
  unfoldable pub create_workflow : String → Definition → Action R ℕ
  unfolding statement create_insert
  create_workflow mediapackage_id [] = fail no_operations
  create_workflow mediapackage_id (op ∷ ops) =
      statement env (create_insert mediapackage_id (op ∷ ops))

  unfoldable pub workflow_state : ℕ → Action R WorkflowState
  unfolding statement find_workflow
  workflow_state id = statement env (λ db. query_row (find_workflow id db) db) >>= λ w. pure w.state

  -- What `failUnrunnable` does after its `StartTask`; a lost start is somebody else's task.
  unfoldable pub fail_started : Result Error (Unit {0}) → Task → String → Action R Dispatch
  fail_started (err _) t why = pure unrunnable
  fail_started (ok _) t why =
      ignoring (fail_task env t.id dispatch_owner (unrunnable_text t.operation why))
        (pure unrunnable)

  -- Failed through the transition that every executor uses.
  unfoldable pub fail_unrunnable : Engine → Task → String → Action R Dispatch
  unfolding start_task fail_started
  fail_unrunnable e t why db =
      fail_started (start_task env t.id dispatch_owner e.lease db).0 t why
        (start_task env t.id dispatch_owner e.lease db).1

  unfoldable pub provision_as : ExecClass → Engine → Task → Action R Dispatch
  unfolding fail_unrunnable
  provision_as worker e t = pure to_worker
  provision_as inline e t =
      if e.has_inline then pure to_inline else fail_unrunnable e t no_inline_runner
  provision_as unclear e t = fail_unrunnable e t class_undecided
  provision_as unknown e t = fail_unrunnable e t no_class

  unfoldable pub provision : Engine → Task → Action R Dispatch
  unfolding provision_as class_of
  provision e t = provision_as (class_of t.operation) e t

  -- `for _, t := range … { e.provision(ctx, t) }`
  unfoldable pub provision_all : Engine → List TaskRow → Action R (List (Task × Dispatch))
  unfolding provision scan_task
  provision_all e [] = pure []
  provision_all e (row ∷ rows) = provision e (scan_task row) >>= λ d.
      provision_all e rows >>= λ ds. pure ((scan_task row, d) ∷ ds)

  unfoldable pub reap : Engine → Action R (List (Task × Dispatch))
  unfolding statement reassign_update exhaust_update provision_all
  reap e = statement env (reassign_update e) >>= λ reassigned.
      statement env (exhaust_update e) >>= λ _. provision_all e reassigned

  unfoldable pub advance : Action R (Unit {0})
  unfolding statement advance_update abort_update
  advance = statement env advance_update >> statement env abort_update

  unfoldable pub assign : Engine → Action R (List (Task × Dispatch))
  unfolding statement assign_insert provision_all
  assign e = statement env (λ seen. statement env (assign_insert e.lease seen) seen) >>= λ created.
      provision_all e created

  -- One orchestrator pass. The answer lists what was provisioned.
  unfoldable pub step : Engine → Action R (List (Task × Dispatch))
  unfolding reap advance assign
  step e = reap e >>= λ again. advance >>= λ _. assign e >>= λ fresh. pure (again ++ fresh)
