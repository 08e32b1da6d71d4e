-- ===== src/Engine/Sessions.antt =====
-- The composed calls of internal/engine's orchestrator as runs of the step relation.
use gophercast.Prelude.{
  ℕ, String, Bool, true, false, List, [], ◌∷◌, Result, ok, err, inl, inr, Bool-cases, Option-cases,
  ◌==◌, if◌then◌else◌,
}
use gophercast.Engine.Store.{
  reason, failed, TaskRow, Db, Error, Action, Env, statement, require_row, and_then,
}
use gophercast.Engine.Class.{ExecClass, unknown, worker, inline, unclear, class_of}
use gophercast.Engine.Client.{
  Mutation, Task, start_update, renew_update, close_update, complete_transaction, start_task,
  scan_task, renew_lease, complete_task, fail_task,
}
use gophercast.Engine.Statements.{
  Engine, reassign_update, exhaust_update, advance_update, abort_update, assign_insert,
}
use gophercast.Engine.Orchestrator.{
  dispatch_owner, fail_started, fail_unrunnable, provision_as, provision, provision_all, reap,
  advance as advance_all, assign as assign_all,
}
use gophercast.Engine.Run.{
  start, renew, complete, give_up, reassign, exhaust, advance, abort, assign, Reach, here, next,
  Reach-trans, Plays,
}

module _ {R : Type 0} (e : Engine) (env : Env R) (plays : Plays e env) where
  -- The call moves the database along a run.
  abbrev Runs : {A : Type 0} → Action R A → Type 0
  Runs m = (db : Db R) → Reach e db (m db).1

  statement-Runs : {A : Type 0} (m : Action R A) → Runs m → Runs (statement env m)
  unfolding statement
  statement-Runs m h db = elim (Option-cases (env db)) [
    | inl none_left ↦ rw none_left here
    | inr (db', reached) ↦ rw reached (Reach-trans e (plays db db' reached) (h db'))
  ]

  bind-Runs :
      {A B : Type 0} (m : Action R A) (f : A → Action R B)
      → Runs m
      → ((a : A) → Runs (f a))
      → Runs (λ db. and_then (m db).0 f (m db).1)
  bind-Runs m f h k db = go (m db).0 (m db).1 (h db)
    where
      go : (r : Result Error _) (db' : Db R) → Reach e db db' → Reach e db (and_then r f db').1
      go (ok a) db' reached = Reach-trans e reached (k a db')
      go (err x) db' reached = reached

  require_row-Runs : (n : ℕ) → Runs (require_row n)
  require_row-Runs n db = elim (Bool-cases (n == 0)) [ inl z ↦ rw z here | inr z ↦ rw z here ]

  start_task-Runs : (id : ℕ) (owner : String) (lease : ℕ) → Runs (start_task env id owner lease)
  unfolding start_task
  start_task-Runs id owner lease =
      bind-Runs (statement env (start_update id owner lease)) require_row
        (statement-Runs (start_update id owner lease) (λ db. next here (start db id owner lease)))
        require_row-Runs

  renew_lease-Runs : (id : ℕ) (owner : String) (lease : ℕ) → Runs (renew_lease env id owner lease)
  unfolding renew_lease
  renew_lease-Runs id owner lease =
      bind-Runs (statement env (renew_update id owner lease)) require_row
        (statement-Runs (renew_update id owner lease) (λ db. next here (renew db id owner lease)))
        require_row-Runs

  complete_task-Runs :
      (id : ℕ) (owner result : String) (mutate : Mutation R)
      → Runs (complete_task env id owner result mutate)
  unfolding complete_task
  complete_task-Runs id owner result mutate =
      statement-Runs (complete_transaction id owner result mutate)
        (λ db. next here (complete db id owner result mutate))

  fail_task-Runs : (id : ℕ) (owner text : String) → Runs (fail_task env id owner text)
  unfolding fail_task
  fail_task-Runs id owner text =
      bind-Runs (statement env (close_update failed id owner (reason text))) require_row
        (statement-Runs (close_update failed id owner (reason text))
          (λ db. next here (give_up db id owner (reason text))))
        require_row-Runs

  fail_started-Runs :
      (r : Result Error (Unit {0})) (t : Task) (why : String) → Runs (fail_started env r t why)
  unfolding fail_started
  fail_started-Runs (ok _) t why = fail_task-Runs t.id dispatch_owner _
  fail_started-Runs (err _) t why = λ db. here

  fail_unrunnable-Runs : (t : Task) (why : String) → Runs (fail_unrunnable env e t why)
  unfolding fail_unrunnable
  fail_unrunnable-Runs t why db = Reach-trans e (start_task-Runs t.id dispatch_owner e.lease db) (
      fail_started-Runs (start_task env t.id dispatch_owner e.lease db).0 t why
        (start_task env t.id dispatch_owner e.lease db).1)

  if-Runs : {A : Type 0} (b : Bool) (m k : Action R A) → Runs m → Runs k → Runs (if b then m else k)
  if-Runs true m k h h' = h
  if-Runs false m k h h' = h'

  provision_as-Runs : (c : ExecClass) (t : Task) → Runs (provision_as env c e t)
  unfolding provision_as
  provision_as-Runs worker t = λ db. here
  provision_as-Runs inline t = if-Runs e.has_inline _ _ (λ db. here) (fail_unrunnable-Runs t _)
  provision_as-Runs unclear t = fail_unrunnable-Runs t _
  provision_as-Runs unknown t = fail_unrunnable-Runs t _

  provision_all-Runs : (rows : List TaskRow) → Runs (provision_all env e rows)
  unfolding provision_all
  provision_all-Runs [] = λ db. here
  provision_all-Runs (row ∷ rows) =
      bind-Runs (provision env e (scan_task row)) _
        (provision_as-Runs (class_of row.operation) (scan_task row))
        (λ d. bind-Runs (provision_all env e rows) _ (provision_all-Runs rows) (λ ds db. here))

  pub reap-Runs : Runs (reap env e)
  unfolding reap
  reap-Runs =
      bind-Runs (statement env (reassign_update e)) _
        (statement-Runs (reassign_update e) (λ db. next here (reassign db)))
        (λ again.
          bind-Runs (statement env (exhaust_update e)) _
            (statement-Runs (exhaust_update e) (λ db. next here (exhaust db)))
            (λ n. provision_all-Runs again))

  pub advance-Runs : Runs (advance_all env)
  unfolding advance_all
  advance-Runs =
      bind-Runs (statement env advance_update) _
        (statement-Runs advance_update (λ db. next here (advance db)))
        (λ u. statement-Runs abort_update (λ db. next here (abort db)))

  assign-Runs : Runs (assign_all env e)
  unfolding assign_all
  assign-Runs =
      bind-Runs (statement env (λ seen. statement env (assign_insert e.lease seen) seen)) _
        (statement-Runs (λ seen. statement env (assign_insert e.lease seen) seen)
          (λ seen.
            statement-Runs (assign_insert e.lease seen) (λ db. next here (assign seen db)) seen))
        provision_all-Runs
