-- ===== src/Engine/Invariants.antt =====
-- What an execution of a task in internal/engine keeps of the tables outside the engine.
use gophercast.Prelude.{
  ℕ, zero, suc, ◌≡◌, refl, String, Bool, true, false, some, Result, ok, err, inl, inr, Option-cases,
  arith,
}
use gophercast.Engine.Store.{
  failed, reason, Db, Error, task_lost, Action, Env, statement, require_row, and_then,
}
use gophercast.Engine.Client.{
  Mutation, Task, run_mutation, start_task, renew_lease, start_update, renew_update, close_update,
  complete_transaction, complete_task, fail_task,
}
use gophercast.Engine.Lifecycle.{
  Work, Body, unless_lost, after_report, after_renewal, renewals, resume, begin, execute_task,
}
use gophercast.Engine.Guarded.{start_update_lem, renew_update_lem, close_update_lem}
use gophercast.Engine.Atomic.{complete_transaction_atomic}

module _ {R : Type 0} (P : R → Type 0) where
  -- What the other sessions commit keeps the property.
  abbrev pub SessionsKeep : Env R → Type 0
  SessionsKeep env = (a b : Db R) → env a ≡ some b → P a.rows → P b.rows

  -- So does a mutation, if it succeeds.
  abbrev pub MutationKeeps : Mutation R → Type 0
  MutationKeeps mutate = (a b : R) → run_mutation mutate a ≡ some b → P a → P b

  -- And every mutation that a body hands over.
  abbrev pub BodyKeeps : Body R → Type 0
  BodyKeeps body =
      (seen : Db R) (out : String) (mutate : Mutation R)
      → body seen ≡ ok (out, mutate)
      → MutationKeeps mutate

  module _ (env : Env R) (kept : SessionsKeep env) where
    -- The property holds of the tables outside the engine.
    abbrev Holds : Db R → Type 0
    Holds db = P db.rows

    statement-Holds :
        {A : Type 0} (m : Action R A) (db : Db R)
        → ((d : Db R) → Holds d → Holds (m d).1)
        → Holds db
        → Holds (statement env m db).1
    unfolding statement
    statement-Holds m db h p = elim (Option-cases (env db)) [
      | inl e ↦ rw e p
      | inr (db', e) ↦ rw e (h db' (kept db db' e p))
    ]

    require-Holds :
        (r : Result Error ℕ) (db : Db R) → Holds db → Holds (and_then r require_row db).1
    require-Holds (ok n) db p = ground (arith, p)
    require-Holds (err e) db p = p

    start_task-Holds :
        (id : ℕ) (owner : String) (lease : ℕ) (db : Db R)
        → Holds db
        → Holds (start_task env id owner lease db).1
    unfolding start_task
    start_task-Holds id owner lease db p =
        let s = statement env (start_update id owner lease) db in
        require-Holds s.0 s.1 (
          statement-Holds (start_update id owner lease) db
            (λ d q. rw (start_update_lem d id owner lease) q) p)

    renew_lease-Holds :
        (id : ℕ) (owner : String) (lease : ℕ) (db : Db R)
        → Holds db
        → Holds (renew_lease env id owner lease db).1
    unfolding renew_lease
    renew_lease-Holds id owner lease db p =
        let s = statement env (renew_update id owner lease) db in
        require-Holds s.0 s.1 (
          statement-Holds (renew_update id owner lease) db
            (λ d q. rw (renew_update_lem d id owner lease) q) p)

    fail_task-Holds :
        (id : ℕ) (owner text : String) (db : Db R)
        → Holds db
        → Holds (fail_task env id owner text db).1
    unfolding fail_task
    fail_task-Holds id owner text db p =
        let s = statement env (close_update failed id owner (reason text)) db in
        require-Holds s.0 s.1 (
          statement-Holds (close_update failed id owner (reason text)) db
            (λ d q. rw (close_update_lem d failed id owner (reason text) refl) q) p)

    after_renewal-Holds :
        (r : Result Error (Unit {0})) (rest : Bool × Db R) (db : Db R)
        → Holds rest.1
        → Holds db
        → Holds (after_renewal r rest db).1
    unfolding after_renewal
    after_renewal-Holds (ok done) rest db h p = h
    after_renewal-Holds (err e) rest db h p = p

    renewals-Holds :
        (ticks id : ℕ) (owner : String) (lease : ℕ) (db : Db R)
        → Holds db
        → Holds (renewals env ticks id owner lease db).1
    unfolding renewals
    renewals-Holds zero id owner lease db p = p
    renewals-Holds (suc ticks) id owner lease db p =
        let r = renew_lease env id owner lease db in
        let q = renew_lease-Holds id owner lease db p in
        after_renewal-Holds r.0 (renewals env ticks id owner lease r.1) r.1
          (renewals-Holds ticks id owner lease r.1 q) q

    complete_transaction-Holds :
        (id : ℕ) (owner out : String) (mutate : Mutation R) (db : Db R)
        → MutationKeeps mutate
        → Holds db
        → Holds (complete_transaction id owner out mutate db).1
    complete_transaction-Holds id owner out mutate db h p =
        elim (complete_transaction_atomic id owner out mutate db) [
          | inl (granted, all) ↦ h db.rows _ all.mutated p
          | inr (x, lost) ↦ rw lost p
        ]

    unless_lost-Holds :
        (r : Result Error (Unit {0})) (db : Db R) → Holds db → Holds (unless_lost (r, db)).1
    unfolding unless_lost
    unless_lost-Holds r db p = ground (arith, p)

    after_report-Holds :
        (text : String) (r : Result Error (Unit {0})) (db : Db R)
        → Holds db
        → Holds (after_report text (r, db)).1
    unfolding after_report
    after_report-Holds text r db p = ground (arith, p)

    resume-Holds :
        (still : Bool) (task : Task) (owner : String) (work : Work R) (db : Db R)
        → ((out : String) (mutate : Mutation R) → work ≡ ok (out, mutate) → MutationKeeps mutate)
        → Holds db
        → Holds (resume env still task owner work db).1
    unfolding resume complete_task
    resume-Holds false task owner work db h p = p
    resume-Holds true task owner (ok (out, mutate)) db h p =
        let done = complete_task env task.id owner out mutate db in
        unless_lost-Holds done.0 done.1 (
          statement-Holds (complete_transaction task.id owner out mutate) db
            (λ d q. complete_transaction-Holds task.id owner out mutate d (h out mutate refl) q) p)
    resume-Holds true task owner (err text) db h p =
        let told = fail_task env task.id owner text db in
        after_report-Holds text told.0 told.1 (fail_task-Holds task.id owner text db p)

    begin-Holds :
        (r : Result Error (Unit {0})) (ticks : ℕ) (task : Task) (owner : String) (lease : ℕ)
        (body : Body R) (db : Db R)
        → BodyKeeps body
        → Holds db
        → Holds (begin env r ticks task owner lease body db).1
    unfolding begin
    begin-Holds (ok done) ticks task owner lease body db h p =
        let after = renewals env ticks task.id owner lease db in
        resume-Holds after.0 task owner (body after.1) after.1 (h after.1)
          (renewals-Holds ticks task.id owner lease db p)
    begin-Holds (err task_lost) ticks task owner lease body db h p = p
    begin-Holds (err _) ticks task owner lease body db h p = p

    -- A property of the tables outside the engine that the other sessions keep, and the mutations
    -- of the body, holds after an execution, however it ends.
    pub execute_task-Holds :
        (ticks : ℕ) (task : Task) (owner : String) (lease : ℕ) (body : Body R) (db : Db R)
        → BodyKeeps body
        → P db.rows
        → P (execute_task env ticks task owner lease body db).1.rows
    unfolding execute_task
    execute_task-Holds ticks task owner lease body db h p =
        let started = start_task env task.id owner lease db in
        begin-Holds started.0 ticks task owner lease body started.1 h
          (start_task-Holds task.id owner lease db p)
