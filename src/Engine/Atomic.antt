-- ===== src/Engine/Atomic.antt =====
-- What an execution of a task in internal/engine writes to the tables outside the engine.
use gophercast.Prelude.{
  ℕ, zero, suc, ap, ◌≡◌, ◌≢◌, refl, sym, ◌∙◌, String, Bool, true, false, [], map, some, Result, ok,
  err, inl, inr, ◌⊎◌, Bool-cases, Option-cases, length, keep, arith, ◌==◌,
}
use gophercast.Engine.Store.{
  finished, failed, output, reason, Db, Error, task_lost, mutation_failed, Action, Env, statement,
  require_row, update_where, and_then,
}
use gophercast.Engine.Client.{
  Mutation, Task, run_mutation, held, closed, start_task, renew_lease, start_update, renew_update,
  close_update, complete_transaction, complete_task, fail_task,
}
use gophercast.Engine.Lifecycle.{
  Work, Body, unless_lost, after_report, after_renewal, renewals, resume, begin, execute_task,
}
use gophercast.Engine.Guarded.{start_update_lem, renew_update_lem, close_update_lem}
use gophercast.Engine.Frame.{complete_transaction_lem, complete_transaction_failed}

-- The transaction commits: the mutation succeeded, a row was held, every held row is FINISHED with
-- the result, and nothing else in the engine's tables has changed.
pub record Committed {R : Type 0} (id : ℕ) (owner result : String) (mutate : Mutation R)
    (before after : Db R) : Type 0 where
  pub mutated : run_mutation mutate before.rows ≡ some after.rows
  pub was_held : keep (held id owner) before.tasks ≢ []
  pub tasks_closed :
      after.tasks
      ≡ map (update_where (held id owner) (closed finished (output result) before.now)) before.tasks
  pub workflows_kept : after.workflows ≡ before.workflows

module _ {R : Type 0} (id : ℕ) (owner result : String) (mutate : Mutation R) (db : Db R) where
  -- The completion of a task is all or nothing: either it is granted, and the mutation and the
  -- terminal write are both in the database, or it is an error, and the database is as it was.
  pub complete_transaction_atomic :
      ((complete_transaction id owner result mutate db).0 ≡ ok tt)
        × Committed id owner result mutate db (complete_transaction id owner result mutate db).1
      ⊎ ((x : Error) × (complete_transaction id owner result mutate db ≡ (err x, db)))
  complete_transaction_atomic = elim (Option-cases (run_mutation mutate db.rows)) [
    | inl e ↦ inr (mutation_failed, complete_transaction_failed id owner result mutate db e)
    | inr (rows', e) ↦ elim (Bool-cases (length (keep (held id owner) db.tasks) == 0)) [
      | inl lost ↦
          inr (task_lost, rw (complete_transaction_lem id owner result mutate db e) (rw lost))
      | inr won ↦ inl (
          rw (complete_transaction_lem id owner result mutate db e) (
            rw won (
              refl,
              record {
                mutated = e;
                was_held = λ none_held. ground arith;
                tasks_closed = refl;
                workflows_kept = refl;
              },
            )))
    ]
  ]

-- The run left the other tables alone, or it succeeded and they hold all that the mutation of its
-- body's work wrote.
abbrev pub AllOrNothing : {R : Type 0} → Body R → Db R → Result Error (Unit {0}) × Db R → Type 0
AllOrNothing body before (r, after) =
    (after.rows ≡ before.rows)
    ⊎ ((seen : Db _) × (out : String) × (mutate : Mutation _) × (body seen ≡ ok (out, mutate))
        × (run_mutation mutate before.rows ≡ some after.rows)
        × (r ≡ ok tt))

-- The other sessions leave the tables outside the engine alone.
abbrev pub LeavesRows : {R : Type 0} → Env R → Type 0
LeavesRows env = (a b : Db _) → env a ≡ some b → b.rows ≡ a.rows

module _ {R : Type 0} (env : Env R) (leaves : LeavesRows env) where
  statement-rows :
      {A : Type 0} (m : Action R A) (db : Db R)
      → ((d : Db R) → (m d).1.rows ≡ d.rows)
      → (statement env m db).1.rows ≡ db.rows
  unfolding statement
  statement-rows m db h = elim (Option-cases (env db)) [
    | inl e ↦ rw e
    | inr (db', e) ↦ rw e (h db' ∙ leaves db db' e)
  ]

  require-rows : (r : Result Error ℕ) (db : Db R) → (and_then r require_row db).1.rows ≡ db.rows
  require-rows r db = ground arith

  start_task-rows :
      (id : ℕ) (owner : String) (lease : ℕ) (db : Db R)
      → (start_task env id owner lease db).1.rows ≡ db.rows
  unfolding start_task
  start_task-rows id owner lease db =
      let s = statement env (start_update id owner lease) db in
      require-rows s.0 s.1
      ∙ statement-rows (start_update id owner lease) db
          (λ d. rw (start_update_lem d id owner lease))

  renew_lease-rows :
      (id : ℕ) (owner : String) (lease : ℕ) (db : Db R)
      → (renew_lease env id owner lease db).1.rows ≡ db.rows
  unfolding renew_lease
  renew_lease-rows id owner lease db =
      let s = statement env (renew_update id owner lease) db in
      require-rows s.0 s.1
      ∙ statement-rows (renew_update id owner lease) db
          (λ d. rw (renew_update_lem d id owner lease))

  fail_task-rows :
      (id : ℕ) (owner text : String) (db : Db R) → (fail_task env id owner text db).1.rows ≡ db.rows
  unfolding fail_task
  fail_task-rows id owner text db =
      let s = statement env (close_update failed id owner (reason text)) db in
      require-rows s.0 s.1
      ∙ statement-rows (close_update failed id owner (reason text)) db
          (λ d. rw (close_update_lem d failed id owner (reason text) refl))

  renewals-rows :
      (ticks id : ℕ) (owner : String) (lease : ℕ) (db : Db R)
      → (renewals env ticks id owner lease db).1.rows ≡ db.rows
  unfolding renewals
  renewals-rows zero id owner lease db = refl
  renewals-rows (suc ticks) id owner lease db =
      let r = renew_lease env id owner lease db in
      go r.0 r.1 (renewals-rows ticks id owner lease r.1) ∙ renew_lease-rows id owner lease db
    where
      go :
          (r : Result Error (Unit {0})) (db' : Db R)
          → (renewals env ticks id owner lease db').1.rows ≡ db'.rows
          → (after_renewal r (renewals env ticks id owner lease db') db').1.rows ≡ db'.rows
      go (ok _) db' h = h
      go (err _) db' h = refl

  complete_task-rows :
      (id : ℕ) (owner out : String) (mutate : Mutation R) (db : Db R)
      → let done = complete_task env id owner out mutate db in
        (done.1.rows ≡ db.rows)
        ⊎ (run_mutation mutate db.rows ≡ some done.1.rows) × (done.0 ≡ ok tt)
  unfolding complete_task statement
  complete_task-rows id owner out mutate db = elim (Option-cases (env db)) [
    | inl e ↦ rw e (inl refl)
    | inr (db', e) ↦ rw e (elim (complete_transaction_atomic id owner out mutate db') [
      | inl (granted, all) ↦ inr (rw (← leaves db db' e) all.mutated, granted)
      | inr (x, lost) ↦ inl (rw lost (leaves db db' e))
    ])
  ]

  unless_lost_ok :
      (d : Db R) (r : Result Error (Unit {0})) → r ≡ ok tt → unless_lost (r, d) ≡ (ok tt, d)
  unfolding unless_lost
  unless_lost_ok d r h = rw h

  unless_lost_rows : (d : Db R) (r : Result Error (Unit {0})) → (unless_lost (r, d)).1 ≡ d
  unfolding unless_lost
  unless_lost_rows d r = ground arith

  after_report_rows :
      (d : Db R) (text : String) (r : Result Error (Unit {0})) → (after_report text (r, d)).1 ≡ d
  unfolding after_report
  after_report_rows d text r = ground arith

  resume-AllOrNothing :
      (still : Bool) (task : Task) (owner : String) (body : Body R) (before seen : Db R)
      (work : Work R)
      → work ≡ body seen
      → seen.rows ≡ before.rows
      → AllOrNothing body before (resume env still task owner work seen)
  unfolding resume
  resume-AllOrNothing false task owner body before seen work w same = inl same
  resume-AllOrNothing true task owner body before seen (ok (out, mutate)) w same =
      let done = complete_task env task.id owner out mutate seen in
      elim (complete_task-rows task.id owner out mutate seen) [
        | inl kept ↦ inl (ap (λ d. d.rows) (unless_lost_rows done.1 done.0) ∙ kept ∙ same)
        | inr (written, granted) ↦ inr (
            rw (unless_lost_ok done.1 done.0 granted)
              (seen, out, mutate, sym w, rw (← same) written, refl))
      ]
  resume-AllOrNothing true task owner body before seen (err text) w same =
      let told = fail_task env task.id owner text seen in
      inl (
        ap (λ d. d.rows) (after_report_rows told.1 text told.0)
        ∙ fail_task-rows task.id owner text seen
        ∙ same)

  -- Whatever becomes of an execution (a lost start, a lease lost in the middle, an error of the
  -- body or of the database, a lost completion), the tables outside the engine are as they were;
  -- only a run that ends without error can have changed them, and then by the whole mutation of its
  -- body's work. This holds while no other session writes those tables.
  pub execute_task-AllOrNothing :
      (ticks : ℕ) (task : Task) (owner : String) (lease : ℕ) (body : Body R) (db : Db R)
      → AllOrNothing body db (execute_task env ticks task owner lease body db)
  unfolding execute_task
  execute_task-AllOrNothing ticks task owner lease body db =
      go (start_task env task.id owner lease db).0 (start_task env task.id owner lease db).1
        (start_task-rows task.id owner lease db)
    where
      go :
          (r : Result Error (Unit {0})) (db' : Db R)
          → db'.rows ≡ db.rows
          → AllOrNothing body db (begin env r ticks task owner lease body db')
      go (ok _) db' same =
          let kept = renewals env ticks task.id owner lease db' in
          resume-AllOrNothing kept.0 task owner body db kept.1 (body kept.1) refl
            (renewals-rows ticks task.id owner lease db' ∙ same)
      go (err task_lost) db' same = inl same
      go (err _) db' same = inl same
