-- ===== src/Engine/Frame.antt =====
-- What every step of a run of internal/engine may change of a row and of the clock.
use gophercast.Prelude.{
  ℕ, ◌≤◌, ◌≡◌, refl, String, Bool, true, Option, none, some, map, Memᴰ, ok, err, arith, inl, inr,
  ◌==◌, if◌then◌else◌, Bool-cases, Option-cases, keep, length,
}
use gophercast.Engine.Store.{
  finished, failed, output, TaskRow, Db, task_lost, mutation_failed, is_terminal, update_where,
  update_workflows,
}
use gophercast.Engine.Client.{
  Mutation, run_mutation, held, closed, commit, complete_over, complete_transaction,
}
use gophercast.Engine.Statements.{
  Engine, lacks_task, insert_rows, advance_update, abort_update, assign_insert, create_insert,
}
use gophercast.Engine.Rows.{Keeps, Grows, Grows-refl, Grows-trans, map-Grows, Grows-mem_terminal}
use gophercast.Engine.Guarded.{
  start-Keeps, renew-Keeps, close-Keeps, reassign-Keeps, exhaust-Keeps, start_update_lem,
  renew_update_lem, close_update_lem, reassign_update_lem, exhaust_update_lem,
}
use gophercast.Engine.Insertion.{OnSome, insert_rows-Grows}
use gophercast.Engine.Run.{
  Step, tick, elsewhere, create, start, renew, complete, give_up, reassign, exhaust, advance, abort,
  assign, Reach, here, next,
}

-- The transaction of `CompleteTask` commits both writes, or none.
pub complete_transaction_lem :
    {R : Type 0} (id : ℕ) (owner result : String) (mutate : Mutation R) (db : Db R) {rows' : R}
    → run_mutation mutate db.rows ≡ some rows'
    → complete_transaction id owner result mutate db ≡ (
        if length (keep (held id owner) db.tasks) == 0 then (err task_lost, db) else (
          ok tt,
          record db {
            tasks =
                map
                  (update_where (held id owner) (closed finished (output result) db.now))
                  db.tasks;
            rows = rows';
          },
        ))
unfolding complete_transaction complete_over commit
complete_transaction_lem id owner result mutate db {rows'} e =
    rw (e, close_update_lem (record db { rows = rows' }) finished id owner (output result) refl)

pub complete_transaction_failed :
    {R : Type 0} (id : ℕ) (owner result : String) (mutate : Mutation R) (db : Db R)
    → run_mutation mutate db.rows ≡ none
    → complete_transaction id owner result mutate db ≡ (err mutation_failed, db)
unfolding complete_transaction complete_over
complete_transaction_failed id owner result mutate db e = rw e

pub record Frame {R : Type 0} (a b : Db R) : Type 0 where
  pub clock : a.now ≤ b.now
  pub ids : a.next_task ≤ b.next_task
  pub grows : Grows a.next_task a.tasks b.tasks

module _ {R : Type 0} where
  pub Frame-refl : (db : Db R) → Frame db db
  Frame-refl db = record {
    clock = omega arith;
    ids = omega arith;
    grows = Grows-refl db.next_task db.tasks;
  }

  pub Frame-trans : {a b c : Db R} → Frame a b → Frame b c → Frame a c
  Frame-trans {a} {b} {c} f g = record {
    clock = omega (arith, f.clock, g.clock);
    ids = omega (arith, f.ids, g.ids);
    grows = Grows-trans a.tasks b.tasks c.tasks f.ids f.grows g.grows;
  }

  rewriting-Frame :
      (db : Db R) {p : TaskRow → Bool} {f : TaskRow → TaskRow} (rows' : R)
      → Keeps p f
      → Frame db (record db { tasks = map (update_where p f) db.tasks; rows = rows' })
  rewriting-Frame db rows' k = record {
    clock = omega arith;
    ids = omega arith;
    grows = map-Grows k db.next_task db.tasks;
  }

  complete-Frame :
      (db : Db R) (id : ℕ) (owner result : String) (mutate : Mutation R)
      → Frame db (complete_transaction id owner result mutate db).1
  complete-Frame db id owner result mutate = elim (Option-cases (run_mutation mutate db.rows)) [
    | inl e ↦ rw (complete_transaction_failed id owner result mutate db e) (Frame-refl db)
    | inr (rows', e) ↦
        rw (complete_transaction_lem id owner result mutate db e)
          (elim (Bool-cases (length (keep (held id owner) db.tasks) == 0)) [
            | inl lost ↦ rw lost (Frame-refl db)
            | inr won ↦ rw won (
                rewriting-Frame db rows'
                  (close-Keeps finished id owner (output result) db.now refl))
          ])
  ]

  assign-Frame : (seen db : Db R) (lease : ℕ) → Frame db (assign_insert lease seen db).1
  unfolding assign_insert
  assign-Frame seen db lease =
      go
        (insert_rows seen.now lease (keep (lacks_task seen.tasks) seen.workflows) db.tasks
          db.next_task)
        refl
        (insert_rows-Grows seen.now lease (keep (lacks_task seen.tasks) seen.workflows) db.tasks
          db.next_task)
    where
      go :
          (o : Option _)
          → insert_rows seen.now lease
              (keep (lacks_task seen.tasks) seen.workflows)
              db.tasks
              db.next_task
            ≡ o
          → OnSome (λ r. Grows db.next_task db.tasks r.tasks × (db.next_task ≤ r.next_task)) o
          → Frame db (assign_insert lease seen db).1
      go none e h = rw (e, assign_insert) (Frame-refl db)
      go (some r) e h =
          rw (e, assign_insert) (record { clock = omega arith; ids = h.1; grows = h.0 })

  pub Step-Frame : {e : Engine} {a b : Db R} → Step e a b → Frame a b
  unfolding update_workflows advance_update abort_update create_insert
  Step-Frame (tick db n) = record {
    clock = omega arith;
    ids = omega arith;
    grows = Grows-refl db.next_task db.tasks;
  }
  Step-Frame (elsewhere db rows') = record {
    clock = omega arith;
    ids = omega arith;
    grows = Grows-refl db.next_task db.tasks;
  }
  Step-Frame (create db mp def h) = record {
    clock = omega arith;
    ids = omega arith;
    grows = Grows-refl db.next_task db.tasks;
  }
  Step-Frame (start db id owner lease) =
      rw (start_update_lem db id owner lease)
        (rewriting-Frame db db.rows (start-Keeps id owner lease db.now))
  Step-Frame (renew db id owner lease) =
      rw (renew_update_lem db id owner lease)
        (rewriting-Frame db db.rows (renew-Keeps id owner lease db.now))
  Step-Frame (complete db id owner result mutate) = complete-Frame db id owner result mutate
  Step-Frame (give_up db id owner why) =
      rw (close_update_lem db failed id owner why refl)
        (rewriting-Frame db db.rows (close-Keeps failed id owner why db.now refl))
  Step-Frame {e} (reassign db) =
      rw (reassign_update_lem db e) (rewriting-Frame db db.rows (reassign-Keeps e db.now))
  Step-Frame {e} (exhaust db) =
      rw (exhaust_update_lem db e) (rewriting-Frame db db.rows (exhaust-Keeps e db.now))
  Step-Frame (advance db) = record {
    clock = omega arith;
    ids = omega arith;
    grows = Grows-refl db.next_task db.tasks;
  }
  Step-Frame (abort db) = record {
    clock = omega arith;
    ids = omega arith;
    grows = Grows-refl db.next_task db.tasks;
  }
  Step-Frame {e} (assign seen db) = assign-Frame seen db e.lease

  pub Reach-Frame : {e : Engine} {a b : Db R} → Reach e a b → Frame a b
  Reach-Frame {a = a} here = Frame-refl a
  Reach-Frame (next r s) = Frame-trans (Reach-Frame r) (Step-Frame s)

  -- A task that is FINISHED or FAILED stays in the table, its whole row unchanged, whatever
  -- statements any sessions run afterwards in any order.
  pub terminal_immutable :
      {e : Engine} {a b : Db R} {t : TaskRow}
      → Reach e a b
      → is_terminal t.state ≡ true
      → Memᴰ t a.tasks
      → Memᴰ t b.tasks
  terminal_immutable {a = a} {b = b} r h m =
      Grows-mem_terminal a.next_task a.tasks b.tasks (Reach-Frame r).grows h m
