-- ===== src/Engine/Guarded.antt =====
-- The statements of internal/engine that update tasks: what each does to the table, as an equation.
use gophercast.Prelude.{ℕ, ◌≡◌, String, false, map, ok, arith, keep, length}
use gophercast.Engine.Store.{is_assigned, TaskState, Outcome, Db, update_where}
use gophercast.Engine.Client.{
  is_startable, held, started, renewed, closed, start_update, renew_update, close_update,
}
use gophercast.Engine.Statements.{
  Engine, is_retryable, is_exhausted, reassigned, given_up, reassign_update, exhaust_update,
}
use gophercast.Engine.Rows.{Keeps, update_tasks-Keeps, update_tasks_returning-Keeps}

pub start-Keeps :
    (id : ℕ) (owner : String) (lease now : ℕ) → Keeps (is_startable id) (started owner lease now)
start-Keeps id owner lease now = record {
  spares = λ t h. ground arith;
  evolves = λ t h. ground arith;
}

pub renew-Keeps :
    (id : ℕ) (owner : String) (lease now : ℕ) → Keeps (held id owner) (renewed lease now)
renew-Keeps id owner lease now = record {
  spares = λ t h. ground arith;
  evolves = λ t h. ground arith;
}

pub close-Keeps :
    (state : TaskState) (id : ℕ) (owner : String) (result : Outcome) (now : ℕ)
    → is_assigned state ≡ false
    → Keeps (held id owner) (closed state result now)
close-Keeps state id owner result now e = record {
  spares = λ t h. ground arith;
  evolves = λ t h. ground arith;
}

pub reassign-Keeps : (e : Engine) (now : ℕ) → Keeps (is_retryable e now) (reassigned e now)
reassign-Keeps e now = record { spares = λ t h. ground arith; evolves = λ t h. ground arith }

pub exhaust-Keeps : (e : Engine) (now : ℕ) → Keeps (is_exhausted e now) (given_up now)
exhaust-Keeps e now = record { spares = λ t h. ground arith; evolves = λ t h. ground arith }

-- The statements as equations: the number of rows affected, and the table rewritten.
module _ {R : Type 0} (db : Db R) where
  pub start_update_lem :
      (id : ℕ) (owner : String) (lease : ℕ)
      → start_update id owner lease db ≡ (
        ok (length (keep (is_startable id) db.tasks)),
        record db {
          tasks = map (update_where (is_startable id) (started owner lease db.now)) db.tasks;
        },
      )
  unfolding start_update
  start_update_lem id owner lease = update_tasks-Keeps (start-Keeps id owner lease db.now) db

  pub renew_update_lem :
      (id : ℕ) (owner : String) (lease : ℕ)
      → renew_update id owner lease db ≡ (
        ok (length (keep (held id owner) db.tasks)),
        record db { tasks = map (update_where (held id owner) (renewed lease db.now)) db.tasks },
      )
  unfolding renew_update
  renew_update_lem id owner lease = update_tasks-Keeps (renew-Keeps id owner lease db.now) db

  pub close_update_lem :
      (state : TaskState) (id : ℕ) (owner : String) (result : Outcome)
      → is_assigned state ≡ false
      → close_update state id owner result db ≡ (
        ok (length (keep (held id owner) db.tasks)),
        record db {
          tasks = map (update_where (held id owner) (closed state result db.now)) db.tasks;
        },
      )
  unfolding close_update
  close_update_lem state id owner result e =
      update_tasks-Keeps (close-Keeps state id owner result db.now e) db

  pub reassign_update_lem :
      (e : Engine)
      → reassign_update e db ≡ (
        ok (map (reassigned e db.now) (keep (is_retryable e db.now) db.tasks)),
        record db {
          tasks = map (update_where (is_retryable e db.now) (reassigned e db.now)) db.tasks;
        },
      )
  unfolding reassign_update
  reassign_update_lem e = update_tasks_returning-Keeps (reassign-Keeps e db.now) db

  pub exhaust_update_lem :
      (e : Engine)
      → exhaust_update e db ≡ (
        ok (length (keep (is_exhausted e db.now) db.tasks)),
        record db { tasks = map (update_where (is_exhausted e db.now) (given_up db.now)) db.tasks },
      )
  unfolding exhaust_update
  exhaust_update_lem e = update_tasks-Keeps (exhaust-Keeps e db.now) db
