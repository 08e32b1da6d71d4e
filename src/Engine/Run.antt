-- ===== src/Engine/Run.antt =====
-- Every interleaving of the sessions that work on internal/engine's tables: one step is one
-- statement or transaction of some session, or time that passes.
use gophercast.Prelude.{ℕ, ◌+◌, ◌<◌, ◌≡◌, String, [], length, some}
use gophercast.Engine.Store.{Definition, Outcome, Db, failed, Env}
use gophercast.Engine.Client.{
  Mutation, start_update, renew_update, close_update, complete_transaction,
}
use gophercast.Engine.Statements.{
  Engine, reassign_update, exhaust_update, advance_update, abort_update, assign_insert,
  create_insert,
}

module _ {R : Type 0} (e : Engine) where
  pub data Step : Db R → Db R → Type 0 where
    tick : (db : Db R) (elapsed : ℕ) → Step db (record db { now = db.now + elapsed })
    elsewhere : (db : Db R) (rows' : R) → Step db (record db { rows = rows' })
    create :
        (db : Db R) (mediapackage_id : String) (def : Definition)
        → 0 < length def
        → Step db (create_insert mediapackage_id def db).1
    start :
        (db : Db R) (id : ℕ) (owner : String) (lease : ℕ)
        → Step db (start_update id owner lease db).1
    renew :
        (db : Db R) (id : ℕ) (owner : String) (lease : ℕ)
        → Step db (renew_update id owner lease db).1
    complete :
        (db : Db R) (id : ℕ) (owner result : String) (mutate : Mutation R)
        → Step db (complete_transaction id owner result mutate db).1
    give_up :
        (db : Db R) (id : ℕ) (owner : String) (why : Outcome)
        → Step db (close_update failed id owner why db).1
    reassign : (db : Db R) → Step db (reassign_update e db).1
    exhaust : (db : Db R) → Step db (exhaust_update e db).1
    advance : (db : Db R) → Step db (advance_update db).1
    abort : (db : Db R) → Step db (abort_update db).1
    -- The snapshot may be any.
    assign : (seen db : Db R) → Step db (assign_insert e.lease seen db).1

  pub data Reach (a : Db R) : Db R → Type 0 where
    here : Reach a a
    next : {b c : Db R} → Reach a b → Step b c → Reach a c

  pub Reach-trans : {a b c : Db R} → Reach a b → Reach b c → Reach a c
  Reach-trans f here = f
  Reach-trans f (next g s) = next (Reach-trans f g) s

  -- The other sessions take steps of the same kinds.
  abbrev pub Plays : Env R → Type 0
  Plays env = (a b : Db R) → env a ≡ some b → Reach a b

-- A database with no workflow yet.
unfoldable pub empty_db : {R : Type 0} → R → Db R
empty_db rows = record {
  now = 0;
  workflows = [];
  tasks = [];
  next_workflow = 1;
  next_task = 1;
  rows = rows;
}
