-- ===== src/Engine/Races.antt =====
-- Who owns a task in internal/engine: starts that race, and the calls of a worker
-- whose task was put back.
use gophercast.Prelude.{
  ℕ, ◌<◌, ◌≡◌, ◌≢◌, refl, ap, String, Bool, false, List, [], ◌∷◌, map, some, Result, ok, err, arith,
  inl, inr, ◌==◌, ◌⊎◌, Bool-cases, Option-cases, keep, length, All,
}
use gophercast.Engine.Store.{
  failed, reason, TaskRow, Db, Error, task_lost, mutation_failed, Env, update_where, statement,
}
use gophercast.Engine.Client.{
  Mutation, run_mutation, is_startable, held, started, start_update, start_task, renew_lease,
  complete_task, fail_task,
}
use gophercast.Engine.Statements.{Engine}
use gophercast.Engine.Rows.{Evolves, Grows}
use gophercast.Engine.Guarded.{start_update_lem, renew_update_lem, close_update_lem}
use gophercast.Engine.Frame.{Reach-Frame, complete_transaction_lem, complete_transaction_failed}
use gophercast.Engine.Run.{Reach}

-- No other session gets in between.
abbrev pub quiet : {R : Type 0} → Env R
quiet db = some db

-- No row passes the test.
abbrev pub NoneOf : (TaskRow → Bool) → List TaskRow → Type 0
NoneOf p xs = All (λ t. p t ≡ false) xs

pub keep-NoneOf : (p : TaskRow → Bool) (xs : List TaskRow) → NoneOf p xs → keep p xs ≡ []
keep-NoneOf p [] h = refl
keep-NoneOf p (x ∷ xs) h = rw h.0 (keep-NoneOf p xs h.1)

pub map-NoneOf :
    (p : TaskRow → Bool) (f : TaskRow → TaskRow) (xs : List TaskRow)
    → NoneOf p xs
    → map (update_where p f) xs ≡ xs
map-NoneOf p f [] h = refl
map-NoneOf p f (x ∷ xs) h = rw (h.0, map-NoneOf p f xs h.1)

-- A property of every row after an update.
pub All-update {κ} :
    (P : TaskRow → Type κ) (p : TaskRow → Bool) (f : TaskRow → TaskRow) (xs : List TaskRow)
    → ((t : TaskRow) → P (update_where p f t))
    → All P (map (update_where p f) xs)
All-update P p f [] h = tt
All-update P p f (x ∷ xs) h = (h x, All-update P p f xs h)

module _ {R : Type 0} where
  pub start_task-NoneOf :
      (id : ℕ) (owner : String) (lease : ℕ) (db : Db R)
      → NoneOf (is_startable id) db.tasks
      → start_task quiet id owner lease db ≡ (err task_lost, db)
  unfolding start_task
  start_task-NoneOf id owner lease db h = rw (
    start_update_lem db id owner lease,
    keep-NoneOf (is_startable id) db.tasks h,
    map-NoneOf (is_startable id) (started owner lease db.now) db.tasks h,
  )

  pub renew_lease-NoneOf :
      (id : ℕ) (owner : String) (lease : ℕ) (db : Db R)
      → NoneOf (held id owner) db.tasks
      → renew_lease quiet id owner lease db ≡ (err task_lost, db)
  unfolding renew_lease
  renew_lease-NoneOf id owner lease db h = rw (
    renew_update_lem db id owner lease,
    keep-NoneOf (held id owner) db.tasks h,
    map-NoneOf (held id owner) _ db.tasks h,
  )

  pub fail_task-NoneOf :
      (id : ℕ) (owner text : String) (db : Db R)
      → NoneOf (held id owner) db.tasks
      → fail_task quiet id owner text db ≡ (err task_lost, db)
  unfolding fail_task
  fail_task-NoneOf id owner text db h = rw (
    close_update_lem db failed id owner (reason text) refl,
    keep-NoneOf (held id owner) db.tasks h,
    map-NoneOf (held id owner) _ db.tasks h,
  )

  -- The error is that of the mutation, if it has one; either way nothing is written.
  pub complete_task-NoneOf :
      (id : ℕ) (owner result : String) (mutate : Mutation R) (db : Db R)
      → NoneOf (held id owner) db.tasks
      → (complete_task quiet id owner result mutate db ≡ (err task_lost, db))
        ⊎ (complete_task quiet id owner result mutate db ≡ (err mutation_failed, db))
  unfolding complete_task statement
  complete_task-NoneOf id owner result mutate db h =
      elim (Option-cases (run_mutation mutate db.rows)) [
        | inl e ↦ inr (complete_transaction_failed id owner result mutate db e)
        | inr (rows', e) ↦ inl (
            rw (
              complete_transaction_lem id owner result mutate db e,
              keep-NoneOf (held id owner) db.tasks h,
            ))
      ]

abbrev pub if_granted : Result Error (Unit {0}) → String → List String → List String
if_granted (ok _) owner rest = owner ∷ rest
if_granted (err _) owner rest = rest

-- The attempt that the task's row is on.
abbrev pub OnAttempt : ℕ → ℕ → List TaskRow → Type 0
OnAttempt id k xs = All (λ t. t.id ≡ id → t.attempt ≡ k) xs

-- Rows that are taken stay so, until the attempt changes.
taken-Grows :
    (id k n : ℕ) (xs ys : List TaskRow)
    → id < n
    → Grows n xs ys
    → OnAttempt id k xs
    → OnAttempt id k ys
    → NoneOf (is_startable id) xs
    → NoneOf (is_startable id) ys
taken-Grows id k n [] [] lt g a b h = tt
taken-Grows id k n [] (y ∷ ys) lt g a b h =
    (ground arith, taken-Grows id k n [] ys lt g.1 tt b.1 tt)
taken-Grows id k n (x ∷ xs) [] lt g a b h = absurd g
taken-Grows id k n (x ∷ xs) (y ∷ ys) lt g a b h =
    (taken x y g.0 a.0 b.0 h.0, taken-Grows id k n xs ys lt g.1 a.1 b.1 h.1)
  where
    taken :
        (x y : TaskRow)
        → Evolves x y
        → (x.id ≡ id → x.attempt ≡ k)
        → (y.id ≡ id → y.attempt ≡ k)
        → is_startable id x ≡ false
        → is_startable id y ≡ false
    taken x y v a b h = ground (arith, v.stays_taken)

module _ {R : Type 0} where
  after_start :
      (id : ℕ) (owner : String) (lease : ℕ) (db : Db R)
      → NoneOf (is_startable id) (start_update id owner lease db).1.tasks
  after_start id owner lease db = rw (start_update_lem db id owner lease) (
      All-update (λ t. is_startable id t ≡ false) (is_startable id) (started owner lease db.now)
        db.tasks (λ t. ground arith))

  start_task_state :
      (id : ℕ) (owner : String) (lease : ℕ) (db : Db R)
      → (start_task quiet id owner lease db).1 ≡ (start_update id owner lease db).1
  unfolding start_task
  start_task_state id owner lease db =
      rw (start_update_lem db id owner lease)
        (elim (Bool-cases (length (keep (is_startable id) db.tasks) == 0)) [
          | inl e ↦ rw e
          | inr e ↦ rw e
        ])

  start_task_granted :
      (id : ℕ) (owner : String) (lease : ℕ) (db : Db R)
      → keep (is_startable id) db.tasks ≢ []
      → start_task quiet id owner lease db ≡ (ok tt, (start_update id owner lease db).1)
  unfolding start_task
  start_task_granted id owner lease db h = rw (start_update_lem db id owner lease) (ground arith)

  attempts_kept :
      (id k : ℕ) (owner : String) (lease : ℕ) (db : Db R)
      → OnAttempt id k db.tasks
      → OnAttempt id k (start_update id owner lease db).1.tasks
  attempts_kept id k owner lease db h = rw (start_update_lem db id owner lease) (go db.tasks h)
    where
      go :
          (xs : List TaskRow)
          → OnAttempt id k xs
          → OnAttempt id k (map (update_where (is_startable id) (started owner lease db.now)) xs)
      go [] h = tt
      go (x ∷ xs) h = (λ e. ground (arith, h.0), go xs h.1)

  -- Once a worker has tried to start a task, every later start of it is lost, with nothing
  -- written, whatever all sessions do in between, unless they put the task on another attempt.
  pub start_task-single_winner :
      {e : Engine} (id k : ℕ) (first later : String) (lease lease' : ℕ) (db : Db R) {db' : Db R}
      → id < db.next_task
      → OnAttempt id k db.tasks
      → Reach e (start_task quiet id first lease db).1 db'
      → OnAttempt id k db'.tasks
      → start_task quiet id later lease' db' ≡ (err task_lost, db')
  start_task-single_winner id k first later lease lease' db {db'} lt a r b =
      let r' = rw (start_task_state id first lease db) at r in
      start_task-NoneOf id later lease' db' (
        taken-Grows id k (start_update id first lease db).1.next_task
          (start_update id first lease db).1.tasks db'.tasks
          (rw (start_update_lem db id first lease) lt) (Reach-Frame r').grows
          (attempts_kept id k first lease db a) b (after_start id first lease db))

  -- The contenders whose start of the task is granted, when they try one after the other.
  pub winners : ℕ → ℕ → List String → Db R → List String
  winners id lease [] db = []
  winners id lease (o ∷ os) db =
      if_granted (start_task quiet id o lease db).0 o
        (winners id lease os (start_task quiet id o lease db).1)

  no_winners :
      (id lease : ℕ) (os : List String) (db : Db R)
      → NoneOf (is_startable id) db.tasks
      → winners id lease os db ≡ []
  unfolding winners
  no_winners id lease [] db h = refl
  no_winners id lease (o ∷ os) db h =
      rw (start_task-NoneOf id o lease db h) (no_winners id lease os db h)

  -- Of any number of workers that start an ASSIGNED task, exactly one wins: the first to come.
  pub winners-one :
      (id lease : ℕ) (o : String) (os : List String) (db : Db R)
      → keep (is_startable id) db.tasks ≢ []
      → winners id lease (o ∷ os) db ≡ o ∷ []
  unfolding winners
  winners-one id lease o os db h =
      rw (start_task_granted id o lease db h)
        (ap (λ l. o ∷ l) (no_winners id lease os _ (after_start id o lease db)))
