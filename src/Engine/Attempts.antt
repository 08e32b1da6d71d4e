-- ===== src/Engine/Attempts.antt =====
-- The attempts of a task in internal/engine, and what becomes of a task that no worker serves.
use gophercast.Prelude.{
  ℕ, zero, suc, ◌+◌, ◌<◌, ◌≡◌, ap, ◌∙◌, true, false, List, [], ◌∷◌, map, arith, All, inl, inr,
  Bool-cases,
}
use gophercast.Engine.Store.{TaskRow, Db, is_terminal, update_where}
use gophercast.Engine.Statements.{
  Engine, is_retryable, is_exhausted, reassigned, given_up, reassign_update, exhaust_update,
}
use gophercast.Engine.Guarded.{reassign_update_lem, exhaust_update_lem}

-- What `reap` writes, `wait` after the last pass.
unfoldable pub reap_after : {R : Type 0} → Engine → ℕ → Db R → Db R
reap_after e wait db =
    (exhaust_update e (reassign_update e (record db { now = db.now + wait })).1).1

unfoldable pub reap_times : {R : Type 0} → Engine → ℕ → ℕ → Db R → Db R
reap_times e wait zero db = db
reap_times e wait (suc n) db = reap_times e wait n (reap_after e wait db)

-- One row, through the two statements of a pass at `now`.
abbrev reaped : Engine → ℕ → TaskRow → TaskRow
reaped e now t =
    update_where (is_exhausted e now) (given_up now)
      (update_where (is_retryable e now) (reassigned e now) t)

-- The row is terminal, or its lease ends before the next pass and it has at most `n` passes left.
abbrev pub Doomed : Engine → ℕ → ℕ → ℕ → TaskRow → Type 0
Doomed e wait now n t =
    is_terminal t.state ≡ false → (t.lease_expires < now + wait) × (e.max_attempts < t.attempt + n)

reaped-Doomed :
    (e : Engine) (wait now n : ℕ) (t : TaskRow)
    → e.lease < wait
    → Doomed e wait now (suc n) t
    → Doomed e wait (now + wait) n (reaped e (now + wait) t)
reaped-Doomed e wait now n t lt h live = ground (arith, h)

map-Doomed :
    (e : Engine) (wait now n : ℕ) (xs : List TaskRow)
    → e.lease < wait
    → All (Doomed e wait now (suc n)) xs
    → All (Doomed e wait (now + wait) n) (
        map
          (update_where (is_exhausted e (now + wait)) (given_up (now + wait)))
          (map (update_where (is_retryable e (now + wait)) (reassigned e (now + wait))) xs))
map-Doomed e wait now n [] lt h = tt
map-Doomed e wait now n (x ∷ xs) lt h =
    (reaped-Doomed e wait now n x lt h.0, map-Doomed e wait now n xs lt h.1)

last_pass :
    (e : Engine) (wait now : ℕ) (t : TaskRow)
    → Doomed e wait now 1 t
    → is_terminal (reaped e (now + wait) t).state ≡ true
last_pass e wait now t h = elim (Bool-cases (is_terminal t.state)) [
  | inl over ↦ ground arith
  | inr live ↦ ground (arith, h live)
]

map-last_pass :
    (e : Engine) (wait now : ℕ) (xs : List TaskRow)
    → All (Doomed e wait now 1) xs
    → All
        (λ t. is_terminal t.state ≡ true)
        (map
          (update_where (is_exhausted e (now + wait)) (given_up (now + wait)))
          (map (update_where (is_retryable e (now + wait)) (reassigned e (now + wait))) xs))
map-last_pass e wait now [] h = tt
map-last_pass e wait now (x ∷ xs) h = (last_pass e wait now x h.0, map-last_pass e wait now xs h.1)

module _ {R : Type 0} (e : Engine) (wait : ℕ) where
  reap_after_lem :
      (db : Db R)
      → reap_after e wait db ≡ record db {
        now = db.now + wait;
        tasks = map (update_where (is_exhausted e (db.now + wait)) (given_up (db.now + wait))) (
            map
              (update_where (is_retryable e (db.now + wait)) (reassigned e (db.now + wait)))
              db.tasks);
      }
  unfolding reap_after
  reap_after_lem db =
      ap (λ p. (exhaust_update e p.1).1) (reassign_update_lem (record db { now = db.now + wait }) e)
      ∙ ap (λ p. p.1)
          (exhaust_update_lem
            (record db {
              now = db.now + wait;
              tasks =
                  map (update_where (is_retryable e (db.now + wait)) (reassigned e (db.now + wait)))
                    db.tasks;
            })
            e)

  -- Nothing waits for ever: if every lease ends before the next pass of the reaper, the passes are
  -- further apart than the lease that a pass grants, and nobody serves the tasks, then all of them
  -- are terminal after as many passes as they have attempts left, and one more.
  pub reap_times-terminal :
      (n : ℕ) (db : Db R)
      → e.lease < wait
      → All (Doomed e wait db.now (suc n)) db.tasks
      → All (λ t. is_terminal t.state ≡ true) (reap_times e wait (suc n) db).tasks
  unfolding reap_times
  reap_times-terminal zero db lt h = rw (reap_after_lem db) (map-last_pass e wait db.now db.tasks h)
  reap_times-terminal (suc n) db lt h =
      reap_times-terminal n (reap_after e wait db) lt
        (rw (reap_after_lem db) (map-Doomed e wait db.now (suc n) db.tasks lt h))
