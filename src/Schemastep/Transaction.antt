-- ===== src/Schemastep/Transaction.antt =====
-- internal/schemastep/schemastep.go: the transaction of a DDL step and of its ledger row.
use gophercast.Prelude.{
  ℕ, zero, suc, ◌+◌, ◌≡◌, ◌⊎◌, ◌<◌, ◌≤◌, refl, String, Bool, true, false, not, ◌&&◌, ◌||◌, Option,
  none, some, [], ◌∷◌, ◌++◌, ◌==◌, Result, ok, err, if◌then◌else◌, any, inl, inr, Bool-cases, arith,
}
use gophercast.Schemastep.Plan.{StepError, unique_violation, cancelled, still_blocked, Step}
use gophercast.Schemastep.Runner.{
  World, Outside, row_of, is_lock_timeout, new_row, committed, insert_row, attempt_tx, or_retry,
  attempts_tx, run_tx_ddl,
}

module _ {D : Type 0} (out : Outside D) (pkg : String) where
  -- Nothing happened, with an error; or one attempt below the bound took effect, with its ledger row.
  abbrev pub Atomic : ℕ → Step D → String → World D → World D × Option StepError → Type 0
  Atomic bound s sum w p =
      ((e : StepError) × (p ≡ (w, some e)))
      ⊎ ((i : ℕ) × (schema : D) × (i < bound)
          × (out.exec i s.sql w.schema ≡ ok schema)
          × (any (row_of pkg s.n) w.ledger ≡ false)
          × (p ≡ (
            record { schema = schema; ledger = w.ledger ++ new_row out pkg s sum ∷ [] },
            none,
          )))

  committed-Atomic :
      (bound i : ℕ) (s : Step D) (sum : String) (w : World D) (schema : D) (c : Option StepError)
      → i < bound
      → out.exec i s.sql w.schema ≡ ok schema
      → any (row_of pkg s.n) w.ledger ≡ false
      → Atomic bound s sum w (
          committed out pkg c w
            (record { schema = schema; ledger = w.ledger ++ new_row out pkg s sum ∷ [] }))
  committed-Atomic bound i s sum w schema none l x a = inr (i, schema, l, x, a, refl)
  committed-Atomic bound i s sum w schema (some e) l x a = inl (e, refl)

  unless_taken-Atomic :
      (bound i : ℕ) (s : Step D) (sum : String) (w : World D) (schema : D) (taken : Bool)
      → i < bound
      → out.exec i s.sql w.schema ≡ ok schema
      → any (row_of pkg s.n) w.ledger ≡ taken
      → Atomic bound s sum w (
          if taken
          then (w, some unique_violation)
          else committed out pkg
              (out.commit i)
              w
              (record { schema = schema; ledger = w.ledger ++ new_row out pkg s sum ∷ [] }))
  unless_taken-Atomic bound i s sum w schema true l x a = inl (unique_violation, refl)
  unless_taken-Atomic bound i s sum w schema false l x a =
      committed-Atomic bound i s sum w schema (out.commit i) l x a

  insert_row-Atomic :
      (bound i : ℕ) (s : Step D) (sum : String) (w : World D) (r : Result StepError D)
      → i < bound
      → out.exec i s.sql w.schema ≡ r
      → Atomic bound s sum w (insert_row out pkg i s sum w r)
  insert_row-Atomic bound i s sum w (err e) l x = inl (e, refl)
  insert_row-Atomic bound i s sum w (ok schema) l x =
      unless_taken-Atomic bound i s sum w schema (any (row_of pkg s.n) w.ledger) l x refl

  or_retry-Atomic :
      (guarded : Bool) (bound : ℕ) (s : Step D) (sum : String) (w : World D)
      (p next : World D × Option StepError)
      → Atomic bound s sum w p
      → Atomic bound s sum w next
      → Atomic bound s sum w (or_retry out pkg guarded p next)
  or_retry-Atomic guarded bound s sum w p next (inl (e, q)) k =
      elim (Bool-cases (not guarded || not (is_lock_timeout e))) [
        | inl y ↦ rw (q, y) (inl (e, refl))
        | inr n ↦ rw (q, n) k
      ]
  or_retry-Atomic guarded bound s sum w p next (inr (i, schema, l, x, a, q)) k =
      rw (q) (inr (i, schema, l, x, a, refl))

  attempts_tx-Atomic :
      (guarded : Bool) (left i bound : ℕ) (s : Step D) (sum : String) (w : World D)
      → i + left ≤ bound
      → Atomic bound s sum w (attempts_tx out pkg guarded left i s sum w)
  unfolding attempts_tx attempt_tx
  attempts_tx-Atomic guarded zero i bound s sum w h = inl (still_blocked, refl)
  attempts_tx-Atomic guarded (suc left) i bound s sum w h =
      elim (Bool-cases (not (i == 0) && out.is_done i)) [
        | inl y ↦ rw (y) (inl (cancelled, refl))
        | inr n ↦ rw (n) (
            or_retry-Atomic guarded bound s sum w
              (insert_row out pkg i s sum w (out.exec i s.sql w.schema))
              (attempts_tx out pkg guarded left (i + 1) s sum w)
              (insert_row-Atomic bound i s sum w (out.exec i s.sql w.schema) (omega arith) refl)
              (attempts_tx-Atomic guarded left (i + 1) bound s sum w (omega arith)))
      ]

  -- A DDL step ends in an error with the schema and the ledger as they were, or one of its attempts, of
  -- which a guarded step has twenty and another one, has taken effect together with the step's ledger row.
  pub run_tx_ddl-Atomic :
      (guarded : Bool) (s : Step D) (sum : String) (w : World D)
      → Atomic (if guarded then 20 else 1) s sum w (run_tx_ddl out pkg guarded s sum w)
  unfolding run_tx_ddl
  run_tx_ddl-Atomic true s sum w = attempts_tx-Atomic true 20 0 20 s sum w (omega arith)
  run_tx_ddl-Atomic false s sum w = attempts_tx-Atomic false 1 0 1 s sum w (omega arith)
