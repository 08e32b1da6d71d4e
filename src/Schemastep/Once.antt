-- ===== src/Schemastep/Once.antt =====
-- internal/schemastep/schemastep.go: the ledger row of a step that was run.
use gophercast.Prelude.{
  ℕ, zero, suc, ◌≡◌, refl, String, Bool, true, false, Option, none, some, List, [], ◌∷◌, ◌++◌,
  Result, ok, err, str_eq, any, find?, inl, inr, Bool-cases, arith,
}
use gophercast.Schemastep.Plan.{
  Kind, tx_ddl, guarded_ddl, concurrent_index, batched_dml, StepError, Step,
}
use gophercast.Schemastep.Runner.{
  LedgerRow, World, Outside, IndexState, absent, valid, invalid, row_of, new_row, record_row,
  record_step, built, dropped, by_state, run_concurrent_index, batched, run_batches, run_step,
  run_tx_ddl,
}
use gophercast.Schemastep.Transaction.{run_tx_ddl-Atomic}

find?-fresh : (p : LedgerRow → Bool) (l : List LedgerRow) → find? p l ≡ none → any p l ≡ false
find?-fresh p [] h = refl
find?-fresh p (r ∷ l) h = ground (arith, find?-fresh p l)

pub find?-new :
    (p : LedgerRow → Bool) (l : List LedgerRow) (r : LedgerRow)
    → find? p l ≡ none
    → p r ≡ true
    → find? p (l ++ r ∷ []) ≡ some r
find?-new p [] r h k = ground arith
find?-new p (x ∷ l) r h k = ground (arith, find?-new p l r)

pub find?-other :
    (p : LedgerRow → Bool) (l : List LedgerRow) (r : LedgerRow)
    → p r ≡ false
    → find? p (l ++ r ∷ []) ≡ find? p l
find?-other p [] r k = ground arith
find?-other p (x ∷ l) r k = ground (arith, find?-other p l r)

pub find?-kept :
    (p : LedgerRow → Bool) (l extra : List LedgerRow) (r : LedgerRow)
    → find? p l ≡ some r
    → find? p (l ++ extra) ≡ some r
find?-kept p [] extra r h = ground arith
find?-kept p (x ∷ l) extra r h = ground (arith, find?-kept p l extra r)

module _ {D : Type 0} (out : Outside D) (pkg : String) where
  -- An error, or the ledger has the step's row behind what it had.
  abbrev pub Records : Step D → String → World D → World D × Option StepError → Type 0
  Records s sum w (w', some e) = Unit {0}
  Records s sum w (w', none) = w'.ledger ≡ w.ledger ++ new_row out pkg s sum ∷ []

  record_row-Records :
      (c : Option StepError) (s : Step D) (sum : String) (w : World D)
      → find? (row_of pkg s.n) w.ledger ≡ none
      → Records s sum w (record_row out pkg c s sum w)
  record_row-Records (some e) s sum w h = tt
  record_row-Records none s sum w h = rw (find?-fresh (row_of pkg s.n) w.ledger h) refl

  built-Records :
      (r : D × Option StepError) (s : Step D) (sum : String) (w : World D)
      → find? (row_of pkg s.n) w.ledger ≡ none
      → Records s sum w (built out pkg r s sum w)
  unfolding record_step
  built-Records (schema, some e) s sum w h = tt
  built-Records (schema, none) s sum w h =
      record_row-Records out.record_error s sum (record w { schema = schema }) h

  by_state-Records :
      (r : Result StepError IndexState) (s : Step D) (sum : String) (w : World D)
      → find? (row_of pkg s.n) w.ledger ≡ none
      → Records s sum w (by_state out pkg r s sum w)
  unfolding record_step
  by_state-Records (err e) s sum w h = tt
  by_state-Records (ok invalid) s sum w h =
      elim (out.drop_index s.index w.schema) as (λ r. Records s sum w (dropped out pkg r s sum w)) [
        | err e ↦ tt
        | ok schema ↦ built-Records (out.exec_plain s.sql schema) s sum w h
      ]
  by_state-Records (ok absent) s sum w h = built-Records (out.exec_plain s.sql w.schema) s sum w h
  by_state-Records (ok valid) s sum w h = record_row-Records out.record_error s sum w h

  run_concurrent_index-Records :
      (s : Step D) (sum : String) (w : World D)
      → find? (row_of pkg s.n) w.ledger ≡ none
      → Records s sum w (run_concurrent_index out pkg s sum w)
  unfolding run_concurrent_index
  run_concurrent_index-Records s sum w h = elim (Bool-cases (str_eq s.index "")) [
    | inl y ↦ rw (y) tt
    | inr n ↦ rw (n) (by_state-Records (out.index_state s.index w.schema) s sum w h)
  ]

  run_tx_ddl-Records :
      (guarded : Bool) (s : Step D) (sum : String) (w : World D)
      → Records s sum w (run_tx_ddl out pkg guarded s sum w)
  run_tx_ddl-Records guarded s sum w = elim (run_tx_ddl-Atomic out pkg guarded s sum w) [
    | inl (e, q) ↦ rw (q) tt
    | inr (i, schema, l, x, a, q) ↦ rw (q) refl
  ]

  abbrev pub RecordsAny : Step D → String → World D → Option (World D × Option StepError) → Type 0
  RecordsAny s sum w none = Unit {0}
  RecordsAny s sum w (some p) = Records s sum w p

  batched-Records :
      (b : D × Result StepError Bool) (s : Step D) (sum : String) (w : World D)
      (next : Option (World D × Option StepError))
      → find? (row_of pkg s.n) w.ledger ≡ none
      → RecordsAny s sum w next
      → RecordsAny s sum w (batched out pkg b s sum w next)
  unfolding record_step
  batched-Records (schema, err e) s sum w next h k = tt
  batched-Records (schema, ok true) s sum w next h k =
      record_row-Records out.record_error s sum (record w { schema = schema }) h
  batched-Records (schema, ok false) s sum w next h k = k

  run_batches-Records :
      (fuel : ℕ) (s : Step D) (sum : String) (w : World D)
      → find? (row_of pkg s.n) w.ledger ≡ none
      → RecordsAny s sum w (run_batches out pkg fuel s sum w)
  unfolding run_batches
  run_batches-Records zero s sum w h = tt
  run_batches-Records (suc fuel) s sum w h =
      (let next = run_batches out pkg fuel s sum (record w { schema = (s.batch w.schema).0 }) in
        batched-Records (s.batch w.schema) s sum w next h
          (run_batches-Records fuel s sum (record w { schema = (s.batch w.schema).0 }) h))

  pub run_step-Records :
      (fuel : ℕ) (k : Kind) (s : Step D) (sum : String) (w : World D)
      → find? (row_of pkg s.n) w.ledger ≡ none
      → RecordsAny s sum w (run_step out pkg fuel k s sum w)
  unfolding run_step
  run_step-Records fuel tx_ddl s sum w h = run_tx_ddl-Records false s sum w
  run_step-Records fuel guarded_ddl s sum w h = run_tx_ddl-Records true s sum w
  run_step-Records fuel concurrent_index s sum w h = run_concurrent_index-Records s sum w h
  run_step-Records fuel batched_dml s sum w h = run_batches-Records fuel s sum w h
