-- ===== src/Mediapackage/Walked.antt =====
-- The backfill of internal/mediapackage/mediapackage.go, run by internal/schemastep/schemastep.go.
use gophercast.Prelude.{
  ℕ, zero, suc, ◌*◌, ◌/◌, ◌≤◌, ◌≡◌, refl, ◌∙◌, String, Bool, true, Option, none, some, List, [],
  ◌∷◌, ◌++◌, map, arith, inl, inr, Bool-cases, Option-cases, length, All, any, length-map,
}
use gophercast.Prelude.Ordered.{
  drop, order_by, are_distinct_texts, IsCollation, order_by-Ascending, length-order_by,
  All-order_by, length-drop, All-keep,
}
use gophercast.Search.Rows.{Element}
use gophercast.Schemastep.Plan.{StepError, Step}
use gophercast.Schemastep.Runner.{
  World, Outside, LedgerRow, record_step, record_row, new_row, row_of, run_batches,
}
use gophercast.Schemastep.Batches.{run_batches-next, run_batches-last, run_batches-error}
use gophercast.Mediapackage.Materialise.{element_key}
use gophercast.Mediapackage.Backfill.{Walk, batch_size, backfill_batch, backfill_step, at_start}
use gophercast.Mediapackage.OnWay.{
  flatten, IsOnWay, moved, batch-error, batch-last, batch-next, moved-IsOnWay,
}

module _ (before : String → String → Bool) (limit : ℕ) (els : List Element) where
  -- What the walk has done where it ends.
  pub record IsWalked (p : World Walk × Option StepError) : Type 0 where
    pub unchanged : p.0.schema.elements ≡ els
    pub bounded : All (λ b. length b ≤ limit) p.0.schema.updates
    pub missing : List String
    pub in_order : flatten p.0.schema.updates ++ missing ≡ order_by before (map element_key els)
    pub complete : p.1 ≡ none → missing ≡ []

module _ (before : String → String → Bool) (c : IsCollation before) (outage : ℕ → Option StepError)
    (n : ℕ) (els : List Element) where
  abbrev limit : ℕ
  limit = suc n

  ended :
      (rest : List String) (w : World Walk) (e : Option StepError)
      → IsOnWay before limit els rest w.schema
      → (e ≡ none → rest ≡ [])
      → IsWalked before limit els (w, e)
  ended rest w e o h = record {
    unchanged = o.same;
    bounded = o.small;
    missing = rest;
    in_order = o.written;
    complete = h;
  }

  module _ (out : Outside Walk) (pkg sum : String) (step : Step Walk)
      (walks : (w : Walk) → step.batch w ≡ backfill_batch before outage limit w) where
    recorded-IsWalked :
        (e : Option StepError) (w : World Walk)
        → IsOnWay before limit els [] w.schema
        → IsWalked before limit els (record_row out pkg e step sum w)
    recorded-IsWalked (some e) w o = ended [] w (some e) o (λ h. refl)
    recorded-IsWalked none w o = elim (Bool-cases (any (row_of pkg step.n) w.ledger)) [
      | inl e ↦ rw e (ended [] w none o (λ h. refl))
      | inr e ↦ rw e (
          ended [] (record w { ledger = w.ledger ++ new_row out pkg step sum ∷ [] }) none o
            (λ h. refl))
    ]

    abbrev Ends : Option (World Walk × Option StepError) → Type 0
    Ends o = (p : World Walk × Option StepError) × (o ≡ some p) × IsWalked before limit els p

    walk_breaks-Ends :
        (fuel : ℕ) (rest : List String) (w : World Walk) (e : StepError)
        → IsOnWay before limit els rest w.schema
        → outage (length w.schema.updates) ≡ some e
        → Ends (run_batches out pkg (suc fuel) step sum w)
    walk_breaks-Ends fuel rest w e o f = (
      (w, some e),
      run_batches-error out pkg fuel step sum w w.schema e
          (walks w.schema ∙ batch-error before c outage n els w.schema e f),
      ended rest w (some e) o (λ h. absurd (cc)),
    )

    walk-Ends :
        (k : ℕ) (rest : List String) (w : World Walk)
        → IsOnWay before limit els rest w.schema
        → length rest ≤ limit * k
        → Ends (run_batches out pkg (suc k) step sum w)
    unfolding record_step
    walk-Ends k [] w o h = elim (Option-cases (outage (length w.schema.updates))) [
      | inr (e, f) ↦ walk_breaks-Ends k [] w e o f
      | inl f ↦ (
        record_step out pkg step sum w,
        run_batches-last out pkg k step sum w w.schema
            (walks w.schema ∙ batch-last before c outage n els w.schema o f),
        recorded-IsWalked out.record_error w o,
      )
    ]
    walk-Ends zero (x ∷ xs) w o h = absurd (omega (arith, h))
    walk-Ends (suc k) (x ∷ xs) w o h = elim (Option-cases (outage (length w.schema.updates))) [
      | inr (e, f) ↦ walk_breaks-Ends (suc k) (x ∷ xs) w e o f
      | inl f ↦
          let next : World Walk = record w { schema = moved before limit els (x ∷ xs) w.schema } in
          let (p, ends, walked) =
            walk-Ends k (drop limit (x ∷ xs)) next
              (moved-IsOnWay before c outage n els x xs w.schema o)
              (ground (arith, length-drop limit (x ∷ xs))) in
          (
            p,
            run_batches-next out pkg (suc k) step sum w next.schema
                  (walks w.schema ∙ batch-next before c outage n els x xs w.schema o f)
                ∙ ends,
            walked,
          )
    ]

-- However the walk of the sha256 backfill goes, it ends, within as many batches as there are full
-- ones in the table, and two more; it leaves every row as it was, no batch writes more than 500, and
-- the batches, one after the other, are the ids in their order up to some id, and all of them if the walk
-- ends without error. Here the ids are distinct and come after the empty text, and no other session
-- writes elements meanwhile.
pub backfill_ends :
    (before : String → String → Bool) (outage : ℕ → Option StepError) (els : List Element)
    (out : Outside Walk) (pkg sum : String) (ledger : List LedgerRow)
    → IsCollation before
    → are_distinct_texts (map element_key els) ≡ true
    → All (λ i. before "" i ≡ true) (map element_key els)
    → let w : World Walk = record { schema = at_start els; ledger = ledger } in
      let step = backfill_step before outage in
      (p : World Walk × Option StepError) × (run_batches out pkg
          (suc (suc (length els / batch_size)))
          step
          sum
          w
        ≡ some p)
      × IsWalked before batch_size els p
unfolding backfill_step
backfill_ends before outage els out pkg sum ledger c d n =
    let ids = map element_key els in
    let ordered = order_by before ids in
    let first : All (λ i. before "" i ≡ true) ordered =
      All-order_by before (λ i. before "" i ≡ true) ids n in
    walk-Ends before c outage 499 els out pkg sum (backfill_step before outage) (λ w. refl)
      (suc (length els / batch_size)) ordered (record { schema = at_start els; ledger = ledger })
      (record {
        same = refl;
        to_come = All-keep before c "" ordered first;
        ascending = order_by-Ascending before c ids d;
        named = first;
        written = refl;
        small = tt;
      })
      (omega (arith, length-order_by before ids, length-map element_key els))
