-- ===== src/Schemastep/Batches.antt =====
-- internal/schemastep/schemastep.go: the loop over the batches of a step.
use gophercast.Prelude.{
  ℕ, zero, suc, ◌≡◌, ◌<◌, refl, String, Bool, true, false, Option, some, Result, ok, err, arith,
}
use gophercast.Schemastep.Plan.{StepError, Step}
use gophercast.Schemastep.Runner.{World, Outside, record_step, batched, run_batches}

module _ {D : Type 0} (out : Outside D) (pkg : String) where
  batched_ends :
      (r : Result StepError Bool) (schema : D) (s : Step D) (sum : String) (w : World D)
      (next : Option (World D × Option StepError))
      → (r ≡ ok false → (p : World D × Option StepError) × (next ≡ some p))
      → (p : World D × Option StepError) × (batched out pkg (schema, r) s sum w next ≡ some p)
  batched_ends (err e) schema s sum w next h = ((record w { schema = schema }, some e), refl)
  batched_ends (ok true) schema s sum w next h =
      (record_step out pkg s sum (record w { schema = schema }), refl)
  batched_ends (ok false) schema s sum w next h = h refl

  -- If every batch that is not the last lessens what remains, the loop ends within as many batches as
  -- remain at its start, and one more.
  pub run_batches_ends :
      (remaining : D → ℕ) (fuel : ℕ) (s : Step D) (sum : String) (w : World D)
      → ((d : D) → (s.batch d).1 ≡ ok false → remaining (s.batch d).0 < remaining d)
      → remaining w.schema < fuel
      → (p : World D × Option StepError) × (run_batches out pkg fuel s sum w ≡ some p)
  unfolding run_batches
  run_batches_ends remaining zero s sum w h l = ground arith
  run_batches_ends remaining (suc fuel) s sum w h l =
      (let (schema, r) = s.batch w.schema in
        batched_ends r schema s sum w
          (run_batches out pkg fuel s sum (record w { schema = schema }))
          (λ q.
            run_batches_ends remaining fuel s sum (record w { schema = schema }) h
              (omega (arith, h w.schema q))))

  -- A batch that is not the last, one that is, and one that fails.
  pub run_batches-next :
      (fuel : ℕ) (s : Step D) (sum : String) (w : World D) (d : D)
      → s.batch w.schema ≡ (d, ok false)
      → run_batches out pkg (suc fuel) s sum w
        ≡ run_batches out pkg fuel s sum (record w { schema = d })
  unfolding run_batches
  run_batches-next fuel s sum w d e = rw e

  pub run_batches-last :
      (fuel : ℕ) (s : Step D) (sum : String) (w : World D) (d : D)
      → s.batch w.schema ≡ (d, ok true)
      → run_batches out pkg (suc fuel) s sum w
        ≡ some (record_step out pkg s sum (record w { schema = d }))
  unfolding run_batches
  run_batches-last fuel s sum w d e = rw e

  pub run_batches-error :
      (fuel : ℕ) (s : Step D) (sum : String) (w : World D) (d : D) (x : StepError)
      → s.batch w.schema ≡ (d, err x)
      → run_batches out pkg (suc fuel) s sum w ≡ some (record w { schema = d }, some x)
  unfolding run_batches
  run_batches-error fuel s sum w d x e = rw e
