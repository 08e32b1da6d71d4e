-- ===== src/Schemastep/Rerun.antt =====
-- internal/schemastep/schemastep.go: what `Run` leaves in the ledger, and the run at the next boot.
use gophercast.Prelude.{
  are_distinct, ℕ, ◌≡◌, refl, ap, sym, ◌∙◌, String, true, false, not, ◌&&◌, Option, none, some,
  List, [], ◌∷◌, ◌++◌, str_eq, all, find?, inl, inr, Option-cases, arith,
}
use mathlib.Core.Path.{subst}
use gophercast.Schemastep.Plan.{StepError, Step, Classifier, check}
use gophercast.Schemastep.Runner.{
  LedgerRow, World, Outside, Ended, row_of, is_batched, step_sha, run_steps, stopped, run,
}
use gophercast.Schemastep.Again.{
  numbers, matches, is_recorded, missing, Current, End, Ends, run_steps-Ends,
}

module _ {D : Type 0} (out : Outside D) (pkg : String) where
  unchanged :
      (ledger : List LedgerRow) (steps : List (Step D)) → Current out pkg ledger ledger steps
  unchanged ledger [] = tt
  unchanged ledger (s ∷ steps) = (refl, unchanged ledger steps)

  -- A plan that the ledger has is skipped.
  run_steps-skips :
      (fuel : ℕ) (ledger : List LedgerRow) (steps : List (Step D)) (done : ℕ) (w : World D)
      → all (is_recorded out pkg ledger) steps ≡ true
      → run_steps out pkg fuel ledger steps done w
        ≡ some (record { world = w; executed = done; error = none })
  unfolding run_steps
  run_steps-skips fuel ledger [] done w h = refl
  run_steps-skips fuel ledger (s ∷ steps) done w h =
      elim (Option-cases (find? (row_of pkg s.n) ledger)) [
        | inl n ↦ ground (arith, ap (matches s (step_sha out pkg s)) n)
        | inr (r, f) ↦
            (let same : (not (is_batched s.kind) && not (str_eq r.sha256 (step_sha out pkg s)))
                  ≡ false =
                ground (arith, ap (matches s (step_sha out pkg s)) f) in
              rw (f, same) (run_steps-skips fuel ledger steps done w (ground arith)))
      ]

  stopped_passed :
      (e : Option StepError) (w : World D) (o : Option (Ended D)) (x : Ended D)
      → stopped out pkg e w o ≡ some x
      → x.error ≡ none
      → (e ≡ none) × (o ≡ some x)
  stopped_passed none w o x h k = (refl, h)
  stopped_passed (some e) w o x h k = ground arith

  -- A run that ended without error had a plan that passes the check, and read the ledger.
  run_passed :
      (c : Classifier) (fuel : ℕ) (steps : List (Step D)) (w : World D) (x : Ended D)
      → run out pkg c fuel steps w ≡ some x
      → x.error ≡ none
      → (check c steps ≡ none) × (run_steps out pkg fuel w.ledger steps 0 w ≡ some x)
  unfolding run
  run_passed c fuel steps w x h e =
      (let locked =
          stopped out pkg out.prepare_error w (run_steps out pkg fuel w.ledger steps 0 w) in
        let (checked, h') = stopped_passed (check c steps) w locked x h e in
        (
          checked,
          (stopped_passed out.prepare_error w (run_steps out pkg fuel w.ledger steps 0 w) x h' e).1,
        ))

  ended :
      (applied : List LedgerRow) (steps : List (Step D)) (w w' : World D) (executed : ℕ)
      (e : Option StepError)
      → e ≡ none
      → End out pkg applied steps 0 w w' executed e
      → End out pkg applied steps 0 w w' executed none
  ended applied steps w w' executed none h k = k
  ended applied steps w w' executed (some e) h k = ground arith

  -- A run of a plan with distinct step numbers that ends without error has executed as many steps as the
  -- ledger lacked; behind it the ledger has what it had, and after it every step of the plan, each with
  -- the hash of its SQL if it has SQL.
  pub run-is_recorded :
      (c : Classifier) (fuel : ℕ) (steps : List (Step D)) (w : World D) (x : Ended D)
      → are_distinct (numbers steps) ≡ true
      → run out pkg c fuel steps w ≡ some x
      → x.error ≡ none
      → (x.executed ≡ missing out pkg w.ledger steps)
        × ((extra : List LedgerRow) × (x.world.ledger ≡ w.ledger ++ extra))
        × (all (is_recorded out pkg x.world.ledger) steps ≡ true)
  run-is_recorded c fuel steps w x d h e =
      (let ran = (run_passed c fuel steps w x h e).1 in
        let ends = run_steps-Ends out pkg fuel w.ledger steps 0 w d (unchanged w.ledger steps) in
        let (count, extra, recorded) =
          ended w.ledger steps w x.world x.executed x.error e
            (subst (Ends out pkg w.ledger steps 0 w) ran ends) in
        (count ∙ omega arith, extra, recorded))

-- After a run that ended without error of a plan with distinct step numbers, the next run of the same
-- plan executes no step and changes neither the schema nor the ledger, whatever the database answers
-- then, if it hashes steps alike, gets the lock and reads the ledger.
pub run-again :
    {D : Type 0} (out later : Outside D) (pkg : String) (c : Classifier) (fuel fuel' : ℕ)
    (steps : List (Step D)) (w : World D) (x : Ended D)
    → are_distinct (numbers steps) ≡ true
    → run out pkg c fuel steps w ≡ some x
    → x.error ≡ none
    → later.sha ≡ out.sha
    → later.prepare_error ≡ none
    → run later pkg c fuel' steps x.world
      ≡ some (record { world = x.world; executed = 0; error = none })
unfolding run
run-again out later pkg c fuel fuel' steps w x d h e same lock =
    rw ((run_passed out pkg c fuel steps w x h e).0, lock)
      (run_steps-skips later pkg fuel' x.world.ledger steps 0 x.world (
        subst
          (λ sha. all (is_recorded (record later { sha = sha }) pkg x.world.ledger) steps ≡ true)
          (sym same) (run-is_recorded out pkg c fuel steps w x d h e).2))
