-- ===== src/Schemastep/Again.antt =====
-- internal/schemastep/schemastep.go: the ledger behind a run, and a second run.
use gophercast.Prelude.{
  are_distinct, ℕ, ◌+◌, ◌≡◌, refl, ap, sym, ◌∙◌, String, Bool, true, false, not, ◌&&◌, ◌||◌, Option,
  none, some, List, [], ◌∷◌, ◌++◌, ◌==◌, str_eq, str_eq_refl, any, all, find?, inl, inr, Bool-cases,
  Option-cases, All, arith, ==_refl,
}
use mathlib.Core.List.{append_assoc, append-nil}
use gophercast.Schemastep.Plan.{StepError, edited, Step}
use gophercast.Schemastep.Runner.{
  LedgerRow, World, Outside, Ended, row_of, is_batched, step_sha, new_row, run_step, after_step,
  if_applied, run_steps,
}
use gophercast.Schemastep.Once.{find?-other, find?-new, find?-kept, RecordsAny, run_step-Records}

abbrev pub numbers : {D : Type 0} → List (Step D) → List ℕ
numbers [] = []
numbers (s ∷ steps) = s.n ∷ numbers steps

abbrev pub matches : {D : Type 0} → Step D → String → Option LedgerRow → Bool
matches s sum none = false
matches s sum (some r) = is_batched s.kind || str_eq r.sha256 sum

abbrev pub is_missing : Option LedgerRow → ℕ
is_missing none = 1
is_missing (some r) = 0

module _ {D : Type 0} (out : Outside D) (pkg : String) where
  -- The ledger has the step, with the hash of its SQL where it has SQL.
  abbrev pub is_recorded : List LedgerRow → Step D → Bool
  is_recorded ledger s = matches s (step_sha out pkg s) (find? (row_of pkg s.n) ledger)

  -- The steps that the ledger lacks.
  abbrev pub missing : List LedgerRow → List (Step D) → ℕ
  missing ledger [] = 0
  missing ledger (s ∷ steps) = is_missing (find? (row_of pkg s.n) ledger) + missing ledger steps

  -- About the steps, the ledger is as it was read.
  abbrev pub Current : List LedgerRow → List LedgerRow → List (Step D) → Type 0
  Current applied ledger steps =
      All (λ s. find? (row_of pkg s.n) ledger ≡ find? (row_of pkg s.n) applied) steps

  abbrev pub End :
      List LedgerRow → List (Step D) → ℕ → World D → World D → ℕ → Option StepError → Type 0
  End applied steps done w w' executed (some e) = Unit {0}
  End applied steps done w w' executed none =
      (executed ≡ done + missing applied steps)
      × ((extra : List LedgerRow) × (w'.ledger ≡ w.ledger ++ extra))
      × (all (is_recorded w'.ledger) steps ≡ true)

  abbrev pub Ends : List LedgerRow → List (Step D) → ℕ → World D → Option (Ended D) → Type 0
  Ends applied steps done w none = Unit {0}
  Ends applied steps done w (some x) = End applied steps done w x.world x.executed x.error

  Current-append :
      (applied ledger : List LedgerRow) (s : Step D) (sum : String) (steps : List (Step D))
      → any (λ i. i == s.n) (numbers steps) ≡ false
      → Current applied ledger steps
      → Current applied (ledger ++ new_row out pkg s sum ∷ []) steps
  Current-append applied ledger s sum [] d h = tt
  Current-append applied ledger s sum (t ∷ steps) d h = (
    find?-other (row_of pkg t.n) ledger (new_row out pkg s sum) (ground arith) ∙ h.0,
    Current-append applied ledger s sum steps (ground arith) h.1,
  )

  matches-kept :
      (s : Step D) (sum : String) (l extra : List LedgerRow)
      → matches s sum (find? (row_of pkg s.n) l) ≡ true
      → matches s sum (find? (row_of pkg s.n) (l ++ extra)) ≡ true
  matches-kept s sum l extra h = elim (Option-cases (find? (row_of pkg s.n) l)) [
    | inl n ↦ ground arith
    | inr (r, f) ↦ ground (arith, find?-kept (row_of pkg s.n) l extra r f)
  ]

  matches-new :
      (s : Step D) (sum : String) (l : List LedgerRow)
      → find? (row_of pkg s.n) l ≡ none
      → matches s sum (find? (row_of pkg s.n) (l ++ new_row out pkg s sum ∷ [])) ≡ true
  matches-new s sum l h = ground (
    arith,
    find?-new (row_of pkg s.n) l (new_row out pkg s sum) h
        (ground (arith, str_eq_refl pkg, ==_refl s.n)),
    str_eq_refl sum,
  )

  skip-End :
      (applied : List LedgerRow) (s : Step D) (steps : List (Step D)) (done : ℕ) (w w' : World D)
      (executed : ℕ) (e : Option StepError) (r : LedgerRow)
      → find? (row_of pkg s.n) applied ≡ some r
      → is_recorded w.ledger s ≡ true
      → End applied steps done w w' executed e
      → End applied (s ∷ steps) done w w' executed e
  skip-End applied s steps done w w' executed (some e) r f m h = tt
  skip-End applied s steps done w w' executed none r f m (c, (extra, q), a) = (
    omega (arith, c, ap is_missing f),
    (extra, q),
    ground (
      arith,
      ap (λ l. is_recorded l s) q,
      matches-kept s (step_sha out pkg s) w.ledger extra m,
      a,
    ),
  )

  add-End :
      (applied : List LedgerRow) (s : Step D) (steps : List (Step D)) (done : ℕ) (w w₁ w' : World D)
      (executed : ℕ) (e : Option StepError)
      → find? (row_of pkg s.n) applied ≡ none
      → find? (row_of pkg s.n) w.ledger ≡ none
      → w₁.ledger ≡ w.ledger ++ new_row out pkg s (step_sha out pkg s) ∷ []
      → End applied steps (done + 1) w₁ w' executed e
      → End applied (s ∷ steps) done w w' executed e
  add-End applied s steps done w w₁ w' executed (some e) f g p h = tt
  add-End applied s steps done w w₁ w' executed none f g p (c, (extra, q), a) =
      (let row = new_row out pkg s (step_sha out pkg s) in
        (
          omega (arith, c, ap is_missing f),
          (row ∷ extra, q ∙ ap (λ l. l ++ extra) p ∙ append_assoc w.ledger (row ∷ []) extra),
          ground (
            arith,
            ap (λ l. is_recorded l s) (q ∙ ap (λ l. l ++ extra) p),
            matches-kept s (step_sha out pkg s) (w.ledger ++ row ∷ []) extra
                (matches-new s (step_sha out pkg s) w.ledger g),
            a,
          ),
        ))

  skip-Ends :
      (applied : List LedgerRow) (s : Step D) (steps : List (Step D)) (done : ℕ) (w : World D)
      (o : Option (Ended D)) (r : LedgerRow)
      → find? (row_of pkg s.n) applied ≡ some r
      → is_recorded w.ledger s ≡ true
      → Ends applied steps done w o
      → Ends applied (s ∷ steps) done w o
  skip-Ends applied s steps done w none r f m h = tt
  skip-Ends applied s steps done w (some x) r f m h =
      skip-End applied s steps done w x.world x.executed x.error r f m h

  add-Ends :
      (applied : List LedgerRow) (s : Step D) (steps : List (Step D)) (done : ℕ) (w w₁ : World D)
      (o : Option (Ended D))
      → find? (row_of pkg s.n) applied ≡ none
      → find? (row_of pkg s.n) w.ledger ≡ none
      → w₁.ledger ≡ w.ledger ++ new_row out pkg s (step_sha out pkg s) ∷ []
      → Ends applied steps (done + 1) w₁ o
      → Ends applied (s ∷ steps) done w o
  add-Ends applied s steps done w w₁ none f g p h = tt
  add-Ends applied s steps done w w₁ (some x) f g p h =
      add-End applied s steps done w w₁ x.world x.executed x.error f g p h

  after_step-Ends :
      (applied : List LedgerRow) (s : Step D) (steps : List (Step D)) (done : ℕ) (w : World D)
      (o : Option (World D × Option StepError)) (rest : World D → Option (Ended D))
      → find? (row_of pkg s.n) applied ≡ none
      → find? (row_of pkg s.n) w.ledger ≡ none
      → RecordsAny out pkg s (step_sha out pkg s) w o
      → ((w₁ : World D)
          → w₁.ledger ≡ w.ledger ++ new_row out pkg s (step_sha out pkg s) ∷ []
          → Ends applied steps (done + 1) w₁ (rest w₁))
      → Ends applied (s ∷ steps) done w (after_step out pkg done o rest)
  after_step-Ends applied s steps done w none rest f g p h = tt
  after_step-Ends applied s steps done w (some (w₁, some e)) rest f g p h = tt
  after_step-Ends applied s steps done w (some (w₁, none)) rest f g p h =
      add-Ends applied s steps done w w₁ (rest w₁) f g p (h w₁ p)

  -- A step that is applied with another hash ends the run, any other is skipped.
  applied-Ends :
      (applied : List LedgerRow) (s : Step D) (steps : List (Step D)) (done : ℕ) (w : World D)
      (r : LedgerRow) (skipped ran : Option (Ended D))
      → find? (row_of pkg s.n) applied ≡ some r
      → find? (row_of pkg s.n) w.ledger ≡ some r
      → Ends applied steps done w skipped
      → Ends applied (s ∷ steps) done w (
          if_applied out pkg
            (some r)
            s
            (step_sha out pkg s)
            (some (record { world = w; executed = done; error = some (edited s.n) }))
            skipped
            ran)
  applied-Ends applied s steps done w r skipped ran f g h =
      elim (Bool-cases (is_batched s.kind || str_eq r.sha256 (step_sha out pkg s))) [
        | inl y ↦
            (let same : (not (is_batched s.kind) && not (str_eq r.sha256 (step_sha out pkg s)))
                  ≡ false =
                ground arith in
              rw (same) (
                skip-Ends applied s steps done w skipped r f
                  (ap (matches s (step_sha out pkg s)) g ∙ y) h))
        | inr n ↦
            (let other : (not (is_batched s.kind) && not (str_eq r.sha256 (step_sha out pkg s)))
                  ≡ true =
                ground arith in
              rw (other) tt)
      ]

  pub run_steps-Ends :
      (fuel : ℕ) (applied : List LedgerRow) (steps : List (Step D)) (done : ℕ) (w : World D)
      → are_distinct (numbers steps) ≡ true
      → Current applied w.ledger steps
      → Ends applied steps done w (run_steps out pkg fuel applied steps done w)
  unfolding run_steps
  run_steps-Ends fuel applied [] done w d c = (omega arith, ([], sym (append-nil w.ledger)), refl)
  run_steps-Ends fuel applied (s ∷ steps) done w d (c, cs) =
      (let later = run_steps out pkg fuel applied steps in
        let ran =
          after_step out pkg done (run_step out pkg fuel s.kind s (step_sha out pkg s) w)
            (later (done + 1)) in
        elim (Option-cases (find? (row_of pkg s.n) applied)) [
          | inl n ↦ rw (n) (
              after_step-Ends applied s steps done w
                (run_step out pkg fuel s.kind s (step_sha out pkg s) w) (later (done + 1)) n (c ∙ n)
                (run_step-Records out pkg fuel s.kind s (step_sha out pkg s) w (c ∙ n))
                (λ w₁ p. run_steps-Ends fuel applied steps (done + 1) w₁ (ground arith) (
                  rw (p) (
                    Current-append applied w.ledger s (step_sha out pkg s) steps (ground arith)
                      cs))))
          | inr (r, f) ↦ rw (f) (
              applied-Ends applied s steps done w r (later done w) ran f (c ∙ f)
                (run_steps-Ends fuel applied steps done w (ground arith) cs))
        ])
