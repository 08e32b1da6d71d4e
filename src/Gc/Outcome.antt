-- ===== src/Gc/Outcome.antt =====
-- internal/gc/gc.go: what a sweep reports, and the end of an object that nothing names.
use gophercast.Prelude.{
  ℕ, String, ◌≡◌, ◌⊎◌, ◌+◌, refl, ◌∙◌, Bool, true, false, Option, none, some, List, [], ◌∷◌, arith,
  str_eq, any, Result, ok, err, inl, inr, Bool-cases, length,
}
use gophercast.Gc.Sweep.{
  Refs, SweepError, Pass, Visit, Report, mark_exists, mark_set, resurrect, reclaim, recheck,
  if_expired, visit_unmarked, visit, then_visit, visits, sweep, sweep_marked, no_report,
  note_candidate, expired?, count_object,
}

-- Every object that was counted is under one of the three outcomes.
abbrev pub Counts : Report → ℕ → Type 0
Counts rep n = (rep.objects ≡ n) × (rep.objects ≡ rep.referenced + rep.candidates + rep.swept)

-- One visit: an error, or one more object under one of the outcomes.
abbrev Counted : Report → Pass × Option SweepError → Type 0
Counted rep p =
    ((e : SweepError) × (p.1 ≡ some e))
    ⊎ ((p.0.report.objects ≡ rep.objects)
        × (p.0.report.referenced + p.0.report.candidates + p.0.report.swept
            ≡ rep.referenced + rep.candidates + rep.swept + 1))

reclaim-Counted : (v : Visit) (w : Pass) → Counted w.report (reclaim v w)
unfolding reclaim
reclaim-Counted v w = elim (Bool-cases v.deletes) [
  | inl y ↦ rw (y) (inr (refl, omega arith))
  | inr n ↦ rw (n) (inl (SweepError.delete_failed, refl))
]

recheck-Counted : (b : Option Bool) (v : Visit) (w : Pass) → Counted w.report (recheck b v w)
unfolding recheck resurrect
recheck-Counted none v w = inl (SweepError.query_failed, refl)
recheck-Counted (some true) v w = inr (refl, omega arith)
recheck-Counted (some false) v w = reclaim-Counted v w

if_expired-Counted :
    (x : Option Bool) (m : Bool) (v : Visit) (w : Pass) → Counted w.report (if_expired x m v w)
unfolding if_expired
if_expired-Counted none m v w = inl (SweepError.query_failed, refl)
if_expired-Counted (some false) m v w = inr (refl, omega arith)
if_expired-Counted (some true) m v w = recheck-Counted (mark_exists m v.refs v.sha) v w

visit-Counted :
    (grace : ℕ) (mark : List String) (m : Bool) (v : Visit) (w : Pass)
    → Counted (count_object w.report) (visit grace mark m v w)
unfolding visit resurrect visit_unmarked
visit-Counted grace mark m v w =
    (let w' : Pass = record w { report = count_object w.report } in
      let ledger = note_candidate v.sha v.inserted w.ledger in
      elim (Bool-cases (any (str_eq v.sha) mark)) [
        | inl y ↦ rw (y) (inr (refl, omega arith))
        | inr n ↦ rw (n) (
            if_expired-Counted (expired? v.sha grace v.asked ledger) m v
              (record w' { ledger = ledger }))
      ])

then_visit-Counts :
    (rep : Report) (n k : ℕ) (p : Pass × Option SweepError) (rest : Pass → Pass × Option SweepError)
    → Counts rep n
    → Counted (count_object rep) p
    → ((x : Pass)
        → Counts x.report (n + 1)
        → (rest x).1 ≡ none
        → Counts (rest x).0.report (n + 1 + k))
    → (then_visit p rest).1 ≡ none
    → Counts (then_visit p rest).0.report (n + 1 + k)
then_visit-Counts rep n k (w, some e) rest c d h s = ground arith
then_visit-Counts rep n k (w, none) rest c (inl d) h s = ground arith
then_visit-Counts rep n k (w, none) rest c (inr d) h s = h w (omega arith, omega arith) s

visits-Counts :
    (grace : ℕ) (mark : List String) (m : Bool) (vs : List Visit) (complete : Bool) (w : Pass)
    (n : ℕ)
    → Counts w.report n
    → (visits grace mark m vs complete w).1 ≡ none
    → Counts (visits grace mark m vs complete w).0.report (n + length vs)
unfolding visits
visits-Counts grace mark m [] complete w n c s = (omega arith, omega arith)
visits-Counts grace mark m (v ∷ vs) complete w n c s =
    (let (objects, sum) =
        then_visit-Counts w.report n (length vs) (visit grace mark m v w)
          (visits grace mark m vs complete) c (visit-Counted grace mark m v w)
          (λ x. visits-Counts grace mark m vs complete x (n + 1)) s in
      (objects ∙ omega arith, sum))

marked-Counts :
    (grace : ℕ) (r : Result SweepError (List String × Bool)) (vs : List Visit) (complete : Bool)
    (w : Pass)
    → Counts w.report 0
    → (sweep_marked grace r vs complete w).1 ≡ none
    → Counts (sweep_marked grace r vs complete w).0.report (length vs)
marked-Counts grace (err e) vs complete w c s = ground arith
marked-Counts grace (ok (mark, m)) vs complete w c s =
    (let (objects, sum) = visits-Counts grace mark m vs complete w 0 c s in
      (objects ∙ omega arith, sum))

-- A sweep that ends without error has counted every object of the listing, once, as referenced, as a
-- candidate or as swept.
pub sweep-Counts :
    (grace : ℕ) (refs : Refs) (vs : List Visit) (complete : Bool) (w : Pass)
    → (sweep grace refs vs complete w).1 ≡ none
    → Counts (sweep grace refs vs complete w).0.report (length vs)
unfolding sweep
sweep-Counts grace refs vs complete w s =
    marked-Counts grace (mark_set refs) vs complete (record w { report = no_report }) (refl, refl) s
