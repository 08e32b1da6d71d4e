-- ===== src/Gc/Grace.antt =====
-- internal/gc/gc.go: the grace, over any number of sweeps.
use gophercast.Prelude.{
  ℕ, String, ◌≡◌, ◌⊎◌, ◌+◌, ◌≤◌, ◌<◌, refl, ap, sym, ◌∙◌, Bool, true, false, not, ◌&&◌, ◌||◌,
  Option, none, some, List, [], ◌∷◌, ◌++◌, arith, str_eq, eq_iff, any, all, find?, ok, err, inl,
  inr, Bool-cases, Option-cases, leb, ltb,
}
use gophercast.Gc.Sweep.{
  Refs, SweepError, Pass, Visit, Candidate, mark_exists, mark_set, resurrect, reclaim, recheck,
  if_expired, visit_unmarked, visit, then_visit, visits, sweep, sweep_marked, no_report,
  note_candidate, drop_candidate, expired?, count_object, of_sha,
}
use gophercast.Gc.Safety.{is_true, is_stored, remove_object_other}

pub record Run : Type 0 where
  pub refs : Refs
  pub listing : List Visit
  pub complete : Bool

-- Sweeps, one after the other, each over its own listing.
unfoldable pub sweeps : ℕ → List Run → Pass → Pass
sweeps grace [] w = w
sweeps grace (s ∷ ss) w = sweeps grace ss (sweep grace s.refs s.listing s.complete w).0

abbrev pub is_timely : ℕ → ℕ → String → Visit → Bool
is_timely t grace sha v = not (str_eq sha v.sha) || (leb t v.inserted && ltb v.asked (t + grace))

-- Every candidacy of the digest began at t or later.
abbrev is_young : ℕ → String → List Candidate → Bool
is_young t sha ledger = all (λ c. not (of_sha sha c) || leb t c.first_unreferenced_at) ledger

young-drop_candidate :
    (t : ℕ) (sha other : String) (ledger : List Candidate)
    → is_young t sha ledger ≡ true
    → is_young t sha (drop_candidate other ledger) ≡ true
unfolding drop_candidate
young-drop_candidate t sha other [] h = refl
young-drop_candidate t sha other (c ∷ l) h = ground (arith, young-drop_candidate t sha other l)

young-append :
    (t : ℕ) (sha : String) (ledger : List Candidate) (c : Candidate)
    → is_young t sha ledger ≡ true
    → (not (of_sha sha c) || leb t c.first_unreferenced_at) ≡ true
    → is_young t sha (ledger ++ c ∷ []) ≡ true
young-append t sha [] c h k = ground arith
young-append t sha (d ∷ l) c h k = ground (arith, young-append t sha l c)

young-note_candidate :
    (t grace : ℕ) (sha : String) (v : Visit) (ledger : List Candidate)
    → is_timely t grace sha v ≡ true
    → is_young t sha ledger ≡ true
    → is_young t sha (note_candidate v.sha v.inserted ledger) ≡ true
unfolding note_candidate
young-note_candidate t grace sha v ledger h k =
    (let c : Candidate = record { sha256 = v.sha; first_unreferenced_at = v.inserted } in
      ground (arith, young-append t sha ledger c k))

young-find? :
    (t : ℕ) (sha : String) (ledger : List Candidate) (c : Candidate)
    → is_young t sha ledger ≡ true
    → find? (of_sha sha) ledger ≡ some c
    → t ≤ c.first_unreferenced_at
young-find? t sha [] c h k = ground arith
young-find? t sha (d ∷ l) c h k = ground (arith, young-find? t sha l c)

-- A young candidacy has not waited for the grace.
young-expired? :
    (t grace now : ℕ) (sha : String) (ledger : List Candidate)
    → is_young t sha ledger ≡ true
    → now < t + grace
    → is_true (expired? sha grace now ledger) ≡ false
unfolding expired?
young-expired? t grace now sha ledger h k = elim (Option-cases (find? (of_sha sha) ledger)) [
  | inl n ↦ ground arith
  | inr (c, s) ↦ ground (arith, young-find? t sha ledger c h s)
]

-- The object is still in the store, and none of its candidacies is older than t.
abbrev Survives : ℕ → String → Pass → Type 0
Survives t sha w = (is_stored sha w ≡ true) × (is_young t sha w.ledger ≡ true)

reclaim-Survives :
    (t : ℕ) (sha : String) (v : Visit) (w : Pass)
    → str_eq sha v.sha ≡ false
    → Survives t sha w
    → Survives t sha (reclaim v w).0
unfolding reclaim
reclaim-Survives t sha v w h s =
    ground
      (arith, remove_object_other sha v.sha w.store h, young-drop_candidate t sha v.sha w.ledger)

recheck-Survives :
    (t : ℕ) (sha : String) (b : Option Bool) (v : Visit) (w : Pass)
    → str_eq sha v.sha ≡ false
    → Survives t sha w
    → Survives t sha (recheck b v w).0
unfolding recheck resurrect
recheck-Survives t sha none v w h s = s
recheck-Survives t sha (some true) v w h s = (s.0, young-drop_candidate t sha v.sha w.ledger s.1)
recheck-Survives t sha (some false) v w h s = reclaim-Survives t sha v w h s

if_expired-Survives :
    (t : ℕ) (sha : String) (x : Option Bool) (m : Bool) (v : Visit) (w : Pass)
    → (str_eq sha v.sha ≡ false) ⊎ (is_true x ≡ false)
    → Survives t sha w
    → Survives t sha (if_expired x m v w).0
unfolding if_expired
if_expired-Survives t sha none m v w h s = s
if_expired-Survives t sha (some false) m v w h s = s
if_expired-Survives t sha (some true) m v w (inl h) s =
    recheck-Survives t sha (mark_exists m v.refs v.sha) v w h s
if_expired-Survives t sha (some true) m v w (inr h) s = ground arith

not_expired :
    (t grace : ℕ) (sha : String) (v : Visit) (ledger : List Candidate)
    → is_timely t grace sha v ≡ true
    → is_young t sha ledger ≡ true
    → (str_eq sha v.sha ≡ false) ⊎ (is_true (expired? v.sha grace v.asked ledger) ≡ false)
not_expired t grace sha v ledger h k = elim (Bool-cases (str_eq sha v.sha)) [
  | inl e ↦ inr (
      ap (λ o. is_true (expired? o grace v.asked ledger)) (sym ((eq_iff sha v.sha).0 e))
      ∙ young-expired? t grace v.asked sha ledger k (ground arith))
  | inr d ↦ inl d
]

visit_unmarked-Survives :
    (t grace : ℕ) (sha : String) (m : Bool) (v : Visit) (w : Pass)
    → is_timely t grace sha v ≡ true
    → Survives t sha w
    → Survives t sha (visit_unmarked grace m v w).0
unfolding visit_unmarked
visit_unmarked-Survives t grace sha m v w h s =
    (let ledger = note_candidate v.sha v.inserted w.ledger in
      let y = young-note_candidate t grace sha v w.ledger h s.1 in
      if_expired-Survives t sha (expired? v.sha grace v.asked ledger) m v
        (record w { ledger = ledger }) (not_expired t grace sha v ledger h y) (s.0, y))

visit-Survives :
    (t grace : ℕ) (sha : String) (mark : List String) (m : Bool) (v : Visit) (w : Pass)
    → is_timely t grace sha v ≡ true
    → Survives t sha w
    → Survives t sha (visit grace mark m v w).0
unfolding visit resurrect
visit-Survives t grace sha mark m v w h s =
    (let w' = record w { report = count_object w.report } in
      elim (Bool-cases (any (str_eq v.sha) mark)) [
        | inl y ↦ rw (y) (s.0, young-drop_candidate t sha v.sha w.ledger s.1)
        | inr n ↦ rw (n) (visit_unmarked-Survives t grace sha m v w' h s)
      ])

then_visit-Survives :
    (t : ℕ) (sha : String) (p : Pass × Option SweepError) (rest : Pass → Pass × Option SweepError)
    → ((x : Pass) → Survives t sha x → Survives t sha (rest x).0)
    → Survives t sha p.0
    → Survives t sha (then_visit p rest).0
then_visit-Survives t sha (w, some e) rest h s = s
then_visit-Survives t sha (w, none) rest h s = h w s

visits-Survives :
    (t grace : ℕ) (sha : String) (mark : List String) (m : Bool) (vs : List Visit) (complete : Bool)
    (w : Pass)
    → all (is_timely t grace sha) vs ≡ true
    → Survives t sha w
    → Survives t sha (visits grace mark m vs complete w).0
unfolding visits
visits-Survives t grace sha mark m [] complete w h s = s
visits-Survives t grace sha mark m (v ∷ vs) complete w h s =
    then_visit-Survives t sha (visit grace mark m v w) (visits grace mark m vs complete)
      (λ x. visits-Survives t grace sha mark m vs complete x (ground arith))
      (visit-Survives t grace sha mark m v w (ground arith) s)

sweep-Survives :
    (t grace : ℕ) (sha : String) (s : Run) (w : Pass)
    → all (is_timely t grace sha) s.listing ≡ true
    → Survives t sha w
    → Survives t sha (sweep grace s.refs s.listing s.complete w).0
unfolding sweep
sweep-Survives t grace sha s w h k =
    elim (mark_set s.refs)
      as (λ r.
        Survives t sha
          (sweep_marked grace r s.listing s.complete (record w { report = no_report })).0) [
            | err e ↦ k
            | ok (mark, m) ↦
                visits-Survives t grace sha mark m s.listing s.complete
                  (record w { report = no_report }) h k
          ]

sweeps-Survives :
    (t grace : ℕ) (sha : String) (ss : List Run) (w : Pass)
    → all (λ s. all (is_timely t grace sha) s.listing) ss ≡ true
    → Survives t sha w
    → Survives t sha (sweeps grace ss w)
unfolding sweeps
sweeps-Survives t grace sha [] w h k = k
sweeps-Survives t grace sha (s ∷ ss) w h k =
    sweeps-Survives t grace sha ss (sweep grace s.refs s.listing s.complete w).0 (ground arith)
      (sweep-Survives t grace sha s w (ground arith) k)

no_candidate-young :
    (t : ℕ) (sha : String) (ledger : List Candidate)
    → any (of_sha sha) ledger ≡ false
    → is_young t sha ledger ≡ true
no_candidate-young t sha [] h = refl
no_candidate-young t sha (c ∷ l) h = ground (arith, no_candidate-young t sha l)

-- An object of the store that is no candidate is still stored after any sequence of sweeps, whatever
-- the reference tables say in them, if every visit of it notes it at t or later and asks for its age
-- before t + grace.
pub sweeps-grace :
    (t grace : ℕ) (sha : String) (ss : List Run) (w : Pass)
    → all (λ s. all (is_timely t grace sha) s.listing) ss ≡ true
    → any (of_sha sha) w.ledger ≡ false
    → is_stored sha w ≡ true
    → is_stored sha (sweeps grace ss w) ≡ true
sweeps-grace t grace sha ss w h n s =
    (sweeps-Survives t grace sha ss w h (s, no_candidate-young t sha w.ledger n)).0
