-- ===== src/Gc/Safety.antt =====
-- internal/gc/gc.go: which objects a sweep leaves in the store, and what it reports.
use gophercast.Prelude.{
  ℕ, String, ◌≡◌, refl, ap, ◌∙◌, Bool, true, false, not, ◌||◌, Option, none, some, List, [], ◌∷◌,
  arith, str_eq, eq_iff, any, all, ok, inl, inr, Bool-cases,
}
use gophercast.Gc.Sweep.{
  Refs, SweepError, Pass, Visit, mark_exists, mark_set, resurrect, reclaim, recheck, if_expired,
  visit_unmarked, visit, then_visit, visits, sweep, remove_object, no_report, note_candidate,
  expired?, count_object,
}
use gophercast.Gc.Marks.{mark_set-mark_exists}

abbrev pub is_true : Option Bool → Bool
is_true none = false
is_true (some b) = b

-- The object is referenced when the mark set is read, or whenever it is visited.
abbrev pub is_referenced : Bool → Refs → List Visit → String → Bool
is_referenced m refs vs sha =
    is_true (mark_exists m refs sha)
    || all (λ v. not (str_eq sha v.sha) || is_true (mark_exists m v.refs sha)) vs

abbrev pub is_stored : String → Pass → Bool
is_stored sha w = any (str_eq sha) w.store

pub remove_object_other :
    (sha other : String) (store : List String)
    → str_eq sha other ≡ false
    → any (str_eq sha) (remove_object other store) ≡ any (str_eq sha) store
unfolding remove_object
remove_object_other sha other [] h = refl
remove_object_other sha other (s ∷ store) h =
    ground
      (arith, remove_object_other sha other store h, eq_iff other s, eq_iff sha s, eq_iff sha other)

reclaim_other :
    (v : Visit) (w : Pass) (sha : String)
    → str_eq sha v.sha ≡ false
    → is_stored sha (reclaim v w).0 ≡ is_stored sha w
unfolding reclaim
reclaim_other v w sha h = ground (arith, remove_object_other sha v.sha w.store h)

recheck_keeps :
    (b : Option Bool) (v : Visit) (w : Pass) (sha : String)
    → (not (str_eq sha v.sha) || is_true b) ≡ true
    → is_stored sha (recheck b v w).0 ≡ is_stored sha w
unfolding recheck resurrect
recheck_keeps none v w sha h = refl
recheck_keeps (some true) v w sha h = refl
recheck_keeps (some false) v w sha h = reclaim_other v w sha (ground arith)

if_expired_keeps :
    (x : Option Bool) (m : Bool) (v : Visit) (w : Pass) (sha : String)
    → (not (str_eq sha v.sha) || is_true (mark_exists m v.refs v.sha)) ≡ true
    → is_stored sha (if_expired x m v w).0 ≡ is_stored sha w
unfolding if_expired
if_expired_keeps none m v w sha h = refl
if_expired_keeps (some false) m v w sha h = refl
if_expired_keeps (some true) m v w sha h = recheck_keeps (mark_exists m v.refs v.sha) v w sha h

visit_unmarked_keeps :
    (grace : ℕ) (m : Bool) (v : Visit) (w : Pass) (sha : String)
    → (not (str_eq sha v.sha) || is_true (mark_exists m v.refs v.sha)) ≡ true
    → is_stored sha (visit_unmarked grace m v w).0 ≡ is_stored sha w
unfolding visit_unmarked
visit_unmarked_keeps grace m v w sha h =
    (let ledger = note_candidate v.sha v.inserted w.ledger in
      if_expired_keeps (expired? v.sha grace v.asked ledger) m v (record w { ledger = ledger }) sha
        h)

unmarked_at :
    (mark : List String) (f : String → Bool) (sha other : String)
    → (any (str_eq sha) mark || (not (str_eq sha other) || f sha)) ≡ true
    → any (str_eq other) mark ≡ false
    → (not (str_eq sha other) || f other) ≡ true
unmarked_at mark f sha other h n = elim (Bool-cases (str_eq sha other)) [
  | inl e ↦
      (let q = (eq_iff sha other).0 e in ground (arith, ap f q, ap (λ s. any (str_eq s) mark) q))
  | inr d ↦ ground arith
]

visit_keeps :
    (grace : ℕ) (mark : List String) (m : Bool) (v : Visit) (w : Pass) (sha : String)
    → (any (str_eq sha) mark || (not (str_eq sha v.sha) || is_true (mark_exists m v.refs sha)))
      ≡ true
    → is_stored sha (visit grace mark m v w).0 ≡ is_stored sha w
unfolding visit resurrect
visit_keeps grace mark m v w sha h =
    (let w' = record w { report = count_object w.report } in
      elim (Bool-cases (any (str_eq v.sha) mark)) [
        | inl y ↦ rw (y) refl
        | inr n ↦ rw (n) (
            visit_unmarked_keeps grace m v w' sha
              (unmarked_at mark (λ s. is_true (mark_exists m v.refs s)) sha v.sha h n))
      ])

then_visit_keeps :
    (p : Pass × Option SweepError) (rest : Pass → Pass × Option SweepError) (sha : String)
    → ((x : Pass) → is_stored sha (rest x).0 ≡ is_stored sha x)
    → is_stored sha (then_visit p rest).0 ≡ is_stored sha p.0
then_visit_keeps (w, some e) rest sha h = refl
then_visit_keeps (w, none) rest sha h = h w

visits_keep :
    (grace : ℕ) (mark : List String) (m : Bool) (vs : List Visit) (complete : Bool) (w : Pass)
    (sha : String)
    → (any (str_eq sha) mark
        || all (λ v. not (str_eq sha v.sha) || is_true (mark_exists m v.refs sha)) vs)
      ≡ true
    → is_stored sha (visits grace mark m vs complete w).0 ≡ is_stored sha w
unfolding visits
visits_keep grace mark m [] complete w sha h = refl
visits_keep grace mark m (v ∷ vs) complete w sha h =
    then_visit_keeps (visit grace mark m v w) (visits grace mark m vs complete) sha
      (λ x. visits_keep grace mark m vs complete x sha (ground arith))
    ∙ visit_keeps grace mark m v w sha (ground arith)

-- An object of the store that the reference tables name when the mark set is read, or that they name
-- at each recheck of it in the sweep, is in the store after the sweep, however the sweep ends.
pub sweep-keeps :
    (grace : ℕ) (refs : Refs) (vs : List Visit) (complete : Bool) (w : Pass) (mark : List String)
    (m : Bool) (sha : String)
    → mark_set refs ≡ ok (mark, m)
    → is_referenced m refs vs sha ≡ true
    → is_stored sha w ≡ true
    → is_stored sha (sweep grace refs vs complete w).0 ≡ true
unfolding sweep
sweep-keeps grace refs vs complete w mark m sha r h s = rw (r) (
    visits_keep grace mark m vs complete (record w { report = no_report }) sha
      (ground (arith, mark_set-mark_exists refs mark m r sha))
    ∙ s)
