-- ===== src/Mediapackage/OnWay.antt =====
-- What holds at every batch of the backfill of internal/mediapackage/mediapackage.go.
use mathlib.Core.Path.{subst}
use mathlib.Core.List.{append-nil, append_assoc}
use gophercast.Prelude.{
  ℕ, suc, ◌≤◌, ◌≡◌, sym, ap, ◌∙◌, String, Bool, true, false, Option, none, some, List, [], ◌∷◌,
  ◌++◌, map, ok, err, arith, length, keep, All, ◌==◌, All-append,
}
use gophercast.Prelude.Ordered.{
  take, drop, take-drop, All-drop, order_by, max_text, Ascending, IsCollation, order_by-keep,
  keep_max, Ascending-drop, length-take, All-take, keep-keep, keep-All, max_text-All,
}
use gophercast.Search.Rows.{Element}
use gophercast.Schemastep.Plan.{StepError}
use gophercast.Mediapackage.Materialise.{element_key}
use gophercast.Mediapackage.Backfill.{Walk, batch_ids, backfill_batch}

abbrev pub flatten : List (List String) → List String
flatten [] = []
flatten (xs ∷ xss) = xs ++ flatten xss

module _ (before : String → String → Bool) (limit : ℕ) (els : List Element) where
  abbrev ids : List String
  ids = map element_key els

  -- The rows still to come, in order: those after the cursor. What was written comes before them.
  pub record IsOnWay (rest : List String) (w : Walk) : Type 0 where
    pub same : w.elements ≡ els
    pub to_come : keep (before w.cursor) (order_by before ids) ≡ rest
    pub ascending : Ascending before rest
    pub named : All (λ i. before "" i ≡ true) rest
    pub written : flatten w.updates ++ rest ≡ order_by before ids
    pub small : All (λ b. length b ≤ limit) w.updates

  abbrev pub moved : List String → Walk → Walk
  moved rest w = record w {
    cursor = max_text before (take limit rest);
    updates = w.updates ++ take limit rest ∷ [];
  }

module _ (before : String → String → Bool) (c : IsCollation before) (outage : ℕ → Option StepError)
    (n : ℕ) (els : List Element) where
  abbrev limit : ℕ
  limit = suc n

  batch_ids-rest :
      (rest : List String) (w : Walk)
      → IsOnWay before limit els rest w
      → batch_ids before outage limit w ≡ take limit rest
  unfolding batch_ids
  batch_ids-rest rest w o =
      ap (take limit)
        (rw (o.same) (order_by-keep before c w.cursor (map element_key els)) ∙ o.to_come)

  pub batch-error :
      (w : Walk) (e : StepError)
      → outage (length w.updates) ≡ some e
      → backfill_batch before outage limit w ≡ (w, err e)
  unfolding backfill_batch
  batch-error w e f = rw f

  pub batch-last :
      (w : Walk)
      → IsOnWay before limit els [] w
      → outage (length w.updates) ≡ none
      → backfill_batch before outage limit w ≡ (w, ok true)
  unfolding backfill_batch
  batch-last w o f = rw f (rw (batch_ids-rest [] w o))

  pub batch-next :
      (x : String) (xs : List String) (w : Walk)
      → IsOnWay before limit els (x ∷ xs) w
      → outage (length w.updates) ≡ none
      → backfill_batch before outage limit w ≡ (moved before limit els (x ∷ xs) w, ok false)
  unfolding backfill_batch
  batch-next x xs w o f =
      let some_left : (length (take limit (x ∷ xs)) == 0) ≡ false = ground arith in
      rw f (rw (batch_ids-rest (x ∷ xs) w o) (rw some_left))

  flatten-snoc :
      (bs : List (List String)) (b : List String) → flatten (bs ++ b ∷ []) ≡ flatten bs ++ b
  flatten-snoc [] b = append-nil b
  flatten-snoc (a ∷ bs) b =
      ap (λ ys. a ++ ys) (flatten-snoc bs b) ∙ sym (append_assoc a (flatten bs) b)

  All-snoc :
      (bs : List (List String)) (b : List String)
      → All (λ a. length a ≤ limit) bs
      → length b ≤ limit
      → All (λ a. length a ≤ limit) (bs ++ b ∷ [])
  All-snoc bs b h k = All-append (λ a. length a ≤ limit) bs (b ∷ []) h (k, tt)

  pub moved-IsOnWay :
      (x : String) (xs : List String) (w : Walk)
      → IsOnWay before limit els (x ∷ xs) w
      → IsOnWay before limit els (drop limit (x ∷ xs)) (moved before limit els (x ∷ xs) w)
  moved-IsOnWay x xs w o =
      let rest = x ∷ xs in
      let m = max_text before (take limit rest) in
      let after : All (λ i. before w.cursor i ≡ true) rest =
        subst (All (λ i. before w.cursor i ≡ true)) o.to_come
          (keep-All before c w.cursor (order_by before (map element_key els))) in
      let later : before w.cursor m ≡ true =
        max_text-All before (λ i. before w.cursor i ≡ true) x (take n xs)
          (All-take (λ i. before w.cursor i ≡ true) limit rest after)
          (All-take (λ i. before "" i ≡ true) limit rest o.named) in
      record {
        same = o.same;
        to_come =
            keep-keep before c w.cursor m (order_by before (map element_key els)) later
            ∙ ap (keep (before m)) o.to_come
            ∙ keep_max before c limit rest o.named o.ascending;
        ascending = Ascending-drop before c limit (x ∷ xs) o.ascending;
        named = All-drop (λ i. before "" i ≡ true) limit (x ∷ xs) o.named;
        written =
            ap (λ ys. ys ++ drop limit rest) (flatten-snoc w.updates (take limit rest))
            ∙ append_assoc (flatten w.updates) (take limit rest) (drop limit rest)
            ∙ ap (λ ys. flatten w.updates ++ ys) (take-drop limit rest)
            ∙ o.written;
        small = All-snoc w.updates (take limit (x ∷ xs)) o.small (length-take limit (x ∷ xs));
      }
