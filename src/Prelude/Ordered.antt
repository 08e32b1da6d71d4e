-- ===== src/Prelude/Ordered.antt =====
-- What PostgreSQL's `order by`, `limit` and `max` give on texts, by the order of a collation.
use mathlib.Core.Path.{◌≡◌, refl, sym, ap, ◌∙◌}
use mathlib.Core.Logic.{inl, inr}
use mathlib.Core.Bool.{Bool, true, false, not, ◌&&◌, false≢true}
use mathlib.Core.List.{List, [], ◌∷◌, ◌++◌}
use Prim.Native.Nat.{ℕ, zero, suc, ◌-◌, ◌≤◌}
use Prim.Native.String.{String}
use native.Mathlib.Omega.{arith}
use text.Mathlib.TextEquality.{eq_iff}
use gophercast.Prelude.Tests.{if◌then◌else◌, str_eq, Bool-cases}
use gophercast.Prelude.Lists.{any, keep, All, length}

module _ {ℓ} {A : Type ℓ} where
  -- `limit $1`, and what it leaves.
  abbrev pub take : ℕ → List A → List A
  take zero xs = []
  take (suc n) [] = []
  take (suc n) (x ∷ xs) = x ∷ take n xs

  abbrev pub drop : ℕ → List A → List A
  drop zero xs = xs
  drop (suc n) [] = []
  drop (suc n) (x ∷ xs) = drop n xs

  pub take-drop : (n : ℕ) (xs : List A) → take n xs ++ drop n xs ≡ xs
  take-drop zero xs = refl
  take-drop (suc n) [] = refl
  take-drop (suc n) (x ∷ xs) = ap (λ ys. x ∷ ys) (take-drop n xs)

  pub length-take : (n : ℕ) (xs : List A) → length (take n xs) ≤ n
  length-take zero xs = omega arith
  length-take (suc n) [] = omega arith
  length-take (suc n) (x ∷ xs) = omega (arith, length-take n xs)

  pub length-drop : (n : ℕ) (xs : List A) → length (drop n xs) ≡ length xs - n
  length-drop zero xs = omega arith
  length-drop (suc n) [] = omega arith
  length-drop (suc n) (x ∷ xs) = omega (arith, length-drop n xs)

  pub All-take {κ} : (P : A → Type κ) (n : ℕ) (xs : List A) → All P xs → All P (take n xs)
  All-take P zero xs h = tt
  All-take P (suc n) [] h = tt
  All-take P (suc n) (x ∷ xs) h = (h.0, All-take P n xs h.1)

  pub All-drop {κ} : (P : A → Type κ) (n : ℕ) (xs : List A) → All P xs → All P (drop n xs)
  All-drop P zero xs h = h
  All-drop P (suc n) [] h = h
  All-drop P (suc n) (x ∷ xs) h = All-drop P n xs h.1

-- The primary key: no text stands twice.
abbrev pub are_distinct_texts : List String → Bool
are_distinct_texts [] = true
are_distinct_texts (i ∷ is) = not (any (str_eq i) is) && are_distinct_texts is

-- A strict total order.
pub record IsCollation (before : String → String → Bool) : Type 0 where
  pub irreflexive : (a : String) → before a a ≡ false
  pub transitive : (a b c : String) → before a b ≡ true → before b c ≡ true → before a c ≡ true
  pub total : (a b : String) → before a b ≡ false → before b a ≡ false → a ≡ b

module _ (before : String → String → Bool) where
  unfoldable pub insert_text : String → List String → List String
  insert_text x [] = x ∷ []
  insert_text x (y ∷ ys) = if before x y then x ∷ y ∷ ys else y ∷ insert_text x ys

  unfoldable pub order_by : List String → List String
  unfolding insert_text
  order_by [] = []
  order_by (x ∷ xs) = insert_text x (order_by xs)

  -- `coalesce(max(…), '')`
  unfoldable pub max_text : List String → String
  max_text [] = ""
  max_text (x ∷ xs) = let m = max_text xs in if before m x then x else m

  abbrev pub Ascending : List String → Type 0
  Ascending [] = Unit
  Ascending (x ∷ xs) = All (λ y. before x y ≡ true) xs × Ascending xs

  All-insert_text :
      (P : String → Type 0) (x : String) (ys : List String)
      → P x
      → All P ys
      → All P (insert_text x ys)
  unfolding insert_text
  All-insert_text P x [] p h = (p, tt)
  All-insert_text P x (y ∷ ys) p h = elim (Bool-cases (before x y)) [
    | inl e ↦ rw e (p, (h.0, h.1))
    | inr e ↦ rw e (h.0, All-insert_text P x ys p h.1)
  ]

  length-insert_text : (x : String) (ys : List String) → length (insert_text x ys) ≡ suc (length ys)
  unfolding insert_text
  length-insert_text x [] = refl
  length-insert_text x (y ∷ ys) = ground (arith, length-insert_text x ys)

  pub length-order_by : (xs : List String) → length (order_by xs) ≡ length xs
  unfolding order_by
  length-order_by [] = refl
  length-order_by (x ∷ xs) = omega (arith, length-insert_text x (order_by xs), length-order_by xs)

  pub All-order_by : (P : String → Type 0) (xs : List String) → All P xs → All P (order_by xs)
  unfolding order_by
  All-order_by P [] h = tt
  All-order_by P (x ∷ xs) h = All-insert_text P x (order_by xs) h.0 (All-order_by P xs h.1)

  -- The greatest of some texts is one of them, if they come after the empty one.
  pub max_text-All :
      (P : String → Type 0) (x : String) (xs : List String)
      → All P (x ∷ xs)
      → All (λ y. before "" y ≡ true) (x ∷ xs)
      → P (max_text (x ∷ xs))
  unfolding max_text
  max_text-All P x [] h n = rw (n.0) h.0
  max_text-All P x (y ∷ ys) h n = elim (Bool-cases (before (max_text (y ∷ ys)) x)) [
    | inl e ↦ rw e h.0
    | inr e ↦ rw e (max_text-All P y ys h.1 n.1)
  ]

  abbrev IsOther : String → String → Type 0
  IsOther x y = str_eq x y ≡ false

  others : (x : String) (ys : List String) → any (str_eq x) ys ≡ false → All (IsOther x) ys
  others x [] h = tt
  others x (y ∷ ys) h = (ground arith, others x ys (ground arith))

  module _ (c : IsCollation before) where
    All-before :
        (x y : String) (zs : List String)
        → before x y ≡ true
        → All (λ z. before y z ≡ true) zs
        → All (λ z. before x z ≡ true) zs
    All-before x y [] h k = tt
    All-before x y (z ∷ zs) h k = (c.transitive x y z h k.0, All-before x y zs h k.1)

    after_other : (x y : String) → IsOther x y → before x y ≡ false → before y x ≡ true
    after_other x y o h = elim (Bool-cases (before y x)) [
      | inl e ↦ e
      | inr e ↦ absurd (false≢true (sym o ∙ (eq_iff x y).1 (c.total x y h e)))
    ]

    insert_text-Ascending :
        (x : String) (ys : List String)
        → All (IsOther x) ys
        → Ascending ys
        → Ascending (insert_text x ys)
    unfolding insert_text
    insert_text-Ascending x [] o a = (tt, tt)
    insert_text-Ascending x (y ∷ ys) o a = elim (Bool-cases (before x y)) [
      | inl e ↦ rw e ((e, All-before x y ys e a.0), (a.0, a.1))
      | inr e ↦ rw e (
        All-insert_text (λ z. before y z ≡ true) x ys (after_other x y o.0 e) a.0,
        insert_text-Ascending x ys o.1 a.1,
      )
    ]

    pub order_by-Ascending :
        (xs : List String) → are_distinct_texts xs ≡ true → Ascending (order_by xs)
    unfolding order_by
    order_by-Ascending [] d = tt
    order_by-Ascending (x ∷ xs) d =
        insert_text-Ascending x (order_by xs)
          (All-order_by (IsOther x) xs (others x xs (ground arith)))
          (order_by-Ascending xs (ground arith))

    keep-insert_text :
        (k x : String) (ys : List String)
        → keep (before k) (insert_text x ys)
          ≡ (if before k x then insert_text x (keep (before k) ys) else keep (before k) ys)
    unfolding insert_text
    keep-insert_text k x [] = refl
    keep-insert_text k x (y ∷ ys) = ground (arith, c.transitive k x y, keep-insert_text k x ys)

    pub Ascending-drop : (n : ℕ) (xs : List String) → Ascending xs → Ascending (drop n xs)
    Ascending-drop zero xs a = a
    Ascending-drop (suc n) [] a = a
    Ascending-drop (suc n) (x ∷ xs) a = Ascending-drop n xs a.1

    pub keep-All :
        (k : String) (xs : List String) → All (λ x. before k x ≡ true) (keep (before k) xs)
    keep-All k [] = tt
    keep-All k (x ∷ xs) = elim (Bool-cases (before k x)) [
      | inl e ↦ rw e (rw e, keep-All k xs)
      | inr e ↦ rw e (keep-All k xs)
    ]

    -- A selection of what is after a text, in order.
    pub order_by-keep :
        (k : String) (xs : List String)
        → order_by (keep (before k) xs) ≡ keep (before k) (order_by xs)
    unfolding order_by
    order_by-keep k [] = refl
    order_by-keep k (x ∷ xs) = elim (Bool-cases (before k x)) [
      | inl e ↦ rw e (rw (order_by-keep k xs) (sym (keep-insert_text k x (order_by xs) ∙ rw e)))
      | inr e ↦ rw e (order_by-keep k xs ∙ sym (keep-insert_text k x (order_by xs) ∙ rw e))
    ]

    keep-append :
        (q : String → Bool) (xs ys : List String) → keep q (xs ++ ys) ≡ keep q xs ++ keep q ys
    keep-append q [] ys = refl
    keep-append q (x ∷ xs) ys = ground (arith, keep-append q xs ys)

    pub keep-keep :
        (k m : String) (xs : List String)
        → before k m ≡ true
        → keep (before m) xs ≡ keep (before m) (keep (before k) xs)
    keep-keep k m [] h = refl
    keep-keep k m (x ∷ xs) h = ground (arith, c.transitive k m x, keep-keep k m xs)

    pub All-keep :
        (m : String) (xs : List String) → All (λ x. before m x ≡ true) xs → keep (before m) xs ≡ xs
    All-keep m [] h = refl
    All-keep m (x ∷ xs) h = rw (h.0) (ap (λ ys. x ∷ ys) (All-keep m xs h.1))

    -- All that a limit leaves comes after the last that it takes.
    below-drop :
        (n : ℕ) (xs : List String)
        → All (λ x. before "" x ≡ true) xs
        → Ascending xs
        → All (λ x. before (max_text (take n xs)) x ≡ true) (drop n xs)
    unfolding max_text
    below-drop zero xs h a = h
    below-drop (suc n) [] h a = tt
    below-drop (suc n) (x ∷ xs) h a = elim (Bool-cases (before (max_text (take n xs)) x)) [
      | inl e ↦ rw e (All-drop (λ y. before x y ≡ true) n xs a.0)
      | inr e ↦ rw e (below-drop n xs h.1 a.1)
    ]

    none_above_greater :
        (m x : String) (xs : List String) (b : Bool)
        → before m x ≡ b
        → keep (before m) xs ≡ []
        → keep (before (if b then x else m)) (x ∷ xs) ≡ []
    none_above_greater m x xs true e h =
        rw (c.irreflexive x) (keep-keep m x xs e ∙ ap (keep (before x)) h)
    none_above_greater m x xs false e h = rw e h

    none_above : (n : ℕ) (xs : List String) → keep (before (max_text (take n xs))) (take n xs) ≡ []
    unfolding max_text
    none_above zero xs = refl
    none_above (suc n) [] = refl
    none_above (suc n) (x ∷ xs) =
        none_above_greater (max_text (take n xs)) x (take n xs) (before (max_text (take n xs)) x)
          refl (none_above n xs)

    -- What is after the last that a limit takes is what the limit leaves.
    pub keep_max :
        (n : ℕ) (xs : List String)
        → All (λ x. before "" x ≡ true) xs
        → Ascending xs
        → keep (before (max_text (take n xs))) xs ≡ drop n xs
    keep_max n xs h a =
        let q = before (max_text (take n xs)) in
        ap (keep q) (sym (take-drop n xs))
        ∙ keep-append q (take n xs) (drop n xs)
        ∙ rw (none_above n xs) (All-keep (max_text (take n xs)) (drop n xs) (below-drop n xs h a))
