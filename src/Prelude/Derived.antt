-- ===== src/Prelude/Derived.antt =====
-- A table whose rows are derived from those of another, key by key.
use mathlib.Core.Path.{◌≡◌, refl, ◌∙◌}
use mathlib.Core.Logic.{inl, inr}
use mathlib.Core.Bool.{Bool, true, false}
use mathlib.Core.Option.{Option, none, some}
use mathlib.Core.List.{List, [], ◌∷◌, map}
use Prim.Native.String.{String}
use native.Mathlib.Omega.{arith}
use text.Mathlib.TextEquality.{eq_iff}
use gophercast.Prelude.Tests.{if◌then◌else◌, str_eq, str_eq_refl, Bool-cases, Option-cases}
use gophercast.Prelude.Lists.{any, keep}
use gophercast.Prelude.Table.{
  find_by, put_by, Keyed, find_by-put_by, find_by-key, keep-put_by, Keyed-put_by,
}

-- The test of a row that may not be there.
abbrev pub passes {ℓ} : {A : Type ℓ} → (A → Bool) → Option A → Bool
passes q none = false
passes q (some a) = q a

abbrev pub is_in : String → List String → Bool
is_in k ks = any (str_eq k) ks

-- With a primary key, the keys of the rows that pass a test tell which rows pass it.
pub is_in-keep {ℓ} :
    {A : Type ℓ} (key : A → String) (q : A → Bool) (k : String) (xs : List A)
    → Keyed key xs
    → is_in k (map key (keep q xs)) ≡ passes q (find_by key k xs)
unfolding find_by
is_in-keep key q k [] u = refl
is_in-keep key q k (x ∷ xs) u = elim (Bool-cases (str_eq (key x) k)) [
  | inl e ↦
      let same : key x ≡ k = (eq_iff (key x) k).0 e in
      rw e (ground (arith, eq_iff k (key x), is_in-keep key q k xs u.1, u.0, same))
  | inr e ↦ rw e (ground (arith, eq_iff k (key x), eq_iff (key x) k, is_in-keep key q k xs u.1))
]

module _ {P R : Type 0} (pkey : P → String) (rkey : R → String) (row : P → R) where
  abbrev pub put_found : Option P → List R → List R
  put_found none rs = rs
  put_found (some p) rs = put_by rkey (row p) rs

  -- Derives the rows of the listed keys, one after the other.
  unfoldable pub put_all : List P → List String → List R → List R
  put_all ps [] rs = rs
  put_all ps (k ∷ ks) rs = put_all ps ks (put_found (find_by pkey k ps) rs)

  -- The row that is derived, or else the one that was there.
  abbrev pub derived : Option P → Option R → Option R
  derived none old = old
  derived (some p) old = some (row p)

  module _ (named : (p : P) → rkey (row p) ≡ pkey p) where
    find-put_found :
        (ps : List P) (k i : String) (rs : List R)
        → find_by rkey i (put_found (find_by pkey k ps) rs) ≡ (
            if str_eq i k
            then derived (find_by pkey i ps) (find_by rkey i rs)
            else find_by rkey i rs)
    find-put_found ps k i rs = elim (Option-cases (find_by pkey k ps)) [
      | inl f ↦ rw f (elim (Bool-cases (str_eq i k)) [
        | inl e ↦ rw e (rw ((eq_iff i k).0 e) (rw f))
        | inr e ↦ rw e
      ])
      | inr (p, f) ↦ rw f (
          find_by-put_by rkey i (row p) rs
          ∙ rw (named p) (
              rw (find_by-key pkey k ps p f) (elim (Bool-cases (str_eq i k)) [
                | inl e ↦ rw ((eq_iff i k).0 e) (rw (str_eq_refl k, f))
                | inr e ↦ ground (arith, eq_iff i k, eq_iff k i)
              ])))
    ]

    pub find-put_all :
        (ps : List P) (ks : List String) (i : String) (rs : List R)
        → find_by rkey i (put_all ps ks rs) ≡ (
            if is_in i ks
            then derived (find_by pkey i ps) (find_by rkey i rs)
            else find_by rkey i rs)
    unfolding put_all
    find-put_all ps [] i rs = refl
    find-put_all ps (k ∷ ks) i rs =
        find-put_all ps ks i (put_found (find_by pkey k ps) rs)
        ∙ rw (find-put_found ps k i rs) (elim (Option-cases (find_by pkey i ps)) [
          | inl f ↦ rw f (ground arith)
          | inr (p, f) ↦ rw f (ground arith)
        ])

    lacks-put_found :
        (q : R → Bool) (x : Option P) (j : String) (rs : List R) (o : R)
        → ((p : P) → x ≡ some p → q (row p) ≡ false)
        → ((r : R) → find_by rkey j rs ≡ some r → q r ≡ false)
        → find_by rkey j (put_found x rs) ≡ some o
        → q o ≡ false
    lacks-put_found q none j rs o new old h = old o h
    lacks-put_found q (some p) j rs o new old h =
        ground (arith, find_by-put_by rkey j (row p) rs, new p refl, old o)

    keep-put_found :
        (q : R → Bool) (x : Option P) (rs : List R)
        → ((p : P) → x ≡ some p → q (row p) ≡ false)
        → ((p : P) (r : R) → x ≡ some p → find_by rkey (pkey p) rs ≡ some r → q r ≡ false)
        → keep q (put_found x rs) ≡ keep q rs
    keep-put_found q none rs new old = refl
    keep-put_found q (some p) rs new old =
        keep-put_by rkey q (row p) rs (new p refl) (λ r f. old p r refl (rw (← named p) f))

    -- Rows that fail a test before and after leave what the test keeps as it was.
    pub keep-put_all :
        (q : R → Bool) (ps : List P) (ks : List String) (rs : List R)
        → ((k : String) (p : P)
            → is_in k ks ≡ true
            → find_by pkey k ps ≡ some p
            → q (row p) ≡ false)
        → ((k : String) (o : R) → is_in k ks ≡ true → find_by rkey k rs ≡ some o → q o ≡ false)
        → keep q (put_all ps ks rs) ≡ keep q rs
    unfolding put_all
    keep-put_all q ps [] rs new old = refl
    keep-put_all q ps (k ∷ ks) rs new old =
        let here : is_in k (k ∷ ks) ≡ true = rw (str_eq_refl k) in
        let there = λ (j : String) (h : is_in j ks ≡ true).
          let t : is_in j (k ∷ ks) ≡ true = rw h (ground arith) in t in
        keep-put_all q ps ks (put_found (find_by pkey k ps) rs) (λ j p h. new j p (there j h))
          (λ j o h.
            lacks-put_found q (find_by pkey k ps) j rs o (λ p. new k p here)
              (λ r. old j r (there j h)))
        ∙ keep-put_found q (find_by pkey k ps) rs (λ p. new k p here)
            (λ p r f g. old k r here (rw (← find_by-key pkey k ps p f) g))

    pub Keyed-put_all :
        (ps : List P) (ks : List String) (rs : List R)
        → Keyed rkey rs
        → Keyed rkey (put_all ps ks rs)
    unfolding put_all
    Keyed-put_all ps [] rs u = u
    Keyed-put_all ps (k ∷ ks) rs u =
        Keyed-put_all ps ks (put_found (find_by pkey k ps) rs)
          (elim (Option-cases (find_by pkey k ps)) [
            | inl f ↦ rw f u
            | inr (p, f) ↦ rw f (Keyed-put_by rkey (row p) rs u)
          ])
