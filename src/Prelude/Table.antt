-- ===== src/Prelude/Table.antt =====
-- Tables with a text as primary key: lookup, upsert and delete, over lists of rows.
use mathlib.Core.Path.{◌≡◌, refl, sym, ap, ◌∙◌}
use mathlib.Core.Logic.{inl, inr}
use mathlib.Core.Bool.{Bool, true, false, false≢true}
use mathlib.Core.Option.{Option, none, some}
use mathlib.Core.List.{List, [], ◌∷◌}
use Prim.Native.String.{String}
use native.Mathlib.Omega.{arith}
use text.Mathlib.TextEquality.{eq_iff}
use gophercast.Prelude.Tests.{if◌then◌else◌, str_eq, str_eq_refl, Bool-cases}
use gophercast.Prelude.Lists.{any, keep}

module _ {ℓ} {A : Type ℓ} (key : A → String) where
  -- `where id = $1`
  unfoldable pub find_by : String → List A → Option A
  find_by k [] = none
  find_by k (x ∷ xs) = if str_eq (key x) k then some x else find_by k xs

  -- `insert … on conflict (id) do update`
  unfoldable pub put_by : A → List A → List A
  put_by r [] = r ∷ []
  put_by r (x ∷ xs) = if str_eq (key x) (key r) then r ∷ xs else x ∷ put_by r xs

  -- `insert … on conflict (id) do nothing`
  unfoldable pub insert_by : A → List A → List A
  insert_by r [] = r ∷ []
  insert_by r (x ∷ xs) = if str_eq (key x) (key r) then x ∷ xs else x ∷ insert_by r xs

  -- `delete … where id = $1`
  unfoldable pub drop_by : String → List A → List A
  drop_by k [] = []
  drop_by k (x ∷ xs) = if str_eq (key x) k then drop_by k xs else x ∷ drop_by k xs

  -- `update … set … where …`
  unfoldable pub update_where : (A → Bool) → (A → A) → List A → List A
  update_where q f [] = []
  update_where q f (x ∷ xs) = (if q x then f x else x) ∷ update_where q f xs

  abbrev pub updated : (A → Bool) → (A → A) → Option A → Option A
  updated q f none = none
  updated q f (some x) = some (if q x then f x else x)

  -- The primary key: no two rows have the same one.
  abbrev pub Keyed : List A → Type ℓ
  Keyed [] = Unit
  Keyed (x ∷ xs) = (find_by (key x) xs ≡ none) × Keyed xs

  pub find_by-put_by :
      (k : String) (r : A) (xs : List A)
      → find_by k (put_by r xs) ≡ (if str_eq (key r) k then some r else find_by k xs)
  unfolding find_by put_by
  find_by-put_by k r [] = refl
  find_by-put_by k r (x ∷ xs) =
      ground
        (arith, eq_iff (key x) (key r), eq_iff (key x) k, eq_iff (key r) k, find_by-put_by k r xs)

  abbrev pub or_else : Option A → A → A
  or_else none r = r
  or_else (some x) r = x

  pub find_by-insert_by :
      (k : String) (r : A) (xs : List A)
      → find_by k (insert_by r xs)
        ≡ (if str_eq (key r) k then some (or_else (find_by k xs) r) else find_by k xs)
  unfolding find_by insert_by
  find_by-insert_by k r [] = refl
  find_by-insert_by k r (x ∷ xs) =
      ground (
        arith,
        eq_iff (key x) (key r),
        eq_iff (key x) k,
        eq_iff (key r) k,
        find_by-insert_by k r xs,
      )

  pub insert_by_present :
      (r x : A) (xs : List A) → find_by (key r) xs ≡ some x → insert_by r xs ≡ xs
  unfolding find_by insert_by
  insert_by_present r x [] h = absurd (cc)
  insert_by_present r x (y ∷ xs) h = ground (arith, insert_by_present r x xs)

  -- A row that is found stays found, as it is.
  pub insert_by-keeps :
      (k : String) (r x : A) (xs : List A)
      → find_by k xs ≡ some x
      → find_by k (insert_by r xs) ≡ some x
  insert_by-keeps k r x xs h = find_by-insert_by k r xs ∙ rw h (ground arith)

  pub insert_by-finds :
      (r : A) (xs : List A) → (x : A) × (find_by (key r) (insert_by r xs) ≡ some x)
  insert_by-finds r xs =
      (or_else (find_by (key r) xs) r, find_by-insert_by (key r) r xs ∙ rw (str_eq_refl (key r)))

  pub put_by_again : (r : A) (xs : List A) → put_by r (put_by r xs) ≡ put_by r xs
  unfolding put_by
  put_by_again r [] = rw (str_eq_refl (key r))
  put_by_again r (x ∷ xs) = ground (arith, str_eq_refl (key r), put_by_again r xs)

  pub drop_by_again : (k : String) (xs : List A) → drop_by k (drop_by k xs) ≡ drop_by k xs
  unfolding drop_by
  drop_by_again k [] = refl
  drop_by_again k (x ∷ xs) = ground (arith, drop_by_again k xs)

  pub find_by-drop_by :
      (k j : String) (xs : List A)
      → find_by k (drop_by j xs) ≡ (if str_eq j k then none else find_by k xs)
  unfolding find_by drop_by
  find_by-drop_by k j [] = ground arith
  find_by-drop_by k j (x ∷ xs) =
      ground (arith, eq_iff (key x) j, eq_iff (key x) k, eq_iff j k, find_by-drop_by k j xs)

  pub find_by-key : (k : String) (xs : List A) (x : A) → find_by k xs ≡ some x → key x ≡ k
  unfolding find_by
  find_by-key k [] x h = cc
  find_by-key k (y ∷ xs) x h = ground (arith, eq_iff (key y) k, find_by-key k xs x)

  -- A row that passes a test is found under its key, and fails it only if the found one does.
  pub any_of_find :
      (q : A → Bool) (k : String) (xs : List A) (x : A)
      → find_by k xs ≡ some x
      → q x ≡ true
      → any q xs ≡ true
  unfolding find_by
  any_of_find q k [] x h p = cc
  any_of_find q k (y ∷ xs) x h p = ground (arith, any_of_find q k xs x)

  pub drop_by_absent : (k : String) (xs : List A) → find_by k xs ≡ none → drop_by k xs ≡ xs
  unfolding find_by drop_by
  drop_by_absent k [] h = refl
  drop_by_absent k (x ∷ xs) h = ground (arith, drop_by_absent k xs)

  -- What a test keeps is unchanged by a row that fails it, and whose predecessor failed it.
  pub keep-put_by :
      (q : A → Bool) (r : A) (xs : List A)
      → q r ≡ false
      → ((o : A) → find_by (key r) xs ≡ some o → q o ≡ false)
      → keep q (put_by r xs) ≡ keep q xs
  unfolding find_by put_by
  keep-put_by q r [] h old = ground arith
  keep-put_by q r (x ∷ xs) h old = elim (Bool-cases (str_eq (key x) (key r))) [
    | inl e ↦ rw e (rw (h, old x (rw e)))
    | inr e ↦ rw e (ground (arith, keep-put_by q r xs h (λ o f. old o (rw e f))))
  ]

  pub keep-drop_by :
      (q : A → Bool) (k : String) (xs : List A)
      → Keyed xs
      → ((o : A) → find_by k xs ≡ some o → q o ≡ false)
      → keep q (drop_by k xs) ≡ keep q xs
  unfolding find_by drop_by
  keep-drop_by q k [] u old = refl
  keep-drop_by q k (x ∷ xs) u old = elim (Bool-cases (str_eq (key x) k)) [
    | inl e ↦ rw e (rw (old x (rw e), drop_by_absent k xs (rw (← (eq_iff (key x) k).0 e) u.0)))
    | inr e ↦ rw e (ground (arith, keep-drop_by q k xs u.1 (λ o f. old o (rw e f))))
  ]

  pub Keyed-put_by : (r : A) (xs : List A) → Keyed xs → Keyed (put_by r xs)
  unfolding put_by find_by
  Keyed-put_by r [] u = (refl, tt)
  Keyed-put_by r (x ∷ xs) u = elim (Bool-cases (str_eq (key x) (key r))) [
    | inl e ↦ rw e (rw (← (eq_iff (key x) (key r)).0 e) u.0, u.1)
    | inr e ↦ rw e (
      rw (find_by-put_by (key x) r xs)
          (ground (arith, eq_iff (key x) (key r), eq_iff (key r) (key x))),
      Keyed-put_by r xs u.1,
    )
  ]

  pub Keyed-insert_by : (r : A) (xs : List A) → Keyed xs → Keyed (insert_by r xs)
  unfolding insert_by find_by
  Keyed-insert_by r [] u = (refl, tt)
  Keyed-insert_by r (x ∷ xs) u = elim (Bool-cases (str_eq (key x) (key r))) [
    | inl e ↦ rw e u
    | inr e ↦ rw e (
      rw (find_by-insert_by (key x) r xs)
          (ground (arith, eq_iff (key x) (key r), eq_iff (key r) (key x))),
      Keyed-insert_by r xs u.1,
    )
  ]

  pub Keyed-drop_by : (k : String) (xs : List A) → Keyed xs → Keyed (drop_by k xs)
  unfolding drop_by
  Keyed-drop_by k [] u = tt
  Keyed-drop_by k (x ∷ xs) u = elim (Bool-cases (str_eq (key x) k)) [
    | inl e ↦ rw e (Keyed-drop_by k xs u.1)
    | inr e ↦ rw e (
      rw (find_by-drop_by (key x) k xs) (ground (arith, eq_iff (key x) k, eq_iff k (key x))),
      Keyed-drop_by k xs u.1,
    )
  ]

  pub found_of_any :
      (q : A → Bool) (xs : List A)
      → Keyed xs
      → any q xs ≡ true
      → (x : A) × (find_by (key x) xs ≡ some x) × (q x ≡ true)
  unfolding find_by
  found_of_any q [] u h = absurd (cc)
  found_of_any q (y ∷ xs) u h = elim (Bool-cases (q y)) [
    | inl here ↦ (y, rw (str_eq_refl (key y)), here)
    | inr not_here ↦
        let (x, f, p) = found_of_any q xs u.1 (rw not_here at h) in
        (x, ground (arith, eq_iff (key y) (key x)), p)
  ]

  -- Tables with the same rows under the same keys pass the same tests.
  pub any-same :
      (q : A → Bool) (xs ys : List A)
      → Keyed xs
      → Keyed ys
      → ((k : String) → find_by k xs ≡ find_by k ys)
      → any q xs ≡ any q ys
  any-same q xs ys u v same = elim (Bool-cases (any q xs)) [
    | inl h ↦
        let (x, f, p) = found_of_any q xs u h in
        h ∙ sym (any_of_find q (key x) ys x (sym (same (key x)) ∙ f) p)
    | inr h ↦ elim (Bool-cases (any q ys)) [
      | inl g ↦
          let (y, f, p) = found_of_any q ys v g in
          absurd (false≢true (sym h ∙ any_of_find q (key y) xs y (same (key y) ∙ f) p))
      | inr g ↦ h ∙ sym g
    ]
  ]

  module _ (q : A → Bool) (f : A → A) (same : (x : A) → key (f x) ≡ key x) where
    pub key-updated : (x : A) → key (if q x then f x else x) ≡ key x
    key-updated x = elim (Bool-cases (q x)) [ inl e ↦ rw e (same x) | inr e ↦ rw e ]

    pub find_by-update_where :
        (k : String) (xs : List A) → find_by k (update_where q f xs) ≡ updated q f (find_by k xs)
    unfolding find_by update_where
    find_by-update_where k [] = refl
    find_by-update_where k (x ∷ xs) = rw (key-updated x) (elim (Bool-cases (str_eq (key x) k)) [
      | inl e ↦ rw e
      | inr e ↦ rw e (find_by-update_where k xs)
    ])

    pub Keyed-update_where : (xs : List A) → Keyed xs → Keyed (update_where q f xs)
    unfolding update_where
    Keyed-update_where [] u = tt
    Keyed-update_where (x ∷ xs) u = (
      rw (key-updated x) (find_by-update_where (key x) xs ∙ ap (updated q f) u.0),
      Keyed-update_where xs u.1,
    )
