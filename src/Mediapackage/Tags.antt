-- ===== src/Mediapackage/Tags.antt =====
-- The tags of an element, as `insertElement` of internal/mediapackage/mediapackage.go writes them.
use mathlib.Core.Bool.{false≢true}
use gophercast.Prelude.{
  String, ◌≡◌, refl, Bool, true, List, [], ◌∷◌, ◌++◌, arith, inl, inr, str_eq_refl, if◌then◌else◌,
  Bool-cases, any, All,
}
use gophercast.Mediapackage.Materialise.{is_tag, insert_tags}

any-append_left :
    {A : Type 0} (q : A → Bool) (xs ys : List A) → any q xs ≡ true → any q (xs ++ ys) ≡ true
any-append_left q [] ys h = absurd (false≢true h)
any-append_left q (x ∷ xs) ys h = ground (arith, any-append_left q xs ys)

any-append_last :
    {A : Type 0} (q : A → Bool) (xs : List A) (y : A) → q y ≡ true → any q (xs ++ y ∷ []) ≡ true
any-append_last q [] y h = rw h
any-append_last q (x ∷ xs) y h = ground (arith, any-append_last q xs y h)

pub insert_tags-keeps :
    (q : String × String → Bool) (e : String) (ts : List String) (rows : List (String × String))
    → any q rows ≡ true
    → any q (insert_tags e ts rows) ≡ true
unfolding insert_tags
insert_tags-keeps q e [] rows h = h
insert_tags-keeps q e (t ∷ ts) rows h = elim (Bool-cases (any (is_tag e t) rows)) [
  | inl k ↦ rw k (insert_tags-keeps q e ts rows h)
  | inr k ↦ rw k (insert_tags-keeps q e ts (rows ++ (e, t) ∷ []) (any-append_left q rows _ h))
]

abbrev pub HasTags : String → List String → List (String × String) → Type 0
HasTags e ts rows = All (λ t. any (is_tag e t) rows ≡ true) ts

is_tag_refl : (e t : String) → is_tag e t (e, t) ≡ true
is_tag_refl e t = rw (str_eq_refl e, str_eq_refl t)

tag_inserted :
    (e t : String) (rows : List (String × String))
    → any (is_tag e t) (if any (is_tag e t) rows then rows else rows ++ (e, t) ∷ []) ≡ true
tag_inserted e t rows = elim (Bool-cases (any (is_tag e t) rows)) [
  | inl k ↦ rw k k
  | inr k ↦ rw k (any-append_last (is_tag e t) rows (e, t) (is_tag_refl e t))
]

pub insert_tags-HasTags :
    (e : String) (ts : List String) (rows : List (String × String))
    → HasTags e ts (insert_tags e ts rows)
unfolding insert_tags
insert_tags-HasTags e [] rows = tt
insert_tags-HasTags e (t ∷ ts) rows =
    let now = if any (is_tag e t) rows then rows else rows ++ (e, t) ∷ [] in
    (insert_tags-keeps (is_tag e t) e ts now (tag_inserted e t rows), insert_tags-HasTags e ts now)

pub insert_tags_present :
    (e : String) (ts : List String) (rows : List (String × String))
    → HasTags e ts rows
    → insert_tags e ts rows ≡ rows
unfolding insert_tags
insert_tags_present e [] rows h = refl
insert_tags_present e (t ∷ ts) rows h = rw (h.0) (insert_tags_present e ts rows h.1)
