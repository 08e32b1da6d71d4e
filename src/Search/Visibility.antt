-- ===== src/Search/Visibility.antt =====
-- What the visibility clauses of internal/search/query.go mean in the authoritative tables.
use mathlib.Core.Bool.{false≢true}
use gophercast.Prelude.{
  String, ◌≡◌, refl, sym, ◌∙◌, Bool, true, false, not, ◌&&◌, List, [], ◌∷◌, map, arith, inl, inr,
  str_eq, str_eq_refl, str_eq_sym, eq_iff, Bool-cases, any, keep, Memᴰ,
}
use gophercast.Acl.Policy.{EntryRow, event, in_scope}
use gophercast.Search.Project.{holds, is_allow, is_deny, allowed_roles}
use gophercast.Search.Agreement.{holds-distinct}
use gophercast.Search.Query.{overlap, prune}

module _ {A : Type 0} where
  pub any_witness :
      (q : A → Bool) (xs : List A) → any q xs ≡ true → (x : A) × Memᴰ x xs × (q x ≡ true)
  any_witness q [] h = absurd (false≢true h)
  any_witness q (x ∷ xs) h = elim (Bool-cases (q x)) [
    | inl here ↦ (x, Memᴰ.head refl, here)
    | inr no_here ↦ let (y, m, k) = any_witness q xs (rw no_here at h) in (y, Memᴰ.tail m, k)
  ]

  pub any_of_mem : (q : A → Bool) {x : A} (xs : List A) → Memᴰ x xs → q x ≡ true → any q xs ≡ true
  any_of_mem q [] m h = elim m [ ]
  any_of_mem q (y ∷ xs) (Memᴰ.head e) h = rw (← e) (rw h)
  any_of_mem q (y ∷ xs) (Memᴰ.tail m) h = ground (arith, any_of_mem q xs m h)

pub true_iff : (a b : Bool) → (a ≡ true → b ≡ true) → (b ≡ true → a ≡ true) → a ≡ b
true_iff true b f g = sym (f refl)
true_iff false true f g = g refl
true_iff false false f g = refl

pub holds-mem : (r : String) (xs : List String) → Memᴰ r xs → holds r xs ≡ true
holds-mem r xs m = any_of_mem (str_eq r) xs m (str_eq_refl r)

holds-eq :
    (r s : String) (xs : List String) → str_eq r s ≡ true → holds s xs ≡ true → holds r xs ≡ true
holds-eq r s xs e h = rw ((eq_iff r s).0 e) h

any-keep :
    {A : Type 0} (q p : A → Bool) (xs : List A) → any q (keep p xs) ≡ any (λ x. p x && q x) xs
any-keep q p [] = refl
any-keep q p (x ∷ xs) = ground (arith, any-keep q p xs)

pub any-map :
    {A B : Type 0} (q : B → Bool) (f : A → B) (xs : List A)
    → any q (map f xs) ≡ any (λ x. q (f x)) xs
any-map q f [] = refl
any-map q f (x ∷ xs) = rw (any-map q f xs)

-- The role is allowed the action by some entry, and denied it by none.
abbrev pub role_may : String → List EntryRow → String → Bool
role_may action es r =
    any (λ a. str_eq a.entry.role r && is_allow action a.entry) es
    && not (any (is_deny r action) es)

allowed_of :
    (r action : String) (ds es : List EntryRow)
    → any
        (λ a.
          (is_allow action a.entry && not (any (is_deny a.entry.role action) ds))
          && str_eq r a.entry.role)
        es
      ≡ (any (λ a. str_eq a.entry.role r && is_allow action a.entry) es
          && not (any (is_deny r action) ds))
allowed_of r action ds [] = refl
allowed_of r action ds (a ∷ es) = elim (Bool-cases (str_eq a.entry.role r)) [
  | inl e ↦
      rw ((eq_iff a.entry.role r).0 e)
        (rw (str_eq_refl r) (ground (arith, allowed_of r action ds es)))
  | inr e ↦ rw e (rw (str_eq_sym a.entry.role r e) (ground (arith, allowed_of r action ds es)))
]

pub holds-allowed_roles :
    (r action : String) (es : List EntryRow)
    → holds r (allowed_roles action es) ≡ role_may action es r
unfolding allowed_roles
holds-allowed_roles r action es =
    let q =
      λ (a : EntryRow). is_allow action a.entry && not (any (is_deny a.entry.role action) es) in
    holds-distinct r (map (λ a. a.entry.role) (keep q es))
    ∙ any-map (str_eq r) (λ a. a.entry.role) (keep q es)
    ∙ any-keep (λ a. str_eq r a.entry.role) q es
    ∙ allowed_of r action es es

-- Some entry, of any policy, names the role.
abbrev pub is_known : List EntryRow → String → Bool
is_known entries r = any (λ e. str_eq e.entry.role r) entries

known_of :
    (r : String) (roles : List String) (es : List EntryRow)
    → any (λ e. holds e.entry.role roles && str_eq r e.entry.role) es
      ≡ (holds r roles && is_known es r)
known_of r roles [] = ground arith
known_of r roles (e ∷ es) = elim (Bool-cases (str_eq e.entry.role r)) [
  | inl h ↦
      rw ((eq_iff e.entry.role r).0 h) (rw (str_eq_refl r) (ground (arith, known_of r roles es)))
  | inr h ↦ rw h (rw (str_eq_sym e.entry.role r h) (ground (arith, known_of r roles es)))
]

pub holds-prune :
    (r : String) (entries : List EntryRow) (roles : List String)
    → holds r (prune entries roles) ≡ (holds r roles && is_known entries r)
unfolding prune
holds-prune r entries [] = refl
holds-prune r entries (s ∷ ss) =
    let q = λ (e : EntryRow). holds e.entry.role (s ∷ ss) in
    holds-distinct r (map (λ e. e.entry.role) (keep q entries))
    ∙ any-map (str_eq r) (λ e. e.entry.role) (keep q entries)
    ∙ any-keep (λ e. str_eq r e.entry.role) q entries
    ∙ known_of r (s ∷ ss) entries

-- Pruning changes nothing where every role of the array is known.
pub overlap-prune :
    (a roles : List String) (entries : List EntryRow)
    → ((r : String) → holds r a ≡ true → is_known entries r ≡ true)
    → overlap a (prune entries roles) ≡ any (λ r. holds r a) roles
overlap-prune a roles entries known =
    true_iff (overlap a (prune entries roles)) (any (λ r. holds r a) roles)
      (λ h.
        let (r, m, k) = any_witness (λ r. holds r (prune entries roles)) a h in
        let both : (holds r roles && is_known entries r) ≡ true =
          sym (holds-prune r entries roles) ∙ k in
        let (s, n, e) = any_witness (str_eq r) roles (ground arith) in
        any_of_mem (λ t. holds t a) roles n (rw (← (eq_iff r s).0 e) (holds-mem r a m)))
      (λ h.
        let (r, m, k) = any_witness (λ t. holds t a) roles h in
        let (s, n, e) = any_witness (str_eq r) a k in
        any_of_mem (λ t. holds t (prune entries roles)) a n
          (rw (← (eq_iff r s).0 e)
            (holds-prune r entries roles ∙ rw (holds-mem r roles m) (known r k))))

-- The entries of one policy, and the roles that they allow, are known.
known_in_scope :
    (r id action : String) (entries : List EntryRow)
    → role_may action (keep (in_scope event id) entries) r ≡ true
    → is_known entries r ≡ true
known_in_scope r id action entries h =
    let q = λ (a : EntryRow). str_eq a.entry.role r && is_allow action a.entry in
    let some_entry : any q (keep (in_scope event id) entries) ≡ true = ground arith in
    let (a, m, k) =
      any_witness (λ a. in_scope event id a && q a) entries
        (sym (any-keep q (in_scope event id) entries) ∙ some_entry) in
    any_of_mem (λ e. str_eq e.entry.role r) entries m (ground arith)

any-cong :
    (f g : String → Bool) (xs : List String) → ((r : String) → f r ≡ g r) → any f xs ≡ any g xs
any-cong f g [] h = refl
any-cong f g (x ∷ xs) h = rw (h x) (rw (any-cong f g xs h))

pub allowed_overlap :
    (action id : String) (roles : List String) (entries : List EntryRow)
    → let es = keep (in_scope event id) entries in
      overlap (allowed_roles action es) (prune entries roles) ≡ any (role_may action es) roles
allowed_overlap action id roles entries =
    let es = keep (in_scope event id) entries in
    overlap-prune (allowed_roles action es) roles entries
      (λ r h. known_in_scope r id action entries (sym (holds-allowed_roles r action es) ∙ h))
    ∙ any-cong (λ r. holds r (allowed_roles action es)) (role_may action es) roles
        (λ r. holds-allowed_roles r action es)
