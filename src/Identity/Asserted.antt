-- ===== src/Identity/Asserted.antt =====
-- internal/oidcauth/oidcauth.go: the roles of a token, and its assertion of another identity.
use gophercast.Prelude.{
  ◌≡◌, ◌≢◌, refl, sym, ap, String, false, Option, none, some, List, [], ◌∷◌, Memᴰ, length, map, ok,
  str_eq, inl, inr, Bool-cases,
}
use gophercast.Text.{codes, text_of, split}
use gophercast.Identity.Claims.{
  Claims, Claim, Item, Fields, item, other_item, text, number, array, object, other, as_text,
  field_of,
}
use gophercast.Identity.Passed.{err_is_not, ok_of, not_empty, text_of_claim}
use gophercast.Identity.Resolve.{ActsAs}
use gophercast.Identity.Oidc.{
  filled, from_top, roles_in, non_empty, roles_at, items_of, acts_as_of, acts_as,
}

-- At least one role, each of them a text of the claim's array that is not empty.
pub record HasRoles (o : Option Claim) (roles : List String) : Type 0 where
  pub items : List Item
  pub is_list : o ≡ some (array items)
  pub some_role : length roles ≢ 0
  pub are_given : (r : String) → Memᴰ r roles → Memᴰ (item r) items × (r ≢ "")

-- No assertion, or a whole one: an object with a name and roles.
abbrev pub Asserts : Option Claim → Option ActsAs → Type 0
Asserts o none = o ≡ none
Asserts o (some a) =
    (fields : Fields) × (o ≡ some (object fields))
    × (field_of "username" fields ≡ some (text a.username))
    × (a.username ≢ "")
    × HasRoles (field_of "roles" fields) a.roles

-- A text is an item of the array, and not empty.
abbrev IsGiven : List Item → String → Type 0
IsGiven items r = Memᴰ (item r) items × (r ≢ "")

IsGiven-first :
    (t r : String) (texts : List String) (items : List Item)
    → Memᴰ r (t ∷ texts)
    → str_eq t "" ≡ false
    → (Memᴰ r texts → IsGiven items r)
    → IsGiven (item t ∷ items) r
IsGiven-first t r texts items (Memᴰ.head same) e rest =
    (Memᴰ.head (ap item same), not_empty r (rw (← same) at e))
IsGiven-first t r texts items (Memᴰ.tail n) e rest = let (l, k) = rest n in (Memᴰ.tail l, k)

filled-IsGiven : (items : List Item) (r : String) → Memᴰ r (filled items) → IsGiven items r
unfolding filled
filled-IsGiven [] r m = elim m [ ]
filled-IsGiven (other_item ∷ items) r m = let (n, k) = filled-IsGiven items r m in (Memᴰ.tail n, k)
filled-IsGiven (item t ∷ items) r m = elim (Bool-cases (str_eq t "")) [
  | inl e ↦ let (n, k) = filled-IsGiven items r (rw e at m) in (Memᴰ.tail n, k)
  | inr e ↦ IsGiven-first t r (filled items) items (rw e at m) e (filled-IsGiven items r)
]

held :
    (items : List Item) (roles : List String)
    → filled items ≡ roles
    → length roles ≢ 0
    → HasRoles (some (array items)) roles
held items roles same some_role = record {
  items = items;
  is_list = refl;
  some_role = some_role;
  are_given = λ r m. filled-IsGiven items r (rw same m);
}

not_none :
    (roles given : List String)
    → non_empty (some roles) ≡ some given
    → (roles ≡ given) × (length given ≢ 0)
not_none [] given h = absurd (cc)
not_none (r ∷ roles) given h =
    let same : r ∷ roles ≡ given = cc in (same, rw (← same) (λ e. absurd (cc)))

listed :
    (o : Option Claim) (roles : List String)
    → non_empty (roles_in o) ≡ some roles
    → HasRoles o roles
listed (some (array items)) roles h =
    let (same, some_role) = not_none (filled items) roles h in held items roles same some_role
listed (some (text s)) roles h = absurd (cc)
listed (some (number n)) roles h = absurd (cc)
listed (some (object fields)) roles h = absurd (cc)
listed (some other) roles h = absurd (cc)
listed none roles h = absurd (cc)

pub roles_at-HasRoles :
    (claims : Claims) (path : String) (roles : List String)
    → roles_at claims path ≡ some roles
    → HasRoles (from_top (map text_of (split b'.' (codes path))) claims) roles
unfolding roles_at
roles_at-HasRoles claims path roles h = listed _ roles h

roles_of : (o : Option Claim) → length (filled (items_of o)) ≢ 0 → HasRoles o (filled (items_of o))
unfolding filled
roles_of (some (array items)) h = held items (filled items) refl h
roles_of (some (text s)) h = absurd (h refl)
roles_of (some (number n)) h = absurd (h refl)
roles_of (some (object fields)) h = absurd (h refl)
roles_of (some other) h = absurd (h refl)
roles_of none h = absurd (h refl)

whole :
    (u : String) (rs : List String) (a : Option ActsAs)
    → acts_as_of u rs ≡ ok a
    → (a ≡ some (record { username = u; roles = rs })) × (u ≢ "") × (length rs ≢ 0)
whole u [] a h = absurd (err_is_not h)
whole u (r ∷ rs) a h = elim (Bool-cases (str_eq u "")) [
  | inl e ↦ absurd (err_is_not (rw e at h))
  | inr e ↦ (sym (ok_of (rw e at h)), not_empty u e, λ n. absurd (cc))
]

pub acts_as-Asserts : (o : Option Claim) (a : Option ActsAs) → acts_as o ≡ ok a → Asserts o a
unfolding acts_as
acts_as-Asserts none a h = rw (← ok_of h) refl
acts_as-Asserts (some (object fields)) a h =
    let (same, named, some_role) =
      whole (as_text (field_of "username" fields)) (filled (items_of (field_of "roles" fields))) a
        h in
    rw same (
      fields,
      refl,
      text_of_claim (field_of "username" fields) _ refl named,
      named,
      roles_of (field_of "roles" fields) some_role,
    )
acts_as-Asserts (some (text s)) a h = absurd (err_is_not h)
acts_as-Asserts (some (number n)) a h = absurd (err_is_not h)
acts_as-Asserts (some (array items)) a h = absurd (err_is_not h)
acts_as-Asserts (some other) a h = absurd (err_is_not h)
