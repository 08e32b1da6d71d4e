-- ===== src/Identity/Bounded.antt =====
-- internal/authn: the authority of a session cookie, and its way through signing.
use gophercast.Prelude.{
  ◌+◌, ◌*◌, ◌≡◌, refl, ap, String, true, false, Option, none, some, List, [], ◌∷◌, arith, inl, inr,
  all, map, Bool-cases, str_eq, eq_iff, Result, ok, err,
}
use gophercast.Prelude.Int.{ℤ, pos, ◌+ℤ◌, ◌≤ℤ◌, ltb_ℤ}
use gophercast.Text.{Codes, cut_prefix}
use gophercast.Serve.Authz.{Principal, is_admin, is_admin_loop, is_admin_role}
use gophercast.Identity.Roles.{allowed_role}
use gophercast.Identity.Hmac.{
  TokenError, Base64, Invertible, hs256_header, sign_hs256, verify_hs256, sign_hs256-verify_hs256,
}
use gophercast.Identity.Claims.{
  Claims, Claim, Item, item, other_item, text, number, array, object, other, claim, check_time,
  ClaimError, numeric_date,
}
use gophercast.Identity.Session.{
  SessionCodec, Info, lti, role_allowed, all_allowed, mint, signed, session_claims, lifetime,
  cons_role, read_roles, raw_roles, resolved, unless_error, validated, validate, now_of, skew,
}
use gophercast.Identity.Resolve.{Config, Request, bearer_token, of_session, resolve}

abbrev AllIn : Option (List String) → Type 0
AllIn none = Unit {0}
AllIn (some roles) = all role_allowed roles ≡ true

cons_role-AllIn :
    (r : String) (o : Option (List String))
    → role_allowed r ≡ true
    → AllIn o
    → AllIn (cons_role r o)
cons_role-AllIn r none h k = tt
cons_role-AllIn r (some roles) h k = ground arith

read_roles-AllIn : (items : List Item) → AllIn (read_roles items)
unfolding read_roles
read_roles-AllIn [] = refl
read_roles-AllIn (other_item ∷ items) = tt
read_roles-AllIn (item r ∷ items) = elim (Bool-cases (role_allowed r)) [
  | inl y ↦ rw (y) (cons_role-AllIn r (read_roles items) y (read_roles-AllIn items))
  | inr n ↦ rw (n) tt
]

raw_roles-AllIn : (o : Option Claim) → AllIn (raw_roles o)
raw_roles-AllIn (some (array [])) = tt
raw_roles-AllIn (some (array (i ∷ items))) = read_roles-AllIn (i ∷ items)
raw_roles-AllIn (some (text s)) = tt
raw_roles-AllIn (some (number n)) = tt
raw_roles-AllIn (some (object fields)) = tt
raw_roles-AllIn (some other) = tt
raw_roles-AllIn none = tt

-- Every role of the principal is in the namespace of launches.
abbrev AllOf : Option (Principal × Info) → Type 0
AllOf none = Unit {0}
AllOf (some (p, info)) = all role_allowed p.roles ≡ true

resolved-AllOf : (claims : Claims) (o : Option (List String)) → AllIn o → AllOf (resolved claims o)
resolved-AllOf claims none h = tt
resolved-AllOf claims (some roles) h = h

unless_error-AllOf :
    (e : Option ClaimError) (o : Option (Principal × Info)) → AllOf o → AllOf (unless_error e o)
unless_error-AllOf none o h = h
unless_error-AllOf (some e) o h = tt

validated-AllOf : (c : SessionCodec) (o : Result TokenError Claims) → AllOf (validated c o)
validated-AllOf c (err e) = tt
validated-AllOf c (ok claims) =
    unless_error-AllOf (check_time claims (now_of c) skew)
      (resolved claims (raw_roles (claim "roles" claims)))
      (resolved-AllOf claims (raw_roles (claim "roles" claims))
        (raw_roles-AllIn (claim "roles" claims)))

role_outside : (r s : String) → role_allowed s ≡ false → role_allowed r ≡ true → str_eq r s ≡ false
role_outside r s n h = elim (Bool-cases (str_eq r s)) [
  | inl y ↦ ground (arith, ap role_allowed ((eq_iff r s).0 y))
  | inr d ↦ d
]

admins_outside : (role_allowed "ROLE_ADMIN" ≡ false) × (role_allowed "ROLE_GLOBAL_ADMIN" ≡ false)
unfolding role_allowed allowed_role cut_prefix
admins_outside = (refl, refl)

not_admin_role : (r : String) → role_allowed r ≡ true → is_admin_role r ≡ false
not_admin_role r h = ground (
  arith,
  role_outside r "ROLE_ADMIN" admins_outside.0 h,
  role_outside r "ROLE_GLOBAL_ADMIN" admins_outside.1 h,
)

is_admin-allowed :
    (roles : List String) → all role_allowed roles ≡ true → is_admin_loop roles ≡ false
unfolding is_admin_loop
is_admin-allowed [] h = refl
is_admin-allowed (r ∷ roles) h =
    ground (arith, not_admin_role r (ground arith), is_admin-allowed roles (ground arith))

of_session-admin : (o : Option (Principal × Info)) → AllOf o → is_admin (of_session o).0 ≡ false
unfolding is_admin is_admin_loop
of_session-admin none h = refl
of_session-admin (some (p, info)) h = is_admin-allowed p.roles h

-- A request without bearer token that presents a session cookie, where sessions are configured, is not
-- a platform administrator's, whatever the cookie says, and whatever roles its headers claim to the seam.
pub resolve-is_admin :
    (c : Config) (r : Request) (codec : SessionCodec) (value : Codes)
    → bearer_token r ≡ none
    → c.session ≡ some codec
    → r.cookie ≡ some value
    → is_admin (resolve c r).0 ≡ false
unfolding resolve validate
resolve-is_admin c r codec value b s k =
    rw (b, s, k)
      (of_session-admin (validate codec value)
        (validated-AllOf codec (verify_hs256 codec.encoding value)))

read_roles-items :
    (roles : List String) → all_allowed roles ≡ true → read_roles (map item roles) ≡ some roles
unfolding read_roles all_allowed
read_roles-items [] h = refl
read_roles-items (r ∷ roles) h = elim (Bool-cases (role_allowed r)) [
  | inl y ↦ rw (y, read_roles-items roles (ground arith)) refl
  | inr n ↦ ground arith
]

raw_roles-items :
    (r : String) (roles : List String)
    → all_allowed (r ∷ roles) ≡ true
    → raw_roles (some (array (map item (r ∷ roles)))) ≡ some (r ∷ roles)
raw_roles-items r roles h = read_roles-items (r ∷ roles) h

not_before : (a b : ℤ) → b ≤ℤ a → ltb_ℤ a b ≡ false
not_before a b h = ground arith

-- The claims of a session pass the time check until their lifetime and the skew are over.
session_in_time :
    (c c' : SessionCodec) (username : String) (roles : List String)
    → now_of c' ≤ℤ (pos ((c.seconds + lifetime c.ttl) * 1000000000) +ℤ skew)
    → pos (c.seconds * 1000000000) ≤ℤ (now_of c' +ℤ skew)
    → check_time (session_claims c username roles) (now_of c') skew ≡ none
unfolding check_time claim numeric_date
session_in_time c c' username roles h k =
    rw
      (
        not_before (pos ((c.seconds + lifetime c.ttl) * 1000000000) +ℤ skew) (now_of c') h,
        not_before (now_of c' +ℤ skew) (pos (c.seconds * 1000000000)) k,
      )
      refl

validated-session :
    (c c' : SessionCodec) (username r : String) (roles : List String)
    → all_allowed (r ∷ roles) ≡ true
    → now_of c' ≤ℤ (pos ((c.seconds + lifetime c.ttl) * 1000000000) +ℤ skew)
    → pos (c.seconds * 1000000000) ≤ℤ (now_of c' +ℤ skew)
    → validated c' (ok (session_claims c username (r ∷ roles)))
      ≡ some (record { roles = r ∷ roles }, record { username = username; method = lti })
unfolding claim
validated-session c c' username r roles a h k =
    rw (session_in_time c c' username (r ∷ roles) h k, raw_roles-items r roles a) refl

signed_ok : (o : Option Codes) (value : Codes) → signed o ≡ ok value → o ≡ some value
signed_ok none value h = ground arith
signed_ok (some v) value h = ground arith

-- A session that was minted for a user with some role is validated to the same user and roles by every
-- replica with the same secret, from when its clock, with the skew, has reached the minting one
-- until the lifetime and the skew are over.
pub mint-validate :
    (c c' : SessionCodec) (username r : String) (value : Codes) (roles : List String)
    → c'.encoding ≡ c.encoding
    → Base64 c.encoding
    → Invertible c.encoding hs256_header
    → Invertible c.encoding (session_claims c username (r ∷ roles))
    → mint c username (r ∷ roles) ≡ ok value
    → pos (c.seconds * 1000000000) ≤ℤ (now_of c' +ℤ skew)
    → now_of c' ≤ℤ (pos ((c.seconds + lifetime c.ttl) * 1000000000) +ℤ skew)
    → validate c' value
      ≡ some (record { roles = r ∷ roles }, record { username = username; method = lti })
unfolding mint validate
mint-validate c c' username r value roles same base i j m k h =
    elim (Bool-cases (all_allowed (r ∷ roles))) [
      | inl y ↦
          (let s : signed (sign_hs256 c.encoding (session_claims c username (r ∷ roles)))
                ≡ ok value =
              ground arith in
            rw
              (
                same,
                sign_hs256-verify_hs256 c.encoding (session_claims c username (r ∷ roles)) value
                    base i j
                    (signed_ok (sign_hs256 c.encoding (session_claims c username (r ∷ roles))) value
                      s),
              )
              (validated-session c c' username r roles y h k))
      | inr n ↦ ground arith
    ]
