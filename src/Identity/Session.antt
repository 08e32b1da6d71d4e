-- ===== src/Identity/Session.antt =====
-- internal/authn/session.go: the stateless session cookie of a launch.
use gophercast.Prelude.{
  ℕ, ◌+◌, ◌*◌, ◌==◌, String, Bool, true, false, not, Option, none, some, List, [], ◌∷◌,
  if◌then◌else◌, Result, ok, err, map,
}
use gophercast.Prelude.Int.{ℤ, pos}
use gophercast.Text.{Codes, codes}
use gophercast.Serve.Authz.{Principal}
use gophercast.Identity.Roles.{allowed_role}
use gophercast.Identity.Hmac.{Encoding, TokenError, sign_hs256, verify_hs256}
use gophercast.Identity.Claims.{
  Claims, Claim, Item, item, other_item, text, number, array, object, other, claim, as_text,
  check_time, ClaimError,
}

-- The secret with the encodings, the clock in seconds and nanoseconds, and the lifetime in seconds; 0
-- stands for the default.
pub record SessionCodec : Type 0 where
  pub encoding : Encoding
  pub seconds : ℕ
  pub nanoseconds : ℕ
  pub ttl : ℕ

pub data Method : Type 0 where
  oidc lti dev_seam anonymous : Method

pub record Info : Type 0 where
  pub username : String
  pub method : Method

pub data SessionError : Type 0 where
  role_outside_bound sign_failed : SessionError

abbrev pub now_of : SessionCodec → ℤ
now_of c = pos (c.seconds * 1000000000 + c.nanoseconds)

-- `DefaultSessionTTL`, two hours.
abbrev pub lifetime : ℕ → ℕ
lifetime n = if n == 0 then 7200 else n

-- `sessionSkew`
abbrev pub skew : ℤ
skew = pos 30000000000

unfoldable pub role_allowed : String → Bool
role_allowed r = allowed_role (codes r)

abbrev pub signed : Option Codes → Result SessionError Codes
signed none = err sign_failed
signed (some value) = ok value

abbrev pub session_claims : SessionCodec → String → List String → Claims
session_claims c username roles =
    ("sub", text username)
    ∷ ("roles", array (map item roles))
    ∷ ("iat", number (pos c.seconds))
    ∷ ("exp", number (pos (c.seconds + lifetime c.ttl)))
    ∷ []

unfoldable pub all_allowed : List String → Bool
unfolding role_allowed
all_allowed [] = true
all_allowed (r ∷ roles) =
    let rest = all_allowed roles in if not (role_allowed r) then false else rest

unfoldable pub mint : SessionCodec → String → List String → Result SessionError Codes
unfolding all_allowed
mint c username roles =
    if not (all_allowed roles)
    then err role_outside_bound
    else signed (sign_hs256 c.encoding (session_claims c username roles))

abbrev pub cons_role : String → Option (List String) → Option (List String)
cons_role r none = none
cons_role r (some roles) = some (r ∷ roles)

-- The loop over the roles: one that is no text, or is outside the bound, rejects the session.
unfoldable pub read_roles : List Item → Option (List String)
unfolding role_allowed
read_roles [] = some []
read_roles (other_item ∷ items) = none
read_roles (item r ∷ items) =
    let rest = read_roles items in if not (role_allowed r) then none else cons_role r rest

abbrev pub raw_roles : Option Claim → Option (List String)
raw_roles (some (array [])) = none
raw_roles (some (array (i ∷ items))) = read_roles (i ∷ items)
raw_roles (some (text s)) = none
raw_roles (some (number n)) = none
raw_roles (some (object fields)) = none
raw_roles (some other) = none
raw_roles none = none

abbrev pub resolved : Claims → Option (List String) → Option (Principal × Info)
resolved claims none = none
resolved claims (some roles) =
    some
      (record { roles = roles }, record { username = as_text (claim "sub" claims); method = lti })

abbrev pub unless_error : Option ClaimError → Option (Principal × Info) → Option (Principal × Info)
unless_error (some e) o = none
unless_error none o = o

abbrev pub validated : SessionCodec → Result TokenError Claims → Option (Principal × Info)
validated c (err e) = none
validated c (ok claims) =
    unless_error (check_time claims (now_of c) skew)
      (resolved claims (raw_roles (claim "roles" claims)))

unfoldable pub validate : SessionCodec → Codes → Option (Principal × Info)
unfolding read_roles check_time
validate c value = validated c (verify_hs256 c.encoding value)
