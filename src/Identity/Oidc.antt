-- ===== src/Identity/Oidc.antt =====
-- internal/oidcauth/oidcauth.go: the validation of bearer tokens against the one operated issuer.
use gophercast.Prelude.{
  ℕ, ◌-◌, ltb, String, not, ◌&&◌, Option, none, some, List, [], ◌∷◌, if◌then◌else◌, Result, ok, err,
  str_eq, map,
}
use gophercast.Prelude.Int.{ℤ, pos, eqb_ℤ}
use gophercast.Text.{Codes, codes, text_of, split}
use gophercast.Identity.Claims.{
  Claims, Claim, Item, item, other_item, text, number, array, object, other, claim, as_text,
  field_of, field_in, ClaimError, check_issuer, check_audience, check_time,
}
use gophercast.Identity.Hmac.{TokenError}
use gophercast.Identity.Jws.{Jws, PublicKey, parse_header, verify}
use gophercast.Identity.Keys.{Cache, Fetching, fetch_key}
use gophercast.Identity.Resolve.{ActsAs, Identity}

-- Empty claim names and a skew of 0 stand for the defaults.
pub record OidcConfig : Type 0 where
  pub issuer_url : String
  pub client_id : String
  pub roles_claim : String
  pub username_claim : String
  pub skew : ℤ

pub data OidcError : Type 0 where
  no_discovery wrong_discovery no_jwks_uri no_key no_roles malformed_act_as incomplete_act_as :
      OidcError
  token_error : TokenError → OidcError
  claim_error : ClaimError → OidcError

-- `New`
abbrev pub or_default : String → String → String
or_default s default = if str_eq s "" then default else s

unfoldable pub with_defaults : OidcConfig → OidcConfig
with_defaults c = record {
  issuer_url = c.issuer_url;
  client_id = c.client_id;
  roles_claim = or_default c.roles_claim "roles";
  username_claim = or_default c.username_claim "preferred_username";
  skew = if eqb_ℤ c.skew (pos 0) then pos 60000000000 else c.skew;
}

-- The cached `jwks_uri`, empty before the first answer, and when it was fetched.
pub record Discovery : Type 0 where
  pub jwks_uri : String
  pub fetched : ℕ

-- What the issuer's discovery endpoint does: nothing is reached or another status than 200; the
-- answer breaks off or is no JSON; or it is a document.
pub data Discovered : Type 0 where
  no_answer unreadable : Discovered
  document : String → String → Discovered

abbrev pub one_hour : ℕ
one_hour = 3600000000000

abbrev pub stale_or_none : String → Discovery → Result OidcError String × Discovery
stale_or_none uri d = if str_eq uri "" then (err no_discovery, d) else (ok uri, d)

-- What the answer of the endpoint makes of a cache that is empty or an hour old.
abbrev pub answered_with :
    OidcConfig → String → ℕ → Discovery → Discovered → Result OidcError String × Discovery
answered_with c uri later meanwhile no_answer = stale_or_none uri meanwhile
answered_with c uri later meanwhile unreadable = (err no_discovery, meanwhile)
answered_with c uri later meanwhile (document issuer fresh) =
    if not (str_eq issuer c.issuer_url)
    then (err wrong_discovery, meanwhile)
    else if str_eq fresh ""
    then (err no_jwks_uri, meanwhile)
    else (ok fresh, record { jwks_uri = fresh; fetched = later })

-- `discoverJWKS`; the cache may have been filled by another call when the answer comes.
unfoldable pub discover_jwks :
    OidcConfig → ℕ → Discovered → ℕ → Discovery → Discovery → Result OidcError String × Discovery
discover_jwks c now answer later d meanwhile =
    if not (str_eq d.jwks_uri "") && ltb (now - d.fetched) one_hour
    then (ok d.jwks_uri, d)
    else answered_with c d.jwks_uri later meanwhile answer

-- The texts that are not empty.
unfoldable pub filled : List Item → List String
filled [] = []
filled (item s ∷ items) = let rest = filled items in if str_eq s "" then rest else s ∷ rest
filled (other_item ∷ items) = filled items

-- Down a path of fields, from a value.
unfoldable pub descend : List String → Option Claim → Option Claim
unfolding field_of
descend [] v = v
descend (seg ∷ segs) v = descend segs (field_in seg v)

abbrev pub roles_in : Option Claim → Option (List String)
roles_in (some (array items)) = some (filled items)
roles_in (some (text s)) = none
roles_in (some (number n)) = none
roles_in (some (object fields)) = none
roles_in (some other) = none
roles_in none = none

abbrev pub from_top : List String → Claims → Option Claim
from_top [] claims = none
from_top (seg ∷ segs) claims = descend segs (claim seg claims)

-- `rolesAt`: no roles at all are none.
abbrev pub non_empty : Option (List String) → Option (List String)
non_empty none = none
non_empty (some []) = none
non_empty (some (r ∷ roles)) = some (r ∷ roles)

unfoldable pub roles_at : Claims → String → Option (List String)
unfolding claim filled descend
roles_at claims path =
    non_empty (roles_in (from_top (map text_of (split b'.' (codes path))) claims))

abbrev pub items_of : Option Claim → List Item
items_of (some (array items)) = items
items_of (some (text s)) = []
items_of (some (number n)) = []
items_of (some (object fields)) = []
items_of (some other) = []
items_of none = []

abbrev pub acts_as_of : String → List String → Result OidcError (Option ActsAs)
acts_as_of username [] = err incomplete_act_as
acts_as_of username (r ∷ roles) =
    if str_eq username ""
    then err incomplete_act_as
    else ok (some (record { username = username; roles = r ∷ roles }))

-- The signed assertion; one that is present and malformed is a rejection.
unfoldable pub acts_as : Option Claim → Result OidcError (Option ActsAs)
unfolding field_of filled
acts_as none = ok none
acts_as (some (object fields)) =
    acts_as_of (as_text (field_of "username" fields)) (filled (items_of (field_of "roles" fields)))
acts_as (some (text s)) = err malformed_act_as
acts_as (some (number n)) = err malformed_act_as
acts_as (some (array items)) = err malformed_act_as
acts_as (some other) = err malformed_act_as

abbrev pub identity_of :
    String → List String → Result OidcError (Option ActsAs) → Result OidcError Identity
identity_of username roles (err e) = err e
identity_of username roles (ok a) = ok (record { username = username; roles = roles; acts_as = a })

abbrev pub with_roles : OidcConfig → Claims → Option (List String) → Result OidcError Identity
with_roles c claims none = err no_roles
with_roles c claims (some roles) =
    identity_of
      (or_default (as_text (claim c.username_claim claims)) (as_text (claim "sub" claims))) roles
      (acts_as (claim "act_as" claims))

abbrev pub unless_claim_error :
    Option ClaimError → Result OidcError Identity → Result OidcError Identity
unless_claim_error (some e) r = err (claim_error e)
unless_claim_error none r = r

unfoldable pub identity_from : OidcConfig → ℤ → Claims → Result OidcError Identity
unfolding claim roles_at acts_as
identity_from c now claims = unless_claim_error (check_issuer claims c.issuer_url) (
    unless_claim_error (check_audience claims c.client_id) (
      unless_claim_error (check_time claims now c.skew)
        (with_roles c claims (roles_at claims c.roles_claim))))

-- One validation: the clock in nanoseconds at its steps, and what issuer and key set answer.
pub record Attempt : Type 0 where
  pub asked : ℕ
  pub answer : Discovered
  pub answered : ℕ
  pub meanwhile : Discovery
  pub fetching : Fetching
  pub now : ℤ

module _ (j : Jws) (c : OidcConfig) (a : Attempt) (token : Codes) where
  abbrev pub after_verify : Result TokenError Claims → Result OidcError Identity
  after_verify (err e) = err (token_error e)
  after_verify (ok claims) = identity_from c a.now claims

  abbrev pub after_key : Option PublicKey × Cache → Result OidcError Identity × Cache
  after_key (none, cache) = (err no_key, cache)
  after_key (some key, cache) = (after_verify (verify j token key), cache)

  abbrev pub after_header :
      String → Result TokenError String → Cache → Result OidcError Identity × Cache
  after_header uri (err e) cache = (err (token_error e), cache)
  after_header uri (ok kid) cache = after_key (fetch_key j.from_base64 0 a.fetching uri kid cache)

  abbrev pub after_discovery :
      Result OidcError String × Discovery → Cache → Result OidcError Identity × (Discovery × Cache)
  after_discovery (err e, d) cache = (err e, (d, cache))
  after_discovery (ok uri, d) cache =
      let (result, after) = after_header uri (parse_header j token) cache in (result, (d, after))

  unfoldable pub validate_bearer :
      Discovery → Cache → Result OidcError Identity × (Discovery × Cache)
  unfolding discover_jwks identity_from
  validate_bearer d cache =
      after_discovery (discover_jwks c a.asked a.answer a.answered d a.meanwhile) cache
