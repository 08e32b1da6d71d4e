-- ===== src/Identity/Trusted.antt =====
-- internal/oidcauth/oidcauth.go: what a token that is accepted has passed.
use gophercast.Prelude.{
  ◌≡◌, ◌≢◌, refl, sym, ap, String, Option, none, some, List, map, Result, ok, err,
}
use gophercast.Text.{Codes, codes, text_of, split}
use gophercast.Identity.Claims.{Claims, claim, ClaimError, check_issuer, check_audience, check_time}
use gophercast.Identity.Hmac.{TokenError}
use gophercast.Identity.Jws.{Jws, PublicKey, parse_header, verify}
use gophercast.Identity.Keys.{Cache, Published, Answers, fetch_key, fetch_key-Published}
use gophercast.Identity.Passed.{
  err_is_not, IsFrom, Names, IsInTime, check_issuer-IsFrom, check_audience-Names,
  check_time-IsInTime,
}
use gophercast.Identity.Signed.{IsSigned, HasKid, verify-IsSigned, parse_header-HasKid}
use gophercast.Identity.Discovered.{IsDiscovered, discover_jwks-IsDiscovered}
use gophercast.Identity.Asserted.{HasRoles, Asserts, roles_at-HasRoles, acts_as-Asserts}
use gophercast.Identity.Resolve.{ActsAs, Identity}
use gophercast.Identity.Oidc.{
  OidcConfig, OidcError, Discovery, discover_jwks, from_top, roles_at, acts_as, identity_of,
  with_roles, unless_claim_error, identity_from, Attempt, after_verify, after_key, after_header,
  after_discovery, validate_bearer,
}

unless_claim_error-ok :
    (o : Option ClaimError) (r : Result OidcError Identity) (id : Identity)
    → unless_claim_error o r ≡ ok id
    → (o ≡ none) × (r ≡ ok id)
unless_claim_error-ok none r id h = (refl, h)
unless_claim_error-ok (some e) r id h = absurd (err_is_not h)

-- An accepted token: signed with a key that the discovered URL published under the header's id; from the
-- issuer, for the client, in time; with roles, and with no assertion or a whole one.
pub record IsTrusted (P : String → String → PublicKey → Type 0) (j : Jws) (c : OidcConfig)
    (a : Attempt) (token : Codes) (d : Discovery) (id : Identity) : Type 0 where
  pub uri : String
  pub kid : String
  pub key : PublicKey
  pub claims : Claims
  pub discovered : IsDiscovered c a d uri
  pub some_url : uri ≢ ""
  pub has_kid : HasKid j token kid
  pub published : P uri kid key
  pub signed : IsSigned j token key claims
  pub from_issuer : IsFrom claims c.issuer_url
  pub names_client : Names claims c.client_id
  pub some_client : c.client_id ≢ ""
  pub in_time : IsInTime claims a.now c.skew
  pub has_roles :
      HasRoles (from_top (map text_of (split b'.' (codes c.roles_claim))) claims) id.roles
  pub asserts : Asserts (claim "act_as" claims) id.acts_as

identity_of-ok :
    (username : String) (roles : List String) (r : Result OidcError (Option ActsAs)) (id : Identity)
    → identity_of username roles r ≡ ok id
    → (id.roles ≡ roles) × (r ≡ ok id.acts_as)
identity_of-ok username roles (err e) id h = absurd (err_is_not h)
identity_of-ok username roles (ok o) id h =
    (sym (ap (λ i. Identity.roles i) (ok_of h)), ap (λ i. ok (Identity.acts_as i)) (ok_of h))
  where
    ok_of : {x y : Identity} → Path (Result OidcError Identity) (ok x) (ok y) → x ≡ y
    ok_of e = cc

with_roles-ok :
    (c : OidcConfig) (claims : Claims) (o : Option (List String)) (id : Identity)
    → with_roles c claims o ≡ ok id
    → (o ≡ some id.roles) × (acts_as (claim "act_as" claims) ≡ ok id.acts_as)
with_roles-ok c claims none id h = absurd (err_is_not h)
with_roles-ok c claims (some roles) id h =
    let (same, asserted) = identity_of-ok _ roles (acts_as (claim "act_as" claims)) id h in
    (ap some (sym same), asserted)

identity_from-ok :
    (c : OidcConfig) (a : Attempt) (claims : Claims) (id : Identity)
    → identity_from c a.now claims ≡ ok id
    → (check_issuer claims c.issuer_url ≡ none)
      × (check_audience claims c.client_id ≡ none)
      × (check_time claims a.now c.skew ≡ none)
      × (roles_at claims c.roles_claim ≡ some id.roles)
      × (acts_as (claim "act_as" claims) ≡ ok id.acts_as)
unfolding identity_from
identity_from-ok c a claims id h =
    let last = with_roles c claims (roles_at claims c.roles_claim) in
    let timed = unless_claim_error (check_time claims a.now c.skew) last in
    let (i, h1) =
      unless_claim_error-ok (check_issuer claims c.issuer_url)
        (unless_claim_error (check_audience claims c.client_id) timed) id h in
    let (u, h2) = unless_claim_error-ok (check_audience claims c.client_id) timed id h1 in
    let (t, h3) = unless_claim_error-ok (check_time claims a.now c.skew) last id h2 in
    let (r, s) = with_roles-ok c claims (roles_at claims c.roles_claim) id h3 in (i, u, t, r, s)

module _ (j : Jws) (c : OidcConfig) (a : Attempt) (token : Codes) where
  after_verify-ok :
      (r : Result TokenError Claims) (id : Identity)
      → after_verify j c a token r ≡ ok id
      → (claims : Claims) × (r ≡ ok claims) × (identity_from c a.now claims ≡ ok id)
  after_verify-ok (err e) id h = absurd (err_is_not h)
  after_verify-ok (ok claims) id h = (claims, refl, h)

  after_key-ok :
      (o : Option PublicKey) (cache : Cache) (id : Identity)
      → (after_key j c a token (o, cache)).0 ≡ ok id
      → (key : PublicKey) × (o ≡ some key) × (after_verify j c a token (verify j token key) ≡ ok id)
  after_key-ok none cache id h = absurd (err_is_not h)
  after_key-ok (some key) cache id h = (key, refl, h)

  after_header-ok :
      (uri : String) (r : Result TokenError String) (cache : Cache) (id : Identity)
      → (after_header j c a token uri r cache).0 ≡ ok id
      → (kid : String) × (r ≡ ok kid)
        × ((after_key j c a token (fetch_key j.from_base64 0 a.fetching uri kid cache)).0 ≡ ok id)
  after_header-ok uri (err e) cache id h = absurd (err_is_not h)
  after_header-ok uri (ok kid) cache id h = (kid, refl, h)

  after_discovery-ok :
      (r : Result OidcError String) (d : Discovery) (cache : Cache) (id : Identity)
      → (after_discovery j c a token (r, d) cache).0 ≡ ok id
      → (uri : String) × (r ≡ ok uri)
        × ((after_header j c a token uri (parse_header j token) cache).0 ≡ ok id)
  after_discovery-ok (err e) d cache id h = absurd (err_is_not h)
  after_discovery-ok (ok uri) d cache id h = (uri, refl, h)

  -- A bearer token that is accepted is signed by a key published under the id of its header at a URL that
  -- is cached or that the issuer announces; it is from the issuer, for the client and in time; the
  -- identity has at least one role, each given by the claim; and an assertion of another identity is
  -- absent, or an object with a name and roles. This holds if the cached keys and those that are fetched
  -- are published ones.
  pub validate_bearer-IsTrusted :
      (P : String → String → PublicKey → Type 0) (d : Discovery) (cache : Cache) (id : Identity)
      → Published P cache
      → ((url : String) → Answers P j.from_base64 url a.fetching)
      → (validate_bearer j c a token d cache).0 ≡ ok id
      → IsTrusted P j c a token d id
  unfolding validate_bearer
  validate_bearer-IsTrusted P d cache id known answers h =
      let found = discover_jwks c a.asked a.answer a.answered d a.meanwhile in
      let (uri, discovered, h1) = after_discovery-ok found.0 found.1 cache id h in
      let (kid, header, h2) = after_header-ok uri (parse_header j token) cache id h1 in
      let fetched = fetch_key j.from_base64 0 a.fetching uri kid cache in
      let (key, key_found, h3) = after_key-ok fetched.0 fetched.1 id h2 in
      let (claims, signed, h4) = after_verify-ok (verify j token key) id h3 in
      let (i, u, t, r, s) = identity_from-ok c a claims id h4 in
      let (announced_at, some_url) = discover_jwks-IsDiscovered c a d uri discovered in
      let (named, some_client) = check_audience-Names claims c.client_id u in
      record {
        uri = uri;
        kid = kid;
        key = key;
        claims = claims;
        discovered = announced_at;
        some_url = some_url;
        has_kid = parse_header-HasKid j token kid header;
        published =
            fetch_key-Published P j.from_base64 0 a.fetching uri kid key cache known (answers uri)
              key_found;
        signed = verify-IsSigned j token key claims signed;
        from_issuer = check_issuer-IsFrom claims c.issuer_url i;
        names_client = named;
        some_client = some_client;
        in_time = check_time-IsInTime claims a.now c.skew t;
        has_roles = roles_at-HasRoles claims c.roles_claim id.roles r;
        asserts = acts_as-Asserts (claim "act_as" claims) id.acts_as s;
      }
