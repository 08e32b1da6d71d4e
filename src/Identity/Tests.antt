-- ===== src/Identity/Tests.antt =====
-- A launch and its session, and the theorems about internal/lti and internal/authn at them.
use gophercast.Prelude.{
  sym, eq_iff, str_eq, Bool-cases, inl, inr, List, String, ◌≡◌, refl, true, false, Option, none,
  some, [], ◌∷◌, ok, arith, if◌then◌else◌,
}
use gophercast.Prelude.Int.{pos, ◌+ℤ◌}
use gophercast.Text.{Codes, codes, eq_codes, split, text_of, cut_prefix}
use gophercast.Serve.Authz.{is_admin}
use gophercast.Identity.Roles.{Launch, allowed_role, map_roles}
use gophercast.Identity.Claims.{
  check_issuer, check_audience, check_time, Claims, text, number, array, object, field,
  empty_object, item,
}
use gophercast.Identity.Jws.{Jws, Jwk, from_bytes, PublicKey, parse_header, parse_jwks, verify}
use gophercast.Identity.Keys.{fetch_key, key_at, Published}
use gophercast.Prelude.Table.{find_by}
use gophercast.Identity.Oidc.{
  OidcConfig, with_defaults, document, Discovery, Attempt, validate_bearer,
}
use gophercast.Identity.Trusted.{IsTrusted, validate_bearer-IsTrusted}
use gophercast.Identity.Sample.{shift, sample}
use gophercast.Identity.Hmac.{sign_hs256, Encoding, Invertible}
use gophercast.Identity.Session.{SessionCodec, mint}
use gophercast.Identity.Resolve.{Config, Request, Identity, bearer_token, resolve}
use gophercast.Identity.Bounded.{resolve-is_admin}

abbrev launch : Launch
launch = record {
  issuer = "https://lms.example";
  client_id = "tool";
  deployment_id = "1";
  subject = "ada";
  role_uris =
      "http://purl.imsglobal.org/vocab/lis/v2/membership#Instructor" ∷ "ROLE_ADMIN"
      ∷ "http://purl.imsglobal.org/vocab/lis/v2/membership#Instructor" ∷ [];
  context_id = "-course 7-";
  context_label = "";
  resource_link_id = "r";
  target_link_uri = "/watch";
  claims = [];
}

roles_of_launch :
    map_roles launch
    ≡ codes "ROLE_LTI_USER" ∷ codes "ROLE_LTI_INSTRUCTOR" ∷ codes "ROLE_LTI_CONTEXT_COURSE_7" ∷ []
unfolding map_roles cut_prefix
roles_of_launch = refl

-- Sessions of one user, in an encoding that only knows the header and these.
abbrev claims : Claims
claims =
    ("sub", text "ada")
    ∷ ("roles", array (item "ROLE_LTI_USER" ∷ []))
    ∷ ("iat", number (pos 100))
    ∷ ("exp", number (pos 7300))
    ∷ []

abbrev encoding : Encoding
encoding = sample claims

abbrev codec : SessionCodec
codec = record { encoding = encoding; seconds = 100; nanoseconds = 5; ttl = 0 }

abbrev replica : SessionCodec
replica = record { encoding = encoding; seconds = 90; nanoseconds = 0; ttl = 0 }

body : Invertible encoding claims
body s h = ground arith

abbrev cookie : Codes
cookie = 1 ∷ b'.' ∷ 2 ∷ b'.' ∷ shift (7 ∷ 1 ∷ b'.' ∷ 2 ∷ [])

minted : mint codec "ada" ("ROLE_LTI_USER" ∷ []) ≡ ok cookie
unfolding mint allowed_role cut_prefix sign_hs256
minted = refl

abbrev config : Config
config = record {
  oidc = none;
  service_roles = [];
  dev_seam = true;
  service_users = [];
  session = some codec;
}

abbrev request : Request
request = record {
  authorization = "";
  cookie = some cookie;
  x_roles = "ROLE_ADMIN";
  basic_auth = none;
}

resolve-is_admin_example : is_admin (resolve config request).0 ≡ false
unfolding bearer_token
resolve-is_admin_example = resolve-is_admin config request codec cookie refl refl refl

-- A bearer token of the issuer.
abbrev bearer_claims : Claims
bearer_claims =
    ("iss", text "https://idp.example")
    ∷ ("aud", array (item "other" ∷ item "core" ∷ []))
    ∷ ("azp", text "core")
    ∷ ("exp", number (pos 200))
    ∷ ("sub", text "7")
    ∷ ("preferred_username", text "ada")
    ∷ (
      "realm_access",
      object (field "roles" (array (item "" ∷ item "ROLE_SUDO" ∷ [])) empty_object),
    )
    ∷ (
      "act_as",
      object (
          field "username" (text "bob")
            (field "roles" (array (item "ROLE_USER" ∷ [])) empty_object)),
    )
    ∷ []

abbrev to_claims : Codes → Option Claims
to_claims s =
    if eq_codes s (codes "h")
    then some (("alg", text "RS384") ∷ [])
    else if eq_codes s (codes "p")
    then some bearer_claims
    else none

abbrev jws : Jws
jws = record {
  from_base64 = λ s. some s;
  to_claims = to_claims;
  to_kid = λ s. some "k2";
  verifies = λ key hash input sig. eq_codes sig (codes "s");
}

abbrev oidc_config : OidcConfig
oidc_config = with_defaults (record {
  issuer_url = "https://idp.example";
  client_id = "core";
  roles_claim = "realm_access.roles";
  username_claim = "";
  skew = pos 0;
})

abbrev keys : List Jwk
keys = record { kty = "RSA"; kid = "k2"; n = codes "n"; e = codes "e" } ∷ []

abbrev attempt : Attempt
attempt = record {
  asked = 40;
  answer = document "https://idp.example" "https://idp.example/keys";
  answered = 41;
  meanwhile = record { jwks_uri = ""; fetched = 0 };
  fetching = record { now = 42; answer = some keys; others = λ c. c; later = 43 };
  now = pos 100000000000;
}

abbrev undiscovered : Discovery
undiscovered = record { jwks_uri = ""; fetched = 0 }

abbrev identity : Identity
identity = record {
  username = "ada";
  roles = "ROLE_SUDO" ∷ [];
  acts_as = some (record { username = "bob"; roles = "ROLE_USER" ∷ [] });
}

accepted : (validate_bearer jws oidc_config attempt (codes "h.p.s") undiscovered []).0 ≡ ok identity
unfolding validate_bearer with_defaults parse_header split fetch_key find_by parse_jwks verify
    check_issuer check_audience check_time ◌+ℤ◌ text_of
accepted = refl

abbrev IsK2 : String → String → PublicKey → Type 0
IsK2 url kid key = kid ≡ "k2"

empty-IsK2 : Published IsK2 []
unfolding find_by
empty-IsK2 url kid key e = absurd (cc)

-- The set that the URL answers with has no other key.
answers-IsK2 :
    (url kid : String) (doc : List Jwk) (key : PublicKey)
    → some keys ≡ some doc
    → key_at kid (parse_jwks (λ s. some s) doc []) ≡ some key
    → IsK2 url kid key
unfolding parse_jwks key_at from_bytes
answers-IsK2 url kid doc key a e =
    let same : keys ≡ doc = cc in
    let found : key_at kid (parse_jwks (λ s. some s) keys []) ≡ some key = rw (← same) at e in
    elim (Bool-cases (str_eq "k2" kid)) [
      | inl y ↦ sym ((eq_iff "k2" kid).0 y)
      | inr n ↦ absurd (let none_is : none ≡ some key = rw n at found in cc)
    ]

validate_bearer-IsTrusted_example :
    IsTrusted IsK2 jws oidc_config attempt (codes "h.p.s") undiscovered identity
validate_bearer-IsTrusted_example =
    validate_bearer-IsTrusted jws oidc_config attempt (codes "h.p.s") IsK2 undiscovered [] identity
      empty-IsK2 answers-IsK2 accepted
