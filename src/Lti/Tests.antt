-- ===== src/Lti/Tests.antt =====
-- A platform and a launch from it, and the theorems about internal/lti and internal/oidcauth at them.
use gophercast.Prelude.{
  sym, eq_iff, str_eq, Bool-cases, inl, inr, List, ℕ, ◌==◌, ◌≡◌, ◌≢◌, refl, String, true, Option,
  none, some, [], ◌∷◌, arith, if◌then◌else◌, ok,
}
use gophercast.Prelude.Int.{pos, ◌+ℤ◌}
use gophercast.Text.{Codes, codes, cut_prefix, text_of, eq_codes, split}
use gophercast.Prelude.Table.{find_by, put_by}
use gophercast.Identity.Claims.{
  claim, field_of, numeric_date, check_issuer, check_audience, check_time, Claims, text, number,
  array, object, item, field, empty_object,
}
use gophercast.Identity.Jws.{
  Jws, Jwk, PublicKey, peek_claims, parse_header, parse_jwks, verify, from_bytes,
}
use gophercast.Identity.Keys.{Fetching, fetch_key, key_at, Published}
use gophercast.Identity.Roles.{Launch}
use gophercast.Identity.Roles.{map_roles}
use gophercast.Identity.Sample.{shift, sample}
use gophercast.Identity.Hmac.{Invertible, sign_hs256}
use gophercast.Identity.Session.{SessionCodec, session_claims, mint}
use gophercast.Lti.Login.{Origin}
use gophercast.Lti.Registry.{Platform, lookup, has_deployment}
use gophercast.Lti.Store.{
  state_value, nonce_value, FlowStore, Op, mint_at, spend_at, minted, granted, run_ops,
}
use gophercast.Lti.Rows.{
  mem_mint, mem_spend, FlowRow, Fate, answered, lost, mem_store, mem_laws, pg_mint, pg_spend,
  pg_store,
}
use gophercast.Lti.Launch.{
  Service, Course, Posted, launch_from_claims, validate, claim_message_type, claim_version,
  claim_deployment_id, claim_target_link_uri, claim_resource_link, claim_roles, state_refusal,
  message_refusal, anchor, verified,
}
use gophercast.Lti.Accepted.{IsAccepted, validate-IsAccepted}
use gophercast.Lti.Replay.{state_replayed, token_replayed}
use gophercast.Lti.Session.{UrlParser, session, launch_roles, on_launch, target_of}

abbrev platform : Platform
platform = record {
  issuer = "https://lms.example";
  client_id = "tool";
  deployment_ids = "1" ∷ [];
  jwks_uri = "https://lms.example/keys";
  auth_endpoint = "https://lms.example/auth";
}

abbrev payload : Claims
payload =
    ("iss", text "https://lms.example")
    ∷ ("aud", text "tool")
    ∷ ("exp", number (pos 200))
    ∷ ("nonce", text "n1")
    ∷ ("sub", text "ada")
    ∷ (claim_deployment_id, text "1")
    ∷ (claim_message_type, text "LtiResourceLinkRequest")
    ∷ (claim_version, text "1.3.0")
    ∷ (claim_target_link_uri, text "https://tool.example/watch")
    ∷ (claim_resource_link, object (field "id" (text "r") empty_object))
    ∷ (claim_roles, array (item "http://purl.imsglobal.org/vocab/lis/v2/membership#Learner" ∷ []))
    ∷ []

-- The only texts that these encodings know.
abbrev to_claims : Codes → Option Claims
to_claims s =
    if eq_codes s (codes "h")
    then some (("alg", text "RS256") ∷ [])
    else if eq_codes s (codes "p")
    then some payload
    else none

abbrev jws : Jws
jws = record {
  from_base64 = λ s. some s;
  to_claims = to_claims;
  to_kid = λ s. some "k1";
  verifies = λ key hash input sig. eq_codes sig (codes "s");
}

abbrev keys : List Jwk
keys = record { kty = "RSA"; kid = "k1"; n = codes "n"; e = codes "e" } ∷ []

abbrev fetching : Fetching
fetching = record { now = 50; answer = some keys; others = λ c. c; later = 51 }

abbrev service : (S : Type 0) → FlowStore S → Service S
service S store = record {
  registry = platform ∷ [];
  store = store;
  jws = jws;
  key_ttl = 0;
  skew = pos 0;
}

abbrev mem_service : Service (List FlowRow)
mem_service = service (List FlowRow) mem_store

abbrev course : Course
course = record {
  spends_state = 10;
  others = mint_at 11 state_value "s2" 600 ∷ [];
  fetching = fetching;
  now = pos 100000000000;
  spends_nonce = 12;
}

abbrev posted : Posted
posted = record { id_token = codes "h.p.s"; state = "s1"; cookie = "s1" }

abbrev rows : List FlowRow
rows =
    record { kind = state_value; value = "s1"; expires_at = 600 }
    ∷ record { kind = nonce_value; value = "n1"; expires_at = 600 }
    ∷ []

abbrev pub launch : Launch
launch = record {
  issuer = "https://lms.example";
  client_id = "tool";
  deployment_id = "1";
  subject = "ada";
  role_uris = "http://purl.imsglobal.org/vocab/lis/v2/membership#Learner" ∷ [];
  context_id = "";
  context_label = "";
  resource_link_id = "r";
  target_link_uri = "https://tool.example/watch";
  claims = payload;
}

ran : (validate mem_service course posted rows []).0 ≡ ok launch
unfolding validate state_refusal mem_spend peek_claims split lookup parse_header fetch_key find_by
    parse_jwks verify check_issuer check_audience check_time ◌+ℤ◌ run_ops mem_mint
    launch_from_claims claim field_of numeric_date from_bytes key_at anchor message_refusal verified
    has_deployment put_by
ran = refl

abbrev IsK1 : String → String → PublicKey → Type 0
IsK1 url kid key = kid ≡ "k1"

empty-IsK1 : Published IsK1 []
unfolding find_by
empty-IsK1 url kid key e = absurd (cc)

-- The set that the URL answers with has no other key.
answers-IsK1 :
    (url kid : String) (doc : List Jwk) (key : PublicKey)
    → some keys ≡ some doc
    → key_at kid (parse_jwks (λ s. some s) doc []) ≡ some key
    → IsK1 url kid key
unfolding parse_jwks key_at from_bytes
answers-IsK1 url kid doc key a e =
    let same : keys ≡ doc = cc in
    let found : key_at kid (parse_jwks (λ s. some s) keys []) ≡ some key = rw (← same) at e in
    elim (Bool-cases (str_eq "k1" kid)) [
      | inl y ↦ sym ((eq_iff "k1" kid).0 y)
      | inr n ↦ absurd (let none_is : none ≡ some key = rw n at found in cc)
    ]

validate-IsAccepted_example : IsAccepted IsK1 mem_service course posted rows launch
validate-IsAccepted_example =
    validate-IsAccepted mem_service course posted IsK1 rows [] launch empty-IsK1 answers-IsK1 ran

state_replayed_example :
    (validate mem_service course
      (record { id_token = codes "h.p.t"; state = "s1"; cookie = "" })
      (validate mem_service course posted rows []).1.0
      []).0
    ≢ ok launch
unfolding minted validate run_ops
state_replayed_example =
    state_replayed mem_service mem_laws course course posted
      (record { id_token = codes "h.p.t"; state = "s1"; cookie = "" }) [] rows [] [] launch launch
      refl refl refl ran

token_replayed_example :
    (validate mem_service course
      (record { id_token = codes "h.p.s"; state = "s2"; cookie = "" })
      (validate mem_service course posted rows []).1.0
      []).0
    ≢ ok launch
unfolding minted validate run_ops claim peek_claims split
token_replayed_example =
    token_replayed mem_service mem_laws course course posted
      (record { id_token = codes "h.p.s"; state = "s2"; cookie = "" }) [] rows [] [] launch launch
      payload refl refl refl refl ran

-- A value that is minted once and spent three times.
abbrev ops : List Op
ops =
    mint_at 1 state_value "a" 600
    ∷ spend_at 2 state_value "a"
    ∷ mint_at 3 state_value "b" 600
    ∷ spend_at 4 state_value "a"
    ∷ spend_at 5 state_value "a"
    ∷ []

abbrev fate : ℕ → Fate
fate n = if n == 4 then lost else answered

granted_once : granted (pg_store fate) state_value "a" ops [] ≡ 1
unfolding granted pg_mint pg_spend
granted_once = refl

-- The path of the target may begin with two slashes, which a browser reads as another host.
off_site : target_of (some ("//evil.example/", "")) ≡ "//evil.example/"
off_site = refl

-- The session of the launch.
abbrev pub session_of_ada : Claims
session_of_ada =
    ("sub", text "ada")
    ∷ ("roles", array (item "ROLE_LTI_USER" ∷ item "ROLE_LTI_LEARNER" ∷ []))
    ∷ ("iat", number (pos 100))
    ∷ ("exp", number (pos 7300))
    ∷ []

abbrev pub codec : SessionCodec
codec = record { encoding = sample session_of_ada; seconds = 100; nanoseconds = 0; ttl = 0 }

abbrev pub origin : Origin
origin = record { tls = true; forwarded_proto = ""; host = "tool.example" }

abbrev pub cookie : Codes
cookie = 1 ∷ b'.' ∷ 2 ∷ b'.' ∷ shift (7 ∷ 1 ∷ b'.' ∷ 2 ∷ [])

abbrev pub parse : UrlParser
parse s = some ("/watch", "")

pub body : Invertible (sample session_of_ada) (session_claims codec "ada" (launch_roles launch))
unfolding launch_roles map_roles cut_prefix text_of
body s h = ground arith

pub entered : on_launch codec parse origin launch ≡ session cookie 7200 true "/watch"
unfolding on_launch mint map_roles cut_prefix text_of sign_hs256
entered = refl
