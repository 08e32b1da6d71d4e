-- ===== src/Lti/Launch.antt =====
-- `Launch` and `validate` of internal/lti/launch.go.
use gophercast.Prelude.{
  ℕ, String, Bool, true, false, not, ◌&&◌, ◌||◌, Option, none, some, List, [], if◌then◌else◌,
  Result, ok, err, str_eq,
}
use gophercast.Prelude.Int.{ℤ, pos, eqb_ℤ}
use gophercast.Text.{Codes}
use gophercast.Identity.Claims.{
  Claims, Claim, array, text, number, object, other, claim, as_text, texts, field_of, field_in,
  is_array, ClaimError, check_issuer, check_audience, check_time,
}
use gophercast.Identity.Hmac.{TokenError}
use gophercast.Identity.Jws.{Jws, PublicKey, peek_claims, parse_header, verify}
use gophercast.Identity.Keys.{Cache, Fetching, fetch_key}
use gophercast.Identity.Roles.{Launch}
use gophercast.Lti.Registry.{Platform, LookupError, lookup, has_deployment}
use gophercast.Lti.Store.{state_value, nonce_value, StoreError, FlowStore, Op, run_ops}

pub data Refusal : Type 0 where
  no_state state_mismatch state_spent no_key no_nonce nonce_spent no_deployment wrong_message
        wrong_version no_target no_resource_link no_roles :
      Refusal
  store_error : StoreError → Refusal
  token_error : TokenError → Refusal
  lookup_error : LookupError → Refusal
  claim_error : ClaimError → Refusal

-- A skew of 0 stands for the default; `key_ttl` is the key cache's.
pub record Service (S : Type 0) : Type 0 where
  pub registry : List Platform
  pub store : FlowStore S
  pub jws : Jws
  pub key_ttl : ℕ
  pub skew : ℤ

-- The times at which one launch spends its values and checks the claims, what other sessions do with
-- the store between the two, and the fetch of the keys.
pub record Course : Type 0 where
  pub spends_state : ℕ
  pub others : List Op
  pub fetching : Fetching
  pub now : ℤ
  pub spends_nonce : ℕ

-- What the browser posts, with its cookie, empty where there is none.
pub record Posted : Type 0 where
  pub id_token : Codes
  pub state : String
  pub cookie : String

-- The claim URIs of lti.go.
abbrev pub claim_message_type : String
claim_message_type = "https://purl.imsglobal.org/spec/lti/claim/message_type"

abbrev pub claim_version : String
claim_version = "https://purl.imsglobal.org/spec/lti/claim/version"

abbrev pub claim_deployment_id : String
claim_deployment_id = "https://purl.imsglobal.org/spec/lti/claim/deployment_id"

abbrev pub claim_target_link_uri : String
claim_target_link_uri = "https://purl.imsglobal.org/spec/lti/claim/target_link_uri"

abbrev pub claim_resource_link : String
claim_resource_link = "https://purl.imsglobal.org/spec/lti/claim/resource_link"

abbrev pub claim_roles : String
claim_roles = "https://purl.imsglobal.org/spec/lti/claim/roles"

abbrev pub claim_context : String
claim_context = "https://purl.imsglobal.org/spec/lti/claim/context"

abbrev pub text_at : String → Claims → String
text_at name claims = as_text (claim name claims)

abbrev pub text_in : String → String → Claims → String
text_in name field claims = as_text (field_in field (claim name claims))

abbrev pub uris_of : Option Claim → List String
uris_of (some (array items)) = texts items
uris_of (some (text s)) = []
uris_of (some (number n)) = []
uris_of (some (object fields)) = []
uris_of (some other) = []
uris_of none = []

unfoldable pub launch_from_claims : Claims → Platform → Launch
unfolding claim field_of
launch_from_claims claims p = record {
  issuer = p.issuer;
  client_id = p.client_id;
  deployment_id = text_at claim_deployment_id claims;
  subject = text_at "sub" claims;
  role_uris = uris_of (claim claim_roles claims);
  context_id = text_in claim_context "id" claims;
  context_label = text_in claim_context "label" claims;
  resource_link_id = text_in claim_resource_link "id" claims;
  target_link_uri = text_at claim_target_link_uri claims;
  claims = claims;
}

-- Steps 6 and 7: the deployment and the message contract.
unfoldable pub message_refusal : Claims → Platform → Option Refusal
unfolding claim field_of has_deployment
message_refusal claims p =
    let deployment = text_at claim_deployment_id claims in
    if str_eq deployment "" || not (has_deployment p deployment)
    then some no_deployment
    else if not (str_eq (text_at claim_message_type claims) "LtiResourceLinkRequest")
    then some wrong_message
    else if not (str_eq (text_at claim_version claims) "1.3.0")
    then some wrong_version
    else if str_eq (text_at claim_target_link_uri claims) ""
    then some no_target
    else if str_eq (text_in claim_resource_link "id" claims) ""
    then some no_resource_link
    else if not (is_array (claim claim_roles claims))
    then some no_roles
    else none

abbrev pub unless_refused : Option Refusal → Launch → Result Refusal Launch
unless_refused (some r) l = err r
unless_refused none l = ok l

-- Step 1, but for the spend.
unfoldable pub state_refusal : Posted → Option Refusal
state_refusal p =
    if str_eq p.state ""
    then some no_state
    else if not (str_eq p.cookie "") && not (str_eq p.cookie p.state)
    then some state_mismatch
    else none

abbrev pub first_error : Option ClaimError → Option ClaimError → Option ClaimError
first_error (some e) f = some e
first_error none f = f

abbrev pub nonce_of : Option ClaimError → Claims → Result Refusal (Claims × String)
nonce_of (some e) claims = err (claim_error e)
nonce_of none claims =
    if str_eq (text_at "nonce" claims) "" then err no_nonce else ok (claims, text_at "nonce" claims)

abbrev pub skew_of : {S : Type 0} → Service S → ℤ
skew_of s = if eqb_ℤ s.skew (pos 0) then pos 60000000000 else s.skew

module _ {S : Type 0} (s : Service S) (c : Course) (p : Posted) where
  -- Step 2, the platform that the unverified issuer selects, and the key id of the header.
  abbrev pub kid_for : Platform → Result TokenError String → Result Refusal (Platform × String)
  kid_for platform (err e) = err (token_error e)
  kid_for platform (ok kid) = ok (platform, kid)

  abbrev pub anchor_of : Result LookupError Platform → Result Refusal (Platform × String)
  anchor_of (err e) = err (lookup_error e)
  anchor_of (ok platform) = kid_for platform (parse_header s.jws p.id_token)

  abbrev pub anchor_from : Result TokenError Claims → Result Refusal (Platform × String)
  anchor_from (err e) = err (token_error e)
  anchor_from (ok peek) = anchor_of (lookup s.registry (text_at "iss" peek) "")

  unfoldable pub anchor : Result Refusal (Platform × String)
  unfolding claim
  anchor = anchor_from (peek_claims s.jws p.id_token)

  -- Steps 3 to 5, but for the spend: signature, standard claims, nonce.
  abbrev pub checked_claims : Platform → Result TokenError Claims → Result Refusal (Claims × String)
  checked_claims platform (err e) = err (token_error e)
  checked_claims platform (ok claims) =
      nonce_of
        (first_error (check_issuer claims platform.issuer) (
          first_error (check_audience claims platform.client_id)
            (check_time claims c.now (skew_of s))))
        claims

  unfoldable pub verified : Platform → Option PublicKey → Result Refusal (Claims × String)
  unfolding claim
  verified platform none = err no_key
  verified platform (some key) = checked_claims platform (verify s.jws p.id_token key)

  abbrev pub after_nonce : Platform → Claims → Result StoreError Bool → Result Refusal Launch
  after_nonce platform claims (err e) = err (store_error e)
  after_nonce platform claims (ok false) = err nonce_spent
  after_nonce platform claims (ok true) =
      unless_refused (message_refusal claims platform) (launch_from_claims claims platform)

  abbrev pub spend_nonce :
      Platform → Result Refusal (Claims × String) → S → Result Refusal Launch × S
  spend_nonce platform (err r) st = (err r, st)
  spend_nonce platform (ok (claims, nonce)) st =
      let (answer, after) = s.store.spend c.spends_nonce nonce_value nonce st in
      (after_nonce platform claims answer, after)

  abbrev pub with_keys :
      Platform → Option PublicKey × Cache → S → Result Refusal Launch × (S × Cache)
  with_keys platform (key, cache) st =
      let (result, after) = spend_nonce platform (verified platform key) st in
      (result, (after, cache))

  abbrev pub with_anchor :
      Result Refusal (Platform × String) → S → Cache → Result Refusal Launch × (S × Cache)
  with_anchor (err r) st cache = (err r, (st, cache))
  with_anchor (ok (platform, kid)) st cache =
      with_keys platform
        (fetch_key s.jws.from_base64 s.key_ttl c.fetching platform.jwks_uri kid cache)
        (run_ops s.store c.others st)

  abbrev pub after_state : Result StoreError Bool → S → Cache → Result Refusal Launch × (S × Cache)
  after_state (err e) st cache = (err (store_error e), (st, cache))
  after_state (ok false) st cache = (err state_spent, (st, cache))
  after_state (ok true) st cache = with_anchor anchor st cache

  abbrev pub spend_state : Option Refusal → S → Cache → Result Refusal Launch × (S × Cache)
  spend_state (some r) st cache = (err r, (st, cache))
  spend_state none st cache =
      let (answer, after) = s.store.spend c.spends_state state_value p.state st in
      after_state answer after cache

  unfoldable pub validate : S → Cache → Result Refusal Launch × (S × Cache)
  unfolding anchor verified message_refusal
  validate st cache = spend_state (state_refusal p) st cache
