-- ===== src/Lti/Accepted.antt =====
-- internal/lti/launch.go: what is true of the request and the claims of a launch that is accepted.
use gophercast.Prelude.{◌≡◌, ◌≢◌, refl, sym, ◌∙◌, String, true, some, ok}
use gophercast.Identity.Claims.{Claims, text, claim}
use gophercast.Identity.Jws.{PublicKey}
use gophercast.Identity.Keys.{Cache, Published, Answers}
use gophercast.Identity.Roles.{Launch}
use gophercast.Identity.Passed.{
  ok_of, not_empty, text_of_claim, IsFrom, Names, IsInTime, check_issuer-IsFrom,
  check_audience-Names, check_time-IsInTime,
}
use gophercast.Identity.Signed.{IsSigned, HasKid, verify-IsSigned, parse_header-HasKid}
use gophercast.Lti.Registry.{Platform}
use gophercast.Lti.Store.{state_value, nonce_value, run_ops}
use gophercast.Lti.Launch.{Service, Course, Posted, text_at, launch_from_claims, skew_of, validate}
use gophercast.Lti.Message.{
  IsMessage, IsBound, IsOnly, message_refusal-IsMessage, state_refusal-IsBound, lookup-IsOnly,
}
use gophercast.Lti.Stages.{verify-peek_claims}
use gophercast.Lti.Checked.{validate-HasPassed}

-- What an accepted launch has passed: the state is given, bound to the browser where there is a cookie,
-- and was spent; the platform is the only one of the issuer, and its published key under the header's
-- id verifies the token; issuer, audience and times are right; the nonce is given and was spent after
-- the state; deployment and message are as they are to be, and the launch is what the claims say.
pub record IsAccepted {S : Type 0} (P : String → String → PublicKey → Type 0) (s : Service S)
    (c : Course) (p : Posted) (st : S) (l : Launch) : Type 0 where
  pub platform : Platform
  pub kid : String
  pub key : PublicKey
  pub claims : Claims
  pub nonce : String
  pub state_is_bound : IsBound p
  pub state_is_spent : (s.store.spend c.spends_state state_value p.state st).0 ≡ ok true
  pub only_platform : IsOnly s.registry platform
  pub has_kid : HasKid s.jws p.id_token kid
  pub published : P platform.jwks_uri kid key
  pub signed : IsSigned s.jws p.id_token key claims
  pub from_issuer : IsFrom claims platform.issuer
  pub names_client : Names claims platform.client_id
  pub in_time : IsInTime claims c.now (skew_of s)
  pub has_nonce : claim "nonce" claims ≡ some (text nonce)
  pub some_nonce : nonce ≢ ""
  pub nonce_is_spent :
      (s.store.spend c.spends_nonce nonce_value nonce
        (run_ops s.store c.others (s.store.spend c.spends_state state_value p.state st).1)).0
      ≡ ok true
  pub is_message : IsMessage claims platform
  pub tells : l ≡ launch_from_claims claims platform

module _ {S : Type 0} (s : Service S) (c : Course) (p : Posted) where
  -- A launch that is accepted has a state that is not empty, equal to the cookie if that is not empty, and
  -- spent; its token is signed by a key published under the id of its header at the URL of the only
  -- platform that is registered for its issuer; it names the platform's client and is in time; its nonce
  -- is not empty and was spent after the state; it is a resource link launch to a known deployment; and
  -- the result is what its claims say. This holds if the cached keys and those that are fetched are
  -- published ones.
  pub validate-IsAccepted :
      (P : String → String → PublicKey → Type 0) (st : S) (cache : Cache) (l : Launch)
      → Published P cache
      → ((url : String) → Answers P s.jws.from_base64 url c.fetching)
      → (validate s c p st cache).0 ≡ ok l
      → IsAccepted P s c p st l
  validate-IsAccepted P st cache l known answers h =
      let checked = validate-HasPassed s c p P st cache l known answers h in
      let (signed, issuer, audience, times, given, some_nonce) = checked.is_verified in
      let (peek, peeked, looked_up, header) = checked.anchored in
      let (nonce_spent, message, tells) = checked.is_spent in
      let from = check_issuer-IsFrom checked.claims checked.platform.issuer issuer in
      let same : peek ≡ checked.claims =
        ok_of
          (sym peeked ∙ verify-peek_claims s.jws p.id_token checked.key checked.claims signed) in
      let named : text_at "iss" peek ≡ checked.platform.issuer = rw (same, from.0) refl in
      let some_text = not_empty checked.nonce some_nonce in
      record {
        platform = checked.platform;
        kid = checked.kid;
        key = checked.key;
        claims = checked.claims;
        nonce = checked.nonce;
        state_is_bound = state_refusal-IsBound p checked.state_is_bound;
        state_is_spent = checked.state_is_spent;
        only_platform = lookup-IsOnly s.registry checked.platform (rw named at looked_up);
        has_kid = parse_header-HasKid s.jws p.id_token checked.kid header;
        published = checked.published;
        signed = verify-IsSigned s.jws p.id_token checked.key checked.claims signed;
        from_issuer = from;
        names_client = (check_audience-Names checked.claims checked.platform.client_id audience).0;
        in_time = check_time-IsInTime checked.claims c.now (skew_of s) times;
        has_nonce =
            text_of_claim (claim "nonce" checked.claims) checked.nonce (sym given) some_text;
        some_nonce = some_text;
        nonce_is_spent = nonce_spent;
        is_message = message_refusal-IsMessage checked.claims checked.platform message;
        tells = tells;
      }
