-- ===== src/Lti/Checked.antt =====
-- internal/lti/launch.go: what an accepted launch has passed.
use gophercast.Prelude.{◌≡◌, refl, String, Bool, true, false, Option, none, some, Result, ok, err}
use gophercast.Identity.Claims.{Claims}
use gophercast.Identity.Jws.{PublicKey}
use gophercast.Identity.Keys.{Cache, fetch_key, Published, Answers, fetch_key-Published}
use gophercast.Identity.Roles.{Launch}
use gophercast.Lti.Registry.{Platform}
use gophercast.Lti.Store.{state_value, StoreError, run_ops}
use gophercast.Lti.Launch.{
  Refusal, Service, Course, Posted, state_refusal, anchor, verified, spend_nonce, with_anchor,
  after_state, spend_state, validate,
}
use gophercast.Lti.Stages.{
  err_is_not, IsAnchor, IsVerified, IsSpent, anchor-ok, verified-ok, spend_nonce-ok,
}

-- What an accepted launch has passed: the state is given and bound to the browser, and was spent; the
-- unverified issuer has one platform, whose published key under the header's id verifies the token;
-- issuer, audience and times are right; the nonce is given and was spent after the state; deployment
-- and message are as they are to be.
pub record HasPassed {S : Type 0} (P : String → String → PublicKey → Type 0) (s : Service S)
    (c : Course) (p : Posted) (st : S) (l : Launch) : Type 0 where
  pub platform : Platform
  pub kid : String
  pub key : PublicKey
  pub claims : Claims
  pub nonce : String
  pub state_is_bound : state_refusal p ≡ none
  pub state_is_spent : (s.store.spend c.spends_state state_value p.state st).0 ≡ ok true
  pub anchored : IsAnchor s c p platform kid
  pub published : P platform.jwks_uri kid key
  pub is_verified : IsVerified s c p platform key claims nonce
  pub is_spent :
      IsSpent s c p platform claims nonce l
        (run_ops s.store c.others (s.store.spend c.spends_state state_value p.state st).1)

module _ {S : Type 0} (s : Service S) (c : Course) (p : Posted) where
  pub spend_state-ok :
      (o : Option Refusal) (st : S) (cache : Cache) (l : Launch)
      → (spend_state s c p o st cache).0 ≡ ok l
      → (o ≡ none)
        × ((s.store.spend c.spends_state state_value p.state st).0 ≡ ok true)
        × ((with_anchor s c p
              (anchor s c p)
              (s.store.spend c.spends_state state_value p.state st).1
              cache).0
            ≡ ok l)
  spend_state-ok (some r) st cache l h = absurd (err_is_not h)
  spend_state-ok none st cache l h =
      let (spent, rest) =
        after_state-ok (s.store.spend c.spends_state state_value p.state st).0
          (s.store.spend c.spends_state state_value p.state st).1 h in
      (refl, spent, rest)
    where
      after_state-ok :
          (r : Result StoreError Bool) (st : S)
          → (after_state s c p r st cache).0 ≡ ok l
          → (r ≡ ok true) × ((with_anchor s c p (anchor s c p) st cache).0 ≡ ok l)
      after_state-ok (err e) st h = absurd (err_is_not h)
      after_state-ok (ok false) st h = absurd (err_is_not h)
      after_state-ok (ok true) st h = (refl, h)

  pub with_anchor-ok :
      (r : Result Refusal (Platform × String)) (st : S) (cache : Cache) (l : Launch)
      → (with_anchor s c p r st cache).0 ≡ ok l
      → (platform : Platform) × (kid : String) × (r ≡ ok (platform, kid))
        × ((spend_nonce s c p platform
              (verified s c p platform
                (fetch_key s.jws.from_base64 s.key_ttl c.fetching platform.jwks_uri kid cache).0)
              (run_ops s.store c.others st)).0
            ≡ ok l)
  with_anchor-ok (err r) st cache l h = absurd (err_is_not h)
  with_anchor-ok (ok (platform, kid)) st cache l h = (platform, kid, refl, h)

  -- A launch that is accepted has passed every check, in a store where both its values were spent, if the
  -- cached keys and those that are fetched are published ones.
  pub validate-HasPassed :
      (P : String → String → PublicKey → Type 0) (st : S) (cache : Cache) (l : Launch)
      → Published P cache
      → ((url : String) → Answers P s.jws.from_base64 url c.fetching)
      → (validate s c p st cache).0 ≡ ok l
      → HasPassed P s c p st l
  unfolding validate
  validate-HasPassed P st cache l known answers h =
      let (bound, state_spent, h1) = spend_state-ok (state_refusal p) st cache l h in
      let after = (s.store.spend c.spends_state state_value p.state st).1 in
      let (platform, kid, anchored, h2) = with_anchor-ok (anchor s c p) after cache l h1 in
      let found =
        (fetch_key s.jws.from_base64 s.key_ttl c.fetching platform.jwks_uri kid cache).0 in
      let (claims, nonce, passed, is_spent) =
        spend_nonce-ok s c p platform (verified s c p platform found)
          (run_ops s.store c.others after) l h2 in
      let (key, key_found, is_verified) = verified-ok s c p platform found claims nonce passed in
      record {
        platform = platform;
        kid = kid;
        key = key;
        claims = claims;
        nonce = nonce;
        state_is_bound = bound;
        state_is_spent = state_spent;
        anchored = anchor-ok s c p platform kid anchored;
        published =
            fetch_key-Published P s.jws.from_base64 s.key_ttl c.fetching platform.jwks_uri kid key
              cache known (answers platform.jwks_uri) key_found;
        is_verified = is_verified;
        is_spent = is_spent;
      }
