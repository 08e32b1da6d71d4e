-- ===== src/Lti/Replay.antt =====
-- internal/lti/launch.go: a launch is not accepted twice.
use gophercast.Prelude.{◌≡◌, ◌≢◌, sym, ap, ◌∙◌, String, false, List, Result, ok, err}
use mathlib.Core.Bool.{false≢true}
use gophercast.Identity.Claims.{Claims}
use gophercast.Identity.Hmac.{TokenError}
use gophercast.Identity.Jws.{PublicKey, peek_claims}
use gophercast.Identity.Keys.{Cache, fetch_key}
use gophercast.Identity.Roles.{Launch}
use gophercast.Lti.Registry.{Platform}
use gophercast.Lti.Store.{Kind, state_value, nonce_value, Laws, Op, minted, run_ops}
use gophercast.Lti.Launch.{
  Refusal, Service, Course, Posted, text_at, state_refusal, anchor, verified, spend_nonce,
  with_anchor, validate,
}
use gophercast.Lti.Stages.{IsVerified, verify-peek_claims, spend_nonce-ok, verified-ok}
use gophercast.Lti.Checked.{HasPassed, validate-HasPassed, spend_state-ok, with_anchor-ok}
use gophercast.Lti.Single.{run_ops-absent}

abbrev AnyKey : String → String → PublicKey → Type 0
AnyKey url kid key = Unit {0}

module _ {S : Type 0} (s : Service S) (laws : Laws s.store) where
  -- What an accepted launch spent, with nothing asked of the keys.
  accepted :
      (c : Course) (p : Posted) (st : S) (cache : Cache) (l : Launch)
      → (validate s c p st cache).0 ≡ ok l
      → HasPassed AnyKey s c p st l
  accepted c p st cache l h =
      validate-HasPassed s c p AnyKey st cache l (λ url kid key e. tt) (λ url kid doc key a e. tt) h

  module _ (c : Course) (p : Posted) (k : Kind) (v : String) (quiet : minted k v c.others ≡ 0) where
    spend_nonce-absent :
        (platform : Platform) (r : Result Refusal (Claims × String)) (st : S)
        → laws.has k v st ≡ false
        → laws.has k v (spend_nonce s c p platform r st).1 ≡ false
    spend_nonce-absent platform (err e) st h = h
    spend_nonce-absent platform (ok (claims, nonce)) st h =
        laws.spend_absent c.spends_nonce nonce_value k nonce v st h

    with_anchor-absent :
        (r : Result Refusal (Platform × String)) (st : S) (cache : Cache)
        → laws.has k v st ≡ false
        → laws.has k v (with_anchor s c p r st cache).1.0 ≡ false
    with_anchor-absent (err e) st cache h = h
    with_anchor-absent (ok (platform, kid)) st cache h =
        spend_nonce-absent platform
          (verified s c p platform
            (fetch_key s.jws.from_base64 s.key_ttl c.fetching platform.jwks_uri kid cache).0)
          (run_ops s.store c.others st) (run_ops-absent s.store laws k v c.others st quiet h)

  -- The state of an accepted launch is gone from the store that it leaves.
  state_gone :
      (c : Course) (p : Posted) (st : S) (cache : Cache) (l : Launch)
      → minted state_value p.state c.others ≡ 0
      → (validate s c p st cache).0 ≡ ok l
      → laws.has state_value p.state (validate s c p st cache).1.0 ≡ false
  unfolding validate
  state_gone c p st cache l quiet h =
      let (bound, spent, rest) = spend_state-ok s c p (state_refusal p) st cache l h in
      let gone = laws.spend_gone c.spends_state state_value p.state st spent in
      rw (bound, spent)
        (with_anchor-absent c p state_value p.state quiet (anchor s c p)
          (s.store.spend c.spends_state state_value p.state st).1 cache gone)

  -- A launch with a state that an accepted one had is refused, whatever its token, and whatever
  -- sessions do in between, unless the state is minted again.
  pub state_replayed :
      (c c' : Course) (p p' : Posted) (ops : List Op) (st : S) (cache cache' : Cache)
      (l l' : Launch)
      → minted state_value p.state c.others ≡ 0
      → minted state_value p.state ops ≡ 0
      → p'.state ≡ p.state
      → (validate s c p st cache).0 ≡ ok l
      → (validate s c' p' (run_ops s.store ops (validate s c p st cache).1.0) cache').0 ≢ ok l'
  state_replayed c c' p p' ops st cache cache' l l' quiet still same h h' =
      let st' = run_ops s.store ops (validate s c p st cache).1.0 in
      let spent = HasPassed.state_is_spent (accepted c' p' st' cache' l' h') in
      let there = laws.spend_has c'.spends_state state_value p'.state st' spent in
      let gone =
        run_ops-absent s.store laws state_value p.state ops (validate s c p st cache).1.0 still
          (state_gone c p st cache l quiet h) in
      false≢true (sym gone ∙ ap (λ v. laws.has state_value v st') (sym same) ∙ there)

  -- The nonce of a verified token is the one that its payload shows.
  nonce_verified :
      (c : Course) (p : Posted) (platform : Platform) (key : PublicKey) (cs claims : Claims)
      (nonce : String)
      → peek_claims s.jws p.id_token ≡ ok claims
      → IsVerified s c p platform key cs nonce
      → text_at "nonce" claims ≡ nonce
  nonce_verified c p platform key cs claims nonce peek (signed, i, a, t, given, filled) =
      ap (text_at "nonce")
        (ok_claims (sym peek ∙ verify-peek_claims s.jws p.id_token key cs signed))
      ∙ sym given
    where
      ok_claims : {a b : Claims} → Path (Result TokenError Claims) (ok a) (ok b) → a ≡ b
      ok_claims e = cc

  -- The nonce of an accepted launch is gone from the store that it leaves.
  nonce_gone :
      (c : Course) (p : Posted) (st : S) (cache : Cache) (l : Launch) (claims : Claims)
      → peek_claims s.jws p.id_token ≡ ok claims
      → (validate s c p st cache).0 ≡ ok l
      → laws.has nonce_value (text_at "nonce" claims) (validate s c p st cache).1.0 ≡ false
  unfolding validate
  nonce_gone c p st cache l claims peek h =
      let (bound, spent, h1) = spend_state-ok s c p (state_refusal p) st cache l h in
      let after = (s.store.spend c.spends_state state_value p.state st).1 in
      let (platform, kid, anchored, h2) = with_anchor-ok s c p (anchor s c p) after cache l h1 in
      let found =
        (fetch_key s.jws.from_base64 s.key_ttl c.fetching platform.jwks_uri kid cache).0 in
      let (cs, nonce, passed, is_spent) =
        spend_nonce-ok s c p platform (verified s c p platform found)
          (run_ops s.store c.others after) l h2 in
      let (key, key_found, is_verified) = verified-ok s c p platform found cs nonce passed in
      rw
        (
          bound,
          spent,
          anchored,
          passed,
          nonce_verified c p platform key cs claims nonce peek is_verified,
        )
        (laws.spend_gone c.spends_nonce nonce_value nonce (run_ops s.store c.others after)
          is_spent.0)

  -- A token that was accepted is refused from then on, whatever its state, and whatever sessions do in
  -- between, unless its nonce is minted again.
  pub token_replayed :
      (c c' : Course) (p p' : Posted) (ops : List Op) (st : S) (cache cache' : Cache)
      (l l' : Launch) (claims : Claims)
      → peek_claims s.jws p.id_token ≡ ok claims
      → minted nonce_value (text_at "nonce" claims) ops ≡ 0
      → minted nonce_value (text_at "nonce" claims) c'.others ≡ 0
      → p'.id_token ≡ p.id_token
      → (validate s c p st cache).0 ≡ ok l
      → (validate s c' p' (run_ops s.store ops (validate s c p st cache).1.0) cache').0 ≢ ok l'
  token_replayed c c' p p' ops st cache cache' l l' claims peek still quiet same h h' =
      let st' = run_ops s.store ops (validate s c p st cache).1.0 in
      let gone =
        run_ops-absent s.store laws nonce_value (text_at "nonce" claims) ops
          (validate s c p st cache).1.0 still (nonce_gone c p st cache l claims peek h) in
      let again = accepted c' p' st' cache' l' h' in
      let after = (s.store.spend c'.spends_state state_value p'.state st').1 in
      let shown =
        nonce_verified c' p' again.platform again.key again.claims claims again.nonce
          (ap (peek_claims s.jws) same ∙ peek) again.is_verified in
      let absent =
        run_ops-absent s.store laws nonce_value (text_at "nonce" claims) c'.others after quiet (
          laws.spend_absent c'.spends_state state_value nonce_value p'.state
            (text_at "nonce" claims) st' gone) in
      let there =
        laws.spend_has c'.spends_nonce nonce_value again.nonce (run_ops s.store c'.others after)
          again.is_spent.0 in
      false≢true (
        sym absent
        ∙ ap (λ v. laws.has nonce_value v (run_ops s.store c'.others after)) shown
        ∙ there)
