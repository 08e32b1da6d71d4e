-- ===== src/Lti/Stages.antt =====
-- internal/lti/launch.go: what each stage of a launch has checked where it passes.
use gophercast.Prelude.{
  ◌≡◌, refl, sym, ap, String, Bool, true, false, Option, none, some, Result, ok, err, str_eq, inl,
  inr, Bool-cases,
}
use gophercast.Text.{Codes, split}
use gophercast.Identity.Claims.{
  Claims, claim, as_text, ClaimError, check_issuer, check_audience, check_time,
}
use gophercast.Identity.Hmac.{TokenError, joined}
use gophercast.Identity.Jws.{
  Hash, Jws, PublicKey, three_of, peek_parts, verify_parts, decode_segment, check_sig, check_alg,
  check_header, allowed_alg, peek_claims, parse_header, verify,
}
use gophercast.Identity.Roles.{Launch}
use gophercast.Lti.Registry.{Platform, LookupError, lookup}
use gophercast.Lti.Store.{nonce_value, StoreError}
use gophercast.Lti.Launch.{
  Refusal, Service, Course, Posted, text_at, launch_from_claims, message_refusal, unless_refused,
  first_error, nonce_of, skew_of, kid_for, anchor_of, anchor_from, anchor, checked_claims, verified,
  after_nonce, spend_nonce,
}

module _ {A E : Type 0} where
  pub err_is_not : {e : E} {a : A} → Path (Result E A) (err e) (ok a) → ⊥
  err_is_not h = cc

  ok_of : {a b : A} → Path (Result E A) (ok a) (ok b) → a ≡ b
  ok_of h = cc

module _ (j : Jws) where
  check_sig-body :
      (key : PublicKey) (hash : Hash) (a b : Codes) (sig : Option Codes) (claims : Claims)
      → check_sig j key hash a b sig ≡ ok claims
      → decode_segment j b ≡ ok claims
  check_sig-body key hash a b none claims h = absurd (err_is_not h)
  check_sig-body key hash a b (some sig) claims h =
      elim (Bool-cases (j.verifies key hash (joined a b) sig)) [
        | inl e ↦ rw e at h
        | inr e ↦ absurd (err_is_not (rw e at h))
      ]

  check_alg-body :
      (key : PublicKey) (o : Option Hash) (a b c : Codes) (claims : Claims)
      → check_alg j key o a b c ≡ ok claims
      → decode_segment j b ≡ ok claims
  check_alg-body key none a b c claims h = absurd (err_is_not h)
  check_alg-body key (some hash) a b c claims h =
      check_sig-body key hash a b (j.from_base64 c) claims h

  check_header-body :
      (key : PublicKey) (r : Result TokenError Claims) (a b c : Codes) (claims : Claims)
      → check_header j key r a b c ≡ ok claims
      → decode_segment j b ≡ ok claims
  check_header-body key (err e) a b c claims h = absurd (err_is_not h)
  check_header-body key (ok hdr) a b c claims h =
      check_alg-body key (allowed_alg (as_text (claim "alg" hdr))) a b c claims h

  parts-body :
      (key : PublicKey) (o : Option (Codes × Codes × Codes)) (claims : Claims)
      → verify_parts j key o ≡ ok claims
      → peek_parts j o ≡ ok claims
  parts-body key none claims h = absurd (err_is_not h)
  parts-body key (some (a, b, c)) claims h =
      check_header-body key (decode_segment j a) a b c claims h

  -- What verifies under any key is what the payload says.
  pub verify-peek_claims :
      (token : Codes) (key : PublicKey) (claims : Claims)
      → verify j token key ≡ ok claims
      → peek_claims j token ≡ ok claims
  unfolding verify peek_claims
  verify-peek_claims token key claims h = parts-body key (three_of (split b'.' token)) claims h

unless_refused-ok :
    (o : Option Refusal) (l l' : Launch) → unless_refused o l ≡ ok l' → (o ≡ none) × (l' ≡ l)
unless_refused-ok none l l' h = (refl, sym (ok_of h))
unless_refused-ok (some r) l l' h = absurd (err_is_not h)

first_error-none : (e f : Option ClaimError) → first_error e f ≡ none → (e ≡ none) × (f ≡ none)
first_error-none none f h = (refl, h)
first_error-none (some e) f h = absurd (cc)

nonce_of-ok :
    (e : Option ClaimError) (claims cs : Claims) (nonce : String)
    → nonce_of e claims ≡ ok (cs, nonce)
    → (e ≡ none)
      × (cs ≡ claims)
      × (nonce ≡ text_at "nonce" claims)
      × (str_eq (text_at "nonce" claims) "" ≡ false)
nonce_of-ok (some e) claims cs nonce h = absurd (err_is_not h)
nonce_of-ok none claims cs nonce h = elim (Bool-cases (str_eq (text_at "nonce" claims) "")) [
  | inl e ↦ absurd (err_is_not (rw e at h))
  | inr e ↦
      let both = ok_of (rw e at h) in (refl, sym (ap (λ x. x.0) both), sym (ap (λ x. x.1) both), e)
]

module _ {S : Type 0} (s : Service S) (c : Course) (p : Posted) where
  -- A signed token of the platform, with the standard claims, its nonce given.
  abbrev pub IsVerified : Platform → PublicKey → Claims → String → Type 0
  IsVerified platform key claims nonce =
      (verify s.jws p.id_token key ≡ ok claims)
      × (check_issuer claims platform.issuer ≡ none)
      × (check_audience claims platform.client_id ≡ none)
      × (check_time claims c.now (skew_of s) ≡ none)
      × (nonce ≡ text_at "nonce" claims)
      × (str_eq nonce "" ≡ false)

  checked_claims-ok :
      (platform : Platform) (key : PublicKey) (r : Result TokenError Claims) (claims : Claims)
      (nonce : String)
      → verify s.jws p.id_token key ≡ r
      → checked_claims s c p platform r ≡ ok (claims, nonce)
      → IsVerified platform key claims nonce
  checked_claims-ok platform key (err e) claims nonce v h = absurd (err_is_not h)
  checked_claims-ok platform key (ok cs) claims nonce v h =
      let (clean, same, given, some_nonce) =
        nonce_of-ok
          (first_error (check_issuer cs platform.issuer)
            (first_error (check_audience cs platform.client_id) (check_time cs c.now (skew_of s))))
          cs claims nonce h in
      let (issuer_ok, rest) =
        first_error-none (check_issuer cs platform.issuer)
          (first_error (check_audience cs platform.client_id) (check_time cs c.now (skew_of s)))
          clean in
      let (audience_ok, time_ok) =
        first_error-none (check_audience cs platform.client_id) (check_time cs c.now (skew_of s))
          rest in
      rw (same) (v, issuer_ok, audience_ok, time_ok, given, rw (given) some_nonce)

  pub verified-ok :
      (platform : Platform) (o : Option PublicKey) (claims : Claims) (nonce : String)
      → verified s c p platform o ≡ ok (claims, nonce)
      → (key : PublicKey) × (o ≡ some key) × IsVerified platform key claims nonce
  unfolding verified
  verified-ok platform none claims nonce h = absurd (err_is_not h)
  verified-ok platform (some key) claims nonce h =
      (key, refl, checked_claims-ok platform key (verify s.jws p.id_token key) claims nonce refl h)

  -- The platform is the only one of the issuer that the payload names.
  abbrev pub IsAnchor : Platform → String → Type 0
  IsAnchor platform kid =
      (peek : Claims) × (peek_claims s.jws p.id_token ≡ ok peek)
      × (lookup s.registry (text_at "iss" peek) "" ≡ ok platform)
      × (parse_header s.jws p.id_token ≡ ok kid)

  kid_for-ok :
      (platform q : Platform) (r : Result TokenError String) (kid : String)
      → kid_for s c p platform r ≡ ok (q, kid)
      → (q ≡ platform) × (r ≡ ok kid)
  kid_for-ok platform q (err e) kid h = absurd (err_is_not h)
  kid_for-ok platform q (ok k) kid h = (sym (ap (λ x. x.0) (ok_of h)), ap (λ x. ok x.1) (ok_of h))

  anchor_of-ok :
      (r : Result LookupError Platform) (platform : Platform) (kid : String)
      → anchor_of s c p r ≡ ok (platform, kid)
      → (r ≡ ok platform) × (parse_header s.jws p.id_token ≡ ok kid)
  anchor_of-ok (err e) platform kid h = absurd (err_is_not h)
  anchor_of-ok (ok q) platform kid h =
      let (same, header) = kid_for-ok q platform (parse_header s.jws p.id_token) kid h in
      (ap ok (sym same), header)

  anchor_from-ok :
      (r : Result TokenError Claims) (platform : Platform) (kid : String)
      → peek_claims s.jws p.id_token ≡ r
      → anchor_from s c p r ≡ ok (platform, kid)
      → IsAnchor platform kid
  anchor_from-ok (err e) platform kid v h = absurd (err_is_not h)
  anchor_from-ok (ok peek) platform kid v h =
      let (found, header) =
        anchor_of-ok (lookup s.registry (text_at "iss" peek) "") platform kid h in
      (peek, v, found, header)

  pub anchor-ok :
      (platform : Platform) (kid : String)
      → anchor s c p ≡ ok (platform, kid)
      → IsAnchor platform kid
  unfolding anchor
  anchor-ok platform kid h = anchor_from-ok (peek_claims s.jws p.id_token) platform kid refl h

  -- The second spend, on a store.
  abbrev pub IsSpent : Platform → Claims → String → Launch → S → Type 0
  IsSpent platform claims nonce l st =
      ((s.store.spend c.spends_nonce nonce_value nonce st).0 ≡ ok true)
      × (message_refusal claims platform ≡ none)
      × (l ≡ launch_from_claims claims platform)

  after_nonce-ok :
      (platform : Platform) (claims : Claims) (r : Result StoreError Bool) (l : Launch)
      → after_nonce s c p platform claims r ≡ ok l
      → (r ≡ ok true)
        × (message_refusal claims platform ≡ none)
        × (l ≡ launch_from_claims claims platform)
  after_nonce-ok platform claims (err e) l h = absurd (err_is_not h)
  after_nonce-ok platform claims (ok false) l h = absurd (err_is_not h)
  after_nonce-ok platform claims (ok true) l h =
      let (fine, same) =
        unless_refused-ok (message_refusal claims platform) (launch_from_claims claims platform) l
          h in
      (refl, fine, same)

  pub spend_nonce-ok :
      (platform : Platform) (r : Result Refusal (Claims × String)) (st : S) (l : Launch)
      → (spend_nonce s c p platform r st).0 ≡ ok l
      → (claims : Claims) × (nonce : String) × (r ≡ ok (claims, nonce))
        × IsSpent platform claims nonce l st
  spend_nonce-ok platform (err r) st l h = absurd (err_is_not h)
  spend_nonce-ok platform (ok (claims, nonce)) st l h = (
    claims,
    nonce,
    refl,
    after_nonce-ok platform claims (s.store.spend c.spends_nonce nonce_value nonce st).0 l h,
  )
