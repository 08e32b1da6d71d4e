-- ===== src/Identity/Discovered.antt =====
-- internal/oidcauth/oidcauth.go: where the keys of the issuer are found.
use gophercast.Prelude.{
  ◌-◌, ◌≡◌, ◌≢◌, refl, ◌∙◌, String, true, false, not, ◌&&◌, ok, str_eq, eq_iff, ltb, arith, inl,
  inr, Bool-cases,
}
use gophercast.Identity.Passed.{err_is_not, ok_of, not_empty}
use gophercast.Identity.Oidc.{
  OidcConfig, Discovery, Discovered, no_answer, unreadable, document, one_hour, stale_or_none,
  answered_with, discover_jwks, Attempt,
}

-- The URL of the keys: the cached one, fresh or where nothing answers, or the one that the issuer
-- announces now.
pub data IsDiscovered (c : OidcConfig) (a : Attempt) (d : Discovery) (uri : String) : Type 0 where
  cached : d.jwks_uri ≡ uri → ltb (a.asked - d.fetched) one_hour ≡ true → IsDiscovered c a d uri
  unanswered : d.jwks_uri ≡ uri → a.answer ≡ no_answer → IsDiscovered c a d uri
  announced : a.answer ≡ document c.issuer_url uri → IsDiscovered c a d uri

stale_or_none-ok :
    (u uri : String) (d : Discovery) → (stale_or_none u d).0 ≡ ok uri → (u ≡ uri) × (uri ≢ "")
stale_or_none-ok u uri d h = elim (Bool-cases (str_eq u "")) [
  | inl e ↦ absurd (err_is_not (rw e at h))
  | inr e ↦ let same = ok_of (rw e at h) in (same, not_empty uri (rw same at e))
]

answered_by :
    (c : OidcConfig) (a : Attempt) (d : Discovery) (uri : String) (o : Discovered)
    → a.answer ≡ o
    → (answered_with c d.jwks_uri a.answered a.meanwhile o).0 ≡ ok uri
    → IsDiscovered c a d uri × (uri ≢ "")
answered_by c a d uri no_answer e h =
    let (same, given) = stale_or_none-ok d.jwks_uri uri a.meanwhile h in (unanswered same e, given)
answered_by c a d uri unreadable e h = absurd (err_is_not h)
answered_by c a d uri (document issuer u) e h = elim (Bool-cases (str_eq issuer c.issuer_url)) [
  | inr n ↦ absurd (err_is_not (rw n at h))
  | inl y ↦ elim (Bool-cases (str_eq u "")) [
    | inl n ↦ absurd (err_is_not (rw (y, n) at h))
    | inr k ↦
        let same = ok_of (rw (y, k) at h) in
        (
          announced (e ∙ rw ((eq_iff issuer c.issuer_url).0 y, same) refl),
          not_empty uri (rw same at k),
        )
  ]
]

pub discover_jwks-IsDiscovered :
    (c : OidcConfig) (a : Attempt) (d : Discovery) (uri : String)
    → (discover_jwks c a.asked a.answer a.answered d a.meanwhile).0 ≡ ok uri
    → IsDiscovered c a d uri × (uri ≢ "")
unfolding discover_jwks
discover_jwks-IsDiscovered c a d uri h =
    elim (Bool-cases (not (str_eq d.jwks_uri "") && ltb (a.asked - d.fetched) one_hour)) [
      | inl y ↦
          let same = ok_of (rw y at h) in
          (
            cached same (ground arith),
            not_empty uri (rw same at (let e : str_eq d.jwks_uri "" ≡ false = ground arith in e)),
          )
      | inr n ↦ answered_by c a d uri a.answer refl (rw n at h)
    ]
