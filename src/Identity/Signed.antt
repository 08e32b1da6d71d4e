-- ===== src/Identity/Signed.antt =====
-- internal/jose/jose.go: what the verification of a token leaves, said of its parts.
use gophercast.Prelude.{
  String, ◌≡◌, ◌≢◌, refl, ap, ◌∙◌, true, Option, none, some, List, [], ◌∷◌, Result, ok, err, inl,
  inr, str_eq, eq_iff, Bool-cases, Option-cases,
}
use gophercast.Text.{Codes, split}
use gophercast.Identity.Claims.{Claims, text, claim, as_text}
use gophercast.Identity.Hmac.{TokenError, malformed, joined}
use gophercast.Identity.Jws.{
  Hash, sha256, sha384, sha512, Jws, PublicKey, allowed_alg, three_of, decoded, decode_segment,
  check_sig, check_alg, check_header, verify_parts, verify, kid_of, parse_header,
}
use gophercast.Identity.Passed.{err_is_not, ok_of, text_of_claim}

-- The three algorithms, with their hashes.
pub data IsRsa : String → Hash → Type 0 where
  rs256 : IsRsa "RS256" sha256
  rs384 : IsRsa "RS384" sha384
  rs512 : IsRsa "RS512" sha512

alg_cases : (alg : String) (hash : Hash) → allowed_alg alg ≡ some hash → IsRsa alg hash
alg_cases alg hash h = elim (Bool-cases (str_eq alg "RS256")) [
  | inl e ↦
      let same : some sha256 ≡ some hash = rw e at h in
      rw ((eq_iff alg "RS256").0 e, ← hash_of same) rs256
  | inr a ↦ elim (Bool-cases (str_eq alg "RS384")) [
    | inl e ↦
        let same : some sha384 ≡ some hash = rw (a, e) at h in
        rw ((eq_iff alg "RS384").0 e, ← hash_of same) rs384
    | inr b ↦ elim (Bool-cases (str_eq alg "RS512")) [
      | inl e ↦
          let same : some sha512 ≡ some hash = rw (a, b, e) at h in
          rw ((eq_iff alg "RS512").0 e, ← hash_of same) rs512
      | inr c ↦ absurd (let e : none ≡ some hash = rw (a, b, c) at h in cc)
    ]
  ]
]
  where
    hash_of : {x y : Hash} → some x ≡ some y → x ≡ y
    hash_of e = cc

triple_of :
    {x y z a b c : Codes}
    → Path (Option (Codes × Codes × Codes)) (some (x, y, z)) (some (a, b, c))
    → (x ≡ a) × (y ≡ b) × (z ≡ c)
triple_of e = (cc, cc, cc)

three_parts : (ps : List Codes) (a b c : Codes) → three_of ps ≡ some (a, b, c) → ps ≡ a ∷ b ∷ c ∷ []
three_parts [] a b c h = absurd (cc)
three_parts (x ∷ []) a b c h = absurd (cc)
three_parts (x ∷ y ∷ []) a b c h = absurd (cc)
three_parts (x ∷ y ∷ z ∷ []) a b c h = let (e, f, g) = triple_of h in rw (e, f, g) refl
three_parts (x ∷ y ∷ z ∷ w ∷ ps) a b c h = absurd (cc)

module _ (j : Jws) where
  -- The part is base64 of a text that is these claims.
  abbrev pub Decodes : Codes → Claims → Type 0
  Decodes part claims =
      (raw : Codes) × (j.from_base64 part ≡ some raw) × (j.to_claims raw ≡ some claims)

  -- Three parts: a header with one of the algorithms, the claims, and their signature by the key.
  pub record IsSigned (token : Codes) (key : PublicKey) (claims : Claims) : Type 0 where
    pub header : Codes
    pub payload : Codes
    pub signature : Codes
    pub parts : split b'.' token ≡ header ∷ payload ∷ signature ∷ []
    pub fields : Claims
    pub alg : String
    pub hash : Hash
    pub has_header : Decodes header fields
    pub has_alg : claim "alg" fields ≡ some (text alg)
    pub is_rsa : IsRsa alg hash
    pub bytes : Codes
    pub has_signature : j.from_base64 signature ≡ some bytes
    pub verified : j.verifies key hash (joined header payload) bytes ≡ true
    pub has_claims : Decodes payload claims

  claims_of :
      (part : Codes) (o : Option Codes) (claims : Claims)
      → j.from_base64 part ≡ o
      → decoded j o ≡ ok claims
      → Decodes part claims
  claims_of part none claims e h = absurd (err_is_not h)
  claims_of part (some raw) claims e h = elim (Option-cases (j.to_claims raw)) [
    | inl f ↦ absurd (err_is_not (rw (f, decoded) at h))
    | inr (m, f) ↦ (raw, e, f ∙ ap some (ok_of (rw (f, decoded) at h)))
  ]

  signed_of :
      (token : Codes) (key : PublicKey) (hash : Hash) (a b c : Codes) (fields : Claims)
      (claims : Claims)
      → split b'.' token ≡ a ∷ b ∷ c ∷ []
      → Decodes a fields
      → allowed_alg (as_text (claim "alg" fields)) ≡ some hash
      → (o : Option Codes) → j.from_base64 c ≡ o
      → check_sig j key hash a b o ≡ ok claims
      → IsSigned token key claims
  signed_of token key hash a b c fields claims p d alg none f h = absurd (err_is_not h)
  signed_of token key hash a b c fields claims p d alg (some sig) f h =
      elim (Bool-cases (j.verifies key hash (joined a b) sig)) [
        | inr e ↦ absurd (err_is_not (rw e at h))
        | inl e ↦ record {
          header = a;
          payload = b;
          signature = c;
          parts = p;
          fields = fields;
          alg = as_text (claim "alg" fields);
          hash = hash;
          has_header = d;
          has_alg = text_of_claim (claim "alg" fields) _ refl (is_some_alg _ hash alg);
          is_rsa = alg_cases _ hash alg;
          bytes = sig;
          has_signature = f;
          verified = e;
          has_claims = claims_of b (j.from_base64 b) claims refl (rw e at h);
        }
      ]
    where
      is_some_alg : (alg : String) (hash : Hash) → allowed_alg alg ≡ some hash → alg ≢ ""
      is_some_alg alg hash h e = absurd (let n : none ≡ some hash = rw e at h in cc)

  header_of :
      (token : Codes) (key : PublicKey) (a b c : Codes) (fields claims : Claims) (o : Option Hash)
      → split b'.' token ≡ a ∷ b ∷ c ∷ []
      → Decodes a fields
      → allowed_alg (as_text (claim "alg" fields)) ≡ o
      → check_alg j key o a b c ≡ ok claims
      → IsSigned token key claims
  header_of token key a b c fields claims none p d e h = absurd (err_is_not h)
  header_of token key a b c fields claims (some hash) p d e h =
      signed_of token key hash a b c fields claims p d e (j.from_base64 c) refl h

  parts_of :
      (token : Codes) (key : PublicKey) (a b c : Codes) (claims : Claims)
      (r : Result TokenError Claims)
      → split b'.' token ≡ a ∷ b ∷ c ∷ []
      → decode_segment j a ≡ r
      → check_header j key r a b c ≡ ok claims
      → IsSigned token key claims
  parts_of token key a b c claims (err e) p d h = absurd (err_is_not h)
  parts_of token key a b c claims (ok fields) p d h =
      header_of token key a b c fields claims (allowed_alg (as_text (claim "alg" fields))) p
        (claims_of a (j.from_base64 a) fields refl d) refl h

  token_of :
      (token : Codes) (key : PublicKey) (claims : Claims) (o : Option (Codes × Codes × Codes))
      → three_of (split b'.' token) ≡ o
      → verify_parts j key o ≡ ok claims
      → IsSigned token key claims
  token_of token key claims none p h = absurd (err_is_not h)
  token_of token key claims (some (a, b, c)) p h =
      parts_of token key a b c claims (decode_segment j a) (three_parts (split b'.' token) a b c p)
        refl h

  pub verify-IsSigned :
      (token : Codes) (key : PublicKey) (claims : Claims)
      → verify j token key ≡ ok claims
      → IsSigned token key claims
  unfolding verify
  verify-IsSigned token key claims h =
      token_of token key claims (three_of (split b'.' token)) refl h

  -- The key id is that of the first part.
  pub record HasKid (token : Codes) (kid : String) : Type 0 where
    pub header : Codes
    pub rest : Codes × Codes
    pub parts : split b'.' token ≡ header ∷ rest.0 ∷ rest.1 ∷ []
    pub raw : Codes
    pub has_header : j.from_base64 header ≡ some raw
    pub has_kid : j.to_kid raw ≡ some kid

  kid_in :
      (token : Codes) (kid : String) (a b c : Codes) (o : Option Codes)
      → split b'.' token ≡ a ∷ b ∷ c ∷ []
      → j.from_base64 a ≡ o
      → kid_of j o ≡ ok kid
      → HasKid token kid
  kid_in token kid a b c none p e h = absurd (err_is_not h)
  kid_in token kid a b c (some raw) p e h = elim (Option-cases (j.to_kid raw)) [
    | inl f ↦ absurd (err_is_not (rw (f, kid_of) at h))
    | inr (k, f) ↦ record {
      header = a;
      rest = (b, c);
      parts = p;
      raw = raw;
      has_header = e;
      has_kid = f ∙ ap some (ok_of (rw (f, kid_of) at h));
    }
  ]

  pub parse_header-HasKid :
      (token : Codes) (kid : String) → parse_header j token ≡ ok kid → HasKid token kid
  unfolding parse_header
  parse_header-HasKid token kid h = go (three_of (split b'.' token)) refl h
    where
      go :
          (o : Option (Codes × Codes × Codes))
          → three_of (split b'.' token) ≡ o
          → (elim o [ none ↦ err malformed | some (a, b, c) ↦ kid_of j (j.from_base64 a) ]) ≡ ok kid
          → HasKid token kid
      go none p h = absurd (err_is_not h)
      go (some (a, b, c)) p h =
          kid_in token kid a b c (j.from_base64 a) (three_parts (split b'.' token) a b c p) refl h
