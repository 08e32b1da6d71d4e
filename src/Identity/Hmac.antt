-- ===== src/Identity/Hmac.antt =====
-- internal/jose/hmac.go: signed tokens under one secret.
use gophercast.Prelude.{
  ◌≡◌, refl, ap, ◌∙◌, false, not, Option, none, some, List, [], ◌∷◌, ◌++◌, arith, if◌then◌else◌,
  Result, ok, err, str_eq,
}
use gophercast.Text.{eq_codes_refl, split-whole, Codes, eq_codes, contains_code, split}
use gophercast.Identity.Claims.{Claims, text, claim, as_text}

-- JSON in base64 (`json.Marshal`, which may fail, and `decodeSegment`), bytes in base64, and the HMAC
-- under the secret.
pub record Encoding : Type 0 where
  pub to_segment : Claims → Option Codes
  pub from_segment : Codes → Option Claims
  pub to_base64 : Codes → Codes
  pub from_base64 : Codes → Option Codes
  pub mac : Codes → Codes

pub data TokenError : Type 0 where
  malformed alg_rejected bad_sig : TokenError

abbrev pub joined : Codes → Codes → Codes
joined a b = a ++ b'.' ∷ b

abbrev pub hs256_header : Claims
hs256_header = ("alg", text "HS256") ∷ ("typ", text "JWT") ∷ []

module _ (e : Encoding) where
  abbrev pub with_mac : Codes → Codes
  with_mac input = joined input (e.to_base64 (e.mac input))

  abbrev pub sign_segments : Option Codes → Option Codes → Option Codes
  sign_segments none body = none
  sign_segments (some header) none = none
  sign_segments (some header) (some body) = some (with_mac (joined header body))

  unfoldable pub sign_hs256 : Claims → Option Codes
  sign_hs256 claims = sign_segments (e.to_segment hs256_header) (e.to_segment claims)

  abbrev pub verify_body : Option Claims → Result TokenError Claims
  verify_body none = err malformed
  verify_body (some claims) = ok claims

  abbrev pub verify_sig : Option Codes → Codes → Codes → Result TokenError Claims
  verify_sig none header body = err malformed
  verify_sig (some sig) header body =
      if not (eq_codes sig (e.mac (joined header body)))
      then err bad_sig
      else verify_body (e.from_segment body)

  abbrev pub verify_header : Option Claims → Codes → Codes → Codes → Result TokenError Claims
  verify_header none header body sig = err malformed
  verify_header (some hdr) header body sig =
      if not (str_eq (as_text (claim "alg" hdr)) "HS256")
      then err alg_rejected
      else verify_sig (e.from_base64 sig) header body

  abbrev pub verify_parts : List Codes → Result TokenError Claims
  verify_parts [] = err malformed
  verify_parts (a ∷ []) = err malformed
  verify_parts (a ∷ b ∷ []) = err malformed
  verify_parts (a ∷ b ∷ c ∷ []) = verify_header (e.from_segment a) a b c
  verify_parts (a ∷ b ∷ c ∷ d ∷ ps) = err malformed

  unfoldable pub verify_hs256 : Codes → Result TokenError Claims
  unfolding claim
  verify_hs256 token = verify_parts (split b'.' token)

split-joined :
    (a s : Codes) → contains_code b'.' a ≡ false → split b'.' (joined a s) ≡ a ∷ split b'.' s
unfolding split
split-joined [] s h = refl
split-joined (d ∷ a) s h = ground (arith, split-joined a s)

assoc-dot : (a b s : Codes) → joined (joined a b) s ≡ joined a (joined b s)
assoc-dot [] b s = refl
assoc-dot (d ∷ a) b s = ap (◌∷◌ d) (assoc-dot a b s)

-- The segment of these claims is inverted by the decoding, and has no dot.
abbrev pub Invertible : Encoding → Claims → Type 0
Invertible e c =
    (s : Codes)
    → e.to_segment c ≡ some s
    → (e.from_segment s ≡ some c) × (contains_code b'.' s ≡ false)

-- What base64 is known for.
abbrev pub Base64 : Encoding → Type 0
Base64 e =
    (b : Codes)
    → (e.from_base64 (e.to_base64 b) ≡ some b) × (contains_code b'.' (e.to_base64 b) ≡ false)

three_parts :
    (a b c : Codes)
    → contains_code b'.' a ≡ false
    → contains_code b'.' b ≡ false
    → contains_code b'.' c ≡ false
    → split b'.' (joined (joined a b) c) ≡ a ∷ b ∷ c ∷ []
three_parts a b c x y z =
    ap (split b'.') (assoc-dot a b c)
    ∙ split-joined a (joined b c) x
    ∙ ap (◌∷◌ a) (split-joined b c y ∙ ap (◌∷◌ b) (split-whole b'.' c z))

segments_verified :
    (e : Encoding) (claims : Claims) (header body : Codes)
    → Base64 e
    → Invertible e hs256_header
    → Invertible e claims
    → e.to_segment hs256_header ≡ some header
    → e.to_segment claims ≡ some body
    → verify_hs256 e (with_mac e (joined header body)) ≡ ok claims
unfolding verify_hs256
segments_verified e claims header body base i j h b =
    (let input = joined header body in
      rw
        (
          three_parts header body (e.to_base64 (e.mac input)) (i header h).1 (j body b).1
              (base (e.mac input)).1,
          (i header h).0,
          (base (e.mac input)).0,
          eq_codes_refl (e.mac input),
          (j body b).0,
        )
        refl)

sign_segments_ok :
    (e : Encoding) (x y : Option Codes) (token : Codes)
    → sign_segments e x y ≡ some token
    → (header : Codes) × (body : Codes) × (x ≡ some header)
      × (y ≡ some body)
      × (token ≡ with_mac e (joined header body))
sign_segments_ok e none y token h = ground arith
sign_segments_ok e (some header) none token h = ground arith
sign_segments_ok e (some header) (some body) token h = (header, body, refl, refl, ground arith)

-- A token that was signed under a secret verifies under it, to the claims that were signed, if base64 and
-- the segments of the header and of these claims are decoded to what was encoded, and have no dot.
pub sign_hs256-verify_hs256 :
    (e : Encoding) (claims : Claims) (token : Codes)
    → Base64 e
    → Invertible e hs256_header
    → Invertible e claims
    → sign_hs256 e claims ≡ some token
    → verify_hs256 e token ≡ ok claims
unfolding sign_hs256
sign_hs256-verify_hs256 e claims token base i j s =
    (let (header, body, h, b, q) =
        sign_segments_ok e (e.to_segment hs256_header) (e.to_segment claims) token s in
      ap (verify_hs256 e) q ∙ segments_verified e claims header body base i j h b)
