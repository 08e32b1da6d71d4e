-- ===== src/Identity/Jws.antt =====
-- internal/jose/jose.go: signed tokens under a published RSA key.
use gophercast.Prelude.{
  ℕ, ◌+◌, ◌*◌, ◌%◌, ltb, String, Bool, not, ◌||◌, Option, none, some, List, [], ◌∷◌, if◌then◌else◌,
  Result, ok, err, str_eq,
}
use gophercast.Prelude.Int.{ℤ, pos, sub_ℕ}
use gophercast.Text.{Codes, is_nil, split}
use gophercast.Identity.Claims.{Claims, claim, as_text}
use gophercast.Identity.Hmac.{TokenError, malformed, alg_rejected, bad_sig, joined}

-- `rsa.PublicKey`
pub record PublicKey : Type 0 where
  pub modulus : ℕ
  pub exponent : ℤ

pub data Hash : Type 0 where
  sha256 sha384 sha512 : Hash

-- base64, JSON as claims and as a header (whose `kid` is all that is used), and
-- `rsa.VerifyPKCS1v15` over the hash of a text.
pub record Jws : Type 0 where
  pub from_base64 : Codes → Option Codes
  pub to_claims : Codes → Option Claims
  pub to_kid : Codes → Option String
  pub verifies : PublicKey → Hash → Codes → Codes → Bool

-- `allowedAlgs`
abbrev pub allowed_alg : String → Option Hash
allowed_alg alg =
    if str_eq alg "RS256"
    then some sha256
    else if str_eq alg "RS384"
    then some sha384
    else if str_eq alg "RS512"
    then some sha512
    else none

-- The three segments of a token.
abbrev pub three_of : List Codes → Option (Codes × Codes × Codes)
three_of [] = none
three_of (a ∷ []) = none
three_of (a ∷ b ∷ []) = none
three_of (a ∷ b ∷ c ∷ []) = some (a, b, c)
three_of (a ∷ b ∷ c ∷ d ∷ ps) = none

module _ (j : Jws) where
  abbrev pub decoded : Option Codes → Result TokenError Claims
  decoded none = err malformed
  decoded (some raw) = elim (j.to_claims raw) [ none ↦ err malformed | some m ↦ ok m ]

  abbrev pub decode_segment : Codes → Result TokenError Claims
  decode_segment seg = decoded (j.from_base64 seg)

  abbrev pub peek_parts : Option (Codes × Codes × Codes) → Result TokenError Claims
  peek_parts none = err malformed
  peek_parts (some (a, b, c)) = decode_segment b

  unfoldable pub peek_claims : Codes → Result TokenError Claims
  peek_claims token = peek_parts (three_of (split b'.' token))

  abbrev pub check_sig : PublicKey → Hash → Codes → Codes → Option Codes → Result TokenError Claims
  check_sig key hash a b none = err malformed
  check_sig key hash a b (some sig) =
      if not (j.verifies key hash (joined a b) sig) then err bad_sig else decode_segment b

  abbrev pub check_alg : PublicKey → Option Hash → Codes → Codes → Codes → Result TokenError Claims
  check_alg key none a b c = err alg_rejected
  check_alg key (some hash) a b c = check_sig key hash a b (j.from_base64 c)

  abbrev pub check_header :
      PublicKey → Result TokenError Claims → Codes → Codes → Codes → Result TokenError Claims
  check_header key (err e) a b c = err malformed
  check_header key (ok hdr) a b c = check_alg key (allowed_alg (as_text (claim "alg" hdr))) a b c

  abbrev pub verify_parts : PublicKey → Option (Codes × Codes × Codes) → Result TokenError Claims
  verify_parts key none = err malformed
  verify_parts key (some (a, b, c)) = check_header key (decode_segment a) a b c

  unfoldable pub verify : Codes → PublicKey → Result TokenError Claims
  unfolding claim
  verify token key = verify_parts key (three_of (split b'.' token))

  abbrev pub kid_of : Option Codes → Result TokenError String
  kid_of none = err malformed
  kid_of (some raw) = elim (j.to_kid raw) [ none ↦ err malformed | some kid ↦ ok kid ]

  -- `ParseHeader`, of which only the `kid` is used.
  unfoldable pub parse_header : Codes → Result TokenError String
  parse_header token = elim (three_of (split b'.' token)) [
    | none ↦ err malformed
    | some (a, b, c) ↦ kid_of (j.from_base64 a)
  ]

-- One entry of a key set's document.
pub record Jwk : Type 0 where
  pub kty : String
  pub kid : String
  pub n : Codes
  pub e : Codes

abbrev pub Keys : Type 0
Keys = List (String × PublicKey)

-- `big.Int.SetBytes`
unfoldable pub from_bytes : ℕ → Codes → ℕ
from_bytes acc [] = acc
from_bytes acc (c ∷ s) = from_bytes (acc * 256 + c) s

-- `big.Int.Int64`, the low 64 bits with their sign.
abbrev pub to_int64 : ℕ → ℤ
to_int64 n =
    let low = n % 18446744073709551616 in
    if ltb low 9223372036854775808 then pos low else sub_ℕ low 18446744073709551616

abbrev pub key_of_bytes : Option Codes → Option Codes → Option PublicKey
key_of_bytes none e = none
key_of_bytes (some n) none = none
key_of_bytes (some n) (some e) =
    some (record { modulus = from_bytes 0 n; exponent = to_int64 (from_bytes 0 e) })

-- What an entry stands for, if it is usable.
abbrev pub key_of_jwk : (Codes → Option Codes) → Jwk → Option PublicKey
key_of_jwk decode k =
    if not (str_eq k.kty "RSA") || (is_nil k.n || is_nil k.e)
    then none
    else key_of_bytes (decode k.n) (decode k.e)

-- A map assignment, on a list that is looked up from its front.
abbrev pub set_key : String → Option PublicKey → Keys → Keys
set_key kid none keys = keys
set_key kid (some key) keys = (kid, key) ∷ keys

-- `ParseJWKS`, on the decoded document.
unfoldable pub parse_jwks : (Codes → Option Codes) → List Jwk → Keys → Keys
unfolding from_bytes
parse_jwks decode [] keys = keys
parse_jwks decode (k ∷ ks) keys = parse_jwks decode ks (set_key k.kid (key_of_jwk decode k) keys)
