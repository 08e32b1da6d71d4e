-- ===== src/Identity/Sample.antt =====
-- An encoding of tokens for examples, which only knows the header and the claims of one session.
use gophercast.Prelude.{
  ◌+◌, ◌-◌, ◌≡◌, refl, ap, false, Option, none, some, [], ◌∷◌, arith, map, length, ◌==◌,
  if◌then◌else◌,
}
use gophercast.Text.{Codes, contains_code}
use gophercast.Identity.Claims.{Claims}
use gophercast.Identity.Hmac.{Encoding, Base64, Invertible, hs256_header}

abbrev to_segment : Claims → Option Codes
to_segment c = some (if length c == 2 then 1 ∷ [] else 2 ∷ [])

abbrev from_segment : Claims → Codes → Option Claims
from_segment claims [] = none
from_segment claims (c ∷ s) = if c == 1 then some hs256_header else some claims

abbrev pub shift : Codes → Codes
shift s = map (λ c. c + 47) s

abbrev unshift : Codes → Codes
unshift s = map (λ c. c - 47) s

abbrev pub sample : Claims → Encoding
sample claims = record {
  to_segment = to_segment;
  from_segment = from_segment claims;
  to_base64 = shift;
  from_base64 = λ s. some (unshift s);
  mac = λ s. 7 ∷ s;
}

unshift-shift : (s : Codes) → unshift (shift s) ≡ s
unshift-shift [] = refl
unshift-shift (c ∷ s) = ground (arith, unshift-shift s)

shift-lacks : (s : Codes) → contains_code b'.' (shift s) ≡ false
shift-lacks [] = refl
shift-lacks (c ∷ s) = ground (arith, shift-lacks s)

pub sample-Base64 : (claims : Claims) → Base64 (sample claims)
sample-Base64 claims b = (ap some (unshift-shift b), shift-lacks b)

pub sample-Invertible : (claims : Claims) → Invertible (sample claims) hs256_header
sample-Invertible claims s h = ground arith
