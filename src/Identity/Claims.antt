-- ===== src/Identity/Claims.antt =====
-- internal/jose/jose.go: the checks of the claims of a verified token.
use gophercast.Prelude.{
  ◌+◌, ◌-◌, ◌*◌, String, Bool, true, false, not, ◌&&◌, ◌||◌, Option, none, some, List, [], ◌∷◌,
  str_eq, find?, if◌then◌else◌, any, length, ltb,
}
use gophercast.Prelude.Int.{ℤ, pos, negsuc, ◌+ℤ◌, ltb_ℤ}

-- Decoded JSON, as far as the checks tell values apart. A number stands for its integer part.
pub data Item : Type 0 where
  item : String → Item
  other_item : Item

mutual
  pub data Claim : Type 0 where
    text : String → Claim
    number : ℤ → Claim
    array : List Item → Claim
    object : Fields → Claim
    other : Claim

  pub data Fields : Type 0 where
    empty_object : Fields
    field : String → Claim → Fields → Fields

abbrev pub Claims : Type 0
Claims = List (String × Claim)

abbrev pub value_of : Option (String × Claim) → Option Claim
value_of none = none
value_of (some (name, v)) = some v

-- `claims[name]`
unfoldable pub claim : String → Claims → Option Claim
claim name claims = value_of (find? (λ c. str_eq c.0 name) claims)

-- Times are in nanoseconds.
abbrev pub from_seconds : ℤ → ℤ
from_seconds (pos n) = pos (n * 1000000000)
from_seconds (negsuc n) = negsuc ((n + 1) * 1000000000 - 1)

unfoldable pub numeric_date : Option Claim → Option ℤ
numeric_date (some (number n)) = some (from_seconds n)
numeric_date (some (text s)) = none
numeric_date (some (array items)) = none
numeric_date (some (object fields)) = none
numeric_date (some other) = none
numeric_date none = none

pub data ClaimError : Type 0 where
  exp_missing expired iat_in_future not_yet_valid wrong_issuer empty_audience wrong_audience
        wrong_azp :
      ClaimError

abbrev pub is_after : Option ℤ → ℤ → Bool
is_after none t = false
is_after (some d) t = ltb_ℤ t d

abbrev pub check_dates : Option ℤ → Option ℤ → Option ℤ → ℤ → ℤ → Option ClaimError
check_dates none iat nbf now skew = some exp_missing
check_dates (some exp) iat nbf now skew =
    if ltb_ℤ (exp +ℤ skew) now
    then some expired
    else (if is_after iat (now +ℤ skew)
        then some iat_in_future
        else (if is_after nbf (now +ℤ skew) then some not_yet_valid else none))

unfoldable pub check_time : Claims → ℤ → ℤ → Option ClaimError
unfolding claim numeric_date
check_time claims now skew =
    check_dates (numeric_date (claim "exp" claims)) (numeric_date (claim "iat" claims))
      (numeric_date (claim "nbf" claims)) now skew

-- A claim that is no text reads as the empty one.
abbrev pub as_text : Option Claim → String
as_text (some (text s)) = s
as_text (some (number n)) = ""
as_text (some (array items)) = ""
as_text (some (object fields)) = ""
as_text (some other) = ""
as_text none = ""

unfoldable pub check_issuer : Claims → String → Option ClaimError
unfolding claim
check_issuer claims issuer =
    if not (str_eq (as_text (claim "iss" claims)) issuer) || str_eq issuer ""
    then some wrong_issuer
    else none

abbrev pub texts : List Item → List String
texts [] = []
texts (item s ∷ items) = s ∷ texts items
texts (other_item ∷ items) = texts items

abbrev pub audiences : Option Claim → List String
audiences (some (text s)) = s ∷ []
audiences (some (array items)) = texts items
audiences (some (number n)) = []
audiences (some (object fields)) = []
audiences (some other) = []
audiences none = []

abbrev pub has_other_azp : Option Claim → String → Bool
has_other_azp (some (text s)) client_id = not (str_eq s client_id)
has_other_azp (some (number n)) client_id = false
has_other_azp (some (array items)) client_id = false
has_other_azp (some (object fields)) client_id = false
has_other_azp (some other) client_id = false
has_other_azp none client_id = false

unfoldable pub check_audience : Claims → String → Option ClaimError
unfolding claim
check_audience claims client_id =
    let auds = audiences (claim "aud" claims) in
    if str_eq client_id ""
    then some empty_audience
    else (if not (any (λ a. str_eq a client_id) auds)
        then some wrong_audience
        else (if ltb 1 (length auds) && has_other_azp (claim "azp" claims) client_id
            then some wrong_azp
            else none))

-- A field of an object; what is no object has none.
unfoldable pub field_of : String → Fields → Option Claim
field_of name empty_object = none
field_of name (field n v fields) = if str_eq n name then some v else field_of name fields

abbrev pub field_in : String → Option Claim → Option Claim
field_in name (some (object fields)) = field_of name fields
field_in name (some (text s)) = none
field_in name (some (number n)) = none
field_in name (some (array items)) = none
field_in name (some other) = none
field_in name none = none

abbrev pub is_array : Option Claim → Bool
is_array (some (array items)) = true
is_array (some (text s)) = false
is_array (some (number n)) = false
is_array (some (object fields)) = false
is_array (some other) = false
is_array none = false
