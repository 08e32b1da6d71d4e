-- ===== src/Identity/Passed.antt =====
-- internal/jose/jose.go: what the checks of a token leave, said of its text and its claims.
use gophercast.Prelude.{
  ◌<◌, String, ◌≡◌, ◌≢◌, refl, sym, ap, ◌∙◌, true, false, not, ◌&&◌, Option, none, some, List, [],
  ◌∷◌, Result, ok, err, arith, inl, inr, str_eq, eq_iff, Bool-cases, Memᴰ, any, length, ltb,
}
use gophercast.Prelude.Int.{ℤ, ◌+ℤ◌, ltb_ℤ}
use gophercast.Identity.Claims.{
  Claims, Claim, Item, item, other_item, text, number, array, object, other, claim, as_text, texts,
  audiences, has_other_azp, from_seconds, numeric_date, is_after, check_dates, check_issuer,
  check_audience, check_time,
}

module _ {A E : Type 0} where
  pub err_is_not : {e : E} {a : A} → Path (Result E A) (err e) (ok a) → ⊥
  err_is_not h = cc

  pub ok_of : {a b : A} → Path (Result E A) (ok a) (ok b) → a ≡ b
  ok_of h = cc

pub not_empty : (s : String) → str_eq s "" ≡ false → s ≢ ""
not_empty s h e = absurd (cc)

pub text_of_claim : (o : Option Claim) (s : String) → as_text o ≡ s → s ≢ "" → o ≡ some (text s)
text_of_claim (some (text t)) s h k = rw h refl
text_of_claim (some (number n)) s h k = absurd (k (sym h))
text_of_claim (some (array items)) s h k = absurd (k (sym h))
text_of_claim (some (object fields)) s h k = absurd (k (sym h))
text_of_claim (some other) s h k = absurd (k (sym h))
text_of_claim none s h k = absurd (k (sym h))

-- The token is from the issuer.
abbrev pub IsFrom : Claims → String → Type 0
IsFrom claims issuer = (claim "iss" claims ≡ some (text issuer)) × (issuer ≢ "")

pub check_issuer-IsFrom :
    (claims : Claims) (issuer : String) → check_issuer claims issuer ≡ none → IsFrom claims issuer
unfolding check_issuer
check_issuer-IsFrom claims issuer h =
    elim (Bool-cases (str_eq (as_text (claim "iss" claims)) issuer)) [
      | inr n ↦ absurd (let e : some _ ≡ none = rw n at h in cc)
      | inl y ↦ elim (Bool-cases (str_eq issuer "")) [
        | inl n ↦ absurd (let e : some _ ≡ none = rw (y, n) at h in cc)
        | inr k ↦ (
          text_of_claim (claim "iss" claims) issuer ((eq_iff _ _).0 y) (not_empty issuer k),
          not_empty issuer k,
        )
      ]
    ]

-- The token's audience is the client, or a list with the client in it; of several, the party that it
-- is authorized for, if it names one, is the client too.
pub data Names (claims : Claims) (client_id : String) : Type 0 where
  alone : claim "aud" claims ≡ some (text client_id) → Names claims client_id
  among :
      (items : List Item)
      → claim "aud" claims ≡ some (array items)
      → Memᴰ (item client_id) items
      → ((party : String)
          → 1 < length (texts items)
          → claim "azp" claims ≡ some (text party)
          → party ≡ client_id)
      → Names claims client_id

texts-mem :
    (s : String) (items : List Item)
    → any (λ a. str_eq a s) (texts items) ≡ true
    → Memᴰ (item s) items
texts-mem s [] h = absurd (cc)
texts-mem s (other_item ∷ items) h = Memᴰ.tail (texts-mem s items h)
texts-mem s (item t ∷ items) h = elim (Bool-cases (str_eq t s)) [
  | inl e ↦ Memᴰ.head (ap item (sym ((eq_iff t s).0 e)))
  | inr e ↦ Memᴰ.tail (texts-mem s items (rw e at h))
]

party_of :
    (azp : Option Claim) (client_id party : String)
    → has_other_azp azp client_id ≡ false
    → azp ≡ some (text party)
    → party ≡ client_id
party_of azp client_id party h e =
    let k : not (str_eq party client_id) ≡ false = rw e at h in
    (eq_iff party client_id).0 (ground arith)

names_of :
    (claims : Claims) (client_id : String) (o : Option Claim)
    → claim "aud" claims ≡ o
    → any (λ a. str_eq a client_id) (audiences o) ≡ true
    → (ltb 1 (length (audiences o)) && has_other_azp (claim "azp" claims) client_id) ≡ false
    → Names claims client_id
names_of claims client_id (some (text s)) e h k =
    alone (e ∙ ap (λ t. some (text t)) ((eq_iff s client_id).0 (ground arith)))
names_of claims client_id (some (array items)) e h k =
    among items e (texts-mem client_id items h)
      (λ party several named. party_of (claim "azp" claims) client_id party (ground arith) named)
names_of claims client_id (some (number n)) e h k = absurd (cc)
names_of claims client_id (some (object fields)) e h k = absurd (cc)
names_of claims client_id (some other) e h k = absurd (cc)
names_of claims client_id none e h k = absurd (cc)

pub check_audience-Names :
    (claims : Claims) (client_id : String)
    → check_audience claims client_id ≡ none
    → Names claims client_id × (client_id ≢ "")
unfolding check_audience
check_audience-Names claims client_id h =
    let auds = audiences (claim "aud" claims) in
    let azp = ltb 1 (length auds) && has_other_azp (claim "azp" claims) client_id in
    elim (Bool-cases (str_eq client_id "")) [
      | inl y ↦ absurd (let e : some _ ≡ none = rw y at h in cc)
      | inr n ↦ elim (Bool-cases (any (λ a. str_eq a client_id) auds)) [
        | inr m ↦ absurd (let e : some _ ≡ none = rw (n, m) at h in cc)
        | inl m ↦ elim (Bool-cases azp) [
          | inl y ↦ absurd (let e : some _ ≡ none = rw (n, m, y) at h in cc)
          | inr k ↦ (names_of claims client_id (claim "aud" claims) refl m k, not_empty client_id n)
        ]
      ]
    ]

-- The token expires, and has not; it is not issued in the future, and already valid, each with the
-- skew.
pub record IsInTime (claims : Claims) (now skew : ℤ) : Type 0 where
  pub expires : ℤ
  pub has_exp : claim "exp" claims ≡ some (number expires)
  pub not_expired : ltb_ℤ (from_seconds expires +ℤ skew) now ≡ false
  pub not_ahead :
      (n : ℤ) → claim "iat" claims ≡ some (number n) → ltb_ℤ (now +ℤ skew) (from_seconds n) ≡ false
  pub valid_already :
      (n : ℤ) → claim "nbf" claims ≡ some (number n) → ltb_ℤ (now +ℤ skew) (from_seconds n) ≡ false

dated :
    (o : Option Claim) (t : ℤ)
    → is_after (numeric_date o) t ≡ false
    → (n : ℤ) → o ≡ some (number n)
    → ltb_ℤ t (from_seconds n) ≡ false
unfolding numeric_date
dated o t h n e = rw e at h

number_of :
    (o : Option Claim) (d : ℤ)
    → numeric_date o ≡ some d
    → (n : ℤ) × (o ≡ some (number n)) × (d ≡ from_seconds n)
unfolding numeric_date
number_of (some (number n)) d h = (n, refl, cc)
number_of (some (text s)) d h = absurd (cc)
number_of (some (array items)) d h = absurd (cc)
number_of (some (object fields)) d h = absurd (cc)
number_of (some other) d h = absurd (cc)
number_of none d h = absurd (cc)

check_dates-none :
    (e i n : Option ℤ) (now skew : ℤ)
    → check_dates e i n now skew ≡ none
    → (d : ℤ) × (e ≡ some d)
      × (ltb_ℤ (d +ℤ skew) now ≡ false)
      × (is_after i (now +ℤ skew) ≡ false)
      × (is_after n (now +ℤ skew) ≡ false)
check_dates-none none i n now skew h = absurd (cc)
check_dates-none (some d) i n now skew h = elim (Bool-cases (ltb_ℤ (d +ℤ skew) now)) [
  | inl y ↦ absurd (let e : some _ ≡ none = rw y at h in cc)
  | inr a ↦ elim (Bool-cases (is_after i (now +ℤ skew))) [
    | inl y ↦ absurd (let e : some _ ≡ none = rw (a, y) at h in cc)
    | inr b ↦ elim (Bool-cases (is_after n (now +ℤ skew))) [
      | inl y ↦ absurd (let e : some _ ≡ none = rw (a, b, y) at h in cc)
      | inr c ↦ (d, refl, a, b, c)
    ]
  ]
]

pub check_time-IsInTime :
    (claims : Claims) (now skew : ℤ) → check_time claims now skew ≡ none → IsInTime claims now skew
unfolding check_time
check_time-IsInTime claims now skew h =
    let (d, e, a, b, c) =
      check_dates-none (numeric_date (claim "exp" claims)) (numeric_date (claim "iat" claims))
        (numeric_date (claim "nbf" claims)) now skew h in
    let (n, f, same) = number_of (claim "exp" claims) d e in
    record {
      expires = n;
      has_exp = f;
      not_expired = rw (← same) a;
      not_ahead = dated (claim "iat" claims) (now +ℤ skew) b;
      valid_already = dated (claim "nbf" claims) (now +ℤ skew) c;
    }
