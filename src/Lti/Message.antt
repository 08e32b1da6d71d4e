-- ===== src/Lti/Message.antt =====
-- internal/lti/launch.go: what the guards of a launch leave, said of the posted state, of the registry
-- and of the claims.
use gophercast.Prelude.{
  String, ◌≡◌, ◌≢◌, refl, sym, ap, ◌∙◌, Bool, true, false, not, ◌||◌, Option, none, some, List, [],
  ◌∷◌, ok, str_eq, eq_iff, arith, inl, inr, Bool-cases, Memᴰ, keep, if◌then◌else◌,
}
use gophercast.Search.Visibility.{any_witness}
use gophercast.Identity.Claims.{
  Claims, Claim, Item, Fields, text, number, array, object, other, claim, as_text, field_of,
  field_in, is_array,
}
use gophercast.Identity.Passed.{err_is_not, ok_of, not_empty, text_of_claim}
use gophercast.Lti.Registry.{Platform, has_deployment, is_registration, exactly_one, lookup}
use gophercast.Lti.Launch.{
  Refusal, no_state, state_mismatch, no_deployment, wrong_message, wrong_version, no_target,
  no_resource_link, no_roles, Posted, text_at, claim_deployment_id, claim_message_type,
  claim_version, claim_target_link_uri, claim_resource_link, claim_roles, message_refusal,
  state_refusal,
}

passed :
    (b : Bool) (r : Refusal) (o : Option Refusal)
    → (if b then some r else o) ≡ none
    → (b ≡ false) × (o ≡ none)
passed true r o h = absurd (cc)
passed false r o h = (refl, h)

-- A claim that is a text and not empty.
abbrev pub IsText : Option Claim → Type 0
IsText o = (s : String) × (o ≡ some (text s)) × (s ≢ "")

-- A resource link launch of the version, to a known deployment of the platform, with a target, a link
-- and a list of roles.
pub record IsMessage (claims : Claims) (platform : Platform) : Type 0 where
  pub deployment : String
  pub has_deployment_id : claim claim_deployment_id claims ≡ some (text deployment)
  pub some_deployment : deployment ≢ ""
  pub is_known : Memᴰ deployment platform.deployment_ids
  pub is_launch : claim claim_message_type claims ≡ some (text "LtiResourceLinkRequest")
  pub is_version : claim claim_version claims ≡ some (text "1.3.0")
  pub has_target : IsText (claim claim_target_link_uri claims)
  pub link : Fields
  pub has_link : claim claim_resource_link claims ≡ some (object link)
  pub link_id : IsText (field_of "id" link)
  pub roles : List Item
  pub has_roles : claim claim_roles claims ≡ some (array roles)

constant :
    (o : Option Claim) (s : String)
    → not (str_eq (as_text o) s) ≡ false
    → s ≢ ""
    → o ≡ some (text s)
constant o s h k = text_of_claim o s ((eq_iff (as_text o) s).0 (ground arith)) k

given : (o : Option Claim) → str_eq (as_text o) "" ≡ false → IsText o
given o h = (as_text o, text_of_claim o _ refl (not_empty _ h), not_empty _ h)

linked :
    (o : Option Claim)
    → str_eq (as_text (field_in "id" o)) "" ≡ false
    → (fields : Fields) × (o ≡ some (object fields)) × IsText (field_of "id" fields)
unfolding field_of
linked (some (object fields)) h = (fields, refl, given (field_of "id" fields) h)
linked (some (text s)) h = absurd (cc)
linked (some (number n)) h = absurd (cc)
linked (some (array items)) h = absurd (cc)
linked (some other) h = absurd (cc)
linked none h = absurd (cc)

array_of :
    (o : Option Claim) → not (is_array o) ≡ false → (items : List Item) × (o ≡ some (array items))
array_of (some (array items)) h = (items, refl)
array_of (some (text s)) h = absurd (cc)
array_of (some (number n)) h = absurd (cc)
array_of (some (object fields)) h = absurd (cc)
array_of (some other) h = absurd (cc)
array_of none h = absurd (cc)

deployed :
    (platform : Platform) (d : String)
    → has_deployment platform d ≡ true
    → Memᴰ d platform.deployment_ids
unfolding has_deployment
deployed platform d h =
    let (e, m, k) = any_witness (λ x. str_eq x d) platform.deployment_ids h in
    rw (← (eq_iff e d).0 k) m

pub message_refusal-IsMessage :
    (claims : Claims) (platform : Platform)
    → message_refusal claims platform ≡ none
    → IsMessage claims platform
unfolding message_refusal
message_refusal-IsMessage claims platform h =
    let d = text_at claim_deployment_id claims in
    let (a, h1) = passed (str_eq d "" || not (has_deployment platform d)) no_deployment _ h in
    let some_d : str_eq d "" ≡ false = ground arith in
    let known : has_deployment platform d ≡ true = ground arith in
    let (b, h2) = passed _ wrong_message _ h1 in
    let (c, h3) = passed _ wrong_version _ h2 in
    let (t, h4) = passed _ no_target _ h3 in
    let (l, h5) = passed _ no_resource_link _ h4 in
    let (r, h6) = passed (not (is_array (claim claim_roles claims))) no_roles none h5 in
    let (fields, f, id) = linked (claim claim_resource_link claims) l in
    let (items, roles) = array_of (claim claim_roles claims) r in
    record {
      deployment = d;
      has_deployment_id =
          text_of_claim (claim claim_deployment_id claims) d refl (not_empty d some_d);
      some_deployment = not_empty d some_d;
      is_known = deployed platform d known;
      is_launch = constant (claim claim_message_type claims) _ b (λ e. absurd (cc));
      is_version = constant (claim claim_version claims) _ c (λ e. absurd (cc));
      has_target = given (claim claim_target_link_uri claims) t;
      link = fields;
      has_link = f;
      link_id = id;
      roles = items;
      has_roles = roles;
    }

-- The state is given, and bound to the browser where there is a cookie.
abbrev pub IsBound : Posted → Type 0
IsBound p = (p.state ≢ "") × (p.cookie ≢ "" → p.cookie ≡ p.state)

pub state_refusal-IsBound : (p : Posted) → state_refusal p ≡ none → IsBound p
unfolding state_refusal
state_refusal-IsBound p h =
    let (a, h1) = passed (str_eq p.state "") no_state _ h in
    let (b, h2) = passed _ state_mismatch none h1 in
    (
      not_empty p.state a,
      λ k. (eq_iff p.cookie p.state).0 (elim (Bool-cases (str_eq p.cookie "")) [
        | inl e ↦ absurd (k ((eq_iff p.cookie "").0 e))
        | inr e ↦ ground arith
      ]),
    )

-- The platform is the only one that is registered for its issuer.
abbrev pub IsOnly : List Platform → Platform → Type 0
IsOnly registry platform = keep (λ q. str_eq q.issuer platform.issuer) registry ≡ platform ∷ []

by_issuer :
    (issuer : String) (qs : List Platform)
    → keep (is_registration issuer "") qs ≡ keep (λ q. str_eq q.issuer issuer) qs
by_issuer issuer [] = refl
by_issuer issuer (q ∷ qs) = elim (Bool-cases (str_eq q.issuer issuer)) [
  | inl e ↦ rw e (rw (by_issuer issuer qs) refl)
  | inr e ↦ rw e (by_issuer issuer qs)
]

single : (qs : List Platform) (p : Platform) → exactly_one qs ≡ ok p → qs ≡ p ∷ []
single [] p h = absurd (err_is_not h)
single (q ∷ []) p h = ap (λ x. x ∷ []) (ok_of h)
single (q ∷ r ∷ qs) p h = absurd (err_is_not h)

pub lookup-IsOnly :
    (registry : List Platform) (platform : Platform)
    → lookup registry platform.issuer "" ≡ ok platform
    → IsOnly registry platform
unfolding lookup
lookup-IsOnly registry platform h = sym (by_issuer platform.issuer registry) ∙ single _ platform h
