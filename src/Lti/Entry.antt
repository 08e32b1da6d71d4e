-- ===== src/Lti/Entry.antt =====
-- internal/authn/session.go: the session that a launch is given.
use mathlib.Core.Bool.{false≢true}
use gophercast.Prelude.{
  inl, inr, Bool-cases, Option-cases, ℕ, ◌+◌, ◌*◌, ◌<◌, ◌≡◌, refl, ap, String, Bool, true, not,
  ◌&&◌, Option, none, some, List, [], ◌∷◌, ◌++◌, map, all, any, arith, Result, ok, err, str_eq,
}
use gophercast.Prelude.Int.{pos, ◌+ℤ◌, ◌≤ℤ◌}
use gophercast.Text.{Codes, codes, eq_codes, is_nil, text_of, cut_prefix, codes-text_of}
use gophercast.Identity.Roles.{
  Launch, membership_prefix, is_role_char, is_suffix, allowed_role, emit, emit_under, emit_fragment,
  emit_uris, sanitize, map_roles,
}
use gophercast.Identity.Namespace.{map_roles-allowed_role}
use gophercast.Identity.Hmac.{Base64, Invertible, hs256_header}
use gophercast.Identity.Session.{
  SessionCodec, SessionError, session_claims, lifetime, lti, role_allowed, all_allowed, mint,
  validate, now_of, skew,
}
use gophercast.Identity.Bounded.{mint-validate}
use gophercast.Lti.Login.{Origin}
use gophercast.Lti.Session.{status, session, UrlParser, launch_roles, answer_minted, on_launch}

-- The roles only grow at their end.
abbrev StartsWith : Codes → List Codes → Type 0
StartsWith r out = (rest : List Codes) × (out ≡ r ∷ rest)

emit-StartsWith : (q r : Codes) (out : List Codes) → StartsWith r out → StartsWith r (emit q out)
unfolding emit
emit-StartsWith q r out (rest, e) =
    elim (Bool-cases (allowed_role q && not (any (eq_codes q) (r ∷ rest)))) [
      | inl y ↦ (rest ++ q ∷ [], rw (e) (rw (y)))
      | inr n ↦ (rest, rw (e) (rw (n)))
    ]

emit_under-StartsWith :
    (r prefix s : Codes) (out : List Codes)
    → StartsWith r out
    → StartsWith r (emit_under prefix s out)
emit_under-StartsWith r prefix s out h = elim (Bool-cases (is_nil s)) [
  | inl e ↦ rw e h
  | inr e ↦ rw e (emit-StartsWith (prefix ++ s) r out h)
]

emit_fragment-StartsWith :
    (r : Codes) (o : Option Codes) (out : List Codes)
    → StartsWith r out
    → StartsWith r (emit_fragment o out)
emit_fragment-StartsWith r none out h = h
emit_fragment-StartsWith r (some frag) out h =
    emit_under-StartsWith r (codes "ROLE_LTI_") (sanitize frag) out h

emit_uris-StartsWith :
    (r : Codes) (uris : List Codes) (out : List Codes)
    → StartsWith r out
    → StartsWith r (emit_uris uris out)
unfolding emit_uris
emit_uris-StartsWith r [] out h = h
emit_uris-StartsWith r (uri ∷ uris) out h =
    emit_uris-StartsWith r uris (emit_fragment (cut_prefix membership_prefix uri) out)
      (emit_fragment-StartsWith r (cut_prefix membership_prefix uri) out h)

map_roles-StartsWith : (l : Launch) → StartsWith (codes "ROLE_LTI_USER") (map_roles l)
unfolding map_roles emit allowed_role cut_prefix
map_roles-StartsWith l =
    let user = codes "ROLE_LTI_USER" in
    let uris = emit_uris-StartsWith user (map codes l.role_uris) (emit user []) ([], refl) in
    elim (Bool-cases (str_eq l.context_id "")) [
      | inl e ↦ rw e uris
      | inr e ↦ rw e (
          emit_under-StartsWith user (codes "ROLE_LTI_CONTEXT_") (sanitize (codes l.context_id))
            (emit_uris (map codes l.role_uris) (emit user [])) uris)
    ]

role_char_low : (c : ℕ) → is_role_char c ≡ true → c < 55296
role_char_low c h = ground arith

cut_prefix-all :
    (p : ℕ → Bool) (ps s t : Codes)
    → cut_prefix ps s ≡ some t
    → all p ps ≡ true
    → all p t ≡ true
    → all p s ≡ true
unfolding cut_prefix
cut_prefix-all p [] s t e h k = ground arith
cut_prefix-all p (q ∷ ps) [] t e h k = absurd (cc)
cut_prefix-all p (q ∷ ps) (c ∷ s) t e h k = ground (arith, cut_prefix-all p ps s t)

is_suffix-all : (s : Codes) → is_suffix (some s) ≡ true → all is_role_char s ≡ true
is_suffix-all s h = ground arith

-- An allowed role is the same after its way through a text.
allowed_role-text : (r : Codes) → allowed_role r ≡ true → codes (text_of r) ≡ r
unfolding allowed_role
allowed_role-text r h = elim (Option-cases (cut_prefix (codes "ROLE_LTI_") r)) [
  | inl e ↦ absurd (false≢true (rw e at h))
  | inr (s, e) ↦
      codes-text_of is_role_char r role_char_low
        (cut_prefix-all is_role_char (codes "ROLE_LTI_") r s e refl (is_suffix-all s (rw e at h)))
]

all_allowed-text :
    (rs : List Codes) → all allowed_role rs ≡ true → all_allowed (map text_of rs) ≡ true
unfolding all_allowed role_allowed
all_allowed-text [] h = refl
all_allowed-text (r ∷ rs) h =
    rw (allowed_role-text r (ground arith)) (ground (arith, all_allowed-text rs (ground arith)))

-- The roles of a launch never break the bound of a session.
pub launch_roles-all_allowed : (l : Launch) → all_allowed (launch_roles l) ≡ true
unfolding launch_roles
launch_roles-all_allowed l = all_allowed-text (map_roles l) (map_roles-allowed_role l)

answer_minted-session :
    (c : SessionCodec) (parse : UrlParser) (r : Origin) (l : Launch) (m : Result SessionError Codes)
    (value : Codes) (age : ℕ) (secure : Bool) (target : String)
    → answer_minted c parse r l m ≡ session value age secure target
    → m ≡ ok value
answer_minted-session c parse r l (ok v) value age secure target h =
    ap ok (ap (λ x. elim x [ status n ↦ v | session w a b t ↦ w ]) h)
answer_minted-session c parse r l (err e) value age secure target h = absurd (cc)

-- The session that a launch is given is, with every replica and until it expires, the launch's
-- subject with exactly the roles of the launch.
pub on_launch-validate :
    (c c' : SessionCodec) (parse : UrlParser) (r : Origin) (l : Launch) (value : Codes) (age : ℕ)
    (secure : Bool) (target : String)
    → c'.encoding ≡ c.encoding
    → Base64 c.encoding
    → Invertible c.encoding hs256_header
    → Invertible c.encoding (session_claims c l.subject (launch_roles l))
    → on_launch c parse r l ≡ session value age secure target
    → pos (c.seconds * 1000000000) ≤ℤ (now_of c' +ℤ skew)
    → now_of c' ≤ℤ (pos ((c.seconds + lifetime c.ttl) * 1000000000) +ℤ skew)
    → validate c' value
      ≡ some (record { roles = launch_roles l }, record { username = l.subject; method = lti })
unfolding on_launch launch_roles
on_launch-validate c c' parse r l value age secure target same base i j h k m =
    let (rest, e) = map_roles-StartsWith l in
    let minted =
      answer_minted-session c parse r l (mint c l.subject (launch_roles l)) value age secure target
        h in
    for_roles (launch_roles l) (text_of (codes "ROLE_LTI_USER")) (map text_of rest)
      (ap (map text_of) e) j minted
  where
    for_roles :
        (roles : List String) (first : String) (rest : List String)
        → roles ≡ first ∷ rest
        → Invertible c.encoding (session_claims c l.subject roles)
        → mint c l.subject roles ≡ ok value
        → validate c' value
          ≡ some (record { roles = roles }, record { username = l.subject; method = lti })
    for_roles roles first rest e j minted =
        rw (e) (
          mint-validate c c' l.subject first value rest same base i (rw e at j) (rw e at minted) k
            m)
