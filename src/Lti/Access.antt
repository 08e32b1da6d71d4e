-- ===== src/Lti/Access.antt =====
-- From a launch to what it opens: internal/lti and internal/authn with internal/search and internal/serve.
use Prim.Native.String.{◌++◌ as text_append}
use Prim.Native.Char.{code}
use text.Mathlib.TextLemmas.{nil-append, cons-append}
use mathlib.Core.Bool.{false≢true}
use gophercast.Prelude.{
  ℕ, ◌+◌, ◌*◌, ◌≡◌, refl, sym, ap, ◌∙◌, String, Bool, true, false, ◌&&◌, ◌||◌, none, some, List, [],
  ◌∷◌, ◌++◌, arith, inl, inr, Bool-cases, Option-cases, ok, any, str_eq, eq_iff, ◌==◌,
}
use gophercast.Prelude.Int.{pos, ◌+ℤ◌, ◌≤ℤ◌}
use gophercast.Text.{Codes, codes, cut_prefix}
use gophercast.Acl.Policy.{holds}
use gophercast.Serve.Authz.{
  Principal, PublicationPin, is_admin, episode_role, authorized, admits, authorized-plain,
}
use gophercast.Identity.Roles.{Launch, allowed_role}
use gophercast.Identity.Hmac.{Base64, Invertible, hs256_header}
use gophercast.Identity.Session.{
  SessionCodec, session_claims, lifetime, lti, role_allowed, all_allowed, now_of, skew,
}
use gophercast.Identity.Resolve.{Config, Request, bearer_token, resolve}
use gophercast.Identity.Bounded.{resolve-is_admin}
use gophercast.Search.Rows.{EventRow, Db}
use gophercast.Search.Project.{find_event}
use gophercast.Search.Current.{IsCurrent}
use gophercast.Search.Query.{admin_events, api_events, split_roles, episode_grant, event_visibility}
use gophercast.Search.Listing.{sees, some_role_may, visibility-policy}
use gophercast.Lti.Login.{Origin}
use gophercast.Lti.Session.{session, UrlParser, launch_roles, on_launch}
use gophercast.Lti.Entry.{launch_roles-all_allowed, on_launch-validate}

-- A text with one prefix does not have another one that parts from it.
cut_prefix_clash :
    (p a b : Codes) (x y : ℕ) (s t : Codes)
    → (x == y) ≡ false
    → cut_prefix (p ++ x ∷ a) s ≡ some t
    → cut_prefix (p ++ y ∷ b) s ≡ none
unfolding cut_prefix
cut_prefix_clash [] a b x y [] t d h = absurd (cc)
cut_prefix_clash [] a b x y (c ∷ s) t d h = ground arith
cut_prefix_clash (q ∷ p) a b x y [] t d h = absurd (cc)
cut_prefix_clash (q ∷ p) a b x y (c ∷ s) t d h = ground (arith, cut_prefix_clash p a b x y s t)

-- A role of a launch grants no episode.
episode_grant-allowed : (suffix r : String) → role_allowed r ≡ true → episode_grant suffix r ≡ none
unfolding role_allowed allowed_role episode_grant
episode_grant-allowed suffix r h = elim (Option-cases (cut_prefix (codes "ROLE_LTI_") (codes r))) [
  | inl e ↦ absurd (false≢true (rw e at h))
  | inr (t, e) ↦ rw (
      cut_prefix_clash (codes "ROLE_") (codes "TI_") (codes "PISODE_") b'L' b'E' (codes r) t refl e)
]

split_roles-allowed :
    (rs : List String)
    → all_allowed rs ≡ true
    → split_roles rs ≡ record { plain = rs; episode_read = []; episode_write = [] }
unfolding split_roles all_allowed
split_roles-allowed [] h = refl
split_roles-allowed (r ∷ rs) h = rw (
  episode_grant-allowed "_READ" r (ground arith),
  episode_grant-allowed "_WRITE" r (ground arith),
  split_roles-allowed rs (ground arith),
)

codes-append : (s t : String) → codes (text_append s t) ≡ codes s ++ codes t
codes-append String.[] t = ap codes (nil-append t)
codes-append (String.◌∷◌ c s) t =
    ap codes (cons-append c s t) ∙ ap (λ u. code c ∷ u) (codes-append s t)

-- Nor is it the read role of one.
episode_role-outside : (id : String) → role_allowed (episode_role id) ≡ false
unfolding role_allowed allowed_role cut_prefix
episode_role-outside id = ap allowed_role (codes-append "ROLE_EPISODE_" (text_append id "_READ"))

unheld :
    (x : String) (rs : List String)
    → role_allowed x ≡ false
    → all_allowed rs ≡ true
    → holds rs x ≡ false
unfolding all_allowed
unheld x [] n h = refl
unheld x (r ∷ rs) n h = elim (Bool-cases (str_eq x r)) [
  | inl e ↦
      let same : role_allowed x ≡ role_allowed r = ap role_allowed ((eq_iff x r).0 e) in
      absurd (ground arith)
  | inr e ↦ rw e (unheld x rs n (ground arith))
]

admits-pinned :
    (pins : List PublicationPin) (rs : List String)
    → all_allowed rs ≡ true
    → any (admits rs) pins ≡ any (λ (pin : PublicationPin). any (holds rs) pin.acl_read) pins
admits-pinned [] rs h = refl
admits-pinned (pin ∷ pins) rs h = rw (
  unheld (episode_role pin.mediapackage_id) rs (episode_role-outside pin.mediapackage_id) h,
  admits-pinned pins rs h,
)

-- What a request sees that comes with the session of a launch's roles.
abbrev pub SeesByRoles :
    List String → String → EventRow → Db → List PublicationPin → Principal → Type 0
SeesByRoles roles id row db pins p =
    (p.roles ≡ roles)
    × (sees row (event_visibility db p api_events) ≡ ok (some_role_may "read" id db roles))
    × (sees row (event_visibility db p admin_events)
        ≡ ok (some_role_may "read" id db roles && some_role_may "write" id db roles))
    × (authorized pins p ≡ any (λ (pin : PublicationPin). any (holds roles) pin.acl_read) pins)

or_false : (b : Bool) → (b || false) ≡ b
or_false true = refl
or_false false = refl

allowed-SeesByRoles :
    (roles : List String) (id : String) (row : EventRow) (db : Db) (pins : List PublicationPin)
    → all_allowed roles ≡ true
    → is_admin (record { roles = roles }) ≡ false
    → IsCurrent db
    → find_event id db ≡ some row
    → SeesByRoles roles id row db pins (record { roles = roles })
allowed-SeesByRoles roles id row db pins allowed plain current found =
    let p : Principal = record { roles = roles } in
    let (api, admin) = visibility-policy id row p db current found plain in
    let split = split_roles-allowed roles allowed in
    (
      refl,
      api ∙ rw split (ap ok (or_false (some_role_may "read" id db roles))),
      admin
          ∙ rw split (
              rw (
                or_false (some_role_may "read" id db roles),
                or_false (some_role_may "write" id db roles),
              )),
      authorized-plain pins p plain ∙ admits-pinned pins roles allowed,
    )

-- A request without bearer token that presents the cookie of a launch, to any replica with the same
-- secret and while the session lasts, is the subject's with exactly the roles of the launch; with them an
-- event is listed on the API surface exactly where one of them may read by the event's policy, on
-- the admin surface exactly where one may read and one may write, and a publication is delivered
-- exactly where a containing pin names one of them. The encodings of the token are inverted by their
-- decodings and have no dot, and the projection is current.
pub on_launch-sees :
    (c c' : SessionCodec) (parse : UrlParser) (r : Origin) (l : Launch) (value : Codes) (age : ℕ)
    (secure : Bool) (target id : String) (config : Config) (request : Request) (row : EventRow)
    (db : Db) (pins : List PublicationPin)
    → c'.encoding ≡ c.encoding
    → Base64 c.encoding
    → Invertible c.encoding hs256_header
    → Invertible c.encoding (session_claims c l.subject (launch_roles l))
    → on_launch c parse r l ≡ session value age secure target
    → pos (c.seconds * 1000000000) ≤ℤ (now_of c' +ℤ skew)
    → now_of c' ≤ℤ (pos ((c.seconds + lifetime c.ttl) * 1000000000) +ℤ skew)
    → bearer_token request ≡ none
    → config.session ≡ some c'
    → request.cookie ≡ some value
    → IsCurrent db
    → find_event id db ≡ some row
    → let (p, info, known) = resolve config request in
      (known ≡ true)
      × (info ≡ record { username = l.subject; method = lti })
      × SeesByRoles (launch_roles l) id row db pins p
unfolding resolve
on_launch-sees c c' parse r l value age secure target id config request row db pins same base i j
      launched begun lasts none_borne sessions presented current found =
    let valid =
      on_launch-validate c c' parse r l value age secure target same base i j launched begun
        lasts in
    let roles = launch_roles l in
    let seen : resolve config request
        ≡ (record { roles = roles }, record { username = l.subject; method = lti }, true) =
      rw (none_borne, sessions, presented) (rw valid) in
    let plain : is_admin (record { roles = roles }) ≡ false =
      ap (λ x. is_admin x.0) (sym seen)
      ∙ resolve-is_admin config request c' value none_borne sessions presented in
    rw seen (
      refl,
      refl,
      allowed-SeesByRoles roles id row db pins (launch_roles-all_allowed l) plain current found,
    )
