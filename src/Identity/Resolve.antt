-- ===== src/Identity/Resolve.antt =====
-- internal/authn/authn.go: `Resolve` and `Service`.
use Prim.Native.Char.{Char, code}
use gophercast.Prelude.{
  ℕ, ◌+◌, String, Bool, true, false, not, ◌&&◌, Option, none, some, List, [], ◌∷◌, ◌==◌, leb,
  if◌then◌else◌, any, find?, str_eq,
}
use gophercast.Text.{Codes, codes, is_space}
use gophercast.Serve.Authz.{Principal}
use gophercast.Identity.Session.{SessionCodec, Info, oidc, dev_seam, anonymous, validate}

-- What `oidcauth.Validator.Validate` makes of a token.
pub record ActsAs : Type 0 where
  pub username : String
  pub roles : List String

pub record Identity : Type 0 where
  pub username : String
  pub roles : List String
  pub acts_as : Option ActsAs

pub record Config : Type 0 where
  pub oidc : Option (String → Option Identity)
  pub service_roles : List String
  pub dev_seam : Bool
  pub service_users : List (String × String)
  pub session : Option SessionCodec

-- Absent headers read as the empty text; `basic_auth` is user and password.
pub record Request : Type 0 where
  pub authorization : String
  pub cookie : Option Codes
  pub x_roles : String
  pub basic_auth : Option (String × String)

-- `strings.TrimSpace` and `strings.Split(s, ",")`, on texts.
unfoldable pub trim_left : String → String
unfolding is_space
trim_left String.[] = String.[]
trim_left (String.◌∷◌ c s) =
    let rest = trim_left s in if is_space (code c) then rest else String.◌∷◌ c s

unfoldable pub trim_right : String → String
unfolding is_space
trim_right String.[] = String.[]
trim_right (String.◌∷◌ c s) =
    let rest = trim_right s in if str_eq rest "" && is_space (code c) then "" else String.◌∷◌ c rest

unfoldable pub trim_space : String → String
unfolding trim_left trim_right
trim_space s = trim_right (trim_left s)

abbrev pub onto : Char → List String → List String
onto c [] = String.◌∷◌ c "" ∷ []
onto c (p ∷ ps) = String.◌∷◌ c p ∷ ps

unfoldable pub split_commas : String → List String
split_commas String.[] = "" ∷ []
split_commas (String.◌∷◌ c s) =
    let rest = split_commas s in if code c == b',' then "" ∷ rest else onto c rest

-- The header's roles, trimmed, without empty ones.
unfoldable pub header_roles : List String → List String
unfolding trim_space
header_roles [] = []
header_roles (x ∷ xs) =
    let rest = header_roles xs in if str_eq (trim_space x) "" then rest else trim_space x ∷ rest

abbrev pub lower : ℕ → ℕ
lower c = if leb b'A' c && leb c b'Z' then c + 32 else c

-- What follows a prefix that is matched without regard to case.
unfoldable pub after_prefix : Codes → String → Option String
after_prefix [] s = some s
after_prefix (p ∷ ps) String.[] = none
after_prefix (p ∷ ps) (String.◌∷◌ c s) =
    let rest = after_prefix ps s in if lower (code c) == p then rest else none

abbrev pub token_in : Option String → Option String
token_in none = none
token_in (some rest) = if str_eq rest "" then none else some (trim_space rest)

unfoldable pub bearer_token : Request → Option String
unfolding after_prefix trim_space
bearer_token r = token_in (after_prefix (codes "bearer ") r.authorization)

abbrev pub Resolved : Type 0
Resolved = Principal × Info × Bool

abbrev pub anonymous_resolved : Resolved
anonymous_resolved =
    (record { roles = "ROLE_ANONYMOUS" ∷ [] }, record { username = ""; method = anonymous }, false)

abbrev pub has_role : List String → String → Bool
has_role roles want = any (λ r. str_eq r want) roles

abbrev pub acting : Identity → Option ActsAs → Resolved
acting id none =
    (record { roles = id.roles }, record { username = id.username; method = oidc }, true)
acting id (some a) =
    if not (has_role id.roles "ROLE_SUDO")
    then anonymous_resolved
    else (record { roles = a.roles }, record { username = a.username; method = oidc }, true)

abbrev pub identified : Option Identity → Resolved
identified none = anonymous_resolved
identified (some id) = acting id id.acts_as

abbrev pub by_bearer : Option (String → Option Identity) → String → Resolved
by_bearer none token = anonymous_resolved
by_bearer (some v) token = identified (v token)

abbrev pub of_session : Option (Principal × Info) → Resolved
of_session none = anonymous_resolved
of_session (some (p, info)) = (p, info, true)

abbrev pub by_roles : List String → Resolved
by_roles [] = anonymous_resolved
by_roles (r ∷ roles) =
    (record { roles = r ∷ roles }, record { username = ""; method = dev_seam }, true)

unfoldable pub by_seam : Config → Request → Resolved
unfolding header_roles split_commas
by_seam c r =
    if c.dev_seam && not (str_eq r.x_roles "")
    then by_roles (header_roles (split_commas r.x_roles))
    else anonymous_resolved

abbrev pub by_session : Option SessionCodec → Option Codes → Resolved → Resolved
by_session none cookie seam = seam
by_session (some codec) none seam = seam
by_session (some codec) (some value) seam = of_session (validate codec value)

abbrev pub by_token : Config → Option String → Resolved → Resolved
by_token c (some token) rest = by_bearer c.oidc token
by_token c none rest = rest

unfoldable pub resolve : Config → Request → Resolved
unfolding bearer_token by_seam
resolve c r = by_token c (bearer_token r) (by_session c.session r.cookie (by_seam c r))

abbrev pub or_default_roles : List String → List String
or_default_roles [] = "ROLE_ADMIN" ∷ "ROLE_GLOBAL_ADMIN" ∷ "ROLE_CAPTURE_AGENT" ∷ []
or_default_roles (r ∷ roles) = r ∷ roles

abbrev pub may_deposit : List String → Option Identity → Bool
may_deposit allowed none = false
may_deposit allowed (some id) = any (λ have. any (str_eq have) allowed) id.roles

abbrev pub deposit_by_bearer : Config → Option (String → Option Identity) → String → Bool
deposit_by_bearer c none token = false
deposit_by_bearer c (some v) token = may_deposit (or_default_roles c.service_roles) (v token)

abbrev pub is_password : Option (String × String) → String → Bool
is_password none pass = false
is_password (some (user, want)) pass = str_eq pass want

abbrev pub by_password : Config → Option (String × String) → Bool
by_password c none = false
by_password c (some (user, pass)) = is_password (find? (λ u. str_eq u.0 user) c.service_users) pass

abbrev pub service_by : Config → Option String → Request → Bool
service_by c (some token) r = deposit_by_bearer c c.oidc token
service_by c none r = if c.dev_seam then by_password c r.basic_auth else false

unfoldable pub service : Config → Request → Bool
unfolding bearer_token
service c r = service_by c (bearer_token r) r
