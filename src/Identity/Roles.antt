-- ===== src/Identity/Roles.antt =====
-- internal/lti/roles.go: the roles of a launch.
use gophercast.Prelude.{
  ℕ, zero, suc, ◌-◌, Bool, true, false, not, ◌&&◌, ◌||◌, Option, none, some, List, [], ◌∷◌, ◌++◌,
  ◌==◌, leb, map, length, if◌then◌else◌, any, all, String, str_eq,
}
use gophercast.Identity.Claims.{Claims}
use gophercast.Text.{Codes, codes, eq_codes, is_nil, cut_prefix}

-- A validated launch.
pub record Launch : Type 0 where
  pub issuer : String
  pub client_id : String
  pub deployment_id : String
  pub subject : String
  pub role_uris : List String
  pub context_id : String
  pub context_label : String
  pub resource_link_id : String
  pub target_link_uri : String
  pub claims : Claims

abbrev pub membership_prefix : Codes
membership_prefix = codes "http://purl.imsglobal.org/vocab/lis/v2/membership#"

-- `[A-Z0-9]`
abbrev pub is_alnum : ℕ → Bool
is_alnum c = (leb b'A' c && leb c b'Z') || (leb b'0' c && leb c b'9')

abbrev pub is_role_char : ℕ → Bool
is_role_char c = is_alnum c || c == b'_'

abbrev pub is_suffix : Option Codes → Bool
is_suffix none = false
is_suffix (some s) = leb 1 (length s) && (leb (length s) 64 && all is_role_char s)

-- `^ROLE_LTI_[A-Z0-9_]{1,64}$`, the test of `RoleAllowed`.
unfoldable pub allowed_role : Codes → Bool
allowed_role r = is_suffix (cut_prefix (codes "ROLE_LTI_") r)

-- `strings.ToUpper`, as far as the result is in `[A-Z0-9]`: the two letters beyond ASCII whose upper
-- case is ASCII are among them, and every other letter beyond ASCII stays there.
unfoldable pub to_upper : ℕ → ℕ
to_upper c =
    if leb b'a' c && leb c b'z'
    then c - 32
    else (if c == 0x131 then b'I' else (if c == 0x17f then b'S' else c))

-- `[^A-Z0-9]+` to `_`; the flag says that the run before is replaced already.
unfoldable pub collapse : Bool → Codes → Codes
collapse in_run [] = []
collapse in_run (c ∷ s) =
    let kept = collapse false s in
    let skipped = collapse true s in
    if is_alnum c then c ∷ kept else (if in_run then skipped else b'_' ∷ skipped)

-- `strings.Trim(s, "_")`
unfoldable pub trim_start : Codes → Codes
trim_start [] = []
trim_start (c ∷ s) = let rest = trim_start s in if c == b'_' then rest else c ∷ s

unfoldable pub trim_end : Codes → Codes
trim_end [] = []
trim_end (c ∷ s) = let rest = trim_end s in if is_nil rest && c == b'_' then [] else c ∷ rest

unfoldable pub take : ℕ → Codes → Codes
take zero s = []
take (suc n) [] = []
take (suc n) (c ∷ s) = c ∷ take n s

unfoldable pub sanitize : Codes → Codes
unfolding to_upper collapse trim_start trim_end take
sanitize s =
    let t = trim_end (trim_start (collapse false (map to_upper s))) in
    if leb (length t) 48 then t else take 48 t

-- The closure `emit`: what is allowed and not yet seen.
unfoldable pub emit : Codes → List Codes → List Codes
unfolding allowed_role
emit r out = if allowed_role r && not (any (eq_codes r) out) then out ++ r ∷ [] else out

abbrev pub emit_under : Codes → Codes → List Codes → List Codes
emit_under prefix s out = if is_nil s then out else emit (prefix ++ s) out

abbrev pub emit_fragment : Option Codes → List Codes → List Codes
emit_fragment none out = out
emit_fragment (some frag) out = emit_under (codes "ROLE_LTI_") (sanitize frag) out

unfoldable pub emit_uris : List Codes → List Codes → List Codes
unfolding emit sanitize
emit_uris [] out = out
emit_uris (uri ∷ uris) out = emit_uris uris (emit_fragment (cut_prefix membership_prefix uri) out)

unfoldable pub map_roles : Launch → List Codes
unfolding emit_uris emit sanitize
map_roles l =
    let out = emit_uris (map codes l.role_uris) (emit (codes "ROLE_LTI_USER") []) in
    if str_eq l.context_id ""
    then out
    else emit_under (codes "ROLE_LTI_CONTEXT_") (sanitize (codes l.context_id)) out
