-- ===== src/Serve/Authz.antt =====
-- internal/serve/authz.go, and the principal of internal/search/query.go that it decides about.
use Prim.Native.String.{◌++◌ as text_append}
use gophercast.Prelude.{
  String, ◌≡◌, refl, Bool, true, false, ◌||◌, List, [], ◌∷◌, arith, str_eq, if◌then◌else◌, any,
}
use gophercast.Acl.Policy.{holds}

pub record Principal : Type 0 where
  pub roles : List String

-- `adminRoles`
abbrev pub is_admin_role : String → Bool
is_admin_role r = str_eq r "ROLE_ADMIN" || str_eq r "ROLE_GLOBAL_ADMIN"

unfoldable pub is_admin_loop : List String → Bool
is_admin_loop [] = false
is_admin_loop (r ∷ rs) = if is_admin_role r then true else is_admin_loop rs

unfoldable pub is_admin : Principal → Bool
unfolding is_admin_loop
is_admin p = is_admin_loop p.roles

-- The ACL of one containing publication, as it was pinned when it was published.
pub record PublicationPin : Type 0 where
  pub mediapackage_id : String
  pub channel : String
  pub acl_read : List String
  pub acl_state : String

abbrev pub episode_role : String → String
episode_role id = text_append "ROLE_EPISODE_" (text_append id "_READ")

unfoldable pub any_held : List String → List String → Bool
any_held roles [] = false
any_held roles (r ∷ rs) = if holds roles r then true else any_held roles rs

unfoldable pub authorized_loop : List String → List PublicationPin → Bool
unfolding any_held
authorized_loop roles [] = false
authorized_loop roles (pin ∷ pins) =
    if holds roles (episode_role pin.mediapackage_id)
    then true
    else (if any_held roles pin.acl_read then true else authorized_loop roles pins)

unfoldable pub authorized : List PublicationPin → Principal → Bool
unfolding is_admin authorized_loop
authorized pins p = if is_admin p then true else authorized_loop p.roles pins

-- The pin lets a holder of the roles in.
abbrev pub admits : List String → PublicationPin → Bool
admits roles pin = holds roles (episode_role pin.mediapackage_id) || any (holds roles) pin.acl_read

is_admin_loop_lem : (rs : List String) → is_admin_loop rs ≡ any is_admin_role rs
unfolding is_admin_loop
is_admin_loop_lem [] = refl
is_admin_loop_lem (r ∷ rs) = ground (arith, is_admin_loop_lem rs)

any_held_lem : (roles rs : List String) → any_held roles rs ≡ any (holds roles) rs
unfolding any_held
any_held_lem roles [] = refl
any_held_lem roles (r ∷ rs) = ground (arith, any_held_lem roles rs)

authorized_loop_lem :
    (roles : List String) (pins : List PublicationPin)
    → authorized_loop roles pins ≡ any (admits roles) pins
unfolding authorized_loop
authorized_loop_lem roles [] = refl
authorized_loop_lem roles (pin ∷ pins) =
    ground (arith, any_held_lem roles pin.acl_read, authorized_loop_lem roles pins)

-- Delivery is authorized exactly for a platform administrator, or where some containing publication
-- has a pin that meets the principal's roles or whose episode the principal holds the read role of.
pub authorized-admits :
    (pins : List PublicationPin) (p : Principal)
    → authorized pins p ≡ (any is_admin_role p.roles || any (admits p.roles) pins)
unfolding authorized
authorized-admits pins p =
    ground (arith, is_admin_loop_lem p.roles, authorized_loop_lem p.roles pins)

pub authorized-plain :
    (pins : List PublicationPin) (p : Principal)
    → is_admin p ≡ false
    → authorized pins p ≡ any (admits p.roles) pins
unfolding authorized
authorized-plain pins p h = rw h (authorized_loop_lem p.roles pins)
