-- ===== src/Lti/Registry.antt =====
-- internal/lti/lti.go: the registered platforms.
use gophercast.Prelude.{String, Bool, ◌||◌, ◌&&◌, List, [], ◌∷◌, Result, ok, err, str_eq, any, keep}

pub record Platform : Type 0 where
  pub issuer : String
  pub client_id : String
  pub deployment_ids : List String
  pub jwks_uri : String
  pub auth_endpoint : String

unfoldable pub has_deployment : Platform → String → Bool
has_deployment p id = any (λ d. str_eq d id) p.deployment_ids

pub data LookupError : Type 0 where
  unknown_platform ambiguous_platform : LookupError

-- With an empty client id, the issuer alone is asked for.
abbrev pub is_registration : String → String → Platform → Bool
is_registration issuer client_id p =
    str_eq p.issuer issuer && (str_eq client_id "" || str_eq p.client_id client_id)

abbrev pub exactly_one : List Platform → Result LookupError Platform
exactly_one [] = err unknown_platform
exactly_one (p ∷ []) = ok p
exactly_one (p ∷ q ∷ ps) = err ambiguous_platform

unfoldable pub lookup : List Platform → String → String → Result LookupError Platform
lookup platforms issuer client_id = exactly_one (keep (is_registration issuer client_id) platforms)
