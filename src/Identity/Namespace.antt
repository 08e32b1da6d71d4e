-- ===== src/Identity/Namespace.antt =====
-- internal/lti/roles.go: the namespace of the roles that a launch is given.
use gophercast.Prelude.{
  ◌≡◌, refl, Bool, true, Option, none, some, List, [], ◌∷◌, ◌++◌, arith, all, map,
}
use gophercast.Text.{Codes, codes, cut_prefix}
use gophercast.Identity.Roles.{
  Launch, membership_prefix, allowed_role, sanitize, emit, emit_under, emit_fragment, emit_uris,
  map_roles,
}

abbrev Bound : List Codes → Type 0
Bound out = all allowed_role out ≡ true

all-snoc :
    (p : Codes → Bool) (out : List Codes) (r : Codes)
    → all p out ≡ true
    → p r ≡ true
    → all p (out ++ r ∷ []) ≡ true
all-snoc p [] r h k = ground arith
all-snoc p (x ∷ out) r h k = ground (arith, all-snoc p out r)

emit-Bound : (r : Codes) (out : List Codes) → Bound out → Bound (emit r out)
unfolding emit
emit-Bound r out h = ground (arith, all-snoc allowed_role out r h)

emit_under-Bound :
    (prefix s : Codes) (out : List Codes) → Bound out → Bound (emit_under prefix s out)
emit_under-Bound prefix s out h = ground (arith, emit-Bound (prefix ++ s) out h)

emit_fragment-Bound :
    (o : Option Codes) (out : List Codes) → Bound out → Bound (emit_fragment o out)
emit_fragment-Bound none out h = h
emit_fragment-Bound (some frag) out h = emit_under-Bound (codes "ROLE_LTI_") (sanitize frag) out h

emit_uris-Bound : (uris : List Codes) (out : List Codes) → Bound out → Bound (emit_uris uris out)
unfolding emit_uris
emit_uris-Bound [] out h = h
emit_uris-Bound (uri ∷ uris) out h =
    emit_uris-Bound uris (emit_fragment (cut_prefix membership_prefix uri) out)
      (emit_fragment-Bound (cut_prefix membership_prefix uri) out h)

-- Every role that a launch is given, whatever its claims say, is in the namespace of launches.
pub map_roles-allowed_role : (l : Launch) → all allowed_role (map_roles l) ≡ true
unfolding map_roles
map_roles-allowed_role l =
    (let first = emit (codes "ROLE_LTI_USER") [] in
      let bound =
        emit_uris-Bound (map codes l.role_uris) first
          (emit-Bound (codes "ROLE_LTI_USER") [] refl) in
      ground (
        arith,
        bound,
        emit_under-Bound (codes "ROLE_LTI_CONTEXT_") (sanitize (codes l.context_id))
            (emit_uris (map codes l.role_uris) first) bound,
      ))
