-- ===== src/Acl/Decision.antt =====
-- The authorization decision of internal/acl against its rule: a held deny vetoes.
use gophercast.Prelude.{
  String, ◌≡◌, Bool, true, false, not, ◌&&◌, ◌||◌, List, [], ◌∷◌, arith, str_eq, any,
}
use gophercast.Acl.Policy.{Entry, State, is_populated, holds, evaluate_loop, evaluate}

-- The entry speaks of the action and of a role that is held, and allows it; or denies it.
abbrev pub grants : List String → String → Entry → Bool
grants roles action e = (str_eq e.action action && holds roles e.role) && e.allow

abbrev pub vetoes : List String → String → Entry → Bool
vetoes roles action e = (str_eq e.action action && holds roles e.role) && not e.allow

-- The rule.
abbrev pub permitted : List String → String → List Entry → Bool
permitted roles action es = any (grants roles action) es && not (any (vetoes roles action) es)

evaluate_loop_lem :
    (roles : List String) (action : String) (allowed : Bool) (es : List Entry)
    → evaluate_loop roles action allowed es
      ≡ ((allowed || any (grants roles action) es) && not (any (vetoes roles action) es))
unfolding evaluate_loop
evaluate_loop_lem roles action allowed [] = ground arith
evaluate_loop_lem roles action allowed (e ∷ es) =
    ground
      (arith, evaluate_loop_lem roles action allowed es, evaluate_loop_lem roles action true es)

-- Access is granted exactly when the policy is POPULATED, some entry allows the action for a held
-- role, and no entry denies it for a held role.
pub evaluate-permitted :
    (es : List Entry) (state : State) (roles : List String) (action : String)
    → evaluate es state roles action ≡ (is_populated state && permitted roles action es)
unfolding evaluate
evaluate-permitted es state roles action = ground (arith, evaluate_loop_lem roles action false es)
