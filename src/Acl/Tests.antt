-- ===== src/Acl/Tests.antt =====
-- Small policies, and the theorems about internal/acl at them.
use gophercast.Prelude.{String, ◌≡◌, refl, Bool, true, false, ◌&&◌, List, [], ◌∷◌, ok, any}
use gophercast.Acl.Policy.{
  event, empty, populated, Entry, Tables, set_tx, get, evaluate, is_populated,
}
use gophercast.Acl.Decision.{permitted, evaluate-permitted}
use gophercast.Acl.Storage.{state_of, get-set_tx}

abbrev course : Entry
course = record { role = "ROLE_COURSE"; action = "read"; allow = true }

abbrev banned : Entry
banned = record { role = "ROLE_BANNED"; action = "read"; allow = false }

abbrev policy : List Entry
policy = course ∷ banned ∷ []

abbrev no_tables : Tables
no_tables = record { policies = []; entries = [] }

abbrev as_given : Entry → Entry → Bool
as_given a b = true

-- A held deny vetoes a held allow.
mixed_principal :
    (evaluate policy populated ("ROLE_COURSE" ∷ []) "read" ≡ true)
    × (evaluate policy populated ("ROLE_COURSE" ∷ "ROLE_BANNED" ∷ []) "read" ≡ false)
unfolding evaluate
mixed_principal = (refl, refl)

lockdown : (get as_given event "e" (set_tx event "e" [] no_tables).1).1 ≡ empty
unfolding get set_tx
lockdown = refl

evaluate-permitted_example :
    evaluate policy populated ("ROLE_COURSE" ∷ []) "read"
    ≡ (is_populated populated && permitted ("ROLE_COURSE" ∷ []) "read" policy)
evaluate-permitted_example = evaluate-permitted policy populated ("ROLE_COURSE" ∷ []) "read"

get-set_tx_example :
    let (r, after) = set_tx event "e" policy no_tables in
    let (back, state) = get as_given event "e" after in
    (r ≡ ok tt)
    × (state ≡ state_of policy)
    × ((q : Entry → Bool) → any q back ≡ any q policy)
    × ((roles : List String) (action : String)
        → evaluate back state roles action ≡ permitted roles action policy)
get-set_tx_example = get-set_tx as_given event "e" policy no_tables refl
