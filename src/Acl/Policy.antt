-- ===== src/Acl/Policy.antt =====
-- internal/acl/acl.go and schema.sql.
use gophercast.Prelude.{
  String, Bool, true, false, not, ◌&&◌, ◌||◌, List, [], ◌∷◌, ◌++◌, map, Result, ok, err, str_eq,
  if◌then◌else◌, any, keep,
}

pub data Scope : Type 0 where
  event series : Scope

-- What is known of a policy: never set, set to grant nothing, or to be evaluated.
pub data State : Type 0 where
  absent empty populated : State

pub record Entry : Type 0 where
  pub role : String
  pub action : String
  pub allow : Bool

-- A row of `acl_entry`; the whole row is its primary key.
pub record EntryRow : Type 0 where
  pub scope : Scope
  pub scope_id : String
  pub entry : Entry

pub record Tables : Type 0 where
  pub policies : List (Scope × String)
  pub entries : List EntryRow

pub data Error : Type 0 where
  empty_role_or_action : Error

abbrev pub scope_eq : Scope → Scope → Bool
scope_eq event event = true
scope_eq series series = true
scope_eq _ _ = false

abbrev pub bool_eq : Bool → Bool → Bool
bool_eq true b = b
bool_eq false b = not b

abbrev pub entry_eq : Entry → Entry → Bool
entry_eq a b = str_eq a.role b.role && (str_eq a.action b.action && bool_eq a.allow b.allow)

-- `where scope=$1 and scope_id=$2`
abbrev pub in_scope : Scope → String → EntryRow → Bool
in_scope scope id r = scope_eq r.scope scope && str_eq r.scope_id id

abbrev pub policy_of : Scope → String → Scope × String → Bool
policy_of scope id (s, i) = scope_eq s scope && str_eq i id

-- `insert into acl_policy … on conflict … do update`
unfoldable pub put_policy : Scope → String → List (Scope × String) → List (Scope × String)
put_policy scope id ps = if any (policy_of scope id) ps then ps else ps ++ (scope, id) ∷ []

-- `insert into acl_entry … on conflict do nothing`
unfoldable pub put_entry : Scope → String → Entry → List EntryRow → List EntryRow
put_entry scope id e rows =
    if any (λ r. in_scope scope id r && entry_eq e r.entry) rows
    then rows
    else rows ++ record { scope = scope; scope_id = id; entry = e } ∷ []

-- The loop over the entries. The rows are those that the transaction has written when it ends.
unfoldable pub put_entries :
    Scope → String → List Entry → List EntryRow → Result Error (Unit {0}) × List EntryRow
unfolding put_entry
put_entries scope id [] rows = (ok tt, rows)
put_entries scope id (e ∷ es) rows =
    let rest = put_entries scope id es (put_entry scope id e rows) in
    if str_eq e.role "" || str_eq e.action "" then (err empty_role_or_action, rows) else rest

unfoldable pub set_tx : Scope → String → List Entry → Tables → Result Error (Unit {0}) × Tables
unfolding put_policy put_entries
set_tx scope id entries t =
    let (r, rows) =
      put_entries scope id entries (keep (λ r. not (in_scope scope id r)) t.entries) in
    (r, record { policies = put_policy scope id t.policies; entries = rows })

-- `len(out) == 0` tells an empty policy from a populated one.
abbrev pub read_state : List Entry → List Entry × State
read_state [] = ([], empty)
read_state (e ∷ es) = (e ∷ es, populated)

-- `order by role, action, allow`: the database's collation of texts is the order `le` on entries.
module _ (le : Entry → Entry → Bool) where
  unfoldable pub insert_sorted : Entry → List Entry → List Entry
  insert_sorted e [] = e ∷ []
  insert_sorted e (x ∷ xs) = if le e x then e ∷ x ∷ xs else x ∷ insert_sorted e xs

  unfoldable pub order_by : List Entry → List Entry
  unfolding insert_sorted
  order_by [] = []
  order_by (x ∷ xs) = insert_sorted x (order_by xs)

  unfoldable pub get : Scope → String → Tables → List Entry × State
  unfolding order_by
  get scope id t =
      if any (policy_of scope id) t.policies
      then read_state (order_by (map (λ r. r.entry) (keep (in_scope scope id) t.entries)))
      else ([], absent)

-- `held[role]`, for the map made of a principal's roles.
abbrev pub holds : List String → String → Bool
holds roles role = any (str_eq role) roles

unfoldable pub evaluate_loop : List String → String → Bool → List Entry → Bool
evaluate_loop roles action allowed [] = allowed
evaluate_loop roles action allowed (e ∷ es) =
    let skipped = evaluate_loop roles action allowed es in
    let granted = evaluate_loop roles action true es in
    if not (str_eq e.action action) || not (holds roles e.role)
    then skipped
    else (if not e.allow then false else granted)

abbrev pub is_populated : State → Bool
is_populated populated = true
is_populated _ = false

unfoldable pub evaluate : List Entry → State → List String → String → Bool
unfolding evaluate_loop
evaluate entries state roles action =
    if is_populated state then evaluate_loop roles action false entries else false
