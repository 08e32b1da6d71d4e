-- ===== src/Acl/Storage.antt =====
-- Reading back a policy that internal/acl has written.
use gophercast.Prelude.{
  String, ◌≡◌, refl, ap, ◌∙◌, Bool, true, false, not, ◌&&◌, ◌||◌, List, [], ◌∷◌, ◌++◌, map, ok,
  arith, inl, inr, str_eq, eq_iff, Bool-cases, any, all, keep,
}
use gophercast.Acl.Policy.{
  Scope, event, series, State, absent, empty, populated, Entry, EntryRow, Tables, scope_eq,
  entry_eq, in_scope, policy_of, put_policy, put_entry, put_entries, set_tx, insert_sorted,
  order_by, read_state, get, evaluate,
}
use gophercast.Acl.Decision.{grants, vetoes, permitted, evaluate-permitted}

-- Some entry of the policy passes the test.
abbrev pub stored : Scope → String → (Entry → Bool) → List EntryRow → Bool
stored scope id q rows = any (λ r. in_scope scope id r && q r.entry) rows

any-read :
    (scope : Scope) (id : String) (q : Entry → Bool) (rows : List EntryRow)
    → any q (map (λ r. r.entry) (keep (in_scope scope id) rows)) ≡ stored scope id q rows
any-read scope id q [] = refl
any-read scope id q (r ∷ rows) = ground (arith, any-read scope id q rows)

stored-deleted :
    (scope : Scope) (id : String) (q : Entry → Bool) (rows : List EntryRow)
    → stored scope id q (keep (λ r. not (in_scope scope id r)) rows) ≡ false
stored-deleted scope id q [] = refl
stored-deleted scope id q (r ∷ rows) = elim (Bool-cases (in_scope scope id r)) [
  | inl e ↦ rw e (stored-deleted scope id q rows)
  | inr e ↦ rw (e, e) (stored-deleted scope id q rows)
]

pub any-append {ℓ} :
    {A : Type ℓ} (q : A → Bool) (xs ys : List A) → any q (xs ++ ys) ≡ (any q xs || any q ys)
any-append q [] ys = refl
any-append q (x ∷ xs) ys = ground (arith, any-append q xs ys)

entry_eq→eq : (a b : Entry) → entry_eq a b ≡ true → a ≡ b
entry_eq→eq a b h = ground (arith, eq_iff a.role b.role, eq_iff a.action b.action)

pub scope_eq_refl : (s : Scope) → scope_eq s s ≡ true
scope_eq_refl event = refl
scope_eq_refl series = refl

stored_of_equal :
    (scope : Scope) (id : String) (q : Entry → Bool) (e : Entry) (rows : List EntryRow)
    → stored scope id (entry_eq e) rows ≡ true
    → q e ≡ true
    → stored scope id q rows ≡ true
stored_of_equal scope id q e [] h k = cc
stored_of_equal scope id q e (r ∷ rows) h k =
    ground (arith, entry_eq→eq e r.entry, stored_of_equal scope id q e rows)

stored-put_entry :
    (scope : Scope) (id : String) (q : Entry → Bool) (e : Entry) (rows : List EntryRow)
    → stored scope id q (put_entry scope id e rows) ≡ (stored scope id q rows || q e)
unfolding put_entry
stored-put_entry scope id q e rows = elim (Bool-cases (stored scope id (entry_eq e) rows)) [
  | inl there ↦ rw there (ground (arith, stored_of_equal scope id q e rows there))
  | inr new ↦ rw new (
      rw (any-append (λ r. in_scope scope id r && q r.entry) rows)
        (ground (arith, scope_eq_refl scope, eq_iff id id)))
]

-- What the loop accepts.
abbrev pub is_named : Entry → Bool
is_named e = not (str_eq e.role "") && not (str_eq e.action "")

put_entries-ok :
    (scope : Scope) (id : String) (es : List Entry) (rows : List EntryRow)
    → all is_named es ≡ true
    → (put_entries scope id es rows).0 ≡ ok tt
unfolding put_entries
put_entries-ok scope id [] rows h = refl
put_entries-ok scope id (e ∷ es) rows h =
    ground (arith, put_entries-ok scope id es (put_entry scope id e rows))

stored-put_entries :
    (scope : Scope) (id : String) (q : Entry → Bool) (es : List Entry) (rows : List EntryRow)
    → all is_named es ≡ true
    → stored scope id q (put_entries scope id es rows).1 ≡ (stored scope id q rows || any q es)
unfolding put_entries
stored-put_entries scope id q [] rows h = ground arith
stored-put_entries scope id q (e ∷ es) rows h = ground (
  arith,
  stored-put_entries scope id q es (put_entry scope id e rows),
  stored-put_entry scope id q e rows,
)

policy-put_policy :
    (scope : Scope) (id : String) (ps : List (Scope × String))
    → any (policy_of scope id) (put_policy scope id ps) ≡ true
unfolding put_policy
policy-put_policy scope id ps = elim (Bool-cases (any (policy_of scope id) ps)) [
  | inl e ↦ rw e e
  | inr e ↦
      rw e (
        rw (any-append (policy_of scope id) ps) (ground (arith, scope_eq_refl scope, eq_iff id id)))
]

module _ (le : Entry → Entry → Bool) where
  any-insert_sorted :
      (q : Entry → Bool) (e : Entry) (xs : List Entry)
      → any q (insert_sorted le e xs) ≡ (q e || any q xs)
  unfolding insert_sorted
  any-insert_sorted q e [] = refl
  any-insert_sorted q e (x ∷ xs) = ground (arith, any-insert_sorted q e xs)

  any-order_by : (q : Entry → Bool) (xs : List Entry) → any q (order_by le xs) ≡ any q xs
  unfolding order_by
  any-order_by q [] = refl
  any-order_by q (x ∷ xs) = any-insert_sorted q x (order_by le xs) ∙ rw (any-order_by q xs)

read_state-entries : (es : List Entry) → (read_state es).0 ≡ es
read_state-entries [] = refl
read_state-entries (e ∷ es) = refl

-- The state that a policy with these entries has.
abbrev pub state_of : List Entry → State
state_of [] = empty
state_of (e ∷ es) = populated

read_state-state :
    (es fs : List Entry) → any (λ e. true) es ≡ any (λ e. true) fs → (read_state es).1 ≡ state_of fs
read_state-state [] [] h = refl
read_state-state [] (f ∷ fs) h = cc
read_state-state (e ∷ es) [] h = cc
read_state-state (e ∷ es) (f ∷ fs) h = refl

evaluate-read_state :
    (es : List Entry) (roles : List String) (action : String)
    → evaluate (read_state es).0 (read_state es).1 roles action ≡ permitted roles action es
evaluate-read_state [] roles action = evaluate-permitted [] empty roles action
evaluate-read_state (e ∷ es) roles action = evaluate-permitted (e ∷ es) populated roles action

permitted-cong :
    (roles : List String) (action : String) (es fs : List Entry)
    → ((q : Entry → Bool) → any q es ≡ any q fs)
    → permitted roles action es ≡ permitted roles action fs
permitted-cong roles action es fs h = rw (h (grants roles action), h (vetoes roles action))

-- A policy that has been written is read back as it was given: the same entries, denies included,
-- in the state that their number says; the decision on what is read back is the rule on what was
-- given. The entries must name a role and an action.
pub get-set_tx :
    (le : Entry → Entry → Bool) (scope : Scope) (id : String) (es : List Entry) (t : Tables)
    → all is_named es ≡ true
    → let (r, after) = set_tx scope id es t in
      let (back, state) = get le scope id after in
      (r ≡ ok tt)
      × (state ≡ state_of es)
      × ((q : Entry → Bool) → any q back ≡ any q es)
      × ((roles : List String) (action : String)
          → evaluate back state roles action ≡ permitted roles action es)
unfolding set_tx get
get-set_tx le scope id es t named =
    let rows = keep (λ r. not (in_scope scope id r)) t.entries in
    let after = (put_entries scope id es rows).1 in
    let found = map (λ r. r.entry) (keep (in_scope scope id) after) in
    let same : (q : Entry → Bool) → any q (order_by le found) ≡ any q es = λ q.
      any-order_by le q found
      ∙ any-read scope id q after
      ∙ stored-put_entries scope id q es rows named
      ∙ rw (stored-deleted scope id q t.entries) in
    let here : get le scope id (set_tx scope id es t).1 ≡ read_state (order_by le found) =
      rw (policy-put_policy scope id t.policies) in
    rw here (
      put_entries-ok scope id es rows named,
      read_state-state (order_by le found) es (same (λ e. true)),
      λ q. ap (any q) (read_state-entries (order_by le found)) ∙ same q,
      λ roles action.
          evaluate-read_state (order_by le found) roles action
          ∙ permitted-cong roles action (order_by le found) es same,
    )

-- The decision on what is read of a policy is the rule on its rows, and a refusal where the policy
-- was never set.
pub evaluate-get :
    (le : Entry → Entry → Bool) (scope : Scope) (id : String) (t : Tables) (roles : List String)
    (action : String)
    → let (es, state) = get le scope id t in
      evaluate es state roles action ≡ (
        any (policy_of scope id) t.policies
        && permitted roles action (map (λ r. r.entry) (keep (in_scope scope id) t.entries)))
unfolding get
evaluate-get le scope id t roles action = elim (Bool-cases (any (policy_of scope id) t.policies)) [
  | inl set ↦
      let es = map (λ (r : EntryRow). r.entry) (keep (in_scope scope id) t.entries) in
      rw set (
        evaluate-read_state (order_by le es) roles action
        ∙ permitted-cong roles action (order_by le es) es (λ q. any-order_by le q es))
  | inr unset ↦ rw unset (evaluate-permitted [] absent roles action)
]
