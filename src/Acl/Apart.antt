-- ===== src/Acl/Apart.antt =====
-- What writing one policy of internal/acl leaves of the others.
use gophercast.Prelude.{
  String, ◌≡◌, refl, ◌∙◌, Bool, true, false, not, ◌||◌, List, [], ◌∷◌, ◌++◌, arith, inl, inr,
  str_eq, eq_iff, Bool-cases, any, keep,
}
use mathlib.Core.List.{append-nil}
use gophercast.Acl.Policy.{
  Scope, Entry, EntryRow, Tables, entry_eq, in_scope, policy_of, put_policy, put_entry, put_entries,
  set_tx, get,
}
use gophercast.Acl.Storage.{stored, any-append, scope_eq_refl}

-- No row is of two policies.
apart :
    (scope other : Scope) (id other_id : String) (r : EntryRow)
    → policy_of scope id (other, other_id) ≡ false
    → in_scope scope id r ≡ true
    → in_scope other other_id r ≡ false
apart scope other id other_id r h mine =
    ground (arith, eq_iff r.scope_id id, eq_iff r.scope_id other_id, eq_iff other_id id)

keep-other :
    (scope other : Scope) (id other_id : String) (rows : List EntryRow)
    → policy_of scope id (other, other_id) ≡ false
    → keep (in_scope other other_id) (keep (λ r. not (in_scope scope id r)) rows)
      ≡ keep (in_scope other other_id) rows
keep-other scope other id other_id [] h = refl
keep-other scope other id other_id (r ∷ rows) h = elim (Bool-cases (in_scope scope id r)) [
  | inl mine ↦
      rw mine
        (rw (apart scope other id other_id r h mine) (keep-other scope other id other_id rows h))
  | inr theirs ↦ rw theirs (rw (keep-other scope other id other_id rows h))
]

keep-append {ℓ} :
    {A : Type ℓ} (q : A → Bool) (xs ys : List A) → keep q (xs ++ ys) ≡ keep q xs ++ keep q ys
keep-append q [] ys = refl
keep-append q (x ∷ xs) ys = ground (arith, keep-append q xs ys)

put_entry-other :
    (scope other : Scope) (id other_id : String) (e : Entry) (rows : List EntryRow)
    → policy_of scope id (other, other_id) ≡ false
    → keep (in_scope other other_id) (put_entry scope id e rows)
      ≡ keep (in_scope other other_id) rows
unfolding put_entry
put_entry-other scope other id other_id e rows h =
    elim (Bool-cases (stored scope id (entry_eq e) rows)) [
      | inl there ↦ rw there
      | inr new ↦
          let row : EntryRow = record { scope = scope; scope_id = id; entry = e } in
          rw new (
            rw (keep-append (in_scope other other_id) rows (row ∷ [])) (
              rw
                (apart scope other id other_id row h
                  (ground (arith, scope_eq_refl scope, eq_iff id id)))
                (append-nil _)))
    ]

put_entries-other :
    (scope other : Scope) (id other_id : String) (es : List Entry) (rows : List EntryRow)
    → policy_of scope id (other, other_id) ≡ false
    → keep (in_scope other other_id) (put_entries scope id es rows).1
      ≡ keep (in_scope other other_id) rows
unfolding put_entries
put_entries-other scope other id other_id [] rows h = refl
put_entries-other scope other id other_id (e ∷ es) rows h =
    elim (Bool-cases (str_eq e.role "" || str_eq e.action "")) [
      | inl bad ↦ rw bad
      | inr good ↦ rw good (
          put_entries-other scope other id other_id es (put_entry scope id e rows) h
          ∙ put_entry-other scope other id other_id e rows h)
    ]

put_policy-other :
    (scope other : Scope) (id other_id : String) (ps : List (Scope × String))
    → policy_of other other_id (scope, id) ≡ false
    → any (policy_of other other_id) (put_policy scope id ps) ≡ any (policy_of other other_id) ps
unfolding put_policy
put_policy-other scope other id other_id ps h = elim (Bool-cases (any (policy_of scope id) ps)) [
  | inl e ↦ rw e
  | inr e ↦ rw e (rw (any-append (policy_of other other_id) ps) (ground arith))
]

policy_of_sym :
    (scope other : Scope) (id other_id : String)
    → policy_of scope id (other, other_id) ≡ false
    → policy_of other other_id (scope, id) ≡ false
policy_of_sym scope other id other_id h = ground (arith, eq_iff id other_id, eq_iff other_id id)

-- Writing one policy, with an error or without, leaves what is read of every other policy as it
-- was, its state included.
pub get-set_tx_other :
    (le : Entry → Entry → Bool) (scope other : Scope) (id other_id : String) (es : List Entry)
    (t : Tables)
    → policy_of scope id (other, other_id) ≡ false
    → get le other other_id (set_tx scope id es t).1 ≡ get le other other_id t
unfolding set_tx get
get-set_tx_other le scope other id other_id es t h = rw (
  put_policy-other scope other id other_id t.policies (policy_of_sym scope other id other_id h),
  put_entries-other scope other id other_id es (keep (λ r. not (in_scope scope id r)) t.entries) h,
  keep-other scope other id other_id t.entries h,
)

-- The rows of another policy are left alone, entry by entry.
pub set_tx-other :
    (scope other : Scope) (id other_id : String) (es : List Entry) (t : Tables)
    → policy_of scope id (other, other_id) ≡ false
    → let after = (set_tx scope id es t).1 in
      (any (policy_of other other_id) after.policies ≡ any (policy_of other other_id) t.policies)
      × (keep (in_scope other other_id) after.entries ≡ keep (in_scope other other_id) t.entries)
unfolding set_tx
set_tx-other scope other id other_id es t h = (
  put_policy-other scope other id other_id t.policies (policy_of_sym scope other id other_id h),
  put_entries-other scope other id other_id es (keep (λ r. not (in_scope scope id r)) t.entries) h
      ∙ keep-other scope other id other_id t.entries h,
)
