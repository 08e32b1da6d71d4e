-- ===== src/Lti/Single.antt =====
-- internal/lti/store.go: a value is good at most once for each time it is minted.
use gophercast.Prelude.{
  ℕ, ◌+◌, ◌≤◌, ◌≡◌, refl, String, Bool, true, false, List, [], ◌∷◌, arith, Result, ok, err, eq_iff,
  inl, inr, Bool-cases,
}
use gophercast.Lti.Store.{
  Kind, state_value, nonce_value, StoreError, FlowStore, Laws, same_value, Op, mint_at, spend_at,
  mints, is_granted, one_if, minted, apply, run_ops, grants, granted,
}

pub same_value_eq : (j k : Kind) (w v : String) → same_value j w k v ≡ true → (j ≡ k) × (w ≡ v)
same_value_eq state_value state_value w v h = (refl, (eq_iff w v).0 h)
same_value_eq nonce_value nonce_value w v h = (refl, (eq_iff w v).0 h)
same_value_eq state_value nonce_value w v h = absurd (cc)
same_value_eq nonce_value state_value w v h = absurd (cc)

pub granted_ok : (r : Result StoreError Bool) → is_granted r ≡ true → r ≡ ok true
granted_ok (ok true) h = refl
granted_ok (ok false) h = absurd (cc)
granted_ok (err e) h = absurd (cc)

module _ {S : Type 0} (st : FlowStore S) (l : Laws st) where
  apply-absent :
      (k : Kind) (v : String) (op : Op) (s : S)
      → mints k v op ≡ false
      → l.has k v s ≡ false
      → l.has k v (apply st op s) ≡ false
  apply-absent k v (mint_at now j w ttl) s m h = l.mint_absent now j k w v ttl s m h
  apply-absent k v (spend_at now j w) s m h = l.spend_absent now j k w v s h

  -- What a spend of the value takes.
  grants-has :
      (k : Kind) (v : String) (op : Op) (s : S)
      → grants st k v op s ≡ true
      → (l.has k v s ≡ true) × (l.has k v (apply st op s) ≡ false)
  grants-has k v (mint_at now j w ttl) s h = absurd (cc)
  grants-has k v (spend_at now j w) s h =
      let (ke, ve) = same_value_eq j k w v (ground arith) in
      let done = granted_ok (st.spend now j w s).0 (ground arith) in
      rw (← ke, ← ve) (l.spend_has now j w s done, l.spend_gone now j w s done)

  one_if_bound : (b : Bool) → one_if b ≤ 1
  one_if_bound true = omega arith
  one_if_bound false = omega arith

  no_mint-no_grant :
      (k : Kind) (v : String) (op : Op) (s : S) → mints k v op ≡ true → grants st k v op s ≡ false
  no_mint-no_grant k v (mint_at now j w ttl) s h = refl
  no_mint-no_grant k v (spend_at now j w) s h = absurd (cc)

  step_bound :
      (k : Kind) (v : String) (op : Op) (s : S)
      → one_if (grants st k v op s) + one_if (l.has k v (apply st op s))
        ≤ one_if (mints k v op) + one_if (l.has k v s)
  step_bound k v op s = elim (Bool-cases (mints k v op)) [
    | inl m ↦
        rw (m, no_mint-no_grant k v op s m)
          (omega (arith, one_if_bound (l.has k v (apply st op s))))
    | inr m ↦ elim (Bool-cases (grants st k v op s)) [
      | inl g ↦
          let (before, after) = grants-has k v op s g in rw (m, g, before, after) (omega arith)
      | inr g ↦ elim (Bool-cases (l.has k v s)) [
        | inl h ↦ rw (m, g, h) (omega (arith, one_if_bound (l.has k v (apply st op s))))
        | inr h ↦ rw (m, g, h, apply-absent k v op s m h) (omega arith)
      ]
    ]
  ]

  -- However sessions mint and spend, spends of a value succeed at most as often as it is minted, and
  -- once more where it is in the store at first.
  pub granted-minted :
      (k : Kind) (v : String) (ops : List Op) (s : S)
      → granted st k v ops s ≤ minted k v ops + one_if (l.has k v s)
  unfolding granted minted
  granted-minted k v [] s = omega arith
  granted-minted k v (op ∷ ops) s =
      omega (arith, step_bound k v op s, granted-minted k v ops (apply st op s))

  -- A value that is gone stays away until it is minted again.
  pub run_ops-absent :
      (k : Kind) (v : String) (ops : List Op) (s : S)
      → minted k v ops ≡ 0
      → l.has k v s ≡ false
      → l.has k v (run_ops st ops s) ≡ false
  unfolding minted run_ops
  run_ops-absent k v [] s m h = h
  run_ops-absent k v (op ∷ ops) s m h = elim (Bool-cases (mints k v op)) [
    | inl y ↦ absurd (never (minted k v ops) (rw y at m))
    | inr n ↦
        run_ops-absent k v ops (apply st op s) (rest (minted k v ops) (rw n at m))
          (apply-absent k v op s n h)
  ]
    where
      never : (n : ℕ) → 1 + n ≡ 0 → ⊥
      never n e = omega arith

      rest : (n : ℕ) → 0 + n ≡ 0 → n ≡ 0
      rest n e = omega arith
