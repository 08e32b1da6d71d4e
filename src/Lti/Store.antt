-- ===== src/Lti/Store.antt =====
-- internal/lti/store.go: what the store of single-use values promises.
use gophercast.Prelude.{
  ℕ, ◌+◌, ◌≡◌, String, Bool, true, false, ◌&&◌, Option, List, [], ◌∷◌, if◌then◌else◌, Result, ok,
  err, str_eq,
}

-- `kindState` and `kindNonce`
pub data Kind : Type 0 where
  state_value nonce_value : Kind

pub data StoreError : Type 0 where
  unreachable duplicate_key : StoreError

-- `FlowStore`, with the clock's time as the first argument; the last number of `mint` is the lifetime.
pub record FlowStore (S : Type 0) : Type 0 where
  pub mint : ℕ → Kind → String → ℕ → S → Option StoreError × S
  pub spend : ℕ → Kind → String → S → Result StoreError Bool × S

abbrev pub kind_eq : Kind → Kind → Bool
kind_eq state_value state_value = true
kind_eq nonce_value nonce_value = true
kind_eq _ _ = false

abbrev pub same_value : Kind → String → Kind → String → Bool
same_value j w k v = kind_eq j k && str_eq w v

-- A value is there from when it is minted until it is spent: `spend` succeeds only on what is there,
-- takes it away, and puts nothing in; `mint` puts in nothing else.
pub record Laws {S : Type 0} (st : FlowStore S) : Type 0 where
  pub has : Kind → String → S → Bool
  pub spend_has :
      (now : ℕ) (k : Kind) (v : String) (s : S)
      → (st.spend now k v s).0 ≡ ok true
      → has k v s ≡ true
  pub spend_gone :
      (now : ℕ) (k : Kind) (v : String) (s : S)
      → (st.spend now k v s).0 ≡ ok true
      → has k v (st.spend now k v s).1 ≡ false
  pub spend_absent :
      (now : ℕ) (k j : Kind) (v w : String) (s : S)
      → has j w s ≡ false
      → has j w (st.spend now k v s).1 ≡ false
  pub mint_absent :
      (now : ℕ) (k j : Kind) (v w : String) (ttl : ℕ) (s : S)
      → same_value k v j w ≡ false
      → has j w s ≡ false
      → has j w (st.mint now k v ttl s).1 ≡ false

-- What any session does with the store, and when.
pub data Op : Type 0 where
  mint_at : ℕ → Kind → String → ℕ → Op
  spend_at : ℕ → Kind → String → Op

abbrev pub mints : Kind → String → Op → Bool
mints k v (mint_at now j w ttl) = same_value j w k v
mints k v (spend_at now j w) = false

abbrev pub spends : Kind → String → Op → Bool
spends k v (mint_at now j w ttl) = false
spends k v (spend_at now j w) = same_value j w k v

abbrev pub is_granted : Result StoreError Bool → Bool
is_granted (ok b) = b
is_granted (err e) = false

abbrev pub one_if : Bool → ℕ
one_if b = if b then 1 else 0

-- How often the value is minted.
unfoldable pub minted : Kind → String → List Op → ℕ
minted k v [] = 0
minted k v (op ∷ ops) = one_if (mints k v op) + minted k v ops

module _ {S : Type 0} (st : FlowStore S) where
  abbrev pub apply : Op → S → S
  apply (mint_at now k v ttl) s = (st.mint now k v ttl s).1
  apply (spend_at now k v) s = (st.spend now k v s).1

  unfoldable pub run_ops : List Op → S → S
  run_ops [] s = s
  run_ops (op ∷ ops) s = run_ops ops (apply op s)

  abbrev pub grants : Kind → String → Op → S → Bool
  grants k v (mint_at now j w ttl) s = false
  grants k v (spend_at now j w) s = same_value j w k v && is_granted (st.spend now j w s).0

  -- How often a spend of the value succeeds.
  unfoldable pub granted : Kind → String → List Op → S → ℕ
  granted k v [] s = 0
  granted k v (op ∷ ops) s = one_if (grants k v op s) + granted k v ops (apply op s)
