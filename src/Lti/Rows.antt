-- ===== src/Lti/Rows.antt =====
-- The two stores of internal/lti/store.go: the map in memory and the table `lti_flow`.
use gophercast.Prelude.{
  ℕ, ◌+◌, ltb, ◌≡◌, refl, String, Bool, true, false, not, Option, none, some, List, [], ◌∷◌, arith,
  if◌then◌else◌, Result, ok, err, eq_iff, any, keep, find?, inl, inr, Bool-cases,
}
use gophercast.Lti.Store.{
  Kind, state_value, nonce_value, StoreError, unreachable, duplicate_key, FlowStore, Laws,
  same_value,
}

-- An entry of the map, or a row of the table.
pub record FlowRow : Type 0 where
  pub kind : Kind
  pub value : String
  pub expires_at : ℕ

abbrev pub is_row : Kind → String → FlowRow → Bool
is_row k v r = same_value r.kind r.value k v

abbrev pub present : Kind → String → List FlowRow → Bool
present k v rows = any (is_row k v) rows

abbrev pub removed : Kind → String → List FlowRow → List FlowRow
removed k v rows = keep (λ r. not (is_row k v r)) rows

-- Whether the value has time left.
abbrev pub is_live : ℕ → Option FlowRow → Bool
is_live now none = false
is_live now (some r) = ltb now r.expires_at

abbrev pub taken : ℕ → Kind → String → List FlowRow → Result StoreError Bool × List FlowRow
taken now k v rows = (ok (is_live now (find? (is_row k v) rows)), removed k v rows)

abbrev pub take_row : ℕ → Kind → String → List FlowRow → Result StoreError Bool × List FlowRow
take_row now k v rows = if present k v rows then taken now k v rows else (ok false, rows)

-- `MemFlowStore.Mint` and `MemFlowStore.Spend`, each under the mutex.
unfoldable pub mem_mint : ℕ → Kind → String → ℕ → List FlowRow → Option StoreError × List FlowRow
mem_mint now k v ttl rows =
    (none, record { kind = k; value = v; expires_at = now + ttl } ∷ removed k v rows)

unfoldable pub mem_spend : ℕ → Kind → String → List FlowRow → Result StoreError Bool × List FlowRow
mem_spend now k v rows = take_row now k v rows

-- What becomes of a statement: it runs, it runs and its answer is lost, or it does not run.
pub data Fate : Type 0 where
  answered lost unsent : Fate

abbrev pub insert_flow : FlowRow → List FlowRow → Option StoreError × List FlowRow
insert_flow r rows =
    if present r.kind r.value rows then (some duplicate_key, rows) else (none, r ∷ rows)

abbrev pub mint_answer :
    Fate → List FlowRow → Option StoreError × List FlowRow → Option StoreError × List FlowRow
mint_answer answered rows (error, after) = (error, after)
mint_answer lost rows (error, after) = (some unreachable, after)
mint_answer unsent rows (error, after) = (some unreachable, rows)

abbrev pub spend_answer :
    Fate
    → List FlowRow
    → Result StoreError Bool × List FlowRow
    → Result StoreError Bool × List FlowRow
spend_answer answered rows (live, after) = (live, after)
spend_answer lost rows (live, after) = (err unreachable, after)
spend_answer unsent rows (live, after) = (err unreachable, rows)

-- `PGFlowStore.Mint` and `PGFlowStore.Spend`, each one statement.
unfoldable pub pg_mint :
    (ℕ → Fate) → ℕ → Kind → String → ℕ → List FlowRow → Option StoreError × List FlowRow
pg_mint fate now k v ttl rows =
    mint_answer (fate now) rows
      (insert_flow (record { kind = k; value = v; expires_at = now + ttl }) rows)

unfoldable pub pg_spend :
    (ℕ → Fate) → ℕ → Kind → String → List FlowRow → Result StoreError Bool × List FlowRow
pg_spend fate now k v rows = spend_answer (fate now) rows (take_row now k v rows)

abbrev pub mem_store : FlowStore (List FlowRow)
mem_store = record { mint = mem_mint; spend = mem_spend }

abbrev pub pg_store : (ℕ → Fate) → FlowStore (List FlowRow)
pg_store fate = record { mint = pg_mint fate; spend = pg_spend fate }

same_value_sym : (j k : Kind) (w v : String) → same_value j w k v ≡ same_value k v j w
same_value_sym state_value state_value w v = ground (arith, eq_iff w v, eq_iff v w)
same_value_sym nonce_value nonce_value w v = ground (arith, eq_iff w v, eq_iff v w)
same_value_sym state_value nonce_value w v = refl
same_value_sym nonce_value state_value w v = refl

removed_gone :
    (k : Kind) (v : String) (rows : List FlowRow) → present k v (removed k v rows) ≡ false
removed_gone k v [] = refl
removed_gone k v (r ∷ rows) = ground (arith, removed_gone k v rows)

removed_absent :
    (k j : Kind) (v w : String) (rows : List FlowRow)
    → present j w rows ≡ false
    → present j w (removed k v rows) ≡ false
removed_absent k j v w [] h = refl
removed_absent k j v w (r ∷ rows) h = ground (arith, removed_absent k j v w rows)

take_row-has :
    (now : ℕ) (k : Kind) (v : String) (rows : List FlowRow)
    → (take_row now k v rows).0 ≡ ok true
    → present k v rows ≡ true
take_row-has now k v rows h = elim (Bool-cases (present k v rows)) [
  | inl e ↦ e
  | inr e ↦
      let refused : Path (Result StoreError Bool) (ok false) (ok true) = rw e at h in absurd (cc)
]

take_row-gone :
    (now : ℕ) (k : Kind) (v : String) (rows : List FlowRow)
    → present k v (take_row now k v rows).1 ≡ false
take_row-gone now k v rows = elim (Bool-cases (present k v rows)) [
  | inl e ↦ rw e (removed_gone k v rows)
  | inr e ↦ rw (e) e
]

take_row-absent :
    (now : ℕ) (k j : Kind) (v w : String) (rows : List FlowRow)
    → present j w rows ≡ false
    → present j w (take_row now k v rows).1 ≡ false
take_row-absent now k j v w rows h = elim (Bool-cases (present k v rows)) [
  | inl e ↦ rw e (removed_absent k j v w rows h)
  | inr e ↦ rw e h
]

insert_flow-absent :
    (r : FlowRow) (j : Kind) (w : String) (rows : List FlowRow)
    → is_row j w r ≡ false
    → present j w rows ≡ false
    → present j w (insert_flow r rows).1 ≡ false
insert_flow-absent r j w rows d h = elim (Bool-cases (present r.kind r.value rows)) [
  | inl e ↦ rw e h
  | inr e ↦ rw e (ground arith)
]

pub mem_laws : Laws mem_store
unfolding mem_mint mem_spend
mem_laws = record {
  has = present;
  spend_has = take_row-has;
  spend_gone = λ now k v rows h. take_row-gone now k v rows;
  spend_absent = take_row-absent;
  mint_absent = λ now k j v w ttl rows d h. rw (d) (removed_absent k j v w rows h);
}

pub spend_answer-has :
    (fate : Fate) (now : ℕ) (k : Kind) (v : String) (rows : List FlowRow)
    → (spend_answer fate rows (take_row now k v rows)).0 ≡ ok true
    → (present k v rows ≡ true)
      × (present k v (spend_answer fate rows (take_row now k v rows)).1 ≡ false)
spend_answer-has answered now k v rows h = (take_row-has now k v rows h, take_row-gone now k v rows)
spend_answer-has lost now k v rows h = absurd (cc)
spend_answer-has unsent now k v rows h = absurd (cc)

pub spend_answer-absent :
    (fate : Fate) (now : ℕ) (k j : Kind) (v w : String) (rows : List FlowRow)
    → present j w rows ≡ false
    → present j w (spend_answer fate rows (take_row now k v rows)).1 ≡ false
spend_answer-absent answered now k j v w rows h = take_row-absent now k j v w rows h
spend_answer-absent lost now k j v w rows h = take_row-absent now k j v w rows h
spend_answer-absent unsent now k j v w rows h = h

pub mint_answer-absent :
    (fate : Fate) (r : FlowRow) (j : Kind) (w : String) (rows : List FlowRow)
    → is_row j w r ≡ false
    → present j w rows ≡ false
    → present j w (mint_answer fate rows (insert_flow r rows)).1 ≡ false
mint_answer-absent answered r j w rows d h = insert_flow-absent r j w rows d h
mint_answer-absent lost r j w rows d h = insert_flow-absent r j w rows d h
mint_answer-absent unsent r j w rows d h = h

unfoldable pub pg_laws : (fate : ℕ → Fate) → Laws (pg_store fate)
unfolding pg_mint pg_spend
pg_laws fate = record {
  has = present;
  spend_has = λ now k v rows h. (spend_answer-has (fate now) now k v rows h).0;
  spend_gone = λ now k v rows h. (spend_answer-has (fate now) now k v rows h).1;
  spend_absent = λ now k j v w rows h. spend_answer-absent (fate now) now k j v w rows h;
  mint_absent = λ now k j v w ttl rows d h.
      mint_answer-absent (fate now) (record { kind = k; value = v; expires_at = now + ttl }) j w
        rows d h;
}
