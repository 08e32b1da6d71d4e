-- ===== src/Lti/Lasting.antt =====
-- internal/lti/store.go: a value that was minted can be spent until it expires.
use gophercast.Prelude.{
  ℕ, ◌+◌, ◌<◌, ◌≡◌, refl, ◌∙◌, String, Bool, true, false, not, ◌||◌, some, List, [], ◌∷◌, arith, ok,
  str_eq_refl, any, find?, inl, inr, Bool-cases,
}
use gophercast.Lti.Store.{
  Kind, state_value, nonce_value, FlowStore, same_value, Op, mint_at, spend_at, mints, spends,
  apply, run_ops,
}
use gophercast.Lti.Rows.{
  FlowRow, is_row, present, removed, take_row, mem_mint, mem_spend, mem_store, Fate, answered, lost,
  unsent, insert_flow, mint_answer, spend_answer, pg_mint, pg_spend, pg_store,
}
use gophercast.Lti.Single.{same_value_eq}

find-removed :
    (k j : Kind) (v w : String) (rows : List FlowRow)
    → same_value j w k v ≡ false
    → find? (is_row k v) (removed j w rows) ≡ find? (is_row k v) rows
find-removed k j v w [] d = refl
find-removed k j v w (r ∷ rows) d = elim (Bool-cases (is_row j w r)) [
  | inl e ↦
      let (ke, ve) = same_value_eq r.kind j r.value w e in
      rw (e) (rw (ke, ve, d) (find-removed k j v w rows d))
  | inr e ↦ rw (e) (elim (Bool-cases (is_row k v r)) [
    | inl f ↦ rw f
    | inr f ↦ rw f (find-removed k j v w rows d)
  ])
]

-- What a statement about another value leaves of the row.
find-take_row :
    (now : ℕ) (k j : Kind) (v w : String) (rows : List FlowRow)
    → same_value j w k v ≡ false
    → find? (is_row k v) (take_row now j w rows).1 ≡ find? (is_row k v) rows
find-take_row now k j v w rows d = elim (Bool-cases (present j w rows)) [
  | inl e ↦ rw e (find-removed k j v w rows d)
  | inr e ↦ rw e
]

find-insert_flow :
    (k : Kind) (v : String) (r : FlowRow) (rows : List FlowRow)
    → is_row k v r ≡ false
    → find? (is_row k v) (insert_flow r rows).1 ≡ find? (is_row k v) rows
find-insert_flow k v r rows d = elim (Bool-cases (present r.kind r.value rows)) [
  | inl e ↦ rw e
  | inr e ↦ rw e (rw d)
]

same_value_refl : (k : Kind) (v : String) → same_value k v k v ≡ true
same_value_refl state_value v = str_eq_refl v
same_value_refl nonce_value v = str_eq_refl v

present-find :
    (k : Kind) (v : String) (r : FlowRow) (rows : List FlowRow)
    → find? (is_row k v) rows ≡ some r
    → present k v rows ≡ true
present-find k v r [] h = absurd (cc)
present-find k v r (x ∷ rows) h = ground (arith, present-find k v r rows)

-- Nobody else touches the value.
abbrev pub touches : Kind → String → Op → Bool
touches k v op = mints k v op || spends k v op

abbrev pub is_untouched : Kind → String → List Op → Bool
is_untouched k v ops = not (any (touches k v) ops)

abbrev FindsSame : FlowStore (List FlowRow) → Type 0
FindsSame st =
    (k : Kind) (v : String) (op : Op) (rows : List FlowRow)
    → touches k v op ≡ false
    → find? (is_row k v) (apply st op rows) ≡ find? (is_row k v) rows

find-run_ops :
    (st : FlowStore (List FlowRow))
    → FindsSame st
    → (k : Kind) (v : String) (ops : List Op) (rows : List FlowRow) → is_untouched k v ops ≡ true
    → find? (is_row k v) (run_ops st ops rows) ≡ find? (is_row k v) rows
unfolding run_ops
find-run_ops st same k v [] rows h = refl
find-run_ops st same k v (op ∷ ops) rows h =
    find-run_ops st same k v ops (apply st op rows) (ground arith) ∙ same k v op rows (ground arith)

mem_finds : FindsSame mem_store
unfolding mem_mint mem_spend
mem_finds k v (mint_at now j w ttl) rows d =
    let e : same_value j w k v ≡ false = ground arith in rw e (find-removed k j v w rows e)
mem_finds k v (spend_at now j w) rows d = find-take_row now k j v w rows d

mint_answer-find :
    (f : Fate) (k : Kind) (v : String) (r : FlowRow) (rows : List FlowRow)
    → is_row k v r ≡ false
    → find? (is_row k v) (mint_answer f rows (insert_flow r rows)).1 ≡ find? (is_row k v) rows
mint_answer-find answered k v r rows d = find-insert_flow k v r rows d
mint_answer-find lost k v r rows d = find-insert_flow k v r rows d
mint_answer-find unsent k v r rows d = refl

spend_answer-find :
    (f : Fate) (now : ℕ) (k j : Kind) (v w : String) (rows : List FlowRow)
    → same_value j w k v ≡ false
    → find? (is_row k v) (spend_answer f rows (take_row now j w rows)).1 ≡ find? (is_row k v) rows
spend_answer-find answered now k j v w rows d = find-take_row now k j v w rows d
spend_answer-find lost now k j v w rows d = find-take_row now k j v w rows d
spend_answer-find unsent now k j v w rows d = refl

pg_finds : (fate : ℕ → Fate) → FindsSame (pg_store fate)
unfolding pg_mint pg_spend
pg_finds fate k v (mint_at now j w ttl) rows d =
    mint_answer-find (fate now) k v (record { kind = j; value = w; expires_at = now + ttl }) rows
      (ground arith)
pg_finds fate k v (spend_at now j w) rows d = spend_answer-find (fate now) now k j v w rows d

take_row_live :
    (now : ℕ) (k : Kind) (v : String) (r : FlowRow) (rows : List FlowRow)
    → find? (is_row k v) rows ≡ some r
    → now < r.expires_at
    → (take_row now k v rows).0 ≡ ok true
take_row_live now k v r rows h t = rw (present-find k v r rows h, h) (ground arith)

-- A value that was minted in memory is spent with success at any time before its lifetime is over, if
-- nobody mints or spends it in between.
pub mem_mint-mem_spend :
    (now later ttl : ℕ) (k : Kind) (v : String) (ops : List Op) (rows : List FlowRow)
    → is_untouched k v ops ≡ true
    → later < now + ttl
    → (mem_store.spend later k v (run_ops mem_store ops (mem_store.mint now k v ttl rows).1)).0
      ≡ ok true
unfolding mem_mint mem_spend
mem_mint-mem_spend now later ttl k v ops rows quiet t =
    take_row_live later k v (record { kind = k; value = v; expires_at = now + ttl })
      (run_ops mem_store ops (mem_mint now k v ttl rows).1)
      (find-run_ops mem_store mem_finds k v ops (mem_mint now k v ttl rows).1 quiet
        ∙ rw (same_value_refl k v))
      t

-- A value that is not in the table and is minted there is spent with success at any time before its
-- lifetime is over, if the database answers both statements and nobody mints or spends it in between,
-- whatever becomes of other statements.
pub pg_mint-pg_spend :
    (fate : ℕ → Fate) (now later ttl : ℕ) (k : Kind) (v : String) (ops : List Op)
    (rows : List FlowRow)
    → present k v rows ≡ false
    → fate now ≡ answered
    → fate later ≡ answered
    → is_untouched k v ops ≡ true
    → later < now + ttl
    → ((pg_store fate).spend later k v
        (run_ops (pg_store fate) ops ((pg_store fate).mint now k v ttl rows).1)).0
      ≡ ok true
unfolding pg_mint pg_spend
pg_mint-pg_spend fate now later ttl k v ops rows fresh a b quiet t = rw (b) (
    take_row_live later k v (record { kind = k; value = v; expires_at = now + ttl })
      (run_ops (pg_store fate) ops (pg_mint fate now k v ttl rows).1)
      (find-run_ops (pg_store fate) (pg_finds fate) k v ops (pg_mint fate now k v ttl rows).1 quiet
        ∙ rw (a, fresh) (rw (same_value_refl k v)))
      t)
