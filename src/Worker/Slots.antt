-- ===== src/Worker/Slots.antt =====
-- internal/worker/fanout.go: the admitter's ledger and the slots, against the goroutines that run.
use gophercast.Prelude.{
  ℕ, ◌+◌, ◌≡◌, ◌≤◌, refl, ap, sym, ◌∙◌, List, [], ◌∷◌, ◌++◌, ltb, arith, inl, inr, Bool-cases,
}
use gophercast.Prelude.Int.{ℤ, pos, ◌+ℤ◌, ◌-ℤ◌, int_laws}
use gophercast.Engine.Store.{Spec}
use gophercast.Worker.Fanout.{
  plus, release, may_admit, try_admit, defaulted, Fanout, Phase, Slot, Fan, busy, take_slot, offer,
  cool, running, released, freed, in_phase, Step, offered, cooled, slot_released, slot_freed,
  slot_deleted, Reach, start, next,
}

abbrev if_running : Phase → ℤ → ℤ
if_running running n = n
if_running released n = pos 0
if_running freed n = pos 0

-- The sum of a dimension over the slots that run.
abbrev pub total : (Spec → ℤ) → List Slot → ℤ
total dim [] = pos 0
total dim (s ∷ ss) = if_running s.phase (dim s.spec) +ℤ total dim ss

abbrev token_of : Phase → ℕ
token_of running = 1
token_of released = 1
token_of freed = 0

-- The slots whose token is not yet back in the channel.
abbrev pub tokens : List Slot → ℕ
tokens [] = 0
tokens (s ∷ ss) = token_of s.phase + tokens ss

+ℤ_assoc : (a b c : ℤ) → (a +ℤ b) +ℤ c ≡ a +ℤ (b +ℤ c)
+ℤ_assoc a b c = grind int_laws

+ℤ_comm : (a b : ℤ) → a +ℤ b ≡ b +ℤ a
+ℤ_comm a b = grind int_laws

total-append :
    (dim : Spec → ℤ) (xs ys : List Slot) → total dim (xs ++ ys) ≡ total dim xs +ℤ total dim ys
total-append dim [] ys = grind int_laws
total-append dim (s ∷ xs) ys =
    ap (◌+ℤ◌ (if_running s.phase (dim s.spec))) (total-append dim xs ys)
    ∙ sym (+ℤ_assoc (if_running s.phase (dim s.spec)) (total dim xs) (total dim ys))

tokens-append : (xs ys : List Slot) → tokens (xs ++ ys) ≡ tokens xs + tokens ys
tokens-append [] ys = omega arith
tokens-append (s ∷ xs) ys = omega (arith, tokens-append xs ys)

back_and_forth : (u a b d : ℤ) → u ≡ a +ℤ (d +ℤ b) → u -ℤ d ≡ a +ℤ (pos 0 +ℤ b)
back_and_forth u a b d h = grind int_laws

-- A running slot that is released takes its share out of the sum.
total-released :
    (dim : Spec → ℤ) (s : Slot) (before after : List Slot) (u : ℤ)
    → s.phase ≡ running
    → u ≡ total dim (before ++ s ∷ after)
    → u -ℤ dim s.spec ≡ total dim (before ++ in_phase released s ∷ after)
total-released dim s before after u r h =
    back_and_forth u (total dim before) (total dim after) (dim s.spec)
      (h ∙ total-append dim before (s ∷ after) ∙ rw (r) refl)
    ∙ sym (total-append dim before (in_phase released s ∷ after))

total-freed :
    (dim : Spec → ℤ) (s : Slot) (before after : List Slot)
    → s.phase ≡ released
    → total dim (before ++ s ∷ after) ≡ total dim (before ++ in_phase freed s ∷ after)
total-freed dim s before after r =
    total-append dim before (s ∷ after)
    ∙ rw (r) refl
    ∙ sym (total-append dim before (in_phase freed s ∷ after))

total-deleted :
    (dim : Spec → ℤ) (s : Slot) (before after : List Slot)
    → s.phase ≡ freed
    → total dim (before ++ s ∷ after) ≡ total dim (before ++ after)
total-deleted dim s before after r =
    total-append dim before (s ∷ after) ∙ rw (r) (grind (int_laws, total-append dim before after))

tokens-split :
    (s : Slot) (before after : List Slot)
    → tokens (before ++ s ∷ after) ≡ token_of s.phase + tokens (before ++ after)
tokens-split s before after =
    omega (arith, tokens-append before (s ∷ after), tokens-append before after)

-- The ledger is the sum over the running slots, and the channel holds a token for each slot that has
-- not given it back, within its capacity.
abbrev pub Ledger : Fanout → Fan → Type 0
Ledger f fan =
    (fan.used.cpu_millis ≡ total (λ s. s.cpu_millis) fan.slots)
    × (fan.used.memory_mb ≡ total (λ s. s.memory_mb) fan.slots)
    × (fan.used.gpu ≡ total (λ s. s.gpu) fan.slots)
    × (fan.taken ≡ tokens fan.slots)
    × (fan.taken ≤ f.max_slots)

added : (u d t : ℤ) → u ≡ t → u +ℤ d ≡ d +ℤ t
added u d t h = grind int_laws

undone : (u d t : ℤ) → u ≡ t → (u +ℤ d) -ℤ d ≡ t
undone u d t h = grind int_laws

take_slot-Ledger :
    (f : Fanout) (id : ℕ) (s : Spec) (fan : Fan)
    → Ledger f fan
    → Ledger f (take_slot f id s (record fan { used = plus fan.used s }))
unfolding take_slot release
take_slot-Ledger f id s fan (c, m, g, t, l) = elim (Bool-cases (ltb fan.taken f.max_slots)) [
  | inl y ↦ rw (y) (
    added fan.used.cpu_millis s.cpu_millis (total (λ x. x.cpu_millis) fan.slots) c,
    added fan.used.memory_mb s.memory_mb (total (λ x. x.memory_mb) fan.slots) m,
    added fan.used.gpu s.gpu (total (λ x. x.gpu) fan.slots) g,
    omega arith,
    ground arith,
  )
  | inr n ↦ rw (n) (
    undone fan.used.cpu_millis s.cpu_millis (total (λ x. x.cpu_millis) fan.slots) c,
    undone fan.used.memory_mb s.memory_mb (total (λ x. x.memory_mb) fan.slots) m,
    undone fan.used.gpu s.gpu (total (λ x. x.gpu) fan.slots) g,
    t,
    l,
  )
]

offer-Ledger :
    (f : Fanout) (now id : ℕ) (s : Spec) (fan : Fan)
    → Ledger f fan
    → Ledger f (offer f now id s fan)
unfolding offer try_admit
offer-Ledger f now id s fan h =
    (let s' = defaulted s f.default_spec in
      elim (Bool-cases (busy now id fan)) [
        | inl y ↦ rw (y) h
        | inr n ↦ elim (Bool-cases (may_admit f.capacity fan.used s')) [
          | inl a ↦ rw (n, a) (take_slot-Ledger f id s' fan h)
          | inr d ↦ rw (n, d) h
        ]
      ])

Step-Ledger : (f : Fanout) (a b : Fan) → Step f a b → Ledger f a → Ledger f b
unfolding release cool
Step-Ledger f a b (offered now id s fan n) h = offer-Ledger f now id s fan h
Step-Ledger f a b (cooled now id fan) h = h
Step-Ledger f a b (slot_released s before after fan e r) (c, m, g, t, l) = (
  total-released (λ x. x.cpu_millis) s before after fan.used.cpu_millis r
      (c ∙ ap (total (λ x. x.cpu_millis)) e),
  total-released (λ x. x.memory_mb) s before after fan.used.memory_mb r
      (m ∙ ap (total (λ x. x.memory_mb)) e),
  total-released (λ x. x.gpu) s before after fan.used.gpu r (g ∙ ap (total (λ x. x.gpu)) e),
  t
      ∙ ap tokens e
      ∙ tokens-split s before after
      ∙ ap (λ p. token_of p + tokens (before ++ after)) r
      ∙ sym (tokens-split (in_phase released s) before after),
  l,
)
Step-Ledger f a b (slot_freed s before after fan taken e r k) (c, m, g, t, l) = (
  c ∙ ap (total (λ x. x.cpu_millis)) e ∙ total-freed (λ x. x.cpu_millis) s before after r,
  m ∙ ap (total (λ x. x.memory_mb)) e ∙ total-freed (λ x. x.memory_mb) s before after r,
  g ∙ ap (total (λ x. x.gpu)) e ∙ total-freed (λ x. x.gpu) s before after r,
  omega (
    arith,
    ap tokens e,
    tokens-split s before after,
    ap token_of r,
    tokens-split (in_phase freed s) before after,
  ),
  omega arith,
)
Step-Ledger f a b (slot_deleted s before after fan e r) (c, m, g, t, l) = (
  c ∙ ap (total (λ x. x.cpu_millis)) e ∙ total-deleted (λ x. x.cpu_millis) s before after r,
  m ∙ ap (total (λ x. x.memory_mb)) e ∙ total-deleted (λ x. x.memory_mb) s before after r,
  g ∙ ap (total (λ x. x.gpu)) e ∙ total-deleted (λ x. x.gpu) s before after r,
  omega (arith, ap tokens e, tokens-split s before after, ap token_of r),
  l,
)

-- However offers and ending slots interleave, the admitter's ledger is in each dimension the sum over
-- the slots that run, and the channel holds the tokens of the slots that have not given theirs back,
-- within the bound on slots.
pub Reach-Ledger : (f : Fanout) (fan : Fan) → Reach f fan → Ledger f fan
Reach-Ledger f fan start = (refl, refl, refl, refl, omega arith)
Reach-Ledger f fan (next a b r s) = Step-Ledger f a b s (Reach-Ledger f a r)
