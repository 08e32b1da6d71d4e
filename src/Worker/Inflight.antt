-- ===== src/Worker/Inflight.antt =====
-- internal/worker/fanout.go: the tasks that local slots are already on, and the rounds of the loop.
use gophercast.Prelude.{
  are_distinct, ℕ, ◌≡◌, refl, ap, sym, ◌∙◌, true, false, not, ◌||◌, List, [], ◌∷◌, ◌++◌, ◌==◌, ltb,
  arith, inl, inr, any, keep, Bool-cases, All,
}
use gophercast.Engine.Store.{Spec}
use gophercast.Worker.Fanout.{
  plus, may_admit, try_admit, defaulted, Fanout, Phase, Slot, Fan, Candidate, busy, take_slot,
  offer, offer_all, cool, released, freed, in_phase, IsNatural, Step, offered, cooled,
  slot_released, slot_freed, slot_deleted, Reach, start, next,
}

abbrev pub ids : List Slot → List ℕ
ids [] = []
ids (s ∷ ss) = s.id ∷ ids ss

-- The map of tasks in flight has those of the slots, one slot each.
abbrev pub Inflight : Fan → Type 0
Inflight fan = (fan.inflight ≡ ids fan.slots) × (are_distinct (ids fan.slots) ≡ true)

take_slot-Inflight :
    (f : Fanout) (now id : ℕ) (s used : Spec) (fan : Fan)
    → busy now id fan ≡ false
    → Inflight fan
    → Inflight (take_slot f id s (record fan { used = used }))
unfolding take_slot busy
take_slot-Inflight f now id s used fan b (e, d) = elim (Bool-cases (ltb fan.taken f.max_slots)) [
  | inl y ↦ rw (y) (ap (◌∷◌ id) e, ground (arith, ap (any (λ i. i == id)) e))
  | inr n ↦ rw (n) (e, d)
]

offer-Inflight :
    (f : Fanout) (now id : ℕ) (s : Spec) (fan : Fan)
    → Inflight fan
    → Inflight (offer f now id s fan)
unfolding offer try_admit
offer-Inflight f now id s fan h =
    (let s' = defaulted s f.default_spec in
      elim (Bool-cases (busy now id fan)) [
        | inl y ↦ rw (y) h
        | inr n ↦ elim (Bool-cases (may_admit f.capacity fan.used s')) [
          | inl a ↦ rw (n, a) (take_slot-Inflight f now id s' (plus fan.used s') fan n h)
          | inr r ↦ rw (n, r) h
        ]
      ])

ids-in_phase :
    (s : Slot) (p : Phase) (before after : List Slot)
    → ids (before ++ in_phase p s ∷ after) ≡ ids (before ++ s ∷ after)
ids-in_phase s p [] after = refl
ids-in_phase s p (b ∷ before) after = ap (◌∷◌ b.id) (ids-in_phase s p before after)

any-ids :
    (n : ℕ) (s : Slot) (before after : List Slot)
    → any (λ i. i == n) (ids (before ++ s ∷ after))
      ≡ (s.id == n || any (λ i. i == n) (ids (before ++ after)))
any-ids n s [] after = refl
any-ids n s (b ∷ before) after = ground (arith, any-ids n s before after)

keep_all : (n : ℕ) (ns : List ℕ) → any (λ i. i == n) ns ≡ false → keep (λ i. not (i == n)) ns ≡ ns
keep_all n [] h = refl
keep_all n (m ∷ ns) h = ground (arith, keep_all n ns)

-- Deleting the key of one of distinct slots leaves the keys of the others.
keep-ids :
    (s : Slot) (before after : List Slot)
    → are_distinct (ids (before ++ s ∷ after)) ≡ true
    → (keep (λ i. not (i == s.id)) (ids (before ++ s ∷ after)) ≡ ids (before ++ after))
      × (are_distinct (ids (before ++ after)) ≡ true)
keep-ids s [] after h = ground (arith, keep_all s.id (ids after))
keep-ids s (b ∷ before) after h =
    ground (arith, keep-ids s before after, any-ids b.id s before after)

Step-Inflight : (f : Fanout) (a b : Fan) → Step f a b → Inflight a → Inflight b
unfolding cool
Step-Inflight f a b (offered now id s fan n) h = offer-Inflight f now id s fan h
Step-Inflight f a b (cooled now id fan) h = h
Step-Inflight f a b (slot_released s before after fan e r) (i, d) =
    (let same = ap ids e ∙ sym (ids-in_phase s released before after) in
      (i ∙ same, ap are_distinct (sym same) ∙ d))
Step-Inflight f a b (slot_freed s before after fan taken e r k) (i, d) =
    (let same = ap ids e ∙ sym (ids-in_phase s freed before after) in
      (i ∙ same, ap are_distinct (sym same) ∙ d))
Step-Inflight f a b (slot_deleted s before after fan e r) (i, d) =
    (let same = i ∙ ap ids e in
      let (k, u) = keep-ids s before after (ap are_distinct (sym (ap ids e)) ∙ d) in
      (ap (keep (λ x. not (x == s.id))) same ∙ k, u))

-- However offers and ending slots interleave, the tasks in flight are those of the slots, and no task
-- is in two slots.
pub Reach-Inflight : (f : Fanout) (fan : Fan) → Reach f fan → Inflight fan
Reach-Inflight f fan start = (refl, refl)
Reach-Inflight f fan (next a b r s) = Step-Inflight f a b s (Reach-Inflight f a r)

-- A round of the loop over candidates whose specs are not negative is a run of the step relation.
pub offer_all-Reach :
    (f : Fanout) (cs : List (ℕ × Candidate)) (fan : Fan)
    → All (λ c. IsNatural c.1.spec) cs
    → Reach f fan
    → Reach f (offer_all f cs fan)
unfolding offer_all
offer_all-Reach f [] fan h r = r
offer_all-Reach f ((now, c) ∷ cs) fan h r =
    offer_all-Reach f cs (offer f now c.id c.spec fan) h.1
      (next fan (offer f now c.id c.spec fan) r (offered now c.id c.spec fan h.0))
