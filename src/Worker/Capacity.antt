-- ===== src/Worker/Capacity.antt =====
-- internal/worker/fanout.go: the capacity of the worker, in each dimension.
use gophercast.Prelude.{
  ℕ, ◌≡◌, ap, sym, ◌∙◌, Bool, true, false, ◌||◌, List, [], ◌∷◌, ◌++◌, ltb, arith, inl, inr,
  if◌then◌else◌, Bool-cases, All, All-append,
}
use gophercast.Prelude.Int.{ℤ, pos, ◌+ℤ◌, ◌-ℤ◌, ◌≤ℤ◌, leb_ℤ, int_laws}
use mathlib.Core.Path.{subst}
use gophercast.Engine.Store.{Spec}
use gophercast.Worker.Fanout.{
  fits, plus, release, may_admit, try_admit, or_default, defaulted, Fanout, Phase, Slot, Fan, busy,
  take_slot, offer, cool, released, freed, in_phase, IsNatural, Step, offered, cooled,
  slot_released, slot_freed, slot_deleted, Reach, start, next,
}
use gophercast.Worker.Slots.{total, Reach-Ledger}

-- A capacity that is not positive bounds nothing, or admits nothing.
abbrev pub is_within : ℤ → ℤ → Bool → Bool
is_within n capacity zero_unconstrained =
    if leb_ℤ capacity (pos 0) then zero_unconstrained || leb_ℤ n (pos 0) else leb_ℤ n capacity

abbrev Within : Spec → Spec → Type 0
Within cap used =
    (is_within used.cpu_millis cap.cpu_millis true ≡ true)
    × (is_within used.memory_mb cap.memory_mb true ≡ true)
    × (is_within used.gpu cap.gpu false ≡ true)

abbrev Sound : Fanout → Fan → Type 0
Sound f fan = Within f.capacity fan.used × All (λ s. IsNatural s.spec) fan.slots

within-plus :
    (u d cap : ℤ) (z : Bool)
    → is_within u cap z ≡ true
    → fits u d cap z ≡ true
    → is_within (u +ℤ d) cap z ≡ true
unfolding fits
within-plus u d cap true h k = grind int_laws
within-plus u d cap false h k = grind int_laws

within-minus :
    (u d cap : ℤ) (z : Bool)
    → is_within u cap z ≡ true
    → pos 0 ≤ℤ d
    → is_within (u -ℤ d) cap z ≡ true
within-minus u d cap true h k = grind int_laws
within-minus u d cap false h k = grind int_laws

or_default-natural : (z d : ℤ) → pos 0 ≤ℤ z → pos 0 ≤ℤ d → pos 0 ≤ℤ or_default z d
or_default-natural z d h k = ground arith

defaulted-IsNatural : (s d : Spec) → IsNatural s → IsNatural d → IsNatural (defaulted s d)
unfolding defaulted
defaulted-IsNatural s d (a, b, c) (x, y, z) = (
  or_default-natural s.cpu_millis d.cpu_millis a x,
  or_default-natural s.memory_mb d.memory_mb b y,
  or_default-natural s.gpu d.gpu c z,
)

plus-Within :
    (cap used s : Spec) → Within cap used → may_admit cap used s ≡ true → Within cap (plus used s)
unfolding may_admit
plus-Within cap used s (c, m, g) h = (
  within-plus used.cpu_millis s.cpu_millis cap.cpu_millis true c (ground arith),
  within-plus used.memory_mb s.memory_mb cap.memory_mb true m (ground arith),
  within-plus used.gpu s.gpu cap.gpu false g (ground arith),
)

release-Within : (cap used s : Spec) → Within cap used → IsNatural s → Within cap (release s used)
unfolding release
release-Within cap used s (c, m, g) (x, y, z) = (
  within-minus used.cpu_millis s.cpu_millis cap.cpu_millis true c x,
  within-minus used.memory_mb s.memory_mb cap.memory_mb true m y,
  within-minus used.gpu s.gpu cap.gpu false g z,
)

take_slot-Sound :
    (f : Fanout) (id : ℕ) (s : Spec) (fan : Fan)
    → Sound f fan
    → IsNatural s
    → Sound f (take_slot f id s fan)
unfolding take_slot
take_slot-Sound f id s fan (w, n) k = elim (Bool-cases (ltb fan.taken f.max_slots)) [
  | inl y ↦ rw (y) (w, (k, n))
  | inr d ↦ rw (d) (release-Within f.capacity fan.used s w k, n)
]

offer-Sound :
    (f : Fanout) (now id : ℕ) (s : Spec) (fan : Fan)
    → IsNatural f.default_spec
    → IsNatural s
    → Sound f fan
    → Sound f (offer f now id s fan)
unfolding offer try_admit
offer-Sound f now id s fan d k h =
    (let s' = defaulted s f.default_spec in
      elim (Bool-cases (busy now id fan)) [
        | inl y ↦ rw (y) h
        | inr n ↦ elim (Bool-cases (may_admit f.capacity fan.used s')) [
          | inl a ↦
              rw (n, a)
                (take_slot-Sound f id s' (record fan { used = plus fan.used s' })
                  (plus-Within f.capacity fan.used s' h.0 a, h.1)
                  (defaulted-IsNatural s f.default_spec k d))
          | inr r ↦ rw (n, r) h
        ]
      ])

All-split :
    (s : Slot) (before after : List Slot)
    → All (λ x. IsNatural x.spec) (before ++ s ∷ after)
    → IsNatural s.spec × All (λ x. IsNatural x.spec) before × All (λ x. IsNatural x.spec) after
All-split s [] after h = (h.0, tt, h.1)
All-split s (b ∷ before) after h =
    (let (x, y, z) = All-split s before after h.1 in (x, (h.0, y), z))

All-join :
    (s : Slot) (p : Phase) (before after : List Slot)
    → All (λ x. IsNatural x.spec) (before ++ s ∷ after)
    → All (λ x. IsNatural x.spec) (before ++ in_phase p s ∷ after)
All-join s p [] after h = h
All-join s p (b ∷ before) after h = (h.0, All-join s p before after h.1)

Step-Sound :
    (f : Fanout) (a b : Fan) → IsNatural f.default_spec → Step f a b → Sound f a → Sound f b
unfolding cool
Step-Sound f a b d (offered now id s fan n) h = offer-Sound f now id s fan d n h
Step-Sound f a b d (cooled now id fan) h = h
Step-Sound f a b d (slot_released s before after fan e r) (w, n) =
    (let n' = subst (All (λ x. IsNatural x.spec)) e n in
      (
        release-Within f.capacity fan.used s.spec w (All-split s before after n').0,
        All-join s released before after n',
      ))
Step-Sound f a b d (slot_freed s before after fan taken e r k) (w, n) =
    (w, All-join s freed before after (subst (All (λ x. IsNatural x.spec)) e n))
Step-Sound f a b d (slot_deleted s before after fan e r) (w, n) =
    (let (x, y, z) = All-split s before after (subst (All (λ x. IsNatural x.spec)) e n) in
      (w, All-append (λ x. IsNatural x.spec) before after y z))

Reach-Sound : (f : Fanout) (fan : Fan) → IsNatural f.default_spec → Reach f fan → Sound f fan
Reach-Sound f fan d start = ((ground arith, ground arith, ground arith), tt)
Reach-Sound f fan d (next a b r s) = Step-Sound f a b d s (Reach-Sound f a d r)

-- Where no spec and no default is negative, the slots that run together fit the capacity in each
-- dimension: a capacity of 0 leaves CPU and memory unbounded, and lets no slot with a GPU run.
pub Reach-Capacity :
    (f : Fanout) (fan : Fan)
    → IsNatural f.default_spec
    → Reach f fan
    → (is_within (total (λ s. s.cpu_millis) fan.slots) f.capacity.cpu_millis true ≡ true)
      × (is_within (total (λ s. s.memory_mb) fan.slots) f.capacity.memory_mb true ≡ true)
      × (is_within (total (λ s. s.gpu) fan.slots) f.capacity.gpu false ≡ true)
Reach-Capacity f fan d r =
    (let ((x, y, z), n) = Reach-Sound f fan d r in
      let (c, m, g, t, l) = Reach-Ledger f fan r in
      (
        ap (λ u. is_within u f.capacity.cpu_millis true) (sym c) ∙ x,
        ap (λ u. is_within u f.capacity.memory_mb true) (sym m) ∙ y,
        ap (λ u. is_within u f.capacity.gpu false) (sym g) ∙ z,
      ))
