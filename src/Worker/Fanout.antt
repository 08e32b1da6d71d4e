-- ===== src/Worker/Fanout.antt =====
-- internal/worker/fanout.go: admission by spec arithmetic, and the slots of `RunFanout`. A step is what
-- the loop does with one candidate, or one of the deferred statements of a slot's goroutine.
use gophercast.Prelude.{
  ℕ, zero, suc, ◌+◌, ◌≡◌, Bool, true, false, not, ◌||◌, Option, none, some, List, [], ◌∷◌, ◌++◌,
  ◌==◌, ltb, if◌then◌else◌, any, keep, find?,
}
use gophercast.Prelude.Int.{ℤ, pos, ◌+ℤ◌, ◌-ℤ◌, ◌≤ℤ◌, leb_ℤ, eqb_ℤ}
use gophercast.Engine.Store.{Spec}

unfoldable pub fits : ℤ → ℤ → ℤ → Bool → Bool
fits used candidate capacity zero_unconstrained =
    if leb_ℤ capacity (pos 0)
    then zero_unconstrained || leb_ℤ candidate (pos 0)
    else leb_ℤ (used +ℤ candidate) capacity

-- What is used with one more spec; `runtime_s` is never admission arithmetic.
abbrev pub plus : Spec → Spec → Spec
plus used s = record used {
  cpu_millis = used.cpu_millis +ℤ s.cpu_millis;
  memory_mb = used.memory_mb +ℤ s.memory_mb;
  gpu = used.gpu +ℤ s.gpu;
}

unfoldable pub release : Spec → Spec → Spec
release s used = record used {
  cpu_millis = used.cpu_millis -ℤ s.cpu_millis;
  memory_mb = used.memory_mb -ℤ s.memory_mb;
  gpu = used.gpu -ℤ s.gpu;
}

unfoldable pub may_admit : Spec → Spec → Spec → Bool
unfolding fits
may_admit cap used s = not (
    not (fits used.cpu_millis s.cpu_millis cap.cpu_millis true)
    || (not (fits used.memory_mb s.memory_mb cap.memory_mb true)
        || not (fits used.gpu s.gpu cap.gpu false)))

-- `tryAdmit`, with what is used behind it.
unfoldable pub try_admit : Spec → Spec → Spec → Bool × Spec
unfolding may_admit
try_admit cap s used = if may_admit cap used s then (true, plus used s) else (false, used)

abbrev pub or_default : ℤ → ℤ → ℤ
or_default z d = if eqb_ℤ z (pos 0) then d else z

unfoldable pub defaulted : Spec → Spec → Spec
defaulted s def = record s {
  cpu_millis = or_default s.cpu_millis def.cpu_millis;
  memory_mb = or_default s.memory_mb def.memory_mb;
  gpu = or_default s.gpu def.gpu;
}

pub record Fanout : Type 0 where
  pub capacity : Spec
  pub default_spec : Spec
  pub max_slots : ℕ
  pub poll : ℕ

-- `if f.MaxSlots <= 0`, and the same of `Poll` with a second of so many ticks.
abbrev pub positive_or : ℕ → ℕ → ℕ
positive_or zero d = d
positive_or (suc n) d = suc n

unfoldable pub with_defaults : ℕ → Fanout → Fanout
with_defaults second f = record f {
  max_slots = positive_or f.max_slots 1;
  poll = positive_or f.poll second;
}

-- How far the deferred function of a slot's goroutine is.
pub data Phase : Type 0 where
  running released freed : Phase

pub record Slot : Type 0 where
  pub id : ℕ
  pub spec : Spec
  pub phase : Phase

-- The admitter's ledger, the slots channel, the two maps, and the goroutines that have not ended.
pub record Fan : Type 0 where
  pub used : Spec
  pub taken : ℕ
  pub inflight : List ℕ
  pub cooldown : List (ℕ × ℕ)
  pub slots : List Slot

abbrev pub idle : Fan
idle = record {
  used = record { cpu_millis = pos 0; memory_mb = pos 0; gpu = pos 0; runtime_s = pos 0 };
  taken = 0;
  inflight = [];
  cooldown = [];
  slots = [];
}

abbrev pub is_before : ℕ → Option (ℕ × ℕ) → Bool
is_before now none = false
is_before now (some (id, at)) = ltb now at

unfoldable pub busy : ℕ → ℕ → Fan → Bool
busy now id fan =
    any (λ i. i == id) fan.inflight || is_before now (find? (λ c. c.0 == id) fan.cooldown)

-- `slots <- struct{}{}`, or its default case.
unfoldable pub take_slot : Fanout → ℕ → Spec → Fan → Fan
unfolding release
take_slot f id spec fan =
    if ltb fan.taken f.max_slots
    then record fan {
      taken = fan.taken + 1;
      inflight = id ∷ fan.inflight;
      slots = record { id = id; spec = spec; phase = running } ∷ fan.slots;
    }
    else record fan { used = release spec fan.used }

abbrev pub if_admitted : Fanout → ℕ → Spec → Bool × Spec → Fan → Fan
if_admitted f id spec (false, used) fan = fan
if_admitted f id spec (true, used) fan = take_slot f id spec (record fan { used = used })

-- What the loop does with one candidate.
unfoldable pub offer : Fanout → ℕ → ℕ → Spec → Fan → Fan
unfolding busy try_admit take_slot defaulted
offer f now id s fan =
    if busy now id fan
    then fan
    else if_admitted f id (defaulted s f.default_spec)
        (try_admit f.capacity (defaulted s f.default_spec) fan.used) fan

pub record Candidate : Type 0 where
  pub id : ℕ
  pub spec : Spec

-- One round over the candidates that the query found, with the time at which each is looked at.
unfoldable pub offer_all : Fanout → List (ℕ × Candidate) → Fan → Fan
offer_all f [] fan = fan
offer_all f ((now, c) ∷ cs) fan = offer_all f cs (offer f now c.id c.spec fan)

-- A task run that failed cools down for a poll.
unfoldable pub cool : ℕ → ℕ → Fan → Fan
cool id until fan = record fan { cooldown = (id, until) ∷ fan.cooldown }

-- No dimension is below 0.
abbrev pub IsNatural : Spec → Type 0
IsNatural s = (pos 0 ≤ℤ s.cpu_millis) × (pos 0 ≤ℤ s.memory_mb) × (pos 0 ≤ℤ s.gpu)

abbrev pub in_phase : Phase → Slot → Slot
in_phase p s = record s { phase = p }

pub data Step (f : Fanout) : Fan → Fan → Type 0 where
  offered : (now id : ℕ) (s : Spec) (fan : Fan) → IsNatural s → Step f fan (offer f now id s fan)
  cooled : (now id : ℕ) (fan : Fan) → Step f fan (cool id (now + f.poll) fan)
  slot_released :
      (s : Slot) (before after : List Slot) (fan : Fan)
      → fan.slots ≡ before ++ s ∷ after
      → s.phase ≡ running
      → Step f fan (record fan {
        used = release s.spec fan.used;
        slots = before ++ in_phase released s ∷ after;
      })
  slot_freed :
      (s : Slot) (before after : List Slot) (fan : Fan) (taken : ℕ)
      → fan.slots ≡ before ++ s ∷ after
      → s.phase ≡ released
      → fan.taken ≡ suc taken
      → Step f fan (record fan { taken = taken; slots = before ++ in_phase freed s ∷ after })
  slot_deleted :
      (s : Slot) (before after : List Slot) (fan : Fan)
      → fan.slots ≡ before ++ s ∷ after
      → s.phase ≡ freed
      → Step f fan (record fan {
        inflight = keep (λ i. not (i == s.id)) fan.inflight;
        slots = before ++ after;
      })

pub data Reach (f : Fanout) : Fan → Type 0 where
  start : Reach f idle
  next : (a b : Fan) → Reach f a → Step f a b → Reach f b
