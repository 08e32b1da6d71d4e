-- ===== src/Worker/Tests.antt =====
-- A small worker, and the theorems about internal/worker at it.
use gophercast.Prelude.{ℕ, ◌≡◌, refl, true, false, List, [], ◌∷◌, arith}
use gophercast.Prelude.Int.{pos, ◌+ℤ◌}
use gophercast.Engine.Store.{Spec}
use gophercast.Worker.Fanout.{
  Fanout, Candidate, idle, offer, offer_all, IsNatural, Reach, start, busy, may_admit,
}
use gophercast.Worker.Slots.{total}
use gophercast.Worker.Capacity.{is_within, Reach-Capacity}
use gophercast.Worker.Inflight.{offer_all-Reach}

abbrev spec : ℕ → ℕ → ℕ → Spec
spec c m g = record { cpu_millis = pos c; memory_mb = pos m; gpu = pos g; runtime_s = pos 0 }

abbrev worker : Fanout
worker = record { capacity = spec 3000 0 0; default_spec = spec 1000 0 0; max_slots = 2; poll = 5 }

abbrev candidates : List (ℕ × Candidate)
candidates =
    (0, record { id = 1; spec = spec 2000 0 0 })
    ∷ (0, record { id = 2; spec = spec 2000 0 0 })
    ∷ (0, record { id = 3; spec = spec 0 0 0 })
    ∷ (0, record { id = 4; spec = spec 0 0 1 })
    ∷ []

abbrev natural : (c m g : ℕ) → IsNatural (spec c m g)
natural c m g = (omega arith, omega arith, omega arith)

-- The second does not fit, the third runs at the default, and there is no GPU for the fourth.
admitted : (offer_all worker candidates idle).inflight ≡ 3 ∷ 1 ∷ []
unfolding offer_all offer busy may_admit ◌+ℤ◌
admitted = refl

reached : Reach worker (offer_all worker candidates idle)
unfolding offer_all
reached =
    offer_all-Reach worker candidates idle
      (natural 2000 0 0, (natural 2000 0 0, (natural 0 0 0, (natural 0 0 1, tt)))) start

Reach-Capacity_example :
    let slots = (offer_all worker candidates idle).slots in
    (is_within (total (λ s. s.cpu_millis) slots) (pos 3000) true ≡ true)
    × (is_within (total (λ s. s.memory_mb) slots) (pos 0) true ≡ true)
    × (is_within (total (λ s. s.gpu) slots) (pos 0) false ≡ true)
Reach-Capacity_example =
    Reach-Capacity worker (offer_all worker candidates idle) (natural 1000 0 0) reached
