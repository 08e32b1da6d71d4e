-- ===== src/Prelude/Results.antt =====
-- A result or an error: Go's `(value, error)` pair, which is read on its error first.
use mathlib.Core.Path.{◌≡◌}

pub data Result {ℓ κ} (E : Type ℓ) (A : Type κ) : Type (ℓ ⊔ κ) where
  ok : A → Result E A
  err : E → Result E A

pub ok≢err {ℓ κ} : {E : Type ℓ} {A : Type κ} {a : A} {e : E} → ok a ≡ err e → ⊥
ok≢err h = cc
