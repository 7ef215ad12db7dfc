-- ===== src/Prelude/Errors.antt =====
-- A call that may raise: its value, or what it raised.

pub data Result {ℓ κ} (E : Type ℓ) (A : Type κ) : Type (ℓ ⊔ κ) where
  ok : A → Result E A
  err : E → Result E A
