-- ===== src/Prelude/Results.antt =====
-- The results of operations that may fail.
pub data Result {ℓ κ} (E : Type ℓ) (A : Type κ) : Type (ℓ ⊔ κ) where
  ok : A → Result E A
  err : E → Result E A
