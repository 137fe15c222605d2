-- ===== src/Shared/Results.antt =====
-- A Go pair `(T, error)` of which exactly one part counts, and the outcome of a call that may panic.
pub data Result {ℓ κ} (E : Type ℓ) (A : Type κ) : Type (ℓ ⊔ κ) where
  ok : A → Result E A
  err : E → Result E A

pub data Outcome {ℓ} (A : Type ℓ) : Type ℓ where
  returns : A → Outcome A
  panics : Outcome A
