-- ===== src/Base/Result.antt =====
-- What a handler returns: a Go pair `(response, error)` of which one is nil.

pub data Result {ℓ κ} (E : Type κ) (A : Type ℓ) : Type (ℓ ⊔ κ) where
  ok : A → Result E A
  err : E → Result E A
