-- ===== src/Base/Loops.antt =====
-- The result of a loop that runs on fuel.
pub data Run {ℓ} (A : Type ℓ) : Type ℓ where
  done : A → Run A
  out_of_fuel : Run A
