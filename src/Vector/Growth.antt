-- ===== src/Vector/Growth.antt =====
-- The capacity of a vector that grows (include/mpgc/gc_vector.h).
use mpgc.Prelude.{ℕ, zero, suc, ◌+◌, ◌*◌, ◌/◌, ◌≤◌, arith, ltb, Bool-cases, inl, inr}
use mpgc.Vector.Defs.{grow, new_capacity}

grow-le : (fuel c count : ℕ) → 8 ≤ c → count ≤ c + fuel → count ≤ grow fuel c count
unfolding grow
grow-le zero c count h enough = omega arith
grow-le (suc fuel) c count h enough = elim (Bool-cases (ltb c count)) [
  | inl more ↦ rw more (grow-le fuel (c * 3 / 2) count (omega arith) (omega arith))
  | inr done ↦ rw done (ground arith)
]

-- The loop ends with room for all elements.
pub new_capacity-le : (c count : ℕ) → count ≤ new_capacity c count
unfolding new_capacity
new_capacity-le c count = ground (arith, grow-le count c count, grow-le count 8 count)
