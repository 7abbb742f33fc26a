-- ===== src/Cleaning/Vectorized/Arithmetic.antt =====
-- Counters of fewer than 62 bits: their differences do not wrap around in int64.
use quer_project_q.Common.{◌<◌, ◌^◌, ◌≡◌, ℤ, pos, negsuc, pos_part, neg_part, ◌-ℤ◌, arith}
use quer_project_q.Cleaning.Vectorized.{wrap64}

abbrev pub IsSmall : ℤ → Type 0
IsSmall n = (pos_part n < 2 ^ 62) × (neg_part n < 2 ^ 62)

wrap64-small : (d : ℤ) → pos_part d < 2 ^ 63 → neg_part d < 2 ^ 63 → wrap64 d ≡ d
unfolding wrap64
wrap64-small (pos n) h k = ground arith
wrap64-small (negsuc n) h k = ground arith

pub wrap64-sub : (a b : ℤ) → IsSmall a → IsSmall b → wrap64 (a -ℤ b) ≡ a -ℤ b
wrap64-sub a b h k =
    wrap64-small (a -ℤ b) (unfold ◌-ℤ◌ in ground arith) (unfold ◌-ℤ◌ in ground arith)
