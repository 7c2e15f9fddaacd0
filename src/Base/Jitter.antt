-- ===== src/Base/Jitter.antt =====
-- The jittered delay of the retry loops: `Math.floor(delay * (0.5 + Math.random() * 0.5))`.
-- `Math.random()` is `r / 2 ^ 53` for a number `r` below `2 ^ 53`, so the factor is
-- `(2 ^ 53 + r) / 2 ^ 54`; the rounding of the product to a double is not modelled.
use pulse_ledger.Base.{ℕ, ◌+◌, ◌*◌, ◌/◌, ◌^◌, ◌≤◌, ◌<◌, arith}

unfoldable pub jittered : ℕ → ℕ → ℕ
jittered delay r = delay * (2 ^ 53 + r) / 2 ^ 54

pub jittered_bounds :
    (delay r : ℕ) → r < 2 ^ 53 → (delay / 2 ≤ jittered delay r) × (jittered delay r ≤ delay)
unfolding jittered
jittered_bounds delay r h = (omega arith, grind arith)
