-- ===== src/Backoff/Bounds.antt =====
-- The bounds of the delays of internal/backoff/backoff.go.
use nadi_agent.Prelude.{◌^◌, arith}
use nadi_agent.Int64.{ℤ, pos, ◌≤ℤ◌, ◌<ℤ◌, mul64}
use nadi_agent.Backoff.{Backoff, new, next, reset}

-- A maximum below 2^62 nanoseconds leaves room for a doubling.
pub record IsValid (b : Backoff) : Type 0 where
  pub min_nonneg : pos 0 ≤ℤ b.min
  pub min_le : b.min ≤ℤ b.current
  pub le_max : b.current ≤ℤ b.max
  pub max_small : b.max <ℤ pos (2 ^ 62)

pub new-IsValid :
    (min max : ℤ) → pos 0 ≤ℤ min → min <ℤ pos (2 ^ 62) → max <ℤ pos (2 ^ 62) → IsValid (new min max)
unfolding new
new-IsValid min max h k l = ground arith

-- Next keeps the minimum nonnegative, the current delay between the minimum and the maximum, and the
-- maximum below 2^62.
pub next-IsValid : {b : Backoff} → IsValid b → IsValid (next b).1
unfolding next mul64
next-IsValid v = ground arith

pub reset-IsValid : {b : Backoff} → IsValid b → IsValid (reset b)
unfolding reset
reset-IsValid v = ground arith
