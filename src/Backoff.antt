-- ===== src/Backoff.antt =====
-- internal/backoff/backoff.go: the delay before the next retry.
pub mod Bounds
pub mod Doubling
use nadi_agent.Prelude.{if◌then◌else◌}
use nadi_agent.Int64.{ℤ, pos, ltb_ℤ, mul64}

-- Durations are int64 counts of nanoseconds.
pub record Backoff : Type 0 where
  pub min : ℤ
  pub max : ℤ
  pub current : ℤ

unfoldable pub new : ℤ → ℤ → Backoff
new min max =
    let max' = if ltb_ℤ max min then min else max in record { min = min; max = max'; current = min }

-- The delay to wait now, and the state with the delay for the next call.
unfoldable pub next : Backoff → ℤ × Backoff
next b =
    let doubled = mul64 b.current (pos 2) in
    (b.current, record b { current = if ltb_ℤ b.max doubled then b.max else doubled })

unfoldable pub reset : Backoff → Backoff
reset b = record b { current = b.min }

pub current : Backoff → ℤ
current b = b.current
