-- ===== src/Examples/Delays.antt =====
-- internal/backoff/backoff_test.go and the intervals of the loop.
use Prim.Native.Nat.{min}
use nadi_agent.Prelude.{◌*◌, ◌^◌, ◌≡◌, refl, arith}
use nadi_agent.Int64.{pos, mul64}
use nadi_agent.Backoff.{Backoff, new, next}
use nadi_agent.Backoff.Bounds.{IsValid, new-IsValid}
use nadi_agent.Backoff.Doubling.{after, next-doubles}

-- One second, capped at fifteen.
abbrev start : Backoff
start = new (pos 1_000_000_000) (pos 15_000_000_000)

grows : (next (after 3 start)).0 ≡ pos 8_000_000_000
unfolding new next mul64
grows = refl

capped : (next (after 4 start)).0 ≡ pos 15_000_000_000
unfolding new next mul64
capped = refl

next-doubles_example : (next (after 4 start)).0 ≡ pos (min (1_000_000_000 * 2 ^ 4) 15_000_000_000)
next-doubles_example = next-doubles 1_000_000_000 15_000_000_000 4 (omega arith) (omega arith)

start-IsValid : IsValid start
start-IsValid =
    new-IsValid (pos 1_000_000_000) (pos 15_000_000_000) (omega arith) (omega arith) (omega arith)
