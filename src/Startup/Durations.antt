-- ===== src/Startup/Durations.antt =====
-- The durations that cmd/nadi-agent/main.go makes of the configuration's seconds.
use nadi_agent.Prelude.{ℕ, ◌*◌, ◌≤◌, ◌≡◌, Option, none, Bytes, arith}
use nadi_agent.Config.{Config, Url, validate}
use nadi_agent.Config.Validation.{IsUsable, validate_iff}
use nadi_agent.Int64.{pos, mul64, ◌<ℤ◌, mul64-pos}
use nadi_agent.Startup.{seconds}

-- For a count from 0 to 9,223,372,036 the duration is that many seconds in nanoseconds.
seconds_exact : (s : ℕ) → s ≤ 9_223_372_036 → seconds (pos s) ≡ pos (s * 1_000_000_000)
unfolding seconds
seconds_exact s h = mul64-pos s 1_000_000_000 (omega arith)

seconds_negative : (s : ℕ) → 9_223_372_037 ≤ s → s ≤ 18_446_744_073 → seconds (pos s) <ℤ pos 0
unfolding seconds mul64
seconds_negative s h k = ground arith

-- Validate has no upper bound for the interval: it accepts settings that are otherwise usable with any
-- interval from 9,223,372,037 to 18,446,744,073 seconds, and the duration that main makes of it has
-- wrapped and is negative.
pub interval_overflow :
    (parse_url : Bytes → Option Url) (c : Config) (s : ℕ)
    → IsUsable parse_url c
    → c.interval_seconds ≡ pos s
    → 9_223_372_037 ≤ s
    → s ≤ 18_446_744_073
    → (validate parse_url c ≡ none) × (seconds c.interval_seconds <ℤ pos 0)
interval_overflow parse_url c s usable e h k =
    ((validate_iff parse_url c).1 usable, rw e (seconds_negative s h k))
