-- ===== src/Backoff/Doubling.antt =====
-- The delays that successive calls of internal/backoff/backoff.go return.
use Prim.Native.Nat.{min}
use native.Mathlib.Nat.{pow-suc}
use nadi_agent.Prelude.{ℕ, zero, suc, ◌*◌, ◌^◌, ◌<◌, ◌≤◌, ◌≡◌, refl, arith, ◌∙◌, ap}
use nadi_agent.Int64.{ℤ, pos, mul64}
use nadi_agent.Backoff.{Backoff, new, next, reset}

-- The state after `k` calls of `next`.
abbrev pub after : ℕ → Backoff → Backoff
after zero b = b
after (suc k) b = after k (next b).1

next_capped :
    (c M : ℕ) (b : Backoff)
    → M < 2 ^ 62
    → b.current ≡ pos (min c M)
    → b.max ≡ pos M
    → (next b).1.current ≡ pos (min (c * 2) M)
unfolding next mul64
next_capped c M b h e f = ground arith

next_max : (b : Backoff) → (next b).1.max ≡ b.max
unfolding next
next_max b = refl

next_min : (b : Backoff) → (next b).1.min ≡ b.min
unfolding next
next_min b = refl

times_pow : (c k : ℕ) → (c * 2) * 2 ^ k ≡ c * 2 ^ suc k
times_pow c k = rw pow-suc (grind arith)

after_capped :
    (k c M : ℕ) (b : Backoff)
    → M < 2 ^ 62
    → b.current ≡ pos (min c M)
    → b.max ≡ pos M
    → (after k b).current ≡ pos (min (c * 2 ^ k) M)
after_capped zero c M b h e f = ground arith
after_capped (suc k) c M b h e f =
    after_capped k (c * 2) M (next b).1 h (next_capped c M b h e f) (next_max b ∙ f)
    ∙ ap (λ t. pos (min t M)) (times_pow c k)

-- From a new state with minimum `m` and maximum `M`, the call after `k` others returns `m` doubled
-- `k` times, or `M` where that is less. The maximum is not below the minimum and is below 2^62.
pub next-doubles :
    (m M k : ℕ)
    → m ≤ M
    → M < 2 ^ 62
    → (next (after k (new (pos m) (pos M)))).0 ≡ pos (min (m * 2 ^ k) M)
unfolding next
next-doubles m M k h small =
    after_capped k m M (new (pos m) (pos M)) small (unfold new in ground arith)
      (unfold new in ground arith)

after_min : (k : ℕ) (b : Backoff) → (after k b).min ≡ b.min
after_min zero b = refl
after_min (suc k) b = after_min k (next b).1 ∙ next_min b

after_max : (k : ℕ) (b : Backoff) → (after k b).max ≡ b.max
after_max zero b = refl
after_max (suc k) b = after_max k (next b).1 ∙ next_max b

-- However often `next` was called, `reset` brings back the state that `new` made.
reset-after : (min max : ℤ) (k : ℕ) → reset (after k (new min max)) ≡ new min max
unfolding reset new
reset-after min max k = ground (arith, after_min k (new min max), after_max k (new min max))
