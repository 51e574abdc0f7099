-- ===== src/Agent/Timer.antt =====
-- The retry timer and the ticker of internal/agent/agent.go.
use nadi_agent.Prelude.{
  ℕ, ◌+◌, ◌%◌, ◌^◌, ◌<◌, ◌≡◌, ◌∙◌, refl, Bool, inl, inr, Option, none, some, List, Bytes, arith,
  Option-cases, ◌==◌, if_cases, not, if◌then◌else◌,
}
use nadi_agent.Int64.{ℤ, pos, ◌≤ℤ◌, ◌<ℤ◌, add64-pos, ltb_ℤ}
use nadi_agent.Backoff.{Backoff, new as new_backoff, next as next_delay, reset as reset_backoff}
use nadi_agent.Backoff.Bounds.{IsValid, next-IsValid, reset-IsValid, new-IsValid}
use nadi_agent.Buffer
use nadi_agent.Disk.{Disk}
use nadi_agent.Network.{Network}
use nadi_agent.Payload.{Heartbeat}
use nadi_agent.Sender.{Sender, Built, built, not_built, SendError, send_raw}
use nadi_agent.Agent.{
  Agent, Retrier, Cycle, Run, start, ticked, retried, stopped, arm, fired, disarm, reset, armed,
  next_interval, after_send, tick_send, on_tick, on_retry, on_done, initial, build_of, flush_buffer,
}

-- The interval between two ticks, where the jitter is positive and the two together are below 2^63
-- nanoseconds: at least the configured one, and less than the jitter more.
next_interval_bounds :
    (interval jitter roll : ℕ)
    → interval + jitter < 2 ^ 63
    → 0 < jitter
    → (pos interval ≤ℤ next_interval (pos interval) (pos jitter) roll)
      × (next_interval (pos interval) (pos jitter) roll <ℤ pos (interval + jitter))
unfolding next_interval
next_interval_bounds interval jitter roll small h =
    let below : roll % jitter < jitter = omega arith in
    ground (arith, add64-pos interval (roll % jitter) (omega arith))

-- The delay that an armed timer was set to lies between `lo` and `hi`.
abbrev pub InRange : ℤ → ℤ → Option ℤ → Type 0
InRange lo hi none = Unit
InRange lo hi (some d) = (lo ≤ℤ d) × (d ≤ℤ hi)

pub record IsTimed (lo hi : ℤ) (r : Retrier) : Type 0 where
  pub backoff : IsValid r.backoff
  pub min : r.backoff.min ≡ lo
  pub max : r.backoff.max ≡ hi
  pub timer : InRange lo hi r.timer

module _ (lo hi : ℤ) where
  next_same :
      (b : Backoff)
      → ((next_delay b).1.min ≡ b.min)
        × ((next_delay b).1.max ≡ b.max)
        × ((next_delay b).0 ≡ b.current)
  unfolding next_delay
  next_same b = (refl, refl, refl)

  arm-IsTimed : (r : Retrier) → IsTimed lo hi r → IsTimed lo hi (arm r)
  unfolding arm
  arm-IsTimed r v = elim (Option-cases r.timer) [
    | inr (d, on) ↦ rw (on, arm) v
    | inl off ↦
        let (same_min, same_max, same_delay) = next_same r.backoff in
        rw (off, arm)
          (record {
            backoff = next-IsValid v.backoff;
            min = same_min ∙ v.min;
            max = same_max ∙ v.max;
            timer = rw (same_delay, ← v.min, ← v.max) (v.backoff.min_le, v.backoff.le_max);
          })
  ]

  disarm-IsTimed : (r : Retrier) → IsTimed lo hi r → IsTimed lo hi (disarm r)
  unfolding disarm
  disarm-IsTimed r v = elim (Option-cases r.timer) [
    | inr (d, on) ↦
        rw (on, disarm) (record { backoff = v.backoff; min = v.min; max = v.max; timer = tt })
    | inl off ↦ rw (off, disarm) v
  ]

  reset-IsTimed : (r : Retrier) → IsTimed lo hi r → IsTimed lo hi (reset r)
  unfolding reset
  reset-IsTimed r v =
      disarm-IsTimed (record r { backoff = reset_backoff r.backoff })
        (record {
          backoff = reset-IsValid v.backoff;
          min = unfold reset_backoff in v.min;
          max = unfold reset_backoff in v.max;
          timer = v.timer;
        })

  fired-IsTimed : (r : Retrier) → IsTimed lo hi r → IsTimed lo hi (fired r)
  unfolding fired
  fired-IsTimed r v = record { backoff = v.backoff; min = v.min; max = v.max; timer = tt }

  after_send-IsTimed :
      (text : Bytes) (e : Option SendError) (a : Agent)
      → IsTimed lo hi a.retrier
      → IsTimed lo hi (after_send text e a).retrier
  unfolding after_send
  after_send-IsTimed text none a v = reset-IsTimed a.retrier v
  after_send-IsTimed text (some e) a v = arm-IsTimed a.retrier v

-- The interval, or one second where that is longer.
abbrev pub longest : ℤ → ℤ
longest interval = if ltb_ℤ interval (pos 1_000_000_000) then pos 1_000_000_000 else interval

module _ {ℓ} {F : Type ℓ} (marshal : Heartbeat F → Option Bytes) (valid_url : Bytes → Bool)
    (interval jitter : ℤ) (snd : Sender) where
  -- After a retry the timer is armed again exactly if entries are left in the queue.
  armed-on_retry :
      (a : Agent)
      → armed (on_retry marshal valid_url interval jitter snd a).retrier
        ≡ not (Buffer.len (on_retry marshal valid_url interval jitter snd a).buf == 0)
  unfolding on_retry armed fired reset disarm arm
  armed-on_retry a = ground arith

  tick_send-IsTimed :
      (lo hi : ℤ) (text : Bytes) (a : Agent)
      → IsTimed lo hi a.retrier
      → IsTimed lo hi (tick_send marshal valid_url interval jitter snd text a).retrier
  unfolding tick_send
  tick_send-IsTimed lo hi text a v = after_send-IsTimed lo hi text _ _ v

  on_tick-IsTimed :
      (lo hi : ℤ) (c : Cycle F) (a : Agent) (r : Built)
      → build_of marshal valid_url interval jitter snd c ≡ r
      → IsTimed lo hi a.retrier
      → IsTimed lo hi (on_tick marshal valid_url interval jitter snd c a).retrier
  unfolding on_tick
  on_tick-IsTimed lo hi c a (built text) e v = rw (e, on_tick) (tick_send-IsTimed lo hi text a v)
  on_tick-IsTimed lo hi c a (not_built err) e v = rw (e, on_tick) v

  on_retry-IsTimed :
      (lo hi : ℤ) (a : Agent)
      → IsTimed lo hi a.retrier
      → IsTimed lo hi (on_retry marshal valid_url interval jitter snd a).retrier
  unfolding on_retry
  on_retry-IsTimed lo hi a v =
      let f = fired-IsTimed lo hi a.retrier v in
      if_cases (IsTimed lo hi)
        (Buffer.len (flush_buffer (send_raw valid_url snd) a.buf a.network a.disk).0 == 0) _ _
        (λ _. reset-IsTimed lo hi (fired a.retrier) f) (λ _. arm-IsTimed lo hi (fired a.retrier) f)

  run-IsTimed :
      {a : Agent} {made : List Bytes} {a' : Agent}
      → Run marshal valid_url interval jitter snd a made a'
      → (lo hi : ℤ) → IsTimed lo hi a.retrier
      → IsTimed lo hi a'.retrier
  unfolding on_done
  run-IsTimed start lo hi v = v
  run-IsTimed (ticked {b = b} r c on) lo hi v =
      on_tick-IsTimed lo hi c b _ refl (run-IsTimed r lo hi v)
  run-IsTimed (retried {b = b} r on ready) lo hi v =
      on_retry-IsTimed lo hi b (run-IsTimed r lo hi v)
  run-IsTimed (stopped {b = b} r on) lo hi v =
      disarm-IsTimed lo hi b.retrier (run-IsTimed r lo hi v)

  initial-IsTimed :
      (roll : ℕ) (b : Buffer.Buffer) (d : Disk) (n : Network)
      → interval <ℤ pos (2 ^ 62)
      → IsTimed
          (pos 1_000_000_000)
          (longest interval)
          (initial marshal valid_url interval jitter snd roll b d n).retrier
  unfolding initial new_backoff
  initial-IsTimed roll b d n small = record {
    backoff =
        unfold new_backoff in
        new-IsValid (pos 1_000_000_000) interval (omega arith) (omega arith) small;
    min = refl;
    max = refl;
    timer = tt;
  }

  -- Whatever is sent, refused or fails: in every state that a run reaches from the first one, an armed
  -- retry timer was set to at least one second, and to the interval at most, or one second where the
  -- interval is shorter. The interval is below 2^62 nanoseconds.
  pub run_delays :
      {made : List Bytes} {a : Agent}
      → (roll : ℕ) (b : Buffer.Buffer) (d : Disk) (n : Network) (delay : ℤ)
      → interval <ℤ pos (2 ^ 62)
      → Run marshal valid_url interval jitter snd
          (initial marshal valid_url interval jitter snd roll b d n)
          made
          a
      → a.retrier.timer ≡ some delay
      → (pos 1_000_000_000 ≤ℤ delay) × (delay ≤ℤ longest interval)
  run_delays roll b d n delay small r on = rw on at (
      (run-IsTimed r (pos 1_000_000_000) (longest interval)
        (initial-IsTimed roll b d n small)).timer)
