-- ===== src/Agent.antt =====
-- internal/agent/agent.go: the main loop. An event is one case of its select, and a state is what the
-- loop keeps from one select to the next.
pub mod Flush
pub mod Rounds
pub mod Saved
pub mod Restart
pub mod Outbox
pub mod Account
pub mod Origin
pub mod Path
pub mod Blocked
pub mod Held
pub mod Conserve
pub mod Drain
pub mod Timer
use nadi_agent.Prelude.{
  ℕ, zero, suc, ◌+◌, ◌%◌, Bool, true, false, Option, none, some, List, [], ◌∷◌, ◌++◌, ◌≡◌, Bytes,
  ltb, leb, ◌==◌, if◌then◌else◌,
}
use nadi_agent.Int64.{ℤ, pos, pos_part, ltb_ℤ, add64}
use nadi_agent.Backoff.{Backoff, new as new_backoff, next as next_delay, reset as reset_backoff}
use nadi_agent.Disk.{Disk}
use nadi_agent.Buffer
use nadi_agent.Buffer.{Buffer}
use nadi_agent.Network.{Network}
use nadi_agent.Collector.{Metric}
use nadi_agent.Payload.{Heartbeat}
use nadi_agent.Sender.{Sender, SendError, Host, Built, built, not_built, build, send_raw}

-- The one-shot timer: `none` is a nil timer, and otherwise the delay that it was set to.
pub record Retrier : Type 0 where
  pub backoff : Backoff
  pub timer : Option ℤ

unfoldable pub arm : Retrier → Retrier
arm r = elim r.timer [
  | some d ↦ r
  | none ↦ let (d, b) = next_delay r.backoff in record { backoff = b; timer = some d }
]

unfoldable pub fired : Retrier → Retrier
fired r = record r { timer = none }

unfoldable pub disarm : Retrier → Retrier
disarm r = elim r.timer [ some d ↦ record r { timer = none } | none ↦ r ]

unfoldable pub reset : Retrier → Retrier
unfolding disarm
reset r = disarm (record r { backoff = reset_backoff r.backoff })

-- Whether the channel C() is not nil, so that its case of the select can be taken.
unfoldable pub armed : Retrier → Bool
armed r = elim r.timer [ some d ↦ true | none ↦ false ]

-- `roll` is the random number behind rand.Int64N(n), which lies in [0, n).
abbrev pub int64_n : ℕ → ℤ → ℤ
int64_n roll n = pos (roll % pos_part n)

unfoldable pub next_interval : ℤ → ℤ → ℕ → ℤ
next_interval interval jitter roll =
    if ltb_ℤ (pos 0) jitter then add64 interval (int64_n roll jitter) else interval

-- The loop of flushBuffer, on fuel: the queue, the network and `flushed`.
module _ (send : Bytes → Network → Option SendError × Network) where
  unfoldable pub flush_loop : ℕ → Buffer → Network → ℕ → Buffer × Network × ℕ
  flush_loop zero b n flushed = (b, n, flushed)
  flush_loop (suc fuel) b n flushed = elim (Buffer.peek b) [
    | none ↦ (b, n, flushed)
    | some oldest ↦
        let (err, n') = send oldest n in
        elim err [
          | some e ↦ (b, n', flushed)
          | none ↦ flush_loop fuel (Buffer.pop b).1 n' (flushed + 1)
        ]
  ]

  -- One round for each entry, and one that finds the queue empty.
  unfoldable pub flush_buffer : Buffer → Network → Disk → Buffer × Network × Disk
  flush_buffer b n d =
      let (b', n', flushed) = flush_loop (suc (Buffer.len b)) b n 0 in
      let (err, d') = Buffer.persist b' d in (b', n', if ltb 0 flushed then d' else d)

pub record Agent : Type 0 where
  pub retrier : Retrier
  pub ticker : ℤ
  pub buf : Buffer
  pub disk : Disk
  pub network : Network
  pub running : Bool

-- What a tick finds: the collected metrics, the host, and a roll for the jitter.
pub record Cycle {ℓ} (F : Type ℓ) : Type ℓ where
  pub metrics : List (Metric F)
  pub host : Host
  pub roll : ℕ

-- The heartbeat that a tick has to deliver, if it could be built.
abbrev pub text_of : Built → List Bytes
text_of (built text) = text ∷ []
text_of (not_built e) = []

-- The end of a tick, with the result of its own send.
unfoldable pub after_send : Bytes → Option SendError → Agent → Agent
after_send text none a = record a { retrier = reset a.retrier }
after_send text (some e) a =
    let (err, b, d) = Buffer.append text a.buf a.disk in
    record a { buf = b; disk = d; retrier = arm a.retrier }

unfoldable pub on_done : Agent → Agent
on_done a = record a { retrier = disarm a.retrier; running = false }

-- The loop's settings: durations, the sender, and what stands behind it.
module _ {ℓ} {F : Type ℓ} (marshal : Heartbeat F → Option Bytes) (valid_url : Bytes → Bool)
    (interval jitter : ℤ) (snd : Sender) where
  abbrev pub build_of : Cycle F → Built
  build_of c = build marshal snd c.host c.metrics

  abbrev pub send_of : Bytes → Network → Option SendError × Network
  send_of = send_raw valid_url snd

  -- A tick whose heartbeat could be built.
  unfoldable pub tick_send : Bytes → Agent → Agent
  tick_send text a =
      let (b, n, d) = flush_buffer send_of a.buf a.network a.disk in
      let (err, n') = send_of text n in
      after_send text err (record a { buf = b; network = n'; disk = d })

  unfoldable pub on_tick : Cycle F → Agent → Agent
  unfolding tick_send after_send
  on_tick c a =
      let a' : Agent = elim (build_of c) [ built text ↦ tick_send text a | not_built e ↦ a ] in
      record a' { ticker = next_interval interval jitter c.roll }

  unfoldable pub on_retry : Agent → Agent
  on_retry a =
      let (b, n, d) = flush_buffer send_of a.buf a.network a.disk in
      let r = fired a.retrier in
      record a {
        buf = b;
        network = n;
        disk = d;
        retrier = if Buffer.len b == 0 then reset r else arm r;
      }

  -- A run of the loop, with the heartbeats that its ticks built. The retry case of the select can be
  -- taken only while its timer is armed.
  pub data Run (a : Agent) : List Bytes → Agent → Type ℓ where
    start : Run a [] a
    ticked :
        {made : List Bytes} {b : Agent}
        → Run a made b
        → (c : Cycle F) → b.running ≡ true
        → Run a (made ++ text_of (build_of c)) (on_tick c b)
    retried :
        {made : List Bytes} {b : Agent}
        → Run a made b
        → b.running ≡ true
        → armed b.retrier ≡ true
        → Run a made (on_retry b)
    stopped :
        {made : List Bytes} {b : Agent} → Run a made b → b.running ≡ true → Run a made (on_done b)

  -- The state in which Run enters its loop.
  unfoldable pub initial : ℕ → Buffer → Disk → Network → Agent
  initial roll b d n = record {
    retrier = record { backoff = new_backoff (pos 1_000_000_000) interval; timer = none };
    ticker = next_interval interval jitter roll;
    buf = b;
    disk = d;
    network = n;
    running = true;
  }
