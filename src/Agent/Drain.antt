-- ===== src/Agent/Drain.antt =====
-- on_retry of internal/agent/agent.go with a server that accepts.
use nadi_agent.Prelude.{
  ℕ, zero, suc, ◌+◌, ◌≡◌, ap, refl, Bool, true, false, Option, none, List, [], ◌∷◌, Bytes, length,
  arith,
}
use nadi_agent.Int64.{ℤ}
use nadi_agent.Backoff.{reset as reset_backoff}
use nadi_agent.Buffer
use nadi_agent.Buffer.{Buffer}
use nadi_agent.Buffer.Queue.{peek-nil, peek-cons, pop-cons}
use nadi_agent.Disk.{Disk}
use nadi_agent.Network.{Network, Reply, status, failed, accepted, do_request}
use nadi_agent.Payload.{Heartbeat}
use nadi_agent.Sender.{Sender, send_raw, check_reply}
use nadi_agent.Agent.{Agent, armed, fired, disarm, reset, flush_loop, flush_buffer, on_retry}

-- The next replies are 2xx, as many as the number says.
abbrev pub Accepting : ℕ → List Reply → Type 0
Accepting zero rs = Unit
Accepting (suc k) [] = true ≡ false
Accepting (suc k) (r ∷ rs) = (accepted r ≡ true) × Accepting k rs

check_reply-accepted : (r : Reply) → accepted r ≡ true → check_reply r ≡ none
check_reply-accepted failed h = cc
check_reply-accepted (status code) h = ground (arith, h)

module _ (valid_url : Bytes → Bool) (snd : Sender) where
  send_raw-accepted :
      (text : Bytes) (n : Network) (r : Reply) (rs : List Reply)
      → valid_url snd.server_url ≡ true
      → n.replies ≡ r ∷ rs
      → accepted r ≡ true
      → ((send_raw valid_url snd text n).0 ≡ none)
        × ((send_raw valid_url snd text n).1.replies ≡ rs)
  unfolding send_raw do_request
  send_raw-accepted text n r rs ok e h = rw (ok, e) (check_reply-accepted r h, refl)

  flush_loop-drains :
      (es : List Bytes) (rs : List Reply) (b : Buffer) (n : Network) (k : ℕ)
      → valid_url snd.server_url ≡ true
      → b.entries ≡ es
      → n.replies ≡ rs
      → Accepting (length es) rs
      → (flush_loop (send_raw valid_url snd) (suc (length es)) b n k).0.entries ≡ []
  unfolding flush_loop
  flush_loop-drains [] rs b n k ok e f h = rw (peek-nil b e, flush_loop) e
  flush_loop-drains (x ∷ es) [] b n k ok e f h = cc
  flush_loop-drains (x ∷ es) (r ∷ rs) b n k ok e f (h, hs) =
      let (sent, left) = send_raw-accepted x n r rs ok f h in
      rw (peek-cons x es b e, sent, flush_loop)
        (flush_loop-drains es rs (Buffer.pop b).1 (send_raw valid_url snd x n).1 (k + 1) ok
          (ap (λ (t : Buffer). t.entries) (pop-cons x es b e)) left hs)

  pub flush_buffer-drains :
      (b : Buffer) (n : Network) (d : Disk)
      → valid_url snd.server_url ≡ true
      → Accepting (Buffer.len b) n.replies
      → (flush_buffer (send_raw valid_url snd) b n d).0.entries ≡ []
  unfolding flush_buffer Buffer.len
  flush_buffer-drains b n d ok h = flush_loop-drains b.entries n.replies b n 0 ok refl refl h

  module _ {ℓ} {F : Type ℓ} (marshal : Heartbeat F → Option Bytes) (interval jitter : ℤ) where
    -- If the server takes as many heartbeats as are queued, and the client takes the URL, the next
    -- retry leaves the queue empty, the retry timer off, and the delay of the next failure at the
    -- minimum.
    pub on_retry-drains :
        (a : Agent)
        → valid_url snd.server_url ≡ true
        → Accepting (Buffer.len a.buf) a.network.replies
        → ((on_retry marshal valid_url interval jitter snd a).buf.entries ≡ [])
          × (armed (on_retry marshal valid_url interval jitter snd a).retrier ≡ false)
          × ((on_retry marshal valid_url interval jitter snd a).retrier.backoff.current
              ≡ a.retrier.backoff.min)
    unfolding on_retry Buffer.len armed fired reset disarm reset_backoff
    on_retry-drains a ok h =
        let empty = flush_buffer-drains a.buf a.network a.disk ok h in
        (empty, ground (arith, ap length empty), ground (arith, ap length empty))
