-- ===== src/Agent/Origin.antt =====
-- What the loop of internal/agent/agent.go sends and queues comes from its ticks and from the queue that
-- it starts with.
use nadi_agent.Prelude.{
  ℕ, zero, suc, ◌+◌, ◌≡◌, ap, refl, Bool, inl, inr, Option, none, some, Option-cases, Bool-cases,
  List, [], ◌∷◌, ◌++◌, Bytes, All, All-append, All-append_inv,
}
use mathlib.Core.Path.{subst}
use nadi_agent.Int64.{ℤ}
use nadi_agent.Disk.{Disk}
use nadi_agent.Buffer
use nadi_agent.Buffer.{Buffer, append}
use nadi_agent.Buffer.Dropped.{append_kept}
use nadi_agent.Buffer.Queue.{peek-nil, peek-cons, pop-cons}
use nadi_agent.Network.{Network, Request, Reply}
use nadi_agent.Payload.{Heartbeat}
use nadi_agent.Sender.{Sender, SendError, Built, built, not_built, send_raw}
use nadi_agent.Agent.{
  Agent, Cycle, Run, start, ticked, retried, stopped, flush_loop, flush_buffer, after_send,
  tick_send, on_tick, on_retry, on_done, build_of,
}
use nadi_agent.Agent.Held.{flushed}

module _ {ℓ} {F : Type ℓ} (marshal : Heartbeat F → Option Bytes) (valid_url : Bytes → Bool)
    (interval jitter : ℤ) (snd : Sender) where
  -- What the ticks of a run found.
  unfoldable pub cycles :
      {a : Agent} {texts : List Bytes} {a' : Agent}
      → Run marshal valid_url interval jitter snd a texts a'
      → List (Cycle F)
  cycles start = []
  cycles (ticked r c on) = cycles r ++ c ∷ []
  cycles (retried r on ready) = cycles r
  cycles (stopped r on) = cycles r

module _ {κ} (P : Bytes → Type κ) where
  -- Of each request that was made, the body.
  abbrev pub AllPosted : Network → Type κ
  AllPosted n = All (λ (x : Request × Reply). P x.0.body) n.posted

  append-All :
      (e : Bytes) (b : Buffer) (d : Disk) → All P b.entries → P e → All P (append e b d).1.entries
  append-All e b d h p = elim (append_kept e b d) [
    | inl (older, split) ↦
        (All-append_inv P older (append e b d).1.entries
          (subst (All P) split (All-append P b.entries (e ∷ []) h (p, tt)))).1
    | inr same ↦ rw same h
  ]

  module _ (valid_url : Bytes → Bool) (snd : Sender) where
    send_raw-All :
        (text : Bytes) (n : Network)
        → P text
        → AllPosted n
        → AllPosted (send_raw valid_url snd text n).1
    unfolding send_raw
    send_raw-All text n p h = elim (Bool-cases (valid_url snd.server_url)) [
      | inl ok ↦ rw ok (All-append (λ (x : Request × Reply). P x.0.body) n.posted _ h (p, tt))
      | inr bad ↦ rw bad h
    ]

    abbrev Both : Buffer → Network → Type κ
    Both b n = All P b.entries × AllPosted n

    flush_loop-All :
        (fuel : ℕ) (es : List Bytes) (b : Buffer) (n : Network) (k : ℕ)
        → b.entries ≡ es
        → All P es
        → AllPosted n
        → Both
            (flush_loop (send_raw valid_url snd) fuel b n k).0
            (flush_loop (send_raw valid_url snd) fuel b n k).1
    unfolding flush_loop
    flush_loop-All zero es b n k e hs h = (rw e hs, h)
    flush_loop-All (suc fuel) [] b n k e hs h = rw (peek-nil b e, flush_loop) (rw e hs, h)
    flush_loop-All (suc fuel) (x ∷ es) b n k e (p, hs) h =
        let h' = send_raw-All x n p h in
        elim (Option-cases (send_raw valid_url snd x n).0) [
          | inl ok ↦
              rw (peek-cons x es b e, ok, flush_loop)
                (flush_loop-All fuel es (Buffer.pop b).1 (send_raw valid_url snd x n).1 (k + 1)
                  (ap (λ (t : Buffer). t.entries) (pop-cons x es b e)) hs h')
          | inr (err, refused) ↦ rw (peek-cons x es b e, refused, flush_loop) (rw e (p, hs), h')
        ]

    abbrev pub Stems : Agent → Type κ
    Stems a = Both a.buf a.network

    flushed-Stems : (a : Agent) → Stems a → Stems (flushed (send_raw valid_url snd) a)
    unfolding flushed flush_buffer
    flushed-Stems a (h, k) =
        flush_loop-All (suc (Buffer.len a.buf)) a.buf.entries a.buf a.network 0 refl h k

    own_send-Stems :
        (text : Bytes) (err : Option SendError) (a : Agent)
        → P text
        → Stems a
        → Stems (after_send text err a)
    unfolding after_send
    own_send-Stems text none a p h = h
    own_send-Stems text (some e) a p (h, k) = (append-All text a.buf a.disk h p, k)

    module _ {ℓ} {F : Type ℓ} (marshal : Heartbeat F → Option Bytes) (interval jitter : ℤ) where
      -- What the tick builds is in `P`.
      abbrev pub Builds : Cycle F → Type κ
      Builds c =
          (text : Bytes) → build_of marshal valid_url interval jitter snd c ≡ built text → P text

      tick_send-Stems :
          (text : Bytes) (a : Agent)
          → P text
          → Stems a
          → Stems (tick_send marshal valid_url interval jitter snd text a)
      unfolding tick_send flushed
      tick_send-Stems text a p h =
          let b = flushed (send_raw valid_url snd) a in
          let (q, k) = flushed-Stems a h in
          own_send-Stems text (send_raw valid_url snd text b.network).0
            (record b { network = (send_raw valid_url snd text b.network).1 }) p
            (q, send_raw-All text b.network p k)

      on_tick-Stems :
          (c : Cycle F) (a : Agent) (r : Built)
          → build_of marshal valid_url interval jitter snd c ≡ r
          → Builds c
          → Stems a
          → Stems (on_tick marshal valid_url interval jitter snd c a)
      unfolding on_tick
      on_tick-Stems c a (built text) e in_p h =
          rw (e, on_tick) (tick_send-Stems text a (in_p text e) h)
      on_tick-Stems c a (not_built err) e in_p h = rw (e, on_tick) h

      on_retry-Stems :
          (a : Agent) → Stems a → Stems (on_retry marshal valid_url interval jitter snd a)
      unfolding on_retry flushed
      on_retry-Stems a h = flushed-Stems a h

      on_done-Stems : (a : Agent) → Stems a → Stems (on_done a)
      unfolding on_done
      on_done-Stems a h = h

      -- What holds of all that is queued and posted at the start and of all that the ticks build holds of
      -- all that is queued and posted in every state of a run.
      pub run-Stems :
          {a : Agent} {texts : List Bytes} {a' : Agent}
          (run : Run marshal valid_url interval jitter snd a texts a')
          → All Builds (cycles marshal valid_url interval jitter snd run)
          → Stems a
          → Stems a'
      unfolding cycles
      run-Stems start b h = h
      run-Stems (ticked {b = b} r c on) all h =
          let (before, (own, _)) =
            All-append_inv Builds (cycles marshal valid_url interval jitter snd r) (c ∷ []) all in
          on_tick-Stems c b _ refl own (run-Stems r before h)
      run-Stems (retried {b = b} r on ready) all h = on_retry-Stems b (run-Stems r all h)
      run-Stems (stopped {b = b} r on) all h = on_done-Stems b (run-Stems r all h)
