-- ===== src/Agent/Blocked.antt =====
-- What the loop of internal/agent/agent.go does while the server does not take its oldest heartbeat.
use mathlib.Core.List.{Mem, mem-append_left, mem-append_right, mem-cons_self}
use mathlib.Core.Path.{subst}
use nadi_agent.Prelude.{
  suc, ◌+◌, ◌≡◌, ◌∙◌, ap, refl, sym, Bool, ◌⊎◌, inl, inr, Option, none, some, List, [], ◌∷◌, ◌++◌,
  Bytes, length, arith, append_assoc, append-nil,
}
use nadi_agent.Int64.{ℤ, pos, ◌≤ℤ◌}
use nadi_agent.Buffer.Trim.{total, total-append}
use nadi_agent.Buffer.{Buffer}
use nadi_agent.Buffer.Invariant.{IsValid, add_entry-entries}
use nadi_agent.Buffer.Faultless.{IsFaultless, append-IsFaultless}
use nadi_agent.Network.{delivered}
use nadi_agent.Payload.{Heartbeat}
use nadi_agent.Sender.{Sender, SendError, Built, built, not_built, send_raw}
use nadi_agent.Sender.Delivery.{delivered-send_raw}
use nadi_agent.Agent.{
  Agent, Cycle, Run, start, ticked, retried, stopped, after_send, tick_send, on_tick, on_retry,
  on_done, build_of, text_of,
}
use nadi_agent.Agent.Flush.{flush_buffer-Flushed}
use nadi_agent.Agent.Held.{flushed}
use nadi_agent.Agent.Conserve.{run-Keeps, flushed-Keeps}

-- The queue still starts with `oldest` and what was behind it, or the server has taken `oldest`.
abbrev pub IsBlocked : Bytes → List Bytes → Agent → Type 0
IsBlocked oldest behind a =
    ((added : List Bytes) × (a.buf.entries ≡ oldest ∷ (behind ++ added)))
    ⊎ Mem oldest (delivered a.network)

module _ (oldest : Bytes) (behind : List Bytes) where
  -- What is sent from a queue is nothing, or its oldest first.
  first_sent :
      (sent kept server all : List Bytes)
      → oldest ∷ all ≡ sent ++ kept
      → (kept ≡ oldest ∷ all) ⊎ Mem oldest (server ++ sent)
  first_sent [] kept server all e = inl (sym e)
  first_sent (x ∷ sent) kept server all e =
      let same : oldest ≡ x = cc in
      inr (mem-append_right server (subst (λ t. Mem oldest (t ∷ sent)) same mem-cons_self))

  module _ (valid_url : Bytes → Bool) (snd : Sender) where
    flushed-IsBlocked :
        (a : Agent)
        → IsBlocked oldest behind a
        → IsBlocked oldest behind (flushed (send_raw valid_url snd) a)
    unfolding flushed
    flushed-IsBlocked a h =
        let (j, f) =
          flush_buffer-Flushed (send_raw valid_url snd) (delivered-send_raw valid_url snd) a.buf
            a.network a.disk in
        let b = flushed (send_raw valid_url snd) a in
        elim h [
          | inl (added, e) ↦
              elim (first_sent f.sent b.buf.entries (delivered a.network) (behind ++ added)
                (sym e ∙ f.split)) [
                  | inl kept ↦ inl (added, kept)
                  | inr taken ↦ inr (subst (Mem oldest) (sym f.arrived) taken)
                ]
          | inr taken ↦ inr (subst (Mem oldest) (sym f.arrived) (mem-append_left f.sent taken))
        ]

    after_send-IsBlocked :
        (text : Bytes) (err : Option SendError) (a : Agent)
        → IsValid a.buf
        → IsFaultless a.disk
        → pos (total a.buf.entries + suc (length text)) ≤ℤ a.buf.max_bytes
        → IsBlocked oldest behind a
        → IsBlocked oldest behind (after_send text err a)
    unfolding after_send
    after_send-IsBlocked text none a v ok fits h = h
    after_send-IsBlocked text (some e) a v ok fits (inr taken) = inr taken
    after_send-IsBlocked text (some e) a v ok fits (inl (added, q)) =
        let (done, appended, ok') = append-IsFaultless text a.buf a.disk v ok fits in
        inl (
          added ++ text ∷ [],
          ap (λ (t : Buffer). t.entries) appended
              ∙ add_entry-entries text a.buf
              ∙ ap (λ t. t ++ text ∷ []) q
              ∙ ap (λ t. oldest ∷ t) (append_assoc behind added (text ∷ [])),
        )

    sent-IsBlocked :
        (text : Bytes) (a : Agent)
        → IsBlocked oldest behind a
        → IsBlocked oldest behind (record a { network = (send_raw valid_url snd text a.network).1 })
    sent-IsBlocked text a (inl queued) = inl queued
    sent-IsBlocked text a (inr taken) = inr (
        subst (Mem oldest) (sym (delivered-send_raw valid_url snd text a.network))
          (mem-append_left _ taken))

    module _ {ℓ} {F : Type ℓ} (marshal : Heartbeat F → Option Bytes) (interval jitter : ℤ) where
      on_tick-IsBlocked :
          (c : Cycle F) (a : Agent) (r : Built)
          → build_of marshal valid_url interval jitter snd c ≡ r
          → IsValid a.buf
          → IsFaultless a.disk
          → pos (total a.buf.entries + total (text_of r)) ≤ℤ a.buf.max_bytes
          → IsBlocked oldest behind a
          → IsBlocked oldest behind (on_tick marshal valid_url interval jitter snd c a)
      unfolding on_tick tick_send flushed
      on_tick-IsBlocked c a (not_built err) e v ok fits h = rw (e, on_tick) h
      on_tick-IsBlocked c a (built text) e v ok fits h =
          let b = flushed (send_raw valid_url snd) a in
          let k = flushed-Keeps valid_url snd a v ok in
          let room : pos (total b.buf.entries + suc (length text)) ≤ℤ b.buf.max_bytes =
            rw k.same_limit (omega (arith, k.grown, fits)) in
          rw (e, on_tick)
            (after_send-IsBlocked text (send_raw valid_url snd text b.network).0
              (record b { network = (send_raw valid_url snd text b.network).1 }) k.valid k.faultless
              room (sent-IsBlocked text b (flushed-IsBlocked a h)))

      on_retry-IsBlocked :
          (a : Agent)
          → IsBlocked oldest behind a
          → IsBlocked oldest behind (on_retry marshal valid_url interval jitter snd a)
      unfolding on_retry flushed
      on_retry-IsBlocked a h = flushed-IsBlocked a h

      on_done-IsBlocked :
          (a : Agent) → IsBlocked oldest behind a → IsBlocked oldest behind (on_done a)
      unfolding on_done
      on_done-IsBlocked a h = h

      -- The queue never gets past its oldest heartbeat: until the server has taken that one, all that was
      -- behind it stays there. The buffer was well formed at the start, no call on files fails, and the
      -- limit has room for all that is queued and built.
      pub run-IsBlocked :
          {a : Agent} {texts : List Bytes} {a' : Agent}
          → Run marshal valid_url interval jitter snd a texts a'
          → IsValid a.buf
          → IsFaultless a.disk
          → pos (total a.buf.entries + total texts) ≤ℤ a.buf.max_bytes
          → a.buf.entries ≡ oldest ∷ behind
          → IsBlocked oldest behind a'
      run-IsBlocked start v ok fits e = inl ([], e ∙ ap (λ t. oldest ∷ t) (sym (append-nil behind)))
      run-IsBlocked {a} (ticked {made = texts} {b = b} r c on) v ok fits e =
          let own = text_of (build_of marshal valid_url interval jitter snd c) in
          let earlier : pos (total a.buf.entries + total texts) ≤ℤ a.buf.max_bytes =
            omega (arith, fits, total-append texts own) in
          let k = run-Keeps valid_url snd marshal interval jitter r v ok earlier in
          let room : pos (total b.buf.entries + total own) ≤ℤ b.buf.max_bytes =
            rw k.same_limit (omega (arith, k.grown, fits, total-append texts own)) in
          on_tick-IsBlocked c b _ refl k.valid k.faultless room (run-IsBlocked r v ok earlier e)
      run-IsBlocked (retried {b = b} r on ready) v ok fits e =
          on_retry-IsBlocked b (run-IsBlocked r v ok fits e)
      run-IsBlocked (stopped {b = b} r on) v ok fits e =
          on_done-IsBlocked b (run-IsBlocked r v ok fits e)
