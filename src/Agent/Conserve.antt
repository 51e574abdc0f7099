-- ===== src/Agent/Conserve.antt =====
-- The heartbeats that the server has taken and those that are queued, over a run of the loop in
-- internal/agent/agent.go.
use mathlib.Core.List.{Perm}
use mathlib.Core.List.Perm
use mathlib.Core.Path.{subst}
use nadi_agent.Prelude.{
  suc, ◌+◌, ◌≡◌, ◌∙◌, ap, refl, sym, Bool, inl, inr, Option, List, [], ◌∷◌, ◌++◌, Bytes, length,
  arith, append_assoc, append-nil, Option-cases,
}
use nadi_agent.Int64.{ℤ, pos, ◌≤ℤ◌}
use nadi_agent.Buffer.{Buffer, append}
use nadi_agent.Buffer.Trim.{total, total-append}
use nadi_agent.Buffer.Invariant.{
  IsValid, append-IsValid, add_entry-total, add_entry-limit, add_entry-entries,
}
use nadi_agent.Buffer.Faultless.{IsFaultless, append-IsFaultless}
use nadi_agent.Network.{delivered}
use nadi_agent.Payload.{Heartbeat}
use nadi_agent.Sender.{Sender, Built, built, not_built, send_raw}
use nadi_agent.Sender.Delivery.{taken, delivered-send_raw}
use nadi_agent.Agent.{
  Agent, Cycle, Run, start, ticked, retried, stopped, tick_send, after_send, on_tick, on_retry,
  build_of, next_interval, text_of,
}
use nadi_agent.Agent.Flush.{flush_buffer-Flushed, flush_buffer-IsValid, flush_buffer-IsFaultless}
use nadi_agent.Agent.Held.{
  held, Keeps, flushed, Keeps-trans, unchanged-Keeps, Keeps-retimed, on_done-Keeps, perm_own,
}

module _ (valid_url : Bytes → Bool) (snd : Sender) where
  pub flushed-Keeps :
      (a : Agent)
      → IsValid a.buf
      → IsFaultless a.disk
      → Keeps a [] (flushed (send_raw valid_url snd) a)
  unfolding flushed
  flushed-Keeps a v h =
      let (j, f) =
        flush_buffer-Flushed (send_raw valid_url snd) (delivered-send_raw valid_url snd) a.buf
          a.network a.disk in
      record {
        same =
            subst (λ l. Perm l (held a ++ []))
              (sym (
                ap (λ t. t ++ (flushed (send_raw valid_url snd) a).buf.entries) f.arrived
                ∙ append_assoc (delivered a.network) f.sent _
                ∙ ap (λ t. delivered a.network ++ t) (sym f.split)
                ∙ sym (append-nil (held a))))
              (Perm.refl (held a ++ []));
        valid =
            flush_buffer-IsValid (send_raw valid_url snd) (delivered-send_raw valid_url snd) a.buf
              a.network a.disk v;
        faultless =
            flush_buffer-IsFaultless (send_raw valid_url snd) (delivered-send_raw valid_url snd)
              a.buf a.network a.disk h;
        same_limit = f.same_limit;
        grown = omega (
          arith,
          ap total f.split,
          total-append f.sent (flushed (send_raw valid_url snd) a).buf.entries,
        );
      }

  module _ {ℓ} {F : Type ℓ} (marshal : Heartbeat F → Option Bytes) (interval jitter : ℤ) where
    -- The payload of a tick goes to the server or to the end of the queue.
    own_send-Keeps :
        (text : Bytes) (a : Agent)
        → IsValid a.buf
        → IsFaultless a.disk
        → pos (total a.buf.entries + suc (length text)) ≤ℤ a.buf.max_bytes
        → Keeps a (text ∷ []) (
            after_send text
              (send_raw valid_url snd text a.network).0
              (record a { network = (send_raw valid_url snd text a.network).1 }))
    own_send-Keeps text a v h fits =
        let arrived = delivered-send_raw valid_url snd text a.network in
        elim (Option-cases (send_raw valid_url snd text a.network).0) [
          | inl ok ↦ rw ok (
              unfold after_send in
              record {
                same =
                    subst (λ l. Perm (l ++ a.buf.entries) (held a ++ text ∷ []))
                      (sym (arrived ∙ ap (λ t. delivered a.network ++ taken t text) ok))
                      (perm_own (delivered a.network) a.buf.entries text);
                valid = v;
                faultless = h;
                same_limit = refl;
                grown = omega arith;
              })
          | inr (e, refused) ↦
              let none_new =
                arrived ∙ ap (λ t. delivered a.network ++ taken t text) refused ∙ append-nil _ in
              let (done, added, h') = append-IsFaultless text a.buf a.disk v h fits in
              rw refused (
                unfold after_send in
                record {
                  same =
                      subst (λ l. Perm l (held a ++ text ∷ []))
                        (sym (
                          ap (λ l. l ++ (append text a.buf a.disk).1.entries) none_new
                          ∙ ap (λ (b : Buffer). delivered a.network ++ b.entries) added
                          ∙ ap (λ l. delivered a.network ++ l) (add_entry-entries text a.buf)
                          ∙ sym (append_assoc (delivered a.network) a.buf.entries (text ∷ []))))
                        (Perm.refl (held a ++ text ∷ []));
                  valid = append-IsValid text a.buf a.disk (omega (arith, fits, v.limit_small)) v;
                  faultless = h';
                  same_limit = ap (λ (b : Buffer). b.max_bytes) added ∙ add_entry-limit text a.buf;
                  grown = omega (
                    arith,
                    ap (λ (b : Buffer). total b.entries) added,
                    add_entry-total text a.buf,
                  );
                })
        ]

    tick_send-Keeps :
        (text : Bytes) (a : Agent)
        → IsValid a.buf
        → IsFaultless a.disk
        → pos (total a.buf.entries + suc (length text)) ≤ℤ a.buf.max_bytes
        → Keeps a (text ∷ []) (tick_send marshal valid_url interval jitter snd text a)
    unfolding tick_send flushed
    tick_send-Keeps text a v h fits =
        let b = flushed (send_raw valid_url snd) a in
        let k = flushed-Keeps a v h in
        let room : pos (total b.buf.entries + suc (length text)) ≤ℤ b.buf.max_bytes =
          rw k.same_limit (omega (arith, k.grown, fits)) in
        Keeps-trans a b _ [] (text ∷ []) k (own_send-Keeps text b k.valid k.faultless room)

    on_tick-Keeps :
        (c : Cycle F) (a : Agent) (r : Built)
        → build_of marshal valid_url interval jitter snd c ≡ r
        → IsValid a.buf
        → IsFaultless a.disk
        → pos (total a.buf.entries + total (text_of r)) ≤ℤ a.buf.max_bytes
        → Keeps a (text_of r) (on_tick marshal valid_url interval jitter snd c a)
    unfolding on_tick
    on_tick-Keeps c a (built text) e v h fits = rw e (
        Keeps-retimed a _ (text ∷ []) (next_interval interval jitter c.roll)
          (tick_send-Keeps text a v h (omega (arith, fits))))
    on_tick-Keeps c a (not_built err) e v h fits =
        rw e (Keeps-retimed a a [] (next_interval interval jitter c.roll) (unchanged-Keeps a v h))

    on_retry-Keeps :
        (a : Agent)
        → IsValid a.buf
        → IsFaultless a.disk
        → Keeps a [] (on_retry marshal valid_url interval jitter snd a)
    unfolding on_retry flushed
    on_retry-Keeps a v h =
        let k = flushed-Keeps a v h in
        record {
          same = k.same;
          valid = k.valid;
          faultless = k.faultless;
          same_limit = k.same_limit;
          grown = k.grown;
        }

    -- While the buffer was well formed at the start, no call on files fails and the limit has room
    -- for all that is queued and built, every run of the loop keeps the heartbeats: those that the
    -- server has taken and those that are queued are, in some order, those of the start and those
    -- that the ticks built, each as often; and the buffer stays well formed.
    pub run-Keeps :
        {a : Agent} {made : List Bytes} {a' : Agent}
        → Run marshal valid_url interval jitter snd a made a'
        → IsValid a.buf
        → IsFaultless a.disk
        → pos (total a.buf.entries + total made) ≤ℤ a.buf.max_bytes
        → Keeps a made a'
    run-Keeps {a} start v h fits = unchanged-Keeps a v h
    run-Keeps {a} (ticked {made} {b} r c on) v h fits =
        let own = text_of (build_of marshal valid_url interval jitter snd c) in
        let k = run-Keeps r v h (omega (arith, fits, total-append made own)) in
        let room : pos (total b.buf.entries + total own) ≤ℤ b.buf.max_bytes =
          rw k.same_limit (omega (arith, k.grown, fits, total-append made own)) in
        Keeps-trans a b _ made own k (on_tick-Keeps c b _ refl k.valid k.faultless room)
    run-Keeps {a} (retried {made} {b} r on ready) v h fits =
        let k = run-Keeps r v h fits in
        subst (λ l. Keeps a l (on_retry marshal valid_url interval jitter snd b)) (append-nil made)
          (Keeps-trans a b _ made [] k (on_retry-Keeps b k.valid k.faultless))
    run-Keeps {a} (stopped {made} {b} r on) v h fits = on_done-Keeps a b made (run-Keeps r v h fits)
