-- ===== src/Agent/Restart.antt =====
-- What a restart finds behind any number of events of the loop in internal/agent/agent.go.
use mathlib.Core.List.{Perm}
use mathlib.Core.Path.{subst}
use nadi_agent.Prelude.{
  suc, ◌+◌, ◌≡◌, ◌∙◌, ap, refl, sym, Bool, Option, none, some, List, [], ◌∷◌, ◌++◌, Bytes, length,
  arith, All, All-append, All-append_inv,
}
use nadi_agent.Int64.{ℤ, pos, ◌≤ℤ◌}
use nadi_agent.Disk.{Disk}
use nadi_agent.Buffer
use nadi_agent.Buffer.{Buffer, append, persist, fresh, max_line}
use nadi_agent.Buffer.Trim.{total, total-append}
use nadi_agent.Buffer.Invariant.{IsValid, add_entry-entries}
use nadi_agent.Buffer.Durable.{append-IsSaved}
use nadi_agent.Buffer.Faultless.{IsFaultless, append-IsFaultless}
use nadi_agent.Buffer.Reload.{IsLine, healthy, new-saved}
use nadi_agent.Payload.{Heartbeat}
use nadi_agent.Sender.{Sender, SendError, Built, built, not_built, send_raw}
use nadi_agent.Sender.Delivery.{delivered-send_raw}
use nadi_agent.Agent.{
  Agent, Cycle, Run, start, ticked, retried, stopped, after_send, tick_send, on_tick, on_retry,
  on_done, build_of, text_of,
}
use nadi_agent.Agent.Held.{held, flushed}
use nadi_agent.Agent.Conserve.{run-Keeps, flushed-Keeps}
use nadi_agent.Agent.Saved.{Stored, flush_buffer-Stored}

module _ {ℓ} {F : Type ℓ} (marshal : Heartbeat F → Option Bytes) (valid_url : Bytes → Bool)
    (interval jitter : ℤ) (snd : Sender) where
  -- The heartbeat that is not taken is added to the queue and to the file.
  append-Stored :
      (text : Bytes) (b : Buffer) (d : Disk)
      → IsValid b
      → IsFaultless d
      → pos (total b.entries + suc (length text)) ≤ℤ b.max_bytes
      → IsLine max_line text
      → Stored b d
      → Stored (append text b d).1 (append text b d).2
  append-Stored text b d v h fits one_line (saved, lines) =
      let (done, added, h') = append-IsFaultless text b d v h fits in
      (
        append-IsSaved text b d (omega (arith, fits, v.limit_small)) v saved done,
        subst (All (IsLine max_line))
            (sym (ap (λ (t : Buffer). t.entries) added ∙ add_entry-entries text b))
            (All-append (IsLine max_line) b.entries (text ∷ []) lines (one_line, tt)),
      )

  after_send-Stored :
      (text : Bytes) (err : Option SendError) (a : Agent)
      → IsValid a.buf
      → IsFaultless a.disk
      → pos (total a.buf.entries + suc (length text)) ≤ℤ a.buf.max_bytes
      → IsLine max_line text
      → Stored a.buf a.disk
      → Stored (after_send text err a).buf (after_send text err a).disk
  unfolding after_send
  after_send-Stored text none a v h fits one_line stored = stored
  after_send-Stored text (some e) a v h fits one_line stored =
      append-Stored text a.buf a.disk v h fits one_line stored

  pub flushed-Stored :
      (a : Agent)
      → IsFaultless a.disk
      → Stored a.buf a.disk
      → Stored (flushed (send_raw valid_url snd) a).buf (flushed (send_raw valid_url snd) a).disk
  unfolding flushed
  flushed-Stored a h stored =
      flush_buffer-Stored (send_raw valid_url snd) (delivered-send_raw valid_url snd) a.buf
        a.network a.disk h stored

  tick_send-Stored :
      (text : Bytes) (a : Agent)
      → IsValid a.buf
      → IsFaultless a.disk
      → pos (total a.buf.entries + suc (length text)) ≤ℤ a.buf.max_bytes
      → IsLine max_line text
      → Stored a.buf a.disk
      → Stored
          (tick_send marshal valid_url interval jitter snd text a).buf
          (tick_send marshal valid_url interval jitter snd text a).disk
  unfolding tick_send flushed
  tick_send-Stored text a v h fits one_line stored =
      let b = flushed (send_raw valid_url snd) a in
      let k = flushed-Keeps valid_url snd a v h in
      let room : pos (total b.buf.entries + suc (length text)) ≤ℤ b.buf.max_bytes =
        rw k.same_limit (omega (arith, k.grown, fits)) in
      after_send-Stored text _ (record b { network = (send_raw valid_url snd text b.network).1 })
        k.valid k.faultless room one_line (flushed-Stored a h stored)

  on_tick-Stored :
      (c : Cycle F) (a : Agent) (r : Built)
      → build_of marshal valid_url interval jitter snd c ≡ r
      → IsValid a.buf
      → IsFaultless a.disk
      → pos (total a.buf.entries + total (text_of r)) ≤ℤ a.buf.max_bytes
      → All (IsLine max_line) (text_of r)
      → Stored a.buf a.disk
      → Stored
          (on_tick marshal valid_url interval jitter snd c a).buf
          (on_tick marshal valid_url interval jitter snd c a).disk
  unfolding on_tick
  on_tick-Stored c a (built text) e v h fits (one_line, _) stored =
      rw (e, on_tick) (tick_send-Stored text a v h (omega (arith, fits)) one_line stored)
  on_tick-Stored c a (not_built err) e v h fits lines stored = rw (e, on_tick) stored

  on_retry-Stored :
      (a : Agent)
      → IsFaultless a.disk
      → Stored a.buf a.disk
      → Stored
          (on_retry marshal valid_url interval jitter snd a).buf
          (on_retry marshal valid_url interval jitter snd a).disk
  unfolding on_retry flushed
  on_retry-Stored a h stored = flushed-Stored a h stored

  on_done-Stored : (a : Agent) → Stored a.buf a.disk → Stored (on_done a).buf (on_done a).disk
  unfolding on_done
  on_done-Stored a stored = stored

  -- In every state of a run the file holds the queue.
  pub run-Stored :
      {a : Agent} {texts : List Bytes} {a' : Agent}
      → Run marshal valid_url interval jitter snd a texts a'
      → IsValid a.buf
      → IsFaultless a.disk
      → pos (total a.buf.entries + total texts) ≤ℤ a.buf.max_bytes
      → All (IsLine max_line) texts
      → Stored a.buf a.disk
      → Stored a'.buf a'.disk
  run-Stored {a} start v h fits lines stored = stored
  run-Stored {a} (ticked {made = texts} {b = b} r c on) v h fits lines stored =
      let own = text_of (build_of marshal valid_url interval jitter snd c) in
      let (before, last) = All-append_inv (IsLine max_line) texts own lines in
      let earlier : pos (total a.buf.entries + total texts) ≤ℤ a.buf.max_bytes =
        omega (arith, fits, total-append texts own) in
      let k = run-Keeps valid_url snd marshal interval jitter r v h earlier in
      let room : pos (total b.buf.entries + total own) ≤ℤ b.buf.max_bytes =
        rw k.same_limit (omega (arith, k.grown, fits, total-append texts own)) in
      on_tick-Stored c b _ refl k.valid k.faultless room last
        (run-Stored r v h earlier before stored)
  run-Stored {a} (retried {made = texts} {b = b} r on ready) v h fits lines stored =
      let k = run-Keeps valid_url snd marshal interval jitter r v h fits in
      on_retry-Stored b k.faultless (run-Stored r v h fits lines stored)
  run-Stored {a} (stopped {made = texts} {b = b} r on) v h fits lines stored =
      on_done-Stored b (run-Stored r v h fits lines stored)

  -- A restart loses nothing. Behind any number of events of the loop, a new start with the same settings
  -- finds in the file exactly the queue, in its order, and with what the server has taken it is, in some
  -- order, what was held at the start of the run and what its ticks built, each as often. At the start of
  -- the run the buffer was well formed and saved, with the limit of the settings; no call on files fails,
  -- the limit has room for all that is queued and built, and each of those is one line of the file.
  new-Run :
      {a : Agent} {texts : List Bytes} {a' : Agent} (max_size_mb : ℤ)
      → Run marshal valid_url interval jitter snd a texts a'
      → IsValid a.buf
      → IsFaultless a.disk
      → pos (total a.buf.entries + total texts) ≤ℤ a.buf.max_bytes
      → All (IsLine max_line) texts
      → Stored a.buf a.disk
      → a.buf.max_bytes ≡ (fresh a.buf.path max_size_mb).max_bytes
      → (Buffer.new a'.buf.path max_size_mb (healthy a'.disk.files)
          ≡ (Buffer.made a'.buf, healthy a'.disk.files))
        × Perm (held a') (held a ++ texts)
  new-Run {a' = a'} max_size_mb r v h fits lines stored limit =
      let k = run-Keeps valid_url snd marshal interval jitter r v h fits in
      let (saved, one_line) = run-Stored r v h fits lines stored in
      (
        new-saved a'.buf max_size_mb a'.disk.files k.valid one_line (k.same_limit ∙ limit) saved,
        k.same,
      )
