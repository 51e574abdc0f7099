-- ===== src/Agent/Path.antt =====
-- The file of the buffer of internal/buffer/buffer.go is the same in every state of the loop in
-- internal/agent/agent.go.
use nadi_agent.Prelude.{
  ◌≡◌, ◌∙◌, refl, Bool, inl, inr, Option, none, some, Option-cases, List, Bytes, Bool-cases,
  if_cases,
}
use nadi_agent.Int64.{ℤ, ltb_ℤ}
use nadi_agent.Disk.{Disk}
use nadi_agent.Buffer.{
  Error, Buffer, entry_size, add_entry, drop_oldest_to_fit, trim, append_file, line, append,
}
use nadi_agent.Payload.{Heartbeat}
use nadi_agent.Sender.{Sender, SendError, Built, built, not_built, send_raw}
use nadi_agent.Sender.Delivery.{delivered-send_raw}
use nadi_agent.Agent.{
  Agent, Cycle, Run, start, ticked, retried, stopped, after_send, tick_send, on_tick, on_retry,
  on_done, build_of,
}
use nadi_agent.Agent.Flush.{flush_buffer-Flushed}
use nadi_agent.Agent.Held.{flushed}

trim_path : (b : Buffer) (d : Disk) → (trim b d).1.path ≡ b.path
unfolding trim drop_oldest_to_fit
trim_path b d =
    if_cases (λ (x : Option Error × Buffer × Disk). x.1.path ≡ b.path) (drop_oldest_to_fit b).0 _ _
      (λ dropped. refl) (λ kept. refl)

append_path : (e : Bytes) (b : Buffer) (d : Disk) → (append e b d).1.path ≡ b.path
unfolding append
append_path e b d = elim (Bool-cases (ltb_ℤ b.max_bytes (entry_size e))) [
  | inl over ↦ rw (over, append) refl
  | inr fits ↦ elim (Option-cases (append_file b.path (line e) d).0) [
    | inl written ↦
        rw (fits, written, append)
          (trim_path (add_entry e b) (append_file b.path (line e) d).1 ∙ (unfold add_entry in refl))
    | inr (err, failed) ↦ rw (fits, failed, append) refl
  ]
]

module _ {ℓ} {F : Type ℓ} (marshal : Heartbeat F → Option Bytes) (valid_url : Bytes → Bool)
    (interval jitter : ℤ) (snd : Sender) where
  pub flushed_path : (a : Agent) → (flushed (send_raw valid_url snd) a).buf.path ≡ a.buf.path
  unfolding flushed
  flushed_path a =
      (flush_buffer-Flushed (send_raw valid_url snd) (delivered-send_raw valid_url snd) a.buf
        a.network a.disk).1.same_path

  after_send_path :
      (text : Bytes) (err : Option SendError) (a : Agent)
      → (after_send text err a).buf.path ≡ a.buf.path
  unfolding after_send
  after_send_path text none a = refl
  after_send_path text (some e) a = append_path text a.buf a.disk

  on_tick_path :
      (c : Cycle F) (a : Agent) (r : Built)
      → build_of marshal valid_url interval jitter snd c ≡ r
      → (on_tick marshal valid_url interval jitter snd c a).buf.path ≡ a.buf.path
  unfolding on_tick tick_send flushed
  on_tick_path c a (built text) e =
      let b = flushed (send_raw valid_url snd) a in
      rw (e, on_tick)
        (after_send_path text (send_raw valid_url snd text b.network).0
            (record b { network = (send_raw valid_url snd text b.network).1 })
          ∙ flushed_path a)
  on_tick_path c a (not_built err) e = rw (e, on_tick) refl

  on_retry_path :
      (a : Agent) → (on_retry marshal valid_url interval jitter snd a).buf.path ≡ a.buf.path
  unfolding on_retry flushed
  on_retry_path a = flushed_path a

  on_done_path : (a : Agent) → (on_done a).buf.path ≡ a.buf.path
  unfolding on_done
  on_done_path a = refl

  pub run_path :
      {a : Agent} {texts : List Bytes} {a' : Agent}
      → Run marshal valid_url interval jitter snd a texts a'
      → a'.buf.path ≡ a.buf.path
  run_path start = refl
  run_path (ticked {b = b} r c on) = on_tick_path c b _ refl ∙ run_path r
  run_path (retried {b = b} r on ready) = on_retry_path b ∙ run_path r
  run_path (stopped {b = b} r on) = on_done_path b ∙ run_path r
