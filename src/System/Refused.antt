-- ===== src/System/Refused.antt =====
-- A queue of internal/agent/agent.go whose oldest entry the server of cmd/mockserver/main.go cannot read.
use mathlib.Core.HLevel.{⊥_prop}
use mathlib.Core.List.{Mem, exists_of_mem-map}
use mathlib.Core.Logic.{∥∥₁_elim}
use mathlib.Core.Path.{subst}
use nadi_agent.Prelude.{◌+◌, ◌≡◌, Bool, inl, inr, Option, none, some, List, ◌∷◌, ◌++◌, Bytes, map}
use nadi_agent.Int64.{ℤ, pos, ◌≤ℤ◌}
use nadi_agent.Buffer.Trim.{total}
use nadi_agent.Buffer.Invariant.{IsValid}
use nadi_agent.Buffer.Faultless.{IsFaultless}
use nadi_agent.Payload.{Heartbeat}
use nadi_agent.Sender.{Sender}
use nadi_agent.MockServer.{Recorder}
use nadi_agent.MockServer.Serve.{Served}
use nadi_agent.Agent.{Agent, Run}
use nadi_agent.Agent.Blocked.{run-IsBlocked}
use nadi_agent.System.Lossless.{delivered-IsRecorded}

none_not {ℓ} : {A : Type ℓ} (xs : List A) → ¬ (Mem none (map some xs))
none_not xs m = ∥∥₁_elim (exists_of_mem-map {f = some} m) ⊥_prop (λ (x, i, e). cc)

module _ {ℓ} {F : Type ℓ} (decode : Bytes → Option (Heartbeat F)) (query : Bytes → Bytes → Bytes)
    (marshal : Heartbeat F → Option Bytes) (valid_url : Bytes → Bool) (interval jitter : ℤ)
    (snd : Sender) where
  -- An oldest entry that the server cannot read holds up all that is queued behind it, for ever: in every
  -- state of a run that starts with it, it is still the oldest, and all that was behind it is still there,
  -- however many retries there were and whichever requests and replies are lost. The buffer was well
  -- formed at the start, no call on files fails, and the limit has room for all that is queued and built.
  pub run_refused :
      {a : Agent} {texts : List Bytes} {a' : Agent} {r r' : Recorder F} (oldest : Bytes)
      (behind : List Bytes)
      → Run marshal valid_url interval jitter snd a texts a'
      → Served decode query r a'.network.posted r'
      → decode oldest ≡ none
      → IsValid a.buf
      → IsFaultless a.disk
      → pos (total a.buf.entries + total texts) ≤ℤ a.buf.max_bytes
      → a.buf.entries ≡ oldest ∷ behind
      → (added : List Bytes) × (a'.buf.entries ≡ oldest ∷ (behind ++ added))
  run_refused {a' = a'} {r' = r'} oldest behind run served unread v ok fits e =
      elim (run-IsBlocked oldest behind valid_url snd marshal interval jitter run v ok fits e) [
        | inl queued ↦ queued
        | inr taken ↦ absurd (
            none_not r'.received (
              subst (λ o. Mem o (map some r'.received)) unread
                (delivered-IsRecorded decode query a'.network oldest served taken)))
      ]
