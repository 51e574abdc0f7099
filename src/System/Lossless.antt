-- ===== src/System/Lossless.antt =====
-- What the ticks of internal/agent/agent.go build is recorded by the server of cmd/mockserver/main.go
-- or waits in the queue.
use mathlib.Core.List.{Mem, mem-append, mem-append_left, mem-append_right, mem-map_of_mem}
use mathlib.Core.List.Perm
use mathlib.Core.Logic.{◌∨₁◌}
use mathlib.Core.Logic.Or
use mathlib.Core.Path.{subst}
use nadi_agent.Prelude.{◌+◌, sym, Bool, Option, some, List, [], ◌∷◌, ◌++◌, Bytes, map, append_assoc}
use nadi_agent.Int64.{ℤ, pos, ◌≤ℤ◌}
use nadi_agent.Buffer.Trim.{total}
use nadi_agent.Buffer.Invariant.{IsValid}
use nadi_agent.Buffer.Faultless.{IsFaultless}
use nadi_agent.Network.{Network, Request, Reply, delivered}
use nadi_agent.Payload.{Heartbeat}
use nadi_agent.Sender.{Sender}
use nadi_agent.MockServer.{Recorder}
use nadi_agent.MockServer.Serve.{Sublist, nil, skip, keep, Served, Served-recorded, map-append}
use nadi_agent.Agent.{Agent, Run}
use nadi_agent.Agent.Held.{held}
use nadi_agent.Agent.Conserve.{run-Keeps}

Sublist-Mem {ℓ} : {A : Type ℓ} {xs ys : List A} (x : A) → Sublist xs ys → Mem x xs → Mem x ys
Sublist-Mem x nil m = m
Sublist-Mem x (skip y h) m = mem-append_left (y ∷ []) (Sublist-Mem x h m)
Sublist-Mem x (keep {xs} {ys} y h) m =
    mem-append.1
      (Or.imp (Sublist-Mem x h) (λ i. i) ((mem-append {a = x} {s = xs} {t = y ∷ []}).0 m))

module _ {ℓ} {F : Type ℓ} (decode : Bytes → Option (Heartbeat F)) where
  -- What the server has recorded, as its decoder reads it.
  abbrev pub IsRecorded : Bytes → Recorder F → Type ℓ
  IsRecorded text r = Mem (decode text) (map some r.received)

  module _ (query : Bytes → Bytes → Bytes) where
    -- The recorder keeps what it has.
    pub Served-IsRecorded :
        {r : Recorder F} {l : List (Request × Reply)} {r' : Recorder F} (text : Bytes)
        → Served decode query r l r'
        → IsRecorded text r
        → IsRecorded text r'
    Served-IsRecorded {r} text served m =
        let (new, grown, sub) = Served-recorded decode query served in
        subst (λ l. Mem (decode text) (map some l)) (sym grown)
          (subst (Mem (decode text)) (sym (map-append some r.received new))
            (mem-append_left (map some new) m))

    pub delivered-IsRecorded :
        (n : Network) {r r' : Recorder F} (text : Bytes)
        → Served decode query r n.posted r'
        → Mem text (delivered n)
        → IsRecorded text r'
    delivered-IsRecorded n {r} text served m =
        let (new, grown, sub) = Served-recorded decode query served in
        subst (λ l. Mem (decode text) (map some l)) (sym grown)
          (subst (Mem (decode text)) (sym (map-append some r.received new)) (
            mem-append_right (map some r.received)
              (Sublist-Mem (decode text) sub (mem-map_of_mem decode m))))

module _ {ℓ} {F : Type ℓ} (decode : Bytes → Option (Heartbeat F)) (query : Bytes → Bytes → Bytes)
    (marshal : Heartbeat F → Option Bytes) (valid_url : Bytes → Bool) (interval jitter : ℤ)
    (snd : Sender) where
  -- Every heartbeat that was queued at the start of a run or that one of its ticks built is still queued
  -- or stands in the recorder of the server, whichever requests and replies are lost. The buffer was well
  -- formed at the start, no call on files fails, and the limit has room for all that is queued and built.
  pub run-IsRecorded :
      {a : Agent} {texts : List Bytes} {a' : Agent} {r r' : Recorder F}
      → Run marshal valid_url interval jitter snd a texts a'
      → Served decode query r a'.network.posted r'
      → IsValid a.buf
      → IsFaultless a.disk
      → pos (total a.buf.entries + total texts) ≤ℤ a.buf.max_bytes
      → (text : Bytes) → Mem text (a.buf.entries ++ texts)
      → Mem text a'.buf.entries ∨₁ IsRecorded decode text r'
  run-IsRecorded {a} {texts} {a'} run served v h fits text m =
      let k = run-Keeps valid_url snd marshal interval jitter run v h fits in
      let all : Mem text (held a ++ texts) =
        subst (Mem text) (sym (append_assoc (delivered a.network) a.buf.entries texts))
          (mem-append_right (delivered a.network) m) in
      Or.symm (
        Or.imp (delivered-IsRecorded decode query a'.network text served) (λ i. i)
          (mem-append.0 ((Perm.mem_iff k.same).1 all)))
