-- ===== src/Agent/Rounds.antt =====
-- The rounds of the loop of flushBuffer in internal/agent/agent.go.
use nadi_agent.Prelude.{
  ℕ, zero, suc, ◌+◌, ◌<◌, ◌≡◌, ap, refl, inl, inr, Option, List, [], ◌∷◌, Bytes, length, arith,
  Option-cases,
}
use nadi_agent.Buffer
use nadi_agent.Buffer.{Buffer}
use nadi_agent.Buffer.Queue.{peek-nil, peek-cons, pop-cons}
use nadi_agent.Network.{Network}
use nadi_agent.Sender.{SendError}
use nadi_agent.Agent.{flush_loop}

module _ (send : Bytes → Network → Option SendError × Network) where
  -- Two bounds that are both above the length of the queue.
  flush_loop-bounds :
      (fuel fuel' : ℕ) (es : List Bytes) (b : Buffer) (n : Network) (k : ℕ)
      → b.entries ≡ es
      → length es < fuel
      → length es < fuel'
      → flush_loop send fuel b n k ≡ flush_loop send fuel' b n k
  unfolding flush_loop
  flush_loop-bounds zero fuel' es b n k p h h' = absurd (omega arith)
  flush_loop-bounds (suc fuel) zero es b n k p h h' = absurd (omega arith)
  flush_loop-bounds (suc fuel) (suc fuel') [] b n k p h h' = rw (peek-nil b p, flush_loop) refl
  flush_loop-bounds (suc fuel) (suc fuel') (e ∷ es) b n k p h h' =
      elim (Option-cases (send e n).0) [
        | inl ok ↦
            rw (peek-cons e es b p, ok, flush_loop)
              (flush_loop-bounds fuel fuel' es (Buffer.pop b).1 (send e n).1 (k + 1)
                (ap (λ (t : Buffer). t.entries) (pop-cons e es b p)) (omega arith) (omega arith))
        | inr (err, refused) ↦ rw (peek-cons e es b p, refused, flush_loop) refl
      ]

-- The loop of flushBuffer, run for at most so many rounds, gives the same queue, network and count for
-- every number of rounds above the number of entries that are queued: it has returned by itself.
pub flush_loop-ends :
    (send : Bytes → Network → Option SendError × Network) (b : Buffer) (n : Network)
    (flushed more : ℕ)
    → flush_loop send (suc (Buffer.len b) + more) b n flushed
      ≡ flush_loop send (suc (Buffer.len b)) b n flushed
unfolding Buffer.len
flush_loop-ends send b n flushed more =
    flush_loop-bounds send (suc (Buffer.len b) + more) (suc (Buffer.len b)) b.entries b n flushed
      refl (omega arith) (omega arith)
