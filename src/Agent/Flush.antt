-- ===== src/Agent/Flush.antt =====
-- flushBuffer of internal/agent/agent.go: what it sends and what it keeps.
use nadi_agent.Prelude.{
  ℕ, zero, suc, ◌+◌, ◌<◌, ◌≡◌, ◌∙◌, ap, refl, sym, Bool, ◌⊎◌, inl, inr, Option, none, some, List,
  [], ◌∷◌, ◌++◌, Bytes, length, arith, append_assoc, append-nil, Option-cases, if_cases, ltb,
}
use nadi_agent.Buffer
use nadi_agent.Buffer.{Buffer}
use nadi_agent.Buffer.Invariant.{IsValid, pop-IsValid}
use nadi_agent.Buffer.Queue.{peek-nil, peek-cons, pop-cons}
use nadi_agent.Buffer.Faultless.{IsFaultless, persist-IsFaultless}
use nadi_agent.Disk.{Disk}
use nadi_agent.Network.{Network, delivered}
use nadi_agent.Sender.{SendError, Sender, send_raw}
use nadi_agent.Sender.Delivery.{taken, delivered-send_raw}
use nadi_agent.Agent.{flush_loop, flush_buffer}

-- What a flush leaves: a run `sent` of the oldest entries is with the server, the others are still
-- queued, and it ended because there are no others or because the first of them was refused.
pub record Flushed (send : Bytes → Network → Option SendError × Network) (b : Buffer) (n : Network)
    (b' : Buffer) (n' : Network) (flushed : ℕ) : Type 0 where
  pub sent : List Bytes
  pub split : b.entries ≡ sent ++ b'.entries
  pub counted : flushed ≡ length sent
  pub arrived : delivered n' ≡ delivered n ++ sent
  pub same_path : b'.path ≡ b.path
  pub same_limit : b'.max_bytes ≡ b.max_bytes
  pub ended :
      (b'.entries ≡ [])
      ⊎ ((oldest : Bytes) × (rest : List Bytes) × (m : Network) × (e : SendError) × (b'.entries
            ≡ oldest ∷ rest)
          × (send oldest m ≡ (some e, n')))

module _ (send : Bytes → Network → Option SendError × Network)
    (send-delivered : (text : Bytes) (n : Network)
      → delivered (send text n).1 ≡ delivered n ++ taken (send text n).0 text) where
  -- A flush of an entry, and a flush of the rest.
  send_one :
      (e : Bytes) (es : List Bytes) (b : Buffer) (n : Network) (b' : Buffer) (n' : Network) (k : ℕ)
      → b.entries ≡ e ∷ es
      → (send e n).0 ≡ none
      → Flushed send (Buffer.pop b).1 (send e n).1 b' n' k
      → Flushed send b n b' n' (suc k)
  send_one e es b n b' n' k p ok f =
      let popped = pop-cons e es b p in
      record {
        sent = e ∷ f.sent;
        split = p ∙ ap (λ t. e ∷ t) (ap (λ (t : Buffer). t.entries) (sym popped) ∙ f.split);
        counted = ap suc f.counted;
        arrived =
            f.arrived
            ∙ ap (λ t. t ++ f.sent) (send-delivered e n ∙ ap (λ t. delivered n ++ taken t e) ok)
            ∙ append_assoc (delivered n) (e ∷ []) f.sent;
        same_path = f.same_path ∙ ap (λ (t : Buffer). t.path) popped;
        same_limit = f.same_limit ∙ ap (λ (t : Buffer). t.max_bytes) popped;
        ended = f.ended;
      }

  send_none :
      (b : Buffer) (n n' : Network)
      → delivered n' ≡ delivered n
      → (b.entries ≡ [])
        ⊎ ((oldest : Bytes) × (rest : List Bytes) × (m : Network) × (e : SendError) × (b.entries
              ≡ oldest ∷ rest)
            × (send oldest m ≡ (some e, n')))
      → Flushed send b n b n' 0
  send_none b n n' same ended = record {
    sent = [];
    split = refl;
    counted = refl;
    arrived = same ∙ sym (append-nil (delivered n));
    same_path = refl;
    same_limit = refl;
    ended = ended;
  }

  -- `flushed` counts on from `k`.
  abbrev pub Counts : ℕ → Buffer → Network → Buffer × Network × ℕ → Type 0
  Counts k b n r = (j : ℕ) × (r.2 ≡ k + j) × Flushed send b n r.0 r.1 j

  pub flush_loop-Flushed :
      (fuel : ℕ) (es : List Bytes) (b : Buffer) (n : Network) (k : ℕ)
      → b.entries ≡ es
      → length es < fuel
      → Counts k b n (flush_loop send fuel b n k)
  unfolding flush_loop
  flush_loop-Flushed zero es b n k p h = absurd (omega arith)
  flush_loop-Flushed (suc fuel) [] b n k p h =
      rw (peek-nil b p, flush_loop) (0, omega arith, send_none b n n refl (inl p))
  flush_loop-Flushed (suc fuel) (e ∷ es) b n k p h = elim (Option-cases (send e n).0) [
    | inl ok ↦
        let (j, more, f) =
          flush_loop-Flushed fuel es (Buffer.pop b).1 (send e n).1 (k + 1)
            (ap (λ (t : Buffer). t.entries) (pop-cons e es b p)) (omega arith) in
        rw (peek-cons e es b p, ok, flush_loop)
          (suc j, omega (arith, more), send_one e es b n _ _ j p ok f)
    | inr (err, refused) ↦
        rw (peek-cons e es b p, refused, flush_loop)
          (
            0,
            omega arith,
            send_none b n (send e n).1
                (send-delivered e n
                  ∙ ap (λ t. delivered n ++ taken t e) refused
                  ∙ append-nil (delivered n))
                (inr (e, es, n, err, p, ap (λ t. (t, (send e n).1)) refused)),
          )
  ]

  pub flush_buffer-Flushed :
      (b : Buffer) (n : Network) (d : Disk)
      → (j : ℕ) × Flushed send b n (flush_buffer send b n d).0 (flush_buffer send b n d).1 j
  unfolding flush_buffer Buffer.len
  flush_buffer-Flushed b n d =
      let (j, _, f) = flush_loop-Flushed (suc (Buffer.len b)) b.entries b n 0 refl (omega arith) in
      (j, f)

  flush_loop-IsValid :
      (fuel : ℕ) (b : Buffer) (n : Network) (k : ℕ)
      → IsValid b
      → IsValid (flush_loop send fuel b n k).0
  unfolding flush_loop
  flush_loop-IsValid zero b n k v = v
  flush_loop-IsValid (suc fuel) b n k v = elim (Option-cases (Buffer.peek b)) [
    | inl empty ↦ rw (empty, flush_loop) v
    | inr (e, top) ↦ elim (Option-cases (send e n).0) [
      | inl ok ↦
          rw (top, ok, flush_loop)
            (flush_loop-IsValid fuel (Buffer.pop b).1 (send e n).1 (k + 1) (pop-IsValid b v))
      | inr (err, refused) ↦ rw (top, refused, flush_loop) v
    ]
  ]

  pub flush_buffer-IsValid :
      (b : Buffer) (n : Network) (d : Disk) → IsValid b → IsValid (flush_buffer send b n d).0
  unfolding flush_buffer
  flush_buffer-IsValid b n d v = flush_loop-IsValid (suc (Buffer.len b)) b n 0 v

  pub flush_buffer-IsFaultless :
      (b : Buffer) (n : Network) (d : Disk)
      → IsFaultless d
      → IsFaultless (flush_buffer send b n d).2
  unfolding flush_buffer
  flush_buffer-IsFaultless b n d h =
      let (b', n', flushed) = flush_loop send (suc (Buffer.len b)) b n 0 in
      if_cases IsFaultless (ltb 0 flushed) _ _ (λ _. (persist-IsFaultless b' d h).1) (λ _. h)

-- flushBuffer sends a run of the oldest entries, each with a 2xx reply and in their order, keeps the
-- others, and ends only where none is left or the next one is refused.
pub flush_sends_oldest :
    (valid_url : Bytes → Bool) (snd : Sender) (b : Buffer) (n : Network) (d : Disk)
    → (j : ℕ) × Flushed
        (send_raw valid_url snd)
        b
        n
        (flush_buffer (send_raw valid_url snd) b n d).0
        (flush_buffer (send_raw valid_url snd) b n d).1
        j
flush_sends_oldest valid_url snd b n d =
    flush_buffer-Flushed (send_raw valid_url snd) (delivered-send_raw valid_url snd) b n d
