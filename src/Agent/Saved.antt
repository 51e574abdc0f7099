-- ===== src/Agent/Saved.antt =====
-- The file of the queue behind a flush of internal/agent/agent.go.
use mathlib.Core.Path.{subst}
use nadi_agent.Prelude.{
  suc, ◌≡◌, ◌∙◌, ap, refl, sym, Option, List, [], ◌∷◌, ◌++◌, Bytes, length, arith, ltb, if_cases,
  All, All-append_inv,
}
use nadi_agent.Disk.{Disk, contents}
use nadi_agent.Buffer
use nadi_agent.Buffer.{Buffer, append, persist, fresh, max_line}
use nadi_agent.Buffer.File.{jsonl}
use nadi_agent.Buffer.Durable.{IsSaved, persist-IsSaved}
use nadi_agent.Buffer.Faultless.{IsFaultless, persist-IsFaultless}
use nadi_agent.Buffer.Reload.{IsLine}
use nadi_agent.Network.{Network, delivered}
use nadi_agent.Sender.{SendError}
use nadi_agent.Sender.Delivery.{taken}
use nadi_agent.Agent.{flush_loop, flush_buffer}
use nadi_agent.Agent.Flush.{flush_loop-Flushed, flush_buffer-Flushed}

-- The file holds the queue, and each entry is one line that a scanner can take.
abbrev pub Stored : Buffer → Disk → Type 0
Stored b d = IsSaved b d × All (IsLine max_line) b.entries

-- The same entries at the same path.
same-IsSaved :
    (b b' : Buffer) (d : Disk)
    → b'.path ≡ b.path
    → b'.entries ≡ b.entries
    → IsSaved b d
    → IsSaved b' d
same-IsSaved b b' d p e saved = ap (λ q. contents (d.files q)) p ∙ saved ∙ ap jsonl (sym e)

none_sent : (sent rest : List Bytes) → length sent ≡ 0 → rest ≡ sent ++ rest
none_sent [] rest h = refl
none_sent (s ∷ sent) rest h = absurd (omega arith)

module _ (send : Bytes → Network → Option SendError × Network)
    (send-delivered : (text : Bytes) (n : Network)
      → delivered (send text n).1 ≡ delivered n ++ taken (send text n).0 text) where
  flush_buffer-IsSaved :
      (b : Buffer) (n : Network) (d : Disk)
      → IsFaultless d
      → IsSaved b d
      → IsSaved (flush_buffer send b n d).0 (flush_buffer send b n d).2
  unfolding flush_buffer Buffer.len
  flush_buffer-IsSaved b n d h saved =
      let (j, counted, f) =
        flush_loop-Flushed send send-delivered (suc (length b.entries)) b.entries b n 0 refl
          (omega arith) in
      let r = flush_loop send (suc (length b.entries)) b n 0 in
      if_cases (IsSaved r.0) (ltb 0 r.2) _ _
        (λ on. persist-IsSaved r.0 d (persist-IsFaultless r.0 d h).0)
        (λ off.
          same-IsSaved b r.0 d f.same_path
            (none_sent f.sent r.0.entries (ground (arith, off, counted, f.counted)) ∙ sym f.split)
            saved)

  pub flush_buffer-Stored :
      (b : Buffer) (n : Network) (d : Disk)
      → IsFaultless d
      → Stored b d
      → Stored (flush_buffer send b n d).0 (flush_buffer send b n d).2
  flush_buffer-Stored b n d h (saved, lines) =
      let (j, f) = flush_buffer-Flushed send send-delivered b n d in
      (
        flush_buffer-IsSaved b n d h saved,
        (All-append_inv (IsLine max_line) f.sent (flush_buffer send b n d).0.entries
            (subst (All (IsLine max_line)) f.split lines)).1,
      )
