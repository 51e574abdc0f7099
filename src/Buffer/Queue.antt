-- ===== src/Buffer/Queue.antt =====
-- The buffer of internal/buffer/buffer.go as a bounded queue: Append, Peek and Pop.
use nadi_agent.Prelude.{
  suc, ◌^◌, ◌<◌, ◌≡◌, refl, sym, none, some, List, [], ◌∷◌, ◌++◌, Bytes, length,
}
use nadi_agent.Int64.{sub64, pos, ◌≤ℤ◌, ◌<ℤ◌}
use nadi_agent.Disk.{Disk}
use nadi_agent.Buffer.{
  Buffer, add_entry, append, append_file, line, pop, peek, pop_entry, entry_size,
}
use nadi_agent.Buffer.Trim.{IsNewestFitting, fit-IsNewestFitting, fit-last}
use nadi_agent.Buffer.Invariant.{IsValid, trimmed, append-trimmed, cannot_fit}

-- Append of an entry that fits the limit by itself to a well-formed buffer, where the file could be
-- written: the entries are the newest of the old ones and the new one that fit together, as many as
-- fit, and the new one is the last of them.
pub append-newest :
    (e : Bytes) (b : Buffer) (d : Disk)
    → IsValid b
    → pos (suc (length e)) ≤ℤ b.max_bytes
    → (append_file b.path (line e) d).0 ≡ none
    → IsNewestFitting b.max_bytes (b.entries ++ e ∷ []) (append e b d).1.entries
      × ((kept : List Bytes) × ((append e b d).1.entries ≡ kept ++ e ∷ []))
append-newest e b d v fits written = rw (append-trimmed e b d v fits written) (
    unfold trimmed add_entry in
    (fit-IsNewestFitting b.max_bytes (b.entries ++ e ∷ []), fit-last b.max_bytes b.entries e fits))

-- Append of an entry that can never fit reports no error and changes neither the buffer nor the disk.
append_oversized :
    (e : Bytes) (b : Buffer) (d : Disk)
    → suc (length e) < 2 ^ 63
    → b.max_bytes <ℤ pos (suc (length e))
    → append e b d ≡ (none, b, d)
unfolding append
append_oversized e b d small over = rw (cannot_fit e b small over)

peek-pop_entry : (es : List Bytes) (b : Buffer) → b.entries ≡ es → peek b ≡ (pop_entry es b).0
unfolding peek pop_entry
peek-pop_entry [] b p = rw p
peek-pop_entry (e ∷ es) b p = rw p

-- Pop returns what Peek shows.
pub pop-peek : (b : Buffer) → (pop b).0 ≡ peek b
unfolding pop
pop-peek b = sym (peek-pop_entry b.entries b refl)

pub peek-nil : (b : Buffer) → b.entries ≡ [] → peek b ≡ none
unfolding peek
peek-nil b p = rw p

pub peek-cons : (e : Bytes) (es : List Bytes) (b : Buffer) → b.entries ≡ e ∷ es → peek b ≡ some e
unfolding peek
peek-cons e es b p = rw p

pub pop-cons :
    (e : Bytes) (es : List Bytes) (b : Buffer)
    → b.entries ≡ e ∷ es
    → (pop b).1 ≡ record b { entries = es; size = sub64 b.size (entry_size e) }
unfolding pop
pop-cons e es b p = rw (p, pop_entry)
