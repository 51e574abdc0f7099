-- ===== src/Buffer/Faultless.antt =====
-- The operations of internal/buffer/buffer.go on a disk where no call fails.
use nadi_agent.Prelude.{suc, ◌+◌, ◌≡◌, refl, true, none, List, [], ◌∷◌, Bytes, arith, length}
use nadi_agent.Int64.{pos, ◌≤ℤ◌}
use nadi_agent.Disk.{Disk, open_append, open_trunc, write, close, rename}
use nadi_agent.Buffer.{
  Buffer, temp, line, write_entries, replace_file, write_all, append_file, append, add_entry,
  persist,
}
use nadi_agent.Buffer.Invariant.{IsValid}
use nadi_agent.Buffer.Trim.{total}
use nadi_agent.Buffer.Torn.{append_fits}

abbrev pub IsFaultless : Disk → Type 0
IsFaultless d = d.faults ≡ []

write-IsFaultless :
    (p s : Bytes) (d : Disk)
    → IsFaultless d
    → ((write p s d).0 ≡ true) × IsFaultless (write p s d).1
unfolding write
write-IsFaultless p s d h = ground arith

write_entries-IsFaultless :
    (p : Bytes) (es : List Bytes) (d : Disk)
    → IsFaultless d
    → ((write_entries p es d).0 ≡ true) × IsFaultless (write_entries p es d).1
unfolding write_entries
write_entries-IsFaultless p [] d h = (refl, h)
write_entries-IsFaultless p (e ∷ es) d h =
    let (ok, h') = write-IsFaultless p (line e) d h in
    rw (ok, write_entries) (write_entries-IsFaultless p es (write p (line e) d).1 h')

replace_file-IsFaultless :
    (tmp path : Bytes) (d : Disk)
    → IsFaultless d
    → ((replace_file tmp path d).0 ≡ none) × IsFaultless (replace_file tmp path d).1
unfolding replace_file close rename
replace_file-IsFaultless tmp path d h = ground arith

open_trunc-IsFaultless :
    (p : Bytes) (d : Disk)
    → IsFaultless d
    → ((open_trunc p d).0 ≡ true) × IsFaultless (open_trunc p d).1
unfolding open_trunc
open_trunc-IsFaultless p d h = ground arith

pub persist-IsFaultless :
    (b : Buffer) (d : Disk) → IsFaultless d → ((persist b d).0 ≡ none) × IsFaultless (persist b d).1
unfolding persist write_all
persist-IsFaultless b d h =
    let (made, h1) = open_trunc-IsFaultless (temp b.path) d h in
    let (ok, h2) =
      write_entries-IsFaultless (temp b.path) b.entries (open_trunc (temp b.path) d).1 h1 in
    rw (made, ok) (replace_file-IsFaultless (temp b.path) b.path _ h2)

append_file-IsFaultless :
    (p s : Bytes) (d : Disk)
    → IsFaultless d
    → ((append_file p s d).0 ≡ none) × IsFaultless (append_file p s d).1
unfolding append_file open_append write close
append_file-IsFaultless p s d h = ground arith

-- Where nothing has to be dropped, Append adds its entry at the end.
pub append-IsFaultless :
    (e : Bytes) (b : Buffer) (d : Disk)
    → IsValid b
    → IsFaultless d
    → pos (total b.entries + suc (length e)) ≤ℤ b.max_bytes
    → ((append e b d).0 ≡ none) × ((append e b d).1 ≡ add_entry e b) × IsFaultless (append e b d).2
append-IsFaultless e b d v h fits =
    let (ok, h') = append_file-IsFaultless b.path (line e) d h in
    rw (append_fits e b d v fits ok) (refl, refl, h')
