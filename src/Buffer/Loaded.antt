-- ===== src/Buffer/Loaded.antt =====
-- The well-formedness of what New of internal/buffer/buffer.go returns.
use mathlib.Core.Path.{subst}
use nadi_agent.Prelude.{
  ℕ, suc, ◌+◌, ◌^◌, ◌<◌, ◌≤◌, ◌≡◌, ◌∙◌, ap, refl, sym, ◌⊎◌, Bool, none, some, List, [], ◌∷◌, Bytes,
  Option, length, arith, inl, inr, if_cases, ltb, ◌==◌, length-take,
}
use nadi_agent.Int64.{ℤ, pos, ◌<ℤ◌}
use nadi_agent.Disk.{
  Disk, Opened, not_exist, failed, opened, contents, lookup_file, newline, raw_lines, drop_cr, scan,
  extend, open_read, read, works, fails, Outcome,
}
use nadi_agent.Buffer.{
  Buffer, Error, add_entry, load_lines, load_contents, load, fresh, new, made, unless_error,
  closing, trim, max_line,
}
use nadi_agent.Buffer.Invariant.{
  IsValid, trim-IsValid, add_entry-size, add_entry-total, add_entry-limit,
}
use nadi_agent.Buffer.Trim.{total}

extend_short : (c n : ℕ) (ls : List Bytes) → total ls ≤ n + 1 → total (extend c ls) ≤ suc n + 1
extend_short c n [] h = omega arith
extend_short c n (l ∷ ls) h = omega (arith, h)

total-raw_lines : (s : Bytes) → total (raw_lines s) ≤ length s + 1
unfolding raw_lines
total-raw_lines [] = omega arith
total-raw_lines (c ∷ s) =
    let h = total-raw_lines s in
    if_cases (λ ls. total ls ≤ suc (length s) + 1) (c == newline) _ _ (λ _. omega (arith, h))
      (λ _. extend_short c (length s) (raw_lines s) h)

length-drop_cr : (s : Bytes) → length (drop_cr s) ≤ length s
unfolding drop_cr
length-drop_cr [] = omega arith
length-drop_cr (c ∷ []) = ground arith
length-drop_cr (c ∷ d ∷ s) = omega (arith, length-drop_cr (d ∷ s))

total-scan : (limit : ℕ) (ls : List Bytes) → total (scan limit ls).0 ≤ total ls
unfolding scan
total-scan limit [] = omega arith
total-scan limit (l ∷ ls) =
    if_cases (λ (r : List Bytes × Bool). total r.0 ≤ total (l ∷ ls)) (ltb (length l) limit) _ _
      (λ _. omega (arith, length-drop_cr l, total-scan limit ls)) (λ _. omega arith)

length-read_faults :
    (text : Bytes) (d : Disk) (os : List Outcome)
    → d.faults ≡ os
    → length (read text d).0.0 ≤ length text
unfolding read
length-read_faults text d [] e = rw (e, read) (omega arith)
length-read_faults text d (works ∷ os) e = rw (e, read) (omega arith)
length-read_faults text d (fails n ∷ os) e = rw (e, read) (omega (arith, length-take n text))

length-read : (text : Bytes) (d : Disk) → length (read text d).0.0 ≤ length text
length-read text d = length-read_faults text d d.faults refl

-- What loading the lines leaves.
record IsCounted (b : Buffer) (ls : List Bytes) (b' : Buffer) : Type 0 where
  sized : b'.size ≡ pos (total b'.entries)
  grown : total b'.entries ≤ total b.entries + total ls
  same_limit : b'.max_bytes ≡ b.max_bytes

load_lines-IsCounted :
    (ls : List Bytes) (b : Buffer)
    → b.size ≡ pos (total b.entries)
    → total b.entries + total ls < 2 ^ 63
    → IsCounted b ls (load_lines ls b)
unfolding load_lines
load_lines-IsCounted [] b s h = record { sized = s; grown = omega arith; same_limit = refl }
load_lines-IsCounted ([] ∷ ls) b s h =
    let k = load_lines-IsCounted ls b s (omega (arith, h)) in
    record { sized = k.sized; grown = omega (arith, k.grown); same_limit = k.same_limit }
load_lines-IsCounted ((c ∷ l) ∷ ls) b s h =
    let added = add_entry-total (c ∷ l) b in
    let k =
      load_lines-IsCounted ls (add_entry (c ∷ l) b) (add_entry-size (c ∷ l) b s (omega (arith, h)))
        (omega (arith, h, added)) in
    record {
      sized = k.sized;
      grown = omega (arith, k.grown, added);
      same_limit = k.same_limit ∙ add_entry-limit (c ∷ l) b;
    }

-- Nothing is said of a buffer beside an error.
abbrev IsValidUnless : Option Error × Buffer × Disk → Type 0
IsValidUnless (none, b, d) = IsValid b
IsValidUnless (some e, b, d) = Unit

IsValid-IsValidUnless : (r : Option Error × Buffer × Disk) → IsValid r.1 → IsValidUnless r
IsValid-IsValidUnless (none, b, d) v = v
IsValid-IsValidUnless (some e, b, d) v = tt

load_contents-IsValid :
    (text : Bytes) (b : Buffer) (d : Disk)
    → length text < 2 ^ 62
    → b.entries ≡ []
    → b.size ≡ pos 0
    → b.max_bytes <ℤ pos (2 ^ 62)
    → IsValidUnless (load_contents text b d)
unfolding load_contents
load_contents-IsValid text b d short empty zero small =
    let ls = (scan max_line (raw_lines (read text d).0.0)).0 in
    let few : total ls ≤ length text + 1 = omega (
      arith,
      total-scan max_line (raw_lines (read text d).0.0),
      total-raw_lines (read text d).0.0,
      length-read text d,
    ) in
    let sized : b.size ≡ pos (total b.entries) = zero ∙ ap (λ es. pos (total es)) (sym empty) in
    let none_yet = ap total empty in
    let k = load_lines-IsCounted ls b sized (omega (arith, few, short, none_yet)) in
    let trimmed =
      trim-IsValid (load_lines ls b) (read text d).1 k.sized
        (omega (arith, k.grown, few, short, none_yet)) (rw k.same_limit small) in
    if_cases IsValidUnless (read text d).0.1 _ _
      (λ _.
        if_cases IsValidUnless (scan max_line (raw_lines (read text d).0.0)).1 _ _
          (λ _. IsValid-IsValidUnless (trim (load_lines ls b) (read text d).1) trimmed) (λ _. tt))
      (λ _. tt)

closing-IsValidUnless :
    (r : Option Error × Buffer × Disk) → IsValidUnless r → IsValidUnless (closing r)
closing-IsValidUnless (none, b, d) v = v
closing-IsValidUnless (some e, b, d) v = tt

fresh-IsValid :
    (path : Bytes) (max_size_mb : ℤ)
    → (fresh path max_size_mb).max_bytes <ℤ pos (2 ^ 62)
    → IsValid (fresh path max_size_mb)
fresh-IsValid path max_size_mb small = record { sized = refl; fits = inr refl; limit_small = small }

lookup_file-opened :
    (o : Option Bytes) (text : Bytes) → lookup_file o ≡ opened text → contents o ≡ text
lookup_file-opened none text h = cc
lookup_file-opened (some c) text h = cc

-- The file that an open found is the one of the path.
open_read_faults :
    (path text : Bytes) (d : Disk) (os : List Outcome)
    → d.faults ≡ os
    → (open_read path d).0 ≡ opened text
    → contents (d.files path) ≡ text
unfolding open_read
open_read_faults path text d [] e h =
    lookup_file-opened (d.files path) text (rw (e, open_read) at h)
open_read_faults path text d (works ∷ os) e h =
    lookup_file-opened (d.files path) text (rw (e, open_read) at h)
open_read_faults path text d (fails n ∷ os) e h =
    let no : failed ≡ opened text = rw (e, open_read) at h in cc

open_read-cases :
    (o : Opened) → (o ≡ not_exist) ⊎ ((o ≡ failed) ⊎ ((text : Bytes) × (o ≡ opened text)))
open_read-cases not_exist = inl refl
open_read-cases failed = inr (inl refl)
open_read-cases (opened text) = inr (inr (text, refl))

load-IsValid :
    (path : Bytes) (max_size_mb : ℤ) (d : Disk)
    → (fresh path max_size_mb).max_bytes <ℤ pos (2 ^ 62)
    → length (contents (d.files path)) < 2 ^ 62
    → IsValidUnless (load (fresh path max_size_mb) d)
unfolding load
load-IsValid path mb d small short = elim (open_read-cases (open_read path d).0) [
  | inl gone ↦ rw (gone, load) (fresh-IsValid path mb small)
  | inr (inl bad) ↦ rw (bad, load) tt
  | inr (inr (text, found)) ↦
      let here : length text < 2 ^ 62 =
        rw (open_read_faults path text d d.faults refl found) at short in
      rw (found, load)
        (closing-IsValidUnless _
          (load_contents-IsValid text (fresh path mb) (open_read path d).1 here refl refl small))
]

made-IsValid :
    (r : Option Error × Buffer × Disk) (b : Buffer)
    → IsValidUnless r
    → unless_error r.0 r.1 ≡ made b
    → IsValid b
made-IsValid (none, b', d) b v h = let same : b' ≡ b = cc in subst IsValid same v
made-IsValid (some e, b', d) b v h = cc

-- New returns a buffer only if it is well formed, whatever the file holds and whichever calls fail,
-- where the limit is below 2^62 bytes and so is the length of the file.
pub new-IsValid :
    (path : Bytes) (max_size_mb : ℤ) (d : Disk) (b : Buffer)
    → (fresh path max_size_mb).max_bytes <ℤ pos (2 ^ 62)
    → length (contents (d.files path)) < 2 ^ 62
    → (new path max_size_mb d).0 ≡ made b
    → IsValid b
unfolding new
new-IsValid path max_size_mb d b small short h =
    made-IsValid (load (fresh path max_size_mb) d) b (load-IsValid path max_size_mb d small short) h
