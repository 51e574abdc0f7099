-- ===== src/Disk.antt =====
-- The file system as internal/buffer/buffer.go uses it, through the packages os and bufio. Which
-- calls fail, and how much of a failing write is written, is the environment's choice: a list of
-- outcomes, one for each call, whose end means that all later calls succeed.
pub mod Calls
use nadi_agent.Prelude.{
  ℕ, ◌^◌, Bool, true, false, Option, none, some, List, [], ◌∷◌, ◌++◌, Bytes, bytes_eq, take, ltb,
  length, ◌==◌, if◌then◌else◌,
}

-- `fails n`: the call returns an error; a write has written its first `n` bytes.
pub data Outcome : Type 0 where
  works : Outcome
  fails : ℕ → Outcome

abbrev pub Files : Type 0
Files = Bytes → Option Bytes

pub record Disk : Type 0 where
  pub files : Files
  pub faults : List Outcome

abbrev pub first : List Outcome → Outcome
first [] = works
first (o ∷ os) = o

abbrev pub rest : List Outcome → List Outcome
rest [] = []
rest (o ∷ os) = os

abbrev pub contents : Option Bytes → Bytes
contents none = []
contents (some c) = c

unfoldable pub put_file : Bytes → Option Bytes → Files → Files
put_file p v files q = if bytes_eq p q then v else files q

abbrev pub used : Disk → Disk
used d = record d { faults = rest d.faults }

-- os.OpenFile with O_APPEND and O_CREATE.
unfoldable pub open_append : Bytes → Disk → Bool × Disk
open_append p d = elim (first d.faults) [
  | works ↦ (true, record (used d) { files = put_file p (some (contents (d.files p))) d.files })
  | fails n ↦ (false, used d)
]

-- os.OpenFile with O_TRUNC and O_CREATE.
unfoldable pub open_trunc : Bytes → Disk → Bool × Disk
open_trunc p d = elim (first d.faults) [
  | works ↦ (true, record (used d) { files = put_file p (some []) d.files })
  | fails n ↦ (false, used d)
]

-- (*os.File).Write at the end of the open file `p`.
unfoldable pub write : Bytes → Bytes → Disk → Bool × Disk
write p s d = elim (first d.faults) [
  | works ↦
      (true, record (used d) { files = put_file p (some (contents (d.files p) ++ s)) d.files })
  | fails n ↦ (
    false,
    record (used d) { files = put_file p (some (contents (d.files p) ++ take n s)) d.files },
  )
]

-- (*os.File).Close.
unfoldable pub close : Disk → Bool × Disk
close d = elim (first d.faults) [ works ↦ (true, used d) | fails n ↦ (false, used d) ]

-- os.Rename, which replaces its target in one step or changes nothing.
unfoldable pub rename : Bytes → Bytes → Disk → Bool × Disk
rename from to d = elim (first d.faults) [
  | works ↦
      (true, record (used d) { files = put_file from none (put_file to (d.files from) d.files) })
  | fails n ↦ (false, used d)
]

-- os.Open, with os.IsNotExist of its error.
pub data Opened : Type 0 where
  not_exist failed : Opened
  opened : Bytes → Opened

abbrev pub lookup_file : Option Bytes → Opened
lookup_file none = not_exist
lookup_file (some c) = opened c

unfoldable pub open_read : Bytes → Disk → Opened × Disk
open_read p d = elim (first d.faults) [
  | works ↦ (lookup_file (d.files p), used d)
  | fails n ↦ (failed, used d)
]

-- Reading an open file to its end: the bytes before the end or the error, and whether it was the end.
unfoldable pub read : Bytes → Disk → (Bytes × Bool) × Disk
read c d = elim (first d.faults) [
  | works ↦ ((c, true), used d)
  | fails n ↦ ((take n c, false), used d)
]

-- bufio.ScanLines: the lines of a text, without their ends. A last line may lack its newline.
abbrev pub newline : ℕ
newline = 10

abbrev pub return : ℕ
return = 13

abbrev pub extend : ℕ → List Bytes → List Bytes
extend c [] = (c ∷ []) ∷ []
extend c (l ∷ ls) = (c ∷ l) ∷ ls

unfoldable pub raw_lines : Bytes → List Bytes
raw_lines [] = []
raw_lines (c ∷ s) = let ls = raw_lines s in if c == newline then [] ∷ ls else extend c ls

-- One carriage return before the newline belongs to the line's end.
unfoldable pub drop_cr : Bytes → Bytes
drop_cr [] = []
drop_cr (c ∷ []) = if c == return then [] else c ∷ []
drop_cr (c ∷ d ∷ s) = c ∷ drop_cr (d ∷ s)

-- bufio.Scanner with a limit: it stops at the first line that does not fit, with an error.
unfoldable pub scan : ℕ → List Bytes → List Bytes × Bool
unfolding drop_cr
scan limit [] = ([], true)
scan limit (l ∷ ls) =
    let (tokens, done) = scan limit ls in
    if ltb (length l) limit then (drop_cr l ∷ tokens, done) else ([], false)
