-- ===== src/Buffer.antt =====
-- internal/buffer/buffer.go: the queue of heartbeats that wait to be sent, in memory and on disk.
-- Every exported method holds the mutex for its whole body, so each is one step on the state. A
-- method returns its `error` (`none` is nil), the buffer after it and the disk after it.
pub mod Trim
pub mod Invariant
pub mod Queue
pub mod File
pub mod Durable
pub mod Loaded
pub mod Reload
pub mod Torn
pub mod Crash
pub mod Faultless
pub mod Dropped
use nadi_agent.Prelude.{
  ℕ, ◌*◌, Bool, true, false, Option, none, some, List, [], ◌∷◌, ◌++◌, Bytes, codes, length,
  if◌then◌else◌,
}
use nadi_agent.Int64.{ℤ, pos, ltb_ℤ, add64, sub64, mul64}
use nadi_agent.Disk.{
  Disk, not_exist, failed, opened, open_append, open_trunc, open_read, write, read, close, rename,
  newline, raw_lines, scan,
}

pub data Error : Type 0 where
  opening_file reading_file : Error
  opening_append appending closing_append : Error
  creating_temp writing_temp closing_temp renaming : Error

pub record Buffer : Type 0 where
  pub path : Bytes
  pub max_bytes : ℤ
  pub entries : List Bytes
  pub size : ℤ

-- `int64(len(e)) + 1`
abbrev pub entry_size : Bytes → ℤ
entry_size e = add64 (pos (length e)) (pos 1)

unfoldable pub add_entry : Bytes → Buffer → Buffer
add_entry e b = record b { entries = b.entries ++ e ∷ []; size = add64 b.size (entry_size e) }

-- The loop of dropOldestToFit over `size`, `entries` and `dropped`.
unfoldable pub drop_loop : ℤ → ℤ → List Bytes → Bool → ℤ × List Bytes × Bool
drop_loop max size [] dropped = (size, [], dropped)
drop_loop max size (e ∷ es) dropped = elim (ltb_ℤ max size) [
  | true ↦ drop_loop max (sub64 size (entry_size e)) es true
  | false ↦ (size, e ∷ es, dropped)
]

unfoldable pub drop_oldest_to_fit : Buffer → Bool × Buffer
drop_oldest_to_fit b =
    let (size, entries, dropped) = drop_loop b.max_bytes b.size b.entries false in
    (dropped, record b { size = size; entries = entries })

-- `e` and a newline
abbrev pub line : Bytes → Bytes
line e = e ++ newline ∷ []

abbrev pub temp : Bytes → Bytes
temp path = path ++ codes ".tmp"

unfoldable pub write_entries : Bytes → List Bytes → Disk → Bool × Disk
write_entries tmp [] d = (true, d)
write_entries tmp (e ∷ es) d =
    let (written, d1) = write tmp (line e) d in
    let go_on = write_entries tmp es d1 in if written then go_on else (false, (close d1).1)

-- The part of writeAll behind its loop.
unfoldable pub replace_file : Bytes → Bytes → Disk → Option Error × Disk
replace_file tmp path d =
    let (closed, d1) = close d in
    if closed
    then (let (renamed, d2) = rename tmp path d1 in (if renamed then none else some renaming, d2))
    else (some closing_temp, d1)

unfoldable pub write_all : Buffer → Disk → Option Error × Disk
write_all b d =
    let tmp = temp b.path in
    let (created, d1) = open_trunc tmp d in
    let (written, d2) = write_entries tmp b.entries d1 in
    if created
    then (if written then replace_file tmp b.path d2 else (some writing_temp, d2))
    else (some creating_temp, d1)

-- The end of load and of Append: drop what does not fit, and rewrite the file if that was anything.
unfoldable pub trim : Buffer → Disk → Option Error × Buffer × Disk
trim b d =
    let (dropped, b') = drop_oldest_to_fit b in
    let (err, d') = write_all b' d in if dropped then (err, b', d') else (none, b', d)

-- What Append does to the file.
unfoldable pub append_file : Bytes → Bytes → Disk → Option Error × Disk
append_file path s d =
    let (created, d1) = open_append path d in
    let (written, d2) = write path s d1 in
    let (closed, d3) = close d2 in
    if created
    then (if written
        then (if closed then none else some closing_append, d3)
        else (some appending, d3))
    else (some opening_append, d1)

unfoldable pub append : Bytes → Buffer → Disk → Option Error × Buffer × Disk
append e b d =
    if ltb_ℤ b.max_bytes (entry_size e)
    then (none, b, d)
    else (let (err, d') = append_file b.path (line e) d in
        elim err [ none ↦ trim (add_entry e b) d' | some err ↦ (some err, b, d') ])

abbrev head? : List Bytes → Option Bytes
head? [] = none
head? (e ∷ es) = some e

unfoldable pub peek : Buffer → Option Bytes
peek b = head? b.entries

pop_entry : List Bytes → Buffer → Option Bytes × Buffer
pop_entry [] b = (none, b)
pop_entry (e ∷ es) b = (some e, record b { entries = es; size = sub64 b.size (entry_size e) })

unfoldable pub pop : Buffer → Option Bytes × Buffer
unfolding pop_entry
pop b = pop_entry b.entries b

unfoldable pub persist : Buffer → Disk → Option Error × Disk
persist b d = write_all b d

unfoldable pub len : Buffer → ℕ
len b = length b.entries

pub size_bytes : Buffer → ℤ
size_bytes b = b.size

-- The limit of the scanner in load: a line of 16 MiB or more stops it.
abbrev pub max_line : ℕ
max_line = 16 * 1024 * 1024

-- The scan loop of load: empty lines are skipped.
unfoldable pub load_lines : List Bytes → Buffer → Buffer
load_lines [] b = b
load_lines ([] ∷ ls) b = load_lines ls b
load_lines ((c ∷ l) ∷ ls) b = load_lines ls (add_entry (c ∷ l) b)

unfoldable pub load_contents : Bytes → Buffer → Disk → Option Error × Buffer × Disk
load_contents text b d =
    let ((bytes, at_end), d1) = read text d in
    let (tokens, fits) = scan max_line (raw_lines bytes) in
    let b1 = load_lines tokens b in
    if at_end
    then (if fits then trim b1 d1 else (some reading_file, b1, d1))
    else (some reading_file, b1, d1)

-- The file is closed when load returns, whatever it returns.
abbrev pub closing : Option Error × Buffer × Disk → Option Error × Buffer × Disk
closing (err, b, d) = (err, b, (close d).1)

unfoldable pub load : Buffer → Disk → Option Error × Buffer × Disk
load b d =
    let (file, d1) = open_read b.path d in
    elim file [
      | not_exist ↦ (none, b, d1)
      | failed ↦ (some opening_file, b, d1)
      | opened text ↦ closing (load_contents text b d1)
    ]

-- The buffer that New makes before it loads. `maxSizeMB` is an `int`.
abbrev pub fresh : Bytes → ℤ → Buffer
fresh path max_size_mb = record {
  path = path;
  max_bytes = mul64 (mul64 max_size_mb (pos 1024)) (pos 1024);
  entries = [];
  size = pos 0;
}

-- No buffer comes back beside an error.
pub data NewBuffer : Type 0 where
  made : Buffer → NewBuffer
  not_made : Error → NewBuffer

abbrev pub unless_error : Option Error → Buffer → NewBuffer
unless_error none b = made b
unless_error (some e) b = not_made e

unfoldable pub new : Bytes → ℤ → Disk → NewBuffer × Disk
new path max_size_mb d =
    let (err, b, d') = load (fresh path max_size_mb) d in (unless_error err b, d')
