-- ===== src/Examples/Queue.antt =====
-- internal/buffer/buffer_test.go, and disks on which calls fail.
use nadi_agent.Prelude.{
  take, ℕ, ◌^◌, ◌<◌, length, ap, ◌≡◌, ◌≢◌, refl, inl, none, some, List, [], ◌∷◌, ◌++◌, Bytes, codes,
  arith, All, if◌then◌else◌, bytes_eq,
}
use nadi_agent.Int64.{pos, mul64, add64, sub64, ◌<ℤ◌}
use nadi_agent.Disk.{
  Disk, newline, return, raw_lines, Files, contents, raw_lines, open_append, open_trunc, write,
  close, rename, works, fails, put_file,
}
use nadi_agent.Buffer.{
  Buffer, append, append_file, write_all, line, max_line, new, made, add_entry, drop_oldest_to_fit,
  appending, drop_loop, write_entries, replace_file, fresh, trim,
}
use nadi_agent.Buffer.Invariant.{IsValid, append-IsValid}
use nadi_agent.Buffer.Trim.{IsNewestFitting}
use nadi_agent.Buffer.Queue.{append-newest}
use nadi_agent.Buffer.File.{jsonl, Replaced, write_all_atomic}
use nadi_agent.Buffer.Durable.{IsSaved, append-IsSaved}
use nadi_agent.Buffer.Loaded.{new-IsValid}
use nadi_agent.Buffer.Reload.{IsLine, healthy, new-saved}
use nadi_agent.Buffer.Torn.{append_after_torn}
use nadi_agent.Buffer.Crash.{with_torn, new_after_append_error}

abbrev path : Bytes
path = codes "b"

-- Two entries of 8 bytes each, under a cap of 20.
abbrev two : Buffer
two = record {
  path = path;
  max_bytes = pos 20;
  entries = codes "{\"n\":1}" ∷ codes "{\"n\":2}" ∷ [];
  size = pos 16;
}

abbrev third : Bytes
third = codes "{\"n\":3}"

two-IsValid : IsValid two
two-IsValid = record { sized = refl; fits = inl (omega arith); limit_small = omega arith }

abbrev files : Files
files p = if bytes_eq p path then some (jsonl two.entries) else none

abbrev disk : Disk
disk = healthy files

-- The disk after a call that wrote three bytes of a third entry and failed.
abbrev torn_files : Files
torn_files p = if bytes_eq p path then some (jsonl two.entries ++ codes "{\"n") else none

abbrev torn_disk : Disk
torn_disk = healthy torn_files

-- A larger limit, under which a third entry fits beside the two.
abbrev roomy : Buffer
roomy = record two { max_bytes = pos 40 }

roomy-IsValid : IsValid roomy
roomy-IsValid = record { sized = refl; fits = inl (omega arith); limit_small = omega arith }

-- As New makes it with a limit of one megabyte.
abbrev restored : Buffer
restored = record two { max_bytes = pos 1_048_576 }

restored-IsValid : IsValid restored
restored-IsValid = record { sized = refl; fits = inl (omega arith); limit_small = omega arith }

abbrev IsPlain : Bytes → Type 0
IsPlain e = All (λ c. (c ≢ newline) × (c ≢ return)) e

part-IsPlain : IsPlain (codes "{\"n")
part-IsPlain = ground arith

third-IsPlain : IsPlain third
third-IsPlain = ground arith

torn : contents (torn_disk.files path) ≡ jsonl two.entries ++ codes "{\"n"
unfolding bytes_eq
torn = refl

written_torn : (append_file path (line third) torn_disk).0 ≡ none
unfolding append_file open_append write close
written_torn = refl

restored_limit : pos 1_048_576 ≡ (fresh path (pos 1)).max_bytes
unfolding mul64
restored_limit = refl

written : (append_file path (line third) disk).0 ≡ none
unfolding append_file open_append write close
written = refl

done : (append third two disk).0 ≡ none
unfolding append append_file open_append write close trim write_all write_entries replace_file
    open_trunc rename drop_oldest_to_fit drop_loop add_entry add64 sub64
done = refl

two-IsSaved : IsSaved two disk
unfolding bytes_eq
two-IsSaved = refl

append-IsValid_example : IsValid (append third two disk).1
append-IsValid_example = append-IsValid third two disk (omega arith) two-IsValid

write_all_atomic_example : Replaced path (some (jsonl two.entries)) disk (write_all two disk)
write_all_atomic_example = write_all_atomic two disk

append-IsSaved_example : IsSaved (append third two disk).1 (append third two disk).2
append-IsSaved_example = append-IsSaved third two disk (omega arith) two-IsValid two-IsSaved done

append-newest_example :
    IsNewestFitting (pos 20) (two.entries ++ third ∷ []) (append third two disk).1.entries
    × ((kept : List Bytes) × ((append third two disk).1.entries ≡ kept ++ third ∷ []))
append-newest_example = append-newest third two disk two-IsValid (omega arith) written

drops_oldest : (append third two disk).1.entries ≡ codes "{\"n\":2}" ∷ third ∷ []
unfolding append append_file open_append write close trim write_all write_entries replace_file
    open_trunc rename drop_oldest_to_fit drop_loop add_entry add64 sub64
drops_oldest = refl

two_lines : All (IsLine max_line) two.entries
two_lines = ground arith

new-saved_example : new path (pos 1) (healthy files) ≡ (made restored, healthy files)
new-saved_example =
    new-saved restored (pos 1) files restored-IsValid two_lines restored_limit two-IsSaved

append_after_torn_example :
    ((append third roomy torn_disk).0 ≡ none)
    × ((append third roomy torn_disk).1.entries ≡ roomy.entries ++ third ∷ [])
    × (raw_lines (contents ((append third roomy torn_disk).2.files path))
        ≡ roomy.entries ++ (codes "{\"n" ++ third) ∷ [])
append_after_torn_example =
    append_after_torn third (codes "{\"n") roomy torn_disk roomy-IsValid two_lines torn part-IsPlain
      third-IsPlain (omega arith) written_torn

opens : (new path (pos 1) (healthy files)).0 ≡ made restored
opens =
    ap (λ r. r.0)
      (new-saved restored (pos 1) files restored-IsValid two_lines restored_limit two-IsSaved)

limit_small : (fresh path (pos 1)).max_bytes <ℤ pos (2 ^ 62)
unfolding mul64
limit_small = omega arith

file_short : length (contents (files path)) < 2 ^ 62
unfolding bytes_eq
file_short = omega arith

new-IsValid_example : IsValid restored
new-IsValid_example = new-IsValid path (pos 1) (healthy files) restored limit_small file_short opens

-- The third byte of the third entry is the last that the disk takes.
abbrev full_disk : Disk
full_disk = record { files = files; faults = works ∷ fails 3 ∷ [] }

cut_off : (append_file path (line third) full_disk).0 ≡ some appending
unfolding append_file open_append write close
cut_off = refl

third-IsLine : IsLine max_line third
third-IsLine = ground arith

new_after_append_error_example :
    (n : ℕ) × (contents ((append third restored full_disk).2.files path)
      ≡ contents (files path) ++ take n (line third))
    × (new path (pos 1) (healthy (append third restored full_disk).2.files)
        ≡ (made (with_torn n third restored), healthy (append third restored full_disk).2.files))
new_after_append_error_example =
    new_after_append_error third restored (pos 1) full_disk appending restored-IsValid two_lines
      third-IsLine restored_limit (omega arith) two-IsSaved cut_off

-- The part stands in the file and comes back as an entry.
three_bytes :
    contents ((append third restored full_disk).2.files path) ≡ jsonl two.entries ++ codes "{\"n"
unfolding append append_file open_append write close add64 put_file bytes_eq
three_bytes = refl
