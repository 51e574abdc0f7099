-- ===== src/Disk/Calls.antt =====
-- The files after each of the calls, by its outcome.
use nadi_agent.Prelude.{
  ◌≡◌, ◌≢◌, true, false, Option, some, [], ◌++◌, ℕ, take, Bytes, bytes_eq_iff, arith,
}
use nadi_agent.Disk.{
  Disk, Files, Outcome, works, fails, first, put_file, contents, open_append, open_trunc, write,
  close, rename,
}

pub put_file_self : (p : Bytes) (v : Option Bytes) (f : Files) → put_file p v f p ≡ v
unfolding put_file
put_file_self p v f = ground (arith, bytes_eq_iff p p)

pub put_file_ne : (p q : Bytes) (v : Option Bytes) (f : Files) → p ≢ q → put_file p v f q ≡ f q
unfolding put_file
put_file_ne p q v f h = ground (arith, bytes_eq_iff p q)

module _ (p : Bytes) (d : Disk) where
  pub open_append_file :
      (open_append p d).0 ≡ true → (open_append p d).1.files p ≡ some (contents (d.files p))
  unfolding open_append
  open_append_file h = ground (arith, put_file_self p (some (contents (d.files p))) d.files)

  pub open_trunc_file : (open_trunc p d).0 ≡ true → (open_trunc p d).1.files p ≡ some []
  unfolding open_trunc
  open_trunc_file h = ground (arith, put_file_self p (some []) d.files)

  pub write_file :
      (s : Bytes)
      → (write p s d).0 ≡ true
      → (write p s d).1.files p ≡ some (contents (d.files p) ++ s)
  unfolding write
  write_file s h = ground (arith, put_file_self p (some (contents (d.files p) ++ s)) d.files)

pub open_append_failed :
    (p : Bytes) (d : Disk) → (open_append p d).0 ≡ false → (open_append p d).1.files ≡ d.files
unfolding open_append
open_append_failed p d h = ground arith

-- The bytes that a failing write leaves at the end of a file.
abbrev partial_bytes : Outcome → ℕ
partial_bytes works = 0
partial_bytes (fails n) = n

pub write_failed :
    (p s : Bytes) (d : Disk)
    → (write p s d).0 ≡ false
    → (n : ℕ) × ((write p s d).1.files p ≡ some (contents (d.files p) ++ take n s))
unfolding write put_file
write_failed p s d h = (partial_bytes (first d.faults), ground (arith, bytes_eq_iff p p))

pub files-close : (d : Disk) → (close d).1.files ≡ d.files
unfolding close
files-close d = ground arith

module _ (p q : Bytes) (d : Disk) (ne : p ≢ q) where
  pub open_trunc_other : (open_trunc p d).1.files q ≡ d.files q
  unfolding open_trunc
  open_trunc_other = ground (arith, put_file_ne p q (some []) d.files)

  pub write_other : (s : Bytes) → (write p s d).1.files q ≡ d.files q
  unfolding write put_file
  write_other s = ground (arith, bytes_eq_iff p q)

  -- A rename that succeeds moves the file; one that fails changes nothing.
  pub rename_target : (rename p q d).0 ≡ true → (rename p q d).1.files q ≡ d.files p
  unfolding rename put_file
  rename_target h = ground (arith, bytes_eq_iff p q, bytes_eq_iff q q)

pub rename_failed :
    (p q : Bytes) (d : Disk) → (rename p q d).0 ≡ false → (rename p q d).1.files ≡ d.files
unfolding rename
rename_failed p q d h = ground arith
