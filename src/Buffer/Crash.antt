-- ===== src/Buffer/Crash.antt =====
-- A start of the agent behind an Append of internal/buffer/buffer.go that failed or was cut off.
use nadi_agent.Prelude.{
  ℕ, zero, suc, ◌+◌, ◌≤◌, ◌<◌, ◌^◌, Option, ◌≡◌, ◌≢◌, ◌∙◌, ap, refl, none, some, inl, [], ◌∷◌, ◌++◌,
  List, Bytes, length, take, length-take, arith, All, All-take, All-append,
}
use nadi_agent.Int64.{ℤ, pos, ◌≤ℤ◌}
use nadi_agent.Disk.{Disk, contents, newline, return, raw_lines}
use nadi_agent.Buffer.{Error, Buffer, line, append, append_file, fresh, new, made, max_line}
use nadi_agent.Buffer.Invariant.{IsValid, can_fit}
use nadi_agent.Buffer.Trim.{total, total-append}
use nadi_agent.Buffer.File.{jsonl}
use nadi_agent.Buffer.Durable.{IsSaved, Appended, append_file-Appended}
use nadi_agent.Buffer.Reload.{IsLine, healthy, raw_lines-jsonl, new-raw_lines}

abbrev IsPlain : Bytes → Type 0
IsPlain e = All (λ c. (c ≢ newline) × (c ≢ return)) e

-- What a scanner finds of the first `n` bytes of a line.
abbrev pub torn : ℕ → Bytes → List Bytes
torn zero e = []
torn (suc n) e = take (suc n) e ∷ []

take_nil : (n : ℕ) → take {A = ℕ} n [] ≡ []
take_nil zero = refl
take_nil (suc n) = refl

raw_lines-torn :
    (n c : ℕ) (e : Bytes) → IsPlain (c ∷ e) → raw_lines (take n (line (c ∷ e))) ≡ torn n (c ∷ e)
unfolding raw_lines
raw_lines-torn zero c e h = refl
raw_lines-torn (suc zero) c [] ((hc, _), _) = ground arith
raw_lines-torn (suc (suc n)) c [] ((hc, _), _) = rw (take_nil n) (ground arith)
raw_lines-torn (suc zero) c (d ∷ e) ((hc, _), h) = ground arith
raw_lines-torn (suc (suc n)) c (d ∷ e) ((hc, _), h) = ground (arith, raw_lines-torn (suc n) d e h)

-- A part of a line is a line, if it is not empty.
torn-IsLine : (n : ℕ) (e : Bytes) → IsLine max_line e → All (IsLine max_line) (torn n e)
torn-IsLine zero e h = tt
torn-IsLine (suc n) [] (some_byte, _, _) = absurd (some_byte refl)
torn-IsLine (suc n) (c ∷ e) (some_byte, plain, short) = (
  ((λ p. cc), All-take _ (suc n) (c ∷ e) plain, omega (arith, length-take (suc n) (c ∷ e), short)),
  tt,
)

torn-total : (n : ℕ) (e : Bytes) → total (torn n e) ≤ suc (length e)
torn-total zero e = omega arith
torn-total (suc n) e = omega (arith, length-take (suc n) e)

lines-torn :
    (es : List Bytes) (n : ℕ) (e : Bytes)
    → All (IsLine max_line) es
    → IsLine max_line e
    → raw_lines (jsonl es ++ take n (line e)) ≡ es ++ torn n e
lines-torn es n [] h (some_byte, _, _) = absurd (some_byte refl)
lines-torn es n (c ∷ e) h (_, plain, _) =
    raw_lines-jsonl max_line es (take n (line (c ∷ e))) h
    ∙ ap (λ t. es ++ t) (raw_lines-torn n c e plain)

-- The buffer with a part of one more entry.
abbrev pub with_torn : ℕ → Bytes → Buffer → Buffer
with_torn n e b = record b {
  entries = b.entries ++ torn n e;
  size = pos (total (b.entries ++ torn n e));
}

-- What New makes of the file behind an entry of which `n` bytes were written.
new-torn :
    (n : ℕ) (e : Bytes) (b : Buffer) (max_size_mb : ℤ) (d : Disk)
    → IsValid b
    → All (IsLine max_line) b.entries
    → IsLine max_line e
    → b.max_bytes ≡ (fresh b.path max_size_mb).max_bytes
    → pos (total b.entries + suc (length e)) ≤ℤ b.max_bytes
    → contents (d.files b.path) ≡ jsonl b.entries ++ take n (line e)
    → new b.path max_size_mb (healthy d.files) ≡ (made (with_torn n e b), healthy d.files)
new-torn n e b mb d v lines he same fits left =
    let grown = total-append b.entries (torn n e) in
    let room : pos (total (b.entries ++ torn n e)) ≤ℤ b.max_bytes =
      omega (arith, grown, torn-total n e, fits) in
    new-raw_lines (with_torn n e b) mb d.files
      (record { sized = refl; fits = inl room; limit_small = v.limit_small })
      (All-append (IsLine max_line) b.entries (torn n e) lines (torn-IsLine n e he)) same
      (ap raw_lines left ∙ lines-torn b.entries n e lines he)

Appended-some :
    (path s : Bytes) (d : Disk) (r : Option Error × Disk) (err : Error)
    → Appended path s d r
    → r.0 ≡ some err
    → (n : ℕ) × (contents (r.1.files path) ≡ contents (d.files path) ++ take n s)
Appended-some path s d (none, d') err h e = cc
Appended-some path s d (some err', d') err h e = h

-- An Append that could not open, write or close the file leaves the first `n` bytes of its line behind
-- what the file held, for some `n`. On a saved and well-formed buffer New then finds the entries that were
-- saved and, if `n` is not 0, one more: the bytes of the new entry that stand in the file, which can be
-- all of them. The entries are lines of the file, the limit is the same and has room.
pub new_after_append_error :
    (e : Bytes) (b : Buffer) (max_size_mb : ℤ) (d : Disk) (err : Error)
    → IsValid b
    → All (IsLine max_line) b.entries
    → IsLine max_line e
    → b.max_bytes ≡ (fresh b.path max_size_mb).max_bytes
    → pos (total b.entries + suc (length e)) ≤ℤ b.max_bytes
    → IsSaved b d
    → (append_file b.path (line e) d).0 ≡ some err
    → (n : ℕ) × (contents ((append e b d).2.files b.path)
        ≡ contents (d.files b.path) ++ take n (line e))
      × (new b.path max_size_mb (healthy (append e b d).2.files)
          ≡ (made (with_torn n e b), healthy (append e b d).2.files))
unfolding append
new_after_append_error e b mb d err v lines he same fits saved failed =
    let (n, left) =
      Appended-some b.path (line e) d _ err (append_file-Appended b.path (line e) d) failed in
    let whole = left ∙ ap (λ t. t ++ take n (line e)) saved in
    let small : total b.entries + suc (length e) < 2 ^ 63 = omega (arith, v.limit_small, fits) in
    rw (can_fit e b (omega arith) (omega arith), failed)
      (n, left, new-torn n e b mb (append_file b.path (line e) d).1 v lines he same fits whole)
