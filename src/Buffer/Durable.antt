-- ===== src/Buffer/Durable.antt =====
-- Append and Persist of internal/buffer/buffer.go against the text of the file.
use nadi_agent.Prelude.{
  ℕ, suc, ◌+◌, ◌^◌, ◌<◌, ◌≡◌, ◌∙◌, ap, sym, none, some, [], ◌∷◌, ◌++◌, Bytes, Option, length, arith,
  take, take-length, Bool-cases, inl, inr, Option-cases, append-nil, ltb→lt, ltb_ge,
}
use nadi_agent.Int64.{pos, ltb_ℤ}
use nadi_agent.Disk.{Disk, contents, open_append, write, close}
use nadi_agent.Disk.Calls.{
  open_append_file, open_append_failed, write_file, write_failed, files-close,
}
use nadi_agent.Buffer.{
  Buffer, Error, line, write_all, append_file, append, trim, add_entry, persist,
}
use nadi_agent.Buffer.Invariant.{
  IsValid, trimmed, drop_oldest_to_fit_lem, can_fit, cannot_fit, add_entry-size, add_entry-total,
  total-lt,
}
use nadi_agent.Buffer.Trim.{total, overfull, fit_whole}
use nadi_agent.Buffer.File.{jsonl, jsonl-append, Replaced, write_all_atomic}

-- The file holds the entries, one to a line. A file that is not there holds none.
abbrev pub IsSaved : Buffer → Disk → Type 0
IsSaved b d = contents (d.files b.path) ≡ jsonl b.entries

-- What the file holds after a write to its end: all of the text, or where an error is returned, a
-- part of it.
abbrev pub Appended : Bytes → Bytes → Disk → Option Error × Disk → Type 0
Appended path s d (none, d') = contents (d'.files path) ≡ contents (d.files path) ++ s
Appended path s d (some e, d') =
    (n : ℕ) × (contents (d'.files path) ≡ contents (d.files path) ++ take n s)

pub append_file-Appended : (path s : Bytes) (d : Disk) → Appended path s d (append_file path s d)
unfolding append_file
append_file-Appended path s d =
    let d1 = (open_append path d).1 in
    let d2 = (write path s d1).1 in
    elim (Bool-cases (open_append path d).0) [
      | inl created ↦
          let opened : contents (d1.files path) ≡ contents (d.files path) =
            ap contents (open_append_file path d created) in
          elim (Bool-cases (write path s d1).0) [
            | inl written ↦
                let whole : contents (d2.files path) ≡ contents (d.files path) ++ s =
                  ap contents (write_file path d1 s written) ∙ ap (λ t. t ++ s) opened in
                elim (Bool-cases (close d2).0) [
                  | inl closed ↦ rw (created, written, closed, files-close) whole
                  | inr unclosed ↦
                      rw (created, written, unclosed, files-close) (length s, rw take-length whole)
                ]
            | inr torn ↦
                let (n, part) = write_failed path s d1 torn in
                rw (created, torn, files-close)
                  (n, ap contents part ∙ ap (λ t. t ++ take n s) opened)
          ]
      | inr missing ↦ rw (missing, open_append_failed path d missing) (0, sym (append-nil _))
    ]

Replaced-none :
    (path t : Bytes) (d : Disk) (r : Option Error × Disk)
    → Replaced path (some t) d r
    → r.0 ≡ none
    → contents (r.1.files path) ≡ t
Replaced-none path t d (none, d') h e = ap contents h
Replaced-none path t d (some err, d') h e = cc

pub Appended-none :
    (path s : Bytes) (d : Disk) (r : Option Error × Disk)
    → Appended path s d r
    → r.0 ≡ none
    → contents (r.1.files path) ≡ contents (d.files path) ++ s
Appended-none path s d (none, d') h e = h
Appended-none path s d (some err, d') h e = cc

-- Persist that reports no error makes the file hold the entries, whatever it held.
pub persist-IsSaved : (b : Buffer) (d : Disk) → (persist b d).0 ≡ none → IsSaved b (persist b d).1
unfolding persist
persist-IsSaved b d done =
    Replaced-none b.path (jsonl b.entries) d (write_all b d) (write_all_atomic b d) done

-- A trim that reports no error leaves the file with the entries, if it held them before.
trim-IsSaved :
    (b : Buffer) (d : Disk)
    → b.size ≡ pos (total b.entries)
    → total b.entries < 2 ^ 63
    → IsSaved b d
    → (trim b d).0 ≡ none
    → IsSaved (trim b d).1 (trim b d).2
trim-IsSaved b d s h saved done = elim (Bool-cases (overfull b.max_bytes b.entries)) [
  | inl over ↦
      let ran : trim b d ≡ ((write_all (trimmed b) d).0, trimmed b, (write_all (trimmed b) d).1) =
        unfold trim in rw (drop_oldest_to_fit_lem b s h, over) in
      rw ran (unfold persist in persist-IsSaved (trimmed b) d (ap (λ r. r.0) (sym ran) ∙ done))
  | inr fits ↦
      let ran : trim b d ≡ (none, trimmed b, d) =
        unfold trim in rw (drop_oldest_to_fit_lem b s h, fits) in
      rw ran (unfold trimmed in saved ∙ ap jsonl (sym (fit_whole b.max_bytes b.entries fits)))
]

add_entry-IsSaved :
    (e : Bytes) (b : Buffer) (d : Disk)
    → IsSaved b d
    → (append_file b.path (line e) d).0 ≡ none
    → IsSaved (add_entry e b) (append_file b.path (line e) d).1
unfolding add_entry
add_entry-IsSaved e b d saved done =
    Appended-none b.path (line e) d _ (append_file-Appended b.path (line e) d) done
    ∙ ap (λ t. t ++ line e) saved
    ∙ ap (λ t. jsonl b.entries ++ t) (sym (append-nil (line e)))
    ∙ sym (jsonl-append b.entries (e ∷ []))

-- If the file holds the entries of a well-formed buffer, one to a line, and Append of an entry
-- below 2^63 bytes reports no error, then the file holds the entries of the buffer behind it,
-- whether the entry was dropped as oversized, added, or added with the oldest dropped.
pub append-IsSaved :
    (e : Bytes) (b : Buffer) (d : Disk)
    → suc (length e) < 2 ^ 63
    → IsValid b
    → IsSaved b d
    → (append e b d).0 ≡ none
    → IsSaved (append e b d).1 (append e b d).2
unfolding append
append-IsSaved e b d small v saved done =
    elim (Bool-cases (ltb_ℤ b.max_bytes (pos (suc (length e))))) [
      | inl over ↦ rw (cannot_fit e b small (ltb→lt _ _ over)) saved
      | inr fits ↦ elim (Option-cases (append_file b.path (line e) d).0) [
        | inl written ↦
            let room : total b.entries + suc (length e) < 2 ^ 63 =
              let l = ltb_ge _ _ fits in omega (arith, total-lt v) in
            let pass = can_fit e b small (ltb_ge _ _ fits) in
            rw (pass, written)
              (trim-IsSaved (add_entry e b) (append_file b.path (line e) d).1
                (add_entry-size e b v.sized room) (omega (arith, add_entry-total e b))
                (add_entry-IsSaved e b d saved written) (rw (pass, written) at done))
        | inr (err, failed) ↦
            let never : some err ≡ none =
              rw (can_fit e b small (ltb_ge _ _ fits), failed) at done in
            cc
      ]
    ]
