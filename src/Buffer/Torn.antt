-- ===== src/Buffer/Torn.antt =====
-- An Append that fails in the middle of its line, and the Append after it.
use nadi_agent.Prelude.{
  suc, ◌+◌, ◌^◌, ◌<◌, ◌≡◌, ◌≢◌, ◌∙◌, ap, refl, sym, none, [], ◌∷◌, ◌++◌, Bytes, length, arith,
  append_assoc, append-nil, inl, All, All-append,
}
use nadi_agent.Int64.{pos, ◌≤ℤ◌}
use nadi_agent.Disk.{Disk, contents, newline, return, raw_lines}
use nadi_agent.Buffer.{Buffer, line, add_entry, append, append_file, max_line}
use nadi_agent.Buffer.Invariant.{IsValid, can_fit, add_entry-size, add_entry-total, add_entry-limit}
use nadi_agent.Buffer.Trim.{total}
use nadi_agent.Buffer.File.{jsonl}
use nadi_agent.Buffer.Durable.{append_file-Appended, Appended-none}
use nadi_agent.Buffer.Reload.{IsLine, raw_lines-jsonl, raw_lines-line, trim_fits}

-- An Append where nothing has to be dropped, in terms of the file's part.
pub append_fits :
    (e : Bytes) (b : Buffer) (d : Disk)
    → IsValid b
    → pos (total b.entries + suc (length e)) ≤ℤ b.max_bytes
    → (append_file b.path (line e) d).0 ≡ none
    → append e b d ≡ (none, add_entry e b, (append_file b.path (line e) d).1)
unfolding append
append_fits e b d v fits done =
    let small : total b.entries + suc (length e) < 2 ^ 63 = omega (arith, v.limit_small, fits) in
    rw (can_fit e b (omega arith) (omega arith), done)
      (trim_fits (add_entry e b) (append_file b.path (line e) d).1
        (add_entry-size e b v.sized small) (omega (arith, add_entry-total e b))
        (inl (rw (add_entry-total, add_entry-limit) fits)))

-- Where a failed Append has left a part of a line at the end of the file of a well-formed buffer,
-- an Append that works and drops nothing puts its entry behind that part: memory has the new entry,
-- and the lines of the file are the old entries and one line, the part and the new entry joined.
-- The entries are lines of the file, and neither the part nor the new entry has an end of line in
-- it.
pub append_after_torn :
    (e part : Bytes) (b : Buffer) (d : Disk)
    → IsValid b
    → All (IsLine max_line) b.entries
    → contents (d.files b.path) ≡ jsonl b.entries ++ part
    → All (λ c. (c ≢ newline) × (c ≢ return)) part
    → All (λ c. (c ≢ newline) × (c ≢ return)) e
    → pos (total b.entries + suc (length e)) ≤ℤ b.max_bytes
    → (append_file b.path (line e) d).0 ≡ none
    → ((append e b d).0 ≡ none)
      × ((append e b d).1.entries ≡ b.entries ++ e ∷ [])
      × (raw_lines (contents ((append e b d).2.files b.path)) ≡ b.entries ++ (part ++ e) ∷ [])
append_after_torn e part b d v lines torn hp he fits done =
    rw (append_fits e b d v fits done) (refl, unfold add_entry in refl, rest)
  where
    text :
        contents ((append_file b.path (line e) d).1.files b.path)
        ≡ jsonl b.entries ++ line (part ++ e)
    text =
        Appended-none b.path (line e) d _ (append_file-Appended b.path (line e) d) done
        ∙ ap (λ t. t ++ line e) torn
        ∙ append_assoc (jsonl b.entries) part (line e)
        ∙ ap (λ t. jsonl b.entries ++ t) (sym (append_assoc part e (newline ∷ [])))

    last : raw_lines (line (part ++ e)) ≡ (part ++ e) ∷ []
    last =
        ap raw_lines (sym (append-nil (line (part ++ e))))
        ∙ raw_lines-line (part ++ e) [] (All-append _ part e hp he)
        ∙ (unfold raw_lines in refl)

    rest :
        raw_lines (contents ((append_file b.path (line e) d).1.files b.path))
        ≡ b.entries ++ (part ++ e) ∷ []
    rest =
        ap raw_lines text
        ∙ raw_lines-jsonl max_line b.entries (line (part ++ e)) lines
        ∙ ap (λ t. b.entries ++ t) last
