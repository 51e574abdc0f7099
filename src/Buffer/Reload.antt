-- ===== src/Buffer/Reload.antt =====
-- New and load of internal/buffer/buffer.go on a file that a buffer was saved to.
use nadi_agent.Prelude.{
  ℕ, ◌+◌, ◌^◌, ◌<◌, ◌≡◌, ◌≢◌, ◌∙◌, ap, refl, sym, true, none, List, [], ◌∷◌, ◌++◌, Bytes, length,
  arith, append_assoc, ◌⊎◌, inl, inr, Option-cases, append-nil, lt→ltb, All,
}
use mathlib.Core.Path.{subst₂}
use nadi_agent.Int64.{ℤ, pos, ◌≤ℤ◌}
use nadi_agent.Disk.{
  Disk, Files, contents, newline, return, raw_lines, drop_cr, scan, open_read, read, close,
}
use nadi_agent.Buffer.{
  Buffer, line, add_entry, load_lines, load_contents, load, fresh, new, made, trim, max_line,
}
use nadi_agent.Buffer.Invariant.{
  IsValid, trimmed, drop_oldest_to_fit_lem, add_entry-size, add_entry-total, total-lt,
}
use nadi_agent.Buffer.Trim.{total, overfull_fits, fit_whole}
use nadi_agent.Buffer.File.{jsonl}
use nadi_agent.Buffer.Durable.{IsSaved}

-- A payload that is one line of the file: not empty, shorter than the scanner's limit, and with no
-- end of line in it, as in JSON that is not indented.
abbrev pub IsLine : ℕ → Bytes → Type 0
IsLine limit e = (e ≢ []) × All (λ c. (c ≢ newline) × (c ≢ return)) e × (length e < limit)

pub raw_lines-line :
    (e s : Bytes)
    → All (λ c. (c ≢ newline) × (c ≢ return)) e
    → raw_lines (line e ++ s) ≡ e ∷ raw_lines s
unfolding raw_lines
raw_lines-line [] s h = refl
raw_lines-line (c ∷ e) s (hc, he) = ground (arith, raw_lines-line e s he)

pub raw_lines-jsonl :
    (limit : ℕ) (es : List Bytes) (s : Bytes)
    → All (IsLine limit) es
    → raw_lines (jsonl es ++ s) ≡ es ++ raw_lines s
raw_lines-jsonl limit [] s h = refl
raw_lines-jsonl limit (e ∷ es) s (he, hes) =
    ap raw_lines (append_assoc (line e) (jsonl es) s)
    ∙ raw_lines-line e (jsonl es ++ s) he.1
    ∙ ap (λ t. e ∷ t) (raw_lines-jsonl limit es s hes)

-- A text that is only full lines.
raw_lines_saved : (limit : ℕ) (es : List Bytes) → All (IsLine limit) es → raw_lines (jsonl es) ≡ es
raw_lines_saved limit es h =
    ap raw_lines (sym (append-nil (jsonl es)))
    ∙ raw_lines-jsonl limit es [] h
    ∙ (unfold raw_lines in append-nil es)

drop_cr_none : (e : Bytes) → All (λ c. (c ≢ newline) × (c ≢ return)) e → drop_cr e ≡ e
unfolding drop_cr
drop_cr_none [] h = refl
drop_cr_none (c ∷ []) h = ground arith
drop_cr_none (c ∷ d ∷ e) (hc, h) = ap (λ t. c ∷ t) (drop_cr_none (d ∷ e) h)

scan_lines : (limit : ℕ) (es : List Bytes) → All (IsLine limit) es → scan limit es ≡ (es, true)
unfolding scan
scan_lines limit [] h = refl
scan_lines limit (e ∷ es) (he, hes) =
    rw (scan_lines limit es hes, lt→ltb _ _ he.2, drop_cr_none e he.1)

-- The buffer with other entries, and their size.
abbrev holding : List Bytes → Buffer → Buffer
holding es b = record b { entries = es; size = pos (total es) }

holding_self : (b : Buffer) → b.size ≡ pos (total b.entries) → holding b.entries b ≡ b
holding_self b s = ground arith

-- Loading appends the lines, and counts them.
load_lines-holding :
    (limit : ℕ) (es : List Bytes) (b : Buffer)
    → All (IsLine limit) es
    → b.size ≡ pos (total b.entries)
    → total b.entries + total es < 2 ^ 63
    → load_lines es b ≡ holding (b.entries ++ es) b
unfolding load_lines
load_lines-holding limit [] b h s small = ground (arith, append-nil b.entries)
load_lines-holding limit ([] ∷ es) b ((ne, _, _), hes) s small = absurd (ne refl)
load_lines-holding limit ((c ∷ e) ∷ es) b (he, hes) s small =
    load_lines-holding limit es (add_entry (c ∷ e) b) hes (add_entry-size (c ∷ e) b s (omega arith))
      (omega (arith, add_entry-total (c ∷ e) b))
    ∙ (unfold add_entry in ap (λ t. holding t b) (append_assoc b.entries ((c ∷ e) ∷ []) es))

-- Where the entries fit, trim does nothing.
pub trim_fits :
    (b : Buffer) (d : Disk)
    → b.size ≡ pos (total b.entries)
    → total b.entries < 2 ^ 63
    → (pos (total b.entries) ≤ℤ b.max_bytes) ⊎ (b.entries ≡ [])
    → trim b d ≡ (none, b, d)
unfolding trim trimmed
trim_fits b d s h fits =
    let idle = overfull_fits b.max_bytes b.entries fits in
    let same : trimmed b ≡ b =
      ap (λ t. holding t b) (fit_whole b.max_bytes b.entries idle) ∙ holding_self b s in
    rw (drop_oldest_to_fit_lem b s h, idle) (ap (λ t. (none, t, d)) same)

-- A disk on which every call succeeds.
abbrev pub healthy : Files → Disk
healthy f = record { files = f; faults = [] }

load_text :
    (text : Bytes) (es : List Bytes) (b : Buffer) (f : Files)
    → raw_lines text ≡ es
    → All (IsLine max_line) es
    → b.entries ≡ []
    → b.size ≡ pos 0
    → total es < 2 ^ 63
    → (pos (total es) ≤ℤ b.max_bytes) ⊎ (es ≡ [])
    → load_contents text b (healthy f) ≡ (none, holding es b, healthy f)
unfolding load_contents read
load_text text es b f split h e s small fits =
    let counted : b.size ≡ pos (total b.entries) = s ∙ ap (λ t. pos (total t)) (sym e) in
    let loaded : load_lines es b ≡ holding es b =
      load_lines-holding max_line es b h counted (omega (arith, ap total e))
      ∙ ap (λ t. holding (t ++ es) b) e in
    rw (split, scan_lines max_line es h, loaded)
      (trim_fits (holding es b) (healthy f) refl small fits)

load_split :
    (path : Bytes) (max_size_mb : ℤ) (es : List Bytes) (f : Files)
    → raw_lines (contents (f path)) ≡ es
    → All (IsLine max_line) es
    → total es < 2 ^ 63
    → (pos (total es) ≤ℤ (fresh path max_size_mb).max_bytes) ⊎ (es ≡ [])
    → load (fresh path max_size_mb) (healthy f)
      ≡ (none, holding es (fresh path max_size_mb), healthy f)
unfolding load open_read close raw_lines
load_split path mb es f split h small fits = elim (Option-cases (f path)) [
  | inl gone ↦
      let empty : es ≡ [] = sym split ∙ ap (λ o. raw_lines (contents o)) gone in
      rw (gone, empty) refl
  | inr (text, found) ↦
      let same : raw_lines text ≡ es = ap (λ o. raw_lines (contents o)) (sym found) ∙ split in
      rw (found, load_text text es (fresh path mb) f same h refl refl small fits)
]

-- New where no call fails, on a file whose lines are the entries of a well-formed buffer.
pub new-raw_lines :
    (b : Buffer) (max_size_mb : ℤ) (f : Files)
    → IsValid b
    → All (IsLine max_line) b.entries
    → b.max_bytes ≡ (fresh b.path max_size_mb).max_bytes
    → raw_lines (contents (f b.path)) ≡ b.entries
    → new b.path max_size_mb (healthy f) ≡ (made b, healthy f)
unfolding new
new-raw_lines b mb f v h same split =
    let fits : (pos (total b.entries) ≤ℤ (fresh b.path mb).max_bytes) ⊎ (b.entries ≡ []) =
      subst₂ (λ s m. (s ≤ℤ m) ⊎ (b.entries ≡ [])) v.sized same v.fits in
    let back : holding b.entries (fresh b.path mb) ≡ b = λ i. record {
      path = b.path;
      max_bytes = sym same i;
      entries = b.entries;
      size = sym v.sized i;
    } in
    rw (load_split b.path mb b.entries f split h (omega (arith, total-lt v)) fits, back)

-- New on a disk where no call fails gives back the well-formed buffer that was saved there, with
-- its entries in their order: the limit is the same, and every entry is one line that the scanner
-- can take.
pub new-saved :
    (b : Buffer) (max_size_mb : ℤ) (f : Files)
    → IsValid b
    → All (IsLine max_line) b.entries
    → b.max_bytes ≡ (fresh b.path max_size_mb).max_bytes
    → IsSaved b (healthy f)
    → new b.path max_size_mb (healthy f) ≡ (made b, healthy f)
new-saved b mb f v h same saved =
    new-raw_lines b mb f v h same (ap raw_lines saved ∙ raw_lines_saved max_line b.entries h)
