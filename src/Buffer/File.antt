-- ===== src/Buffer/File.antt =====
-- writeAll of internal/buffer/buffer.go: the text of the file, with calls that fail.
use nadi_agent.Prelude.{
  ◌≡◌, ◌≢◌, ◌∙◌, ap, refl, true, none, some, List, [], ◌∷◌, ◌++◌, Bytes, codes, Option, length,
  arith, length-append, append_assoc, Bool-cases, inl, inr, append-nil,
}
use mathlib.Core.Bool.{false≢true}
use nadi_agent.Disk.{Disk, open_trunc, write, close, rename}
use nadi_agent.Disk.Calls.{
  open_trunc_file, open_trunc_other, write_file, write_other, files-close, rename_target,
  rename_failed,
}
use nadi_agent.Buffer.{Buffer, Error, temp, line, write_entries, replace_file, write_all}

-- The text of a file with the given entries, one to a line.
abbrev pub jsonl : List Bytes → Bytes
jsonl [] = []
jsonl (e ∷ es) = line e ++ jsonl es

pub jsonl-append : (xs ys : List Bytes) → jsonl (xs ++ ys) ≡ jsonl xs ++ jsonl ys
jsonl-append [] ys = refl
jsonl-append (x ∷ xs) ys = simp (jsonl-append xs ys, append_assoc)

pub temp-ne : (p : Bytes) → temp p ≢ p
temp-ne p e = absurd (omega (arith, ap length e, length-append p (codes ".tmp")))

write_entries_file :
    (p : Bytes) (es : List Bytes) (d : Disk) (c : Bytes)
    → d.files p ≡ some c
    → (write_entries p es d).0 ≡ true
    → (write_entries p es d).1.files p ≡ some (c ++ jsonl es)
unfolding write_entries
write_entries_file p [] d c h k = rw append-nil h
write_entries_file p (e ∷ es) d c h k = elim (Bool-cases (write p (line e) d).0) [
  | inl ok ↦
      let d1 = (write p (line e) d).1 in
      let now : d1.files p ≡ some (c ++ line e) = rw (write_file p d (line e) ok, h) refl in
      rw ok (
        write_entries_file p es d1 (c ++ line e) now (rw ok at k)
        ∙ ap some (append_assoc c (line e) (jsonl es)))
  | inr bad ↦ absurd (false≢true (rw bad at k))
]

write_entries_other :
    (p q : Bytes) (es : List Bytes) (d : Disk)
    → p ≢ q
    → (write_entries p es d).1.files q ≡ d.files q
unfolding write_entries
write_entries_other p q [] d h = refl
write_entries_other p q (e ∷ es) d h = elim (Bool-cases (write p (line e) d).0) [
  | inl ok ↦
      rw ok (write_entries_other p q es (write p (line e) d).1 h ∙ write_other p q d h (line e))
  | inr bad ↦ rw (bad, files-close) (write_other p q d h (line e))
]

-- What replace_file leaves: the new text, or an error and the old one.
abbrev pub Replaced : Bytes → Option Bytes → Disk → Option Error × Disk → Type 0
Replaced path new d (none, d') = d'.files path ≡ new
Replaced path new d (some e, d') = d'.files path ≡ d.files path

replace_file-Replaced :
    (tmp path : Bytes) (d : Disk)
    → tmp ≢ path
    → Replaced path (d.files tmp) d (replace_file tmp path d)
unfolding replace_file
replace_file-Replaced tmp path d h = elim (Bool-cases (close d).0) [
  | inl closed ↦ elim (Bool-cases (rename tmp path (close d).1).0) [
    | inl moved ↦
        rw (closed, moved)
          (rename_target tmp path (close d).1 h moved ∙ ap (λ f. f tmp) (files-close d))
    | inr stuck ↦
        rw (closed, stuck)
          (ap (λ f. f path) (rename_failed tmp path (close d).1 stuck ∙ files-close d))
  ]
  | inr unclosed ↦ rw unclosed (ap (λ f. f path) (files-close d))
]

Replaced-from :
    {new new' : Option Bytes} (path : Bytes) (d d' : Disk) (r : Option Error × Disk)
    → new ≡ new'
    → d.files path ≡ d'.files path
    → Replaced path new d r
    → Replaced path new' d' r
Replaced-from path d d' (none, _) p q h = h ∙ p
Replaced-from path d d' (some e, _) p q h = h ∙ q

-- writeAll is atomic: it returns no error and the file holds the entries, one to a line, or it returns
-- an error and the file is the one before the call.
pub write_all_atomic :
    (b : Buffer) (d : Disk) → Replaced b.path (some (jsonl b.entries)) d (write_all b d)
unfolding write_all
write_all_atomic b d =
    let tmp = temp b.path in
    let d1 = (open_trunc tmp d).1 in
    let d2 = (write_entries tmp b.entries d1).1 in
    let ne = temp-ne b.path in
    let before : d1.files b.path ≡ d.files b.path = open_trunc_other tmp b.path d ne in
    let same : d2.files b.path ≡ d.files b.path =
      write_entries_other tmp b.path b.entries d1 ne ∙ before in
    elim (Bool-cases (open_trunc tmp d).0) [
      | inl created ↦ elim (Bool-cases (write_entries tmp b.entries d1).0) [
        | inl written ↦
            rw (created, written)
              (Replaced-from b.path d2 d (replace_file tmp b.path d2)
                (write_entries_file tmp b.entries d1 [] (open_trunc_file tmp d created) written)
                same (replace_file-Replaced tmp b.path d2 ne))
        | inr torn ↦ rw (created, torn) same
      ]
      | inr missing ↦ rw missing before
    ]
