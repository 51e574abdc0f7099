-- ===== src/Buffer/Dropped.antt =====
-- What Append of internal/buffer/buffer.go leaves out of the queue, on every path.
use mathlib.Core.List.{Perm, perm_append_comm}
use mathlib.Core.List.Perm
use mathlib.Core.Path.{subst}
use nadi_agent.Prelude.{
  ◌≡◌, ◌∙◌, sym, ap, refl, Bool, true, false, inl, inr, ◌⊎◌, Option, Option-cases, List, [], ◌∷◌,
  ◌++◌, Bytes, Bool-cases, if_cases,
}
use nadi_agent.Int64.{ℤ, ltb_ℤ, sub64}
use nadi_agent.Disk.{Disk}
use nadi_agent.Buffer.Invariant.{add_entry-entries}
use nadi_agent.Buffer.{
  Error, Buffer, entry_size, add_entry, drop_loop, drop_oldest_to_fit, trim, append_file, line,
  append,
}

-- `kept` is a list without its first elements.
abbrev pub IsSuffix : List Bytes → List Bytes → Type 0
IsSuffix all kept = (older : List Bytes) × (all ≡ older ++ kept)

drop_loop-IsSuffix :
    (max size : ℤ) (es : List Bytes) (dropped : Bool)
    → IsSuffix es (drop_loop max size es dropped).1
unfolding drop_loop
drop_loop-IsSuffix max size [] dropped = ([], refl)
drop_loop-IsSuffix max size (e ∷ es) dropped = elim (Bool-cases (ltb_ℤ max size)) [
  | inl over ↦
      let (older, split) = drop_loop-IsSuffix max (sub64 size (entry_size e)) es true in
      rw (over, drop_loop) (e ∷ older, ap (λ t. e ∷ t) split)
  | inr fits ↦ rw (fits, drop_loop) ([], refl)
]

trim-IsSuffix : (b : Buffer) (d : Disk) → IsSuffix b.entries (trim b d).1.entries
unfolding trim drop_oldest_to_fit
trim-IsSuffix b d =
    let r = drop_oldest_to_fit b in
    let h = drop_loop-IsSuffix b.max_bytes b.size b.entries false in
    if_cases (λ (x : Option Error × Buffer × Disk). IsSuffix b.entries x.1.entries) r.0 _ _
      (λ dropped. h) (λ kept. h)

-- Append leaves out some of the oldest of the old entries and the new one, or only the new one.
pub append_kept :
    (e : Bytes) (b : Buffer) (d : Disk)
    → IsSuffix (b.entries ++ e ∷ []) (append e b d).1.entries
      ⊎ ((append e b d).1.entries ≡ b.entries)
unfolding append
append_kept e b d = elim (Bool-cases (ltb_ℤ b.max_bytes (entry_size e))) [
  | inl over ↦ rw (over, append) (inr refl)
  | inr fits ↦ elim (Option-cases (append_file b.path (line e) d).0) [
    | inl written ↦
        let (older, split) = trim-IsSuffix (add_entry e b) (append_file b.path (line e) d).1 in
        rw (fits, written, append) (inl (older, sym (add_entry-entries e b) ∙ split))
    | inr (err, failed) ↦ rw (fits, failed, append) (inr refl)
  ]
]

-- Whatever Append does, the old entries and the new one are those that it leaves out and those that are
-- queued behind it.
pub append-dropped :
    (e : Bytes) (b : Buffer) (d : Disk)
    → (lost : List Bytes) × Perm (b.entries ++ e ∷ []) (lost ++ (append e b d).1.entries)
append-dropped e b d = elim (append_kept e b d) [
  | inl (older, split) ↦
      (older, subst (Perm (b.entries ++ e ∷ [])) split (Perm.refl (b.entries ++ e ∷ [])))
  | inr same ↦ rw same (e ∷ [], perm_append_comm b.entries (e ∷ []))
]
