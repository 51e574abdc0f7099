-- ===== src/Buffer/Invariant.antt =====
-- The well-formedness of a Buffer of internal/buffer/buffer.go between two calls: `size`, the entries
-- and the limit.
use nadi_agent.Prelude.{
  suc, ◌+◌, ◌^◌, ◌<◌, ◌≡◌, ◌++◌, refl, ap, ◌⊎◌, inl, inr, true, false, none, List, [], ◌∷◌, Bytes,
  arith, length, Bool-cases, lt→ltb, le→ltb, Option-cases, ltb→lt, ltb_ge,
}
use nadi_agent.Int64.{pos, ltb_ℤ, ◌≤ℤ◌, ◌<ℤ◌, sub64, add64-pos}
use nadi_agent.Disk.{Disk}
use nadi_agent.Buffer.{
  Buffer, add_entry, entry_size, drop_oldest_to_fit, trim, append, append_file, line, pop,
  pop_entry,
}
use nadi_agent.Buffer.Trim.{
  total, total-append, entry_size-pos, size-drop, fit, overfull, drop_loop-fit, fit-IsNewestFitting,
}

-- A limit below 2^62 bytes leaves room to add an entry before the oldest are dropped.
pub record IsValid (b : Buffer) : Type 0 where
  pub sized : b.size ≡ pos (total b.entries)
  pub fits : (b.size ≤ℤ b.max_bytes) ⊎ (b.entries ≡ [])
  pub limit_small : b.max_bytes <ℤ pos (2 ^ 62)

pub total-lt : {b : Buffer} → IsValid b → total b.entries < 2 ^ 62
total-lt {b} v = ground (arith, ap total)

-- The buffer with the newest entries that fit.
unfoldable pub trimmed : Buffer → Buffer
trimmed b = record b {
  entries = fit b.max_bytes b.entries;
  size = pos (total (fit b.max_bytes b.entries));
}

pub drop_oldest_to_fit_lem :
    (b : Buffer)
    → b.size ≡ pos (total b.entries)
    → total b.entries < 2 ^ 63
    → drop_oldest_to_fit b ≡ (overfull b.max_bytes b.entries, trimmed b)
unfolding drop_oldest_to_fit trimmed
drop_oldest_to_fit_lem b s h = ground (arith, drop_loop-fit b.max_bytes b.entries false h)

pub trim-buffer :
    (b : Buffer) (d : Disk)
    → b.size ≡ pos (total b.entries)
    → total b.entries < 2 ^ 63
    → (trim b d).1 ≡ trimmed b
unfolding trim
trim-buffer b d s h = ground (arith, drop_oldest_to_fit_lem b s h)

pub trimmed-IsValid : (b : Buffer) → b.max_bytes <ℤ pos (2 ^ 62) → IsValid (trimmed b)
unfolding trimmed
trimmed-IsValid b h = record {
  sized = refl;
  fits = (fit-IsNewestFitting b.max_bytes b.entries).fits;
  limit_small = h;
}

pub trim-IsValid :
    (b : Buffer) (d : Disk)
    → b.size ≡ pos (total b.entries)
    → total b.entries < 2 ^ 63
    → b.max_bytes <ℤ pos (2 ^ 62)
    → IsValid (trim b d).1
trim-IsValid b d s h small = rw (trim-buffer b d s h) (trimmed-IsValid b small)

pub add_entry-size :
    (e : Bytes) (b : Buffer)
    → b.size ≡ pos (total b.entries)
    → total b.entries + suc (length e) < 2 ^ 63
    → (add_entry e b).size ≡ pos (total (add_entry e b).entries)
unfolding add_entry
add_entry-size e b s h =
    rw (s, entry_size-pos e (omega arith), add64-pos (total b.entries) (suc (length e)) h)
      (ap pos (omega (arith, total-append b.entries (e ∷ []))))

pub add_entry-total :
    (e : Bytes) (b : Buffer) → total (add_entry e b).entries ≡ total b.entries + suc (length e)
unfolding add_entry
add_entry-total e b = omega (arith, total-append b.entries (e ∷ []))

pub add_entry-entries : (e : Bytes) (b : Buffer) → (add_entry e b).entries ≡ b.entries ++ e ∷ []
unfolding add_entry
add_entry-entries e b = refl

pub add_entry-limit : (e : Bytes) (b : Buffer) → (add_entry e b).max_bytes ≡ b.max_bytes
unfolding add_entry
add_entry-limit e b = refl

-- The test of Append lets an entry pass that fits the limit.
pub can_fit :
    (e : Bytes) (b : Buffer)
    → suc (length e) < 2 ^ 63
    → pos (suc (length e)) ≤ℤ b.max_bytes
    → ltb_ℤ b.max_bytes (entry_size e) ≡ false
can_fit e b small h = rw (entry_size-pos e small) (le→ltb _ _ h)

pub cannot_fit :
    (e : Bytes) (b : Buffer)
    → suc (length e) < 2 ^ 63
    → b.max_bytes <ℤ pos (suc (length e))
    → ltb_ℤ b.max_bytes (entry_size e) ≡ true
cannot_fit e b small h = rw (entry_size-pos e small) (lt→ltb _ _ h)

-- Append in terms of the file's part and the trimmed buffer.
pub append-trimmed :
    (e : Bytes) (b : Buffer) (d : Disk)
    → IsValid b
    → pos (suc (length e)) ≤ℤ b.max_bytes
    → (append_file b.path (line e) d).0 ≡ none
    → (append e b d).1 ≡ trimmed (add_entry e b)
unfolding append
append-trimmed e b d v fits written =
    let small : total b.entries + suc (length e) < 2 ^ 63 = omega (arith, total-lt v) in
    let sized = add_entry-size e b v.sized small in
    let room : total (add_entry e b).entries < 2 ^ 63 = omega (arith, add_entry-total e b) in
    rw (can_fit e b (omega arith) fits, written)
      (trim-buffer (add_entry e b) (append_file b.path (line e) d).1 sized room)

-- Append of an entry below 2^63 bytes keeps a buffer well formed, whatever calls on files fail: the
-- size is that of the entries, they fit the limit or there are none, and the limit is below 2^62.
pub append-IsValid :
    (e : Bytes) (b : Buffer) (d : Disk)
    → suc (length e) < 2 ^ 63
    → IsValid b
    → IsValid (append e b d).1
append-IsValid e b d small v = elim (Bool-cases (ltb_ℤ b.max_bytes (pos (suc (length e))))) [
  | inl over ↦ unfold append in rw (cannot_fit e b small (ltb→lt _ _ over)) v
  | inr fits ↦ elim (Option-cases (append_file b.path (line e) d).0) [
    | inl done ↦
        rw (append-trimmed e b d v (ltb_ge _ _ fits) done)
          (trimmed-IsValid (add_entry e b) (rw add_entry-limit v.limit_small))
    | inr (err, failed) ↦ unfold append in rw (can_fit e b small (ltb_ge _ _ fits), failed) v
  ]
]

pop_entry-IsValid :
    (es : List Bytes) (b : Buffer) → b.entries ≡ es → IsValid b → IsValid (pop_entry es b).1
unfolding pop_entry
pop_entry-IsValid [] b p v = v
pop_entry-IsValid (e ∷ es) b p v = record {
  sized = popped_size;
  fits = inl (rw popped_size (ground (arith, ap total p)));
  limit_small = v.limit_small;
}
  where
    popped_size : sub64 b.size (entry_size e) ≡ pos (total es)
    popped_size = rw (v.sized, p) (size-drop e es (omega (arith, total-lt v, ap total p)))

-- Pop keeps a buffer well formed: the size is that of the entries, they fit the limit or there are
-- none, and the limit is below 2^62.
pub pop-IsValid : (b : Buffer) → IsValid b → IsValid (pop b).1
unfolding pop
pop-IsValid b v = pop_entry-IsValid b.entries b refl v
