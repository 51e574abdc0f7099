-- ===== src/DiskCollector/Names.antt =====
-- The names that internal/collector/disk.go gives to its metrics.
use nadi_agent.Prelude.{
  ℕ, ◌≤◌, ◌≡◌, ◌≢◌, ap, refl, sym, true, ◌↔◌, inr, List, [], ◌∷◌, ◌++◌, Bytes, codes, arith, length,
  map, ◌==◌, if◌then◌else◌, All, All-append, length-append, append-nil, if_cases,
}
use mathlib.Core.Path.{subst}
use nadi_agent.Payload.{valid_metric_name}
use nadi_agent.Payload.Names.{IsNameChar, IsSegment, IsDotted, dotted, valid_metric_name_iff}
use nadi_agent.Strings.{fields_func}
use nadi_agent.Strings.Fields.{fields_func-nonempty}
use nadi_agent.DiskCollector.{
  slash, is_tag_char, sanitize_part, join, join_parts, sanitize, usage_name,
}

is_tag_char-IsNameChar : (c : ℕ) → is_tag_char c ≡ true → IsNameChar c
unfolding is_tag_char
is_tag_char-IsNameChar c h = ground (arith, h)

underscore-IsNameChar : IsNameChar b'_'
underscore-IsNameChar = inr (inr refl)

-- Whatever a rune is, what is written for it belongs in a name.
written-IsNameChar : (c : ℕ) → IsNameChar (if is_tag_char c then c else b'_')
written-IsNameChar c =
    if_cases IsNameChar (is_tag_char c) c b'_' (is_tag_char-IsNameChar c)
      (λ _. underscore-IsNameChar)

sanitize_part-All : (part : Bytes) → All IsNameChar (sanitize_part part)
unfolding sanitize_part
sanitize_part-All [] = tt
sanitize_part-All (c ∷ part) = (written-IsNameChar c, sanitize_part-All part)

sanitize_part-nonempty : (part : Bytes) → part ≢ [] → sanitize_part part ≢ []
unfolding sanitize_part
sanitize_part-nonempty [] ne p = ne refl
sanitize_part-nonempty (c ∷ part) ne p = cc

append-nonempty : (p s : Bytes) (c : ℕ) → p ++ c ∷ s ≢ []
append-nonempty [] s c e = cc
append-nonempty (d ∷ p) s c e = cc

join-IsSegment : (p : Bytes) (ps : List Bytes) → All IsSegment (p ∷ ps) → IsSegment (join (p ∷ ps))
unfolding join
join-IsSegment p [] (h, _) = h
join-IsSegment p (q ∷ ps) (h, hs) =
    let (_, rest) = join-IsSegment q ps hs in
    (
      append-nonempty p _ _,
      All-append IsNameChar p (b'_' ∷ join (q ∷ ps)) h.1 (underscore-IsNameChar, rest),
    )

parts-IsSegment : (ps : List Bytes) → All (λ f. f ≢ []) ps → All IsSegment (map sanitize_part ps)
parts-IsSegment [] h = tt
parts-IsSegment (p ∷ ps) (ne, h) =
    ((sanitize_part-nonempty p ne, sanitize_part-All p), parts-IsSegment ps h)

name_chars : (s : Bytes) → sanitize_part s ≡ s → All IsNameChar s
name_chars s e = subst (All IsNameChar) e (sanitize_part-All s)

join_parts-IsSegment : (ps : List Bytes) → All (λ f. f ≢ []) ps → IsSegment (join_parts ps)
unfolding sanitize_part is_tag_char
join_parts-IsSegment [] h = ((λ p. cc), name_chars (codes "root") refl)
join_parts-IsSegment (p ∷ ps) h =
    join-IsSegment (sanitize_part p) (map sanitize_part ps) (parts-IsSegment (p ∷ ps) h)

pub sanitize-IsSegment :
    (lower : ℕ → ℕ) (mountpoint : Bytes) → IsSegment (sanitize lower mountpoint)
unfolding sanitize
sanitize-IsSegment lower mountpoint =
    join_parts-IsSegment (fields_func (λ r. r == slash) (map lower mountpoint))
      (fields_func-nonempty (λ r. r == slash) (map lower mountpoint))

fixed_segments : IsSegment (codes "disk") × IsSegment (codes "usage_percent")
unfolding sanitize_part is_tag_char
fixed_segments = (
  ((λ p. cc), name_chars (codes "disk") refl),
  ((λ p. cc), name_chars (codes "usage_percent") refl),
)

usage_name-IsDotted : (lower : ℕ → ℕ) (mountpoint : Bytes) → IsDotted (usage_name lower mountpoint)
unfolding dotted
usage_name-IsDotted lower mountpoint = record {
  first = codes "disk";
  second = codes "usage_percent";
  rest = sanitize lower mountpoint ∷ [];
  joined =
      ap (λ t. codes "disk.usage_percent." ++ t) (sym (append-nil (sanitize lower mountpoint)));
  segments = (fixed_segments.0, (fixed_segments.1, (sanitize-IsSegment lower mountpoint, tt)));
}

-- Whatever the mount point is, and whatever runes are in it, the name of its metric is valid for the
-- sender, unless it is too long: the tag that sanitize makes has at most 45 bytes exactly if the sender
-- takes the name.
pub usage_name-valid :
    (lower : ℕ → ℕ) (mountpoint : Bytes)
    → (valid_metric_name (usage_name lower mountpoint) ≡ true)
      ↔ (length (sanitize lower mountpoint) ≤ 45)
usage_name-valid lower mountpoint =
    let (there, back) = valid_metric_name_iff (usage_name lower mountpoint) in
    let counted = length-append (codes "disk.usage_percent.") (sanitize lower mountpoint) in
    (
      (λ h. let (short, _) = there h in omega (arith, counted, short)),
      (λ h. back (omega (arith, counted, h), usage_name-IsDotted lower mountpoint)),
    )
