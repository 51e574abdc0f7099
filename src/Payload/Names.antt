-- ===== src/Payload/Names.antt =====
-- ValidMetricName of internal/payload/payload.go, and the shape of a metric's name.
use mathlib.Core.Path.{subst}
use nadi_agent.Prelude.{
  ℕ, ◌≤◌, ◌≡◌, ◌≢◌, ◌∙◌, ◌↔◌, ap, refl, sym, true, ◌⊎◌, List, [], ◌∷◌, ◌++◌, Bytes, arith, length,
  All,
}
use nadi_agent.Regexp.{Regexp, class, seq}
use nadi_agent.Regexp.Language.{Matches, Star, stop, more, match_string_iff}
use nadi_agent.Payload.{max_name_len, name_char, is_dot, segment, metric_name_re, valid_metric_name}

-- A lower-case letter, a digit or an underscore.
abbrev pub IsNameChar : ℕ → Type 0
IsNameChar c = ((b'a' ≤ c) × (c ≤ b'z')) ⊎ (((b'0' ≤ c) × (c ≤ b'9')) ⊎ (c ≡ b'_'))

abbrev pub IsSegment : Bytes → Type 0
IsSegment s = (s ≢ []) × All IsNameChar s

-- Segments, each behind a dot.
unfoldable pub dotted : List Bytes → Bytes
dotted [] = []
dotted (s ∷ ss) = b'.' ∷ s ++ dotted ss

name_char_iff : (c : ℕ) → (name_char c ≡ true) ↔ IsNameChar c
unfolding name_char
name_char_iff c = ground arith

is_dot_iff : (c : ℕ) → (is_dot c ≡ true) ↔ (c ≡ b'.')
is_dot_iff c = ground arith

Star→All : {s : Bytes} → Star (Matches (class name_char)) s → All IsNameChar s
Star→All stop = tt
Star→All (more {t} (c, e, on) rest) =
    subst (λ s. All IsNameChar (s ++ t)) (sym e) ((name_char_iff c).0 on, Star→All rest)

All→Star : (s : Bytes) → All IsNameChar s → Star (Matches (class name_char)) s
All→Star [] h = stop
All→Star (c ∷ s) (on, h) = more {s = c ∷ []} (c, refl, (name_char_iff c).1 on) (All→Star s h)

Matches→IsSegment : (s : Bytes) → Matches segment s → IsSegment s
Matches→IsSegment s (x, y, e, (c, first, on), rest) =
    let whole : s ≡ c ∷ y = e ∙ ap (λ t. t ++ y) first in
    subst IsSegment (sym whole) ((λ p. cc), ((name_char_iff c).0 on, Star→All rest))

IsSegment→Matches : (s : Bytes) → IsSegment s → Matches segment s
IsSegment→Matches [] (ne, h) = absurd (ne refl)
IsSegment→Matches (c ∷ s) (ne, (on, h)) =
    (c ∷ [], s, refl, (c, refl, (name_char_iff c).1 on), All→Star s h)

-- A dot and a segment.
abbrev dot_segment : Regexp
dot_segment = seq (class is_dot) segment

-- Segments that make up a text behind dots.
abbrev Parted : Bytes → Type 0
Parted s = (ss : List Bytes) × (s ≡ dotted ss) × All IsSegment ss

dot_then : (s : Bytes) → Matches dot_segment s → (y : Bytes) × (s ≡ b'.' ∷ y) × IsSegment y
dot_then s (x, y, e, (c, dot, on), seg) =
    (y, e ∙ ap (λ t. t ++ y) dot ∙ ap (λ c. c ∷ y) ((is_dot_iff c).0 on), Matches→IsSegment y seg)

Star→Parted : {s : Bytes} → Star (Matches dot_segment) s → Parted s
unfolding dotted
Star→Parted stop = ([], refl, tt)
Star→Parted (more {s} {t} one rest) =
    let (ss, joined, all) = Star→Parted rest in
    let (y, head, seg) = dot_then s one in
    (y ∷ ss, ap (λ u. u ++ t) head ∙ ap (λ u. b'.' ∷ y ++ u) joined, (seg, all))

dot_first : (s : Bytes) → IsSegment s → Matches dot_segment (b'.' ∷ s)
dot_first s h = (b'.' ∷ [], s, refl, (b'.', refl, (is_dot_iff b'.').1 refl), IsSegment→Matches s h)

All→Star_dotted : (ss : List Bytes) → All IsSegment ss → Star (Matches dot_segment) (dotted ss)
unfolding dotted
All→Star_dotted [] h = stop
All→Star_dotted (s ∷ ss) (h, hs) = more {s = b'.' ∷ s} (dot_first s h) (All→Star_dotted ss hs)

-- Two or more segments, joined by dots.
pub record IsDotted (name : Bytes) : Type 0 where
  pub first : Bytes
  pub second : Bytes
  pub rest : List Bytes
  pub joined : name ≡ first ++ dotted (second ∷ rest)
  pub segments : All IsSegment (first ∷ second ∷ rest)

Matches→IsDotted : (name : Bytes) → Matches metric_name_re name → IsDotted name
unfolding metric_name_re dotted
Matches→IsDotted name (x, y, e, first, (u, v, e', one, more_of)) =
    let (ss, joined, all) = Star→Parted more_of in
    let (s, head, seg) = dot_then u one in
    record {
      first = x;
      second = s;
      rest = ss;
      joined = e ∙ ap (λ t. x ++ t) (e' ∙ ap (λ t. t ++ v) head ∙ ap (λ t. b'.' ∷ s ++ t) joined);
      segments = (Matches→IsSegment x first, (seg, all));
    }

IsDotted→Matches : (name : Bytes) → IsDotted name → Matches metric_name_re name
unfolding metric_name_re dotted
IsDotted→Matches name d =
    let (first, (second, rest)) = d.segments in
    (
      d.first,
      dotted (d.second ∷ d.rest),
      d.joined,
      IsSegment→Matches d.first first,
      (
        b'.' ∷ d.second,
        dotted d.rest,
        refl,
        dot_first d.second second,
        All→Star_dotted d.rest rest,
      ),
    )

-- A name is valid exactly if it has at most 64 bytes and is two or more segments joined by dots, each
-- of one or more lower-case letters, digits and underscores.
pub valid_metric_name_iff :
    (name : Bytes)
    → (valid_metric_name name ≡ true) ↔ ((length name ≤ max_name_len) × IsDotted name)
unfolding valid_metric_name
valid_metric_name_iff name =
    let (there, back) = match_string_iff metric_name_re name in
    (
      (λ h. (ground (arith, h), Matches→IsDotted name (there (ground (arith, h))))),
      (λ h. let (short, d) = h in ground (arith, short, back (IsDotted→Matches name d))),
    )
