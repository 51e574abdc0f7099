-- ===== src/Regexp.antt =====
-- The part of Go's package regexp that the program uses: matching of a whole text (^…$) against an
-- expression of classes, sequences and repetitions, by derivatives.
pub mod Language
use nadi_agent.Prelude.{ℕ, Bool, true, false, ◌&&◌, ◌||◌, [], ◌∷◌, Bytes, if◌then◌else◌}

pub data Regexp : Type 0 where
  nothing empty : Regexp
  class : (ℕ → Bool) → Regexp
  seq alt : Regexp → Regexp → Regexp
  star : Regexp → Regexp

-- `r+`
abbrev pub plus : Regexp → Regexp
plus r = seq r (star r)

-- Whether the expression matches the empty text.
unfoldable pub nullable : Regexp → Bool
nullable nothing = false
nullable empty = true
nullable (class p) = false
nullable (seq r q) = nullable r && nullable q
nullable (alt r q) = nullable r || nullable q
nullable (star r) = true

-- What has to match the rest of a text that begins with `c`.
unfoldable pub derive : ℕ → Regexp → Regexp
derive c nothing = nothing
derive c empty = nothing
derive c (class p) = if p c then empty else nothing
derive c (seq r q) = alt (seq (derive c r) q) (if nullable r then derive c q else nothing)
derive c (alt r q) = alt (derive c r) (derive c q)
derive c (star r) = seq (derive c r) (star r)

unfoldable pub match_string : Regexp → Bytes → Bool
unfolding nullable derive
match_string r [] = nullable r
match_string r (c ∷ s) = match_string (derive c r) s
