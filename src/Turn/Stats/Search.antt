-- ===== src/Turn/Stats/Search.antt =====
-- parseCoturnStats of internal/collector/turn_stats.go, against a search of the lines for each number.
use mathlib.Core.Option.{or_else, get_or}
use nadi_agent.Prelude.{
  ℕ, ◌≡◌, ◌∙◌, ap, refl, Bool, true, false, ◌&&◌, Option, none, some, List, [], ◌∷◌, Runes, codes,
  map, arith, if◌then◌else◌,
}
use nadi_agent.Strings.{contains, split}
use nadi_agent.Collectors.{Float}
use nadi_agent.Turn.Stats.{
  Stats, result_of, first_number, find_sessions, find_bytes, stats_loop, parse_coturn_stats,
}

module _ {ℓ} {F : Type ℓ} where
  -- Whether a number was found.
  abbrev pub is_found : Option F → Bool
  is_found none = false
  is_found (some v) = true

or_else_assoc {ℓ} :
    {F : Type ℓ} (a b c : Option F) → or_else (or_else a b) c ≡ or_else a (or_else b c)
unfolding or_else
or_else_assoc none b c = refl
or_else_assoc (some v) b c = refl

module _ {ℓ} {F : Type ℓ} (float : Float F) (lower : ℕ → ℕ) where
  -- The number on a line, if the line mentions a word in any case.
  abbrev pub number_on : Runes → Runes → Option F
  number_on word line = if contains (map lower line) word then first_number float line else none

  -- The number on the first of the lines that mention the word and have one.
  pub first_on : Runes → List Runes → Option F
  first_on word [] = none
  first_on word (line ∷ lines) = or_else (number_on word line) (first_on word lines)

  abbrev stats_of : Option F → Option F → Stats F
  stats_of s b = record {
    sessions = get_or s (float.of_nat 0);
    bytes = get_or b (float.of_nat 0);
    found_sessions = is_found s;
    found_bytes = is_found b;
  }

  find_sessions-number_on :
      (line : Runes) (s b : Option F)
      → find_sessions float lower line (stats_of s b)
        ≡ stats_of (or_else s (number_on (codes "session") line)) b
  unfolding or_else
  find_sessions-number_on line s b = ground arith

  find_bytes-number_on :
      (line : Runes) (s b : Option F)
      → find_bytes float lower line (stats_of s b)
        ≡ stats_of s (or_else b (number_on (codes "byte") line))
  unfolding or_else
  find_bytes-number_on line s b = ground arith

  stats_loop-first_on :
      (lines : List Runes) (s b : Option F)
      → stats_loop float lower lines (stats_of s b)
        ≡ stats_of
            (or_else s (first_on (codes "session") lines))
            (or_else b (first_on (codes "byte") lines))
  unfolding stats_loop first_on
  stats_loop-first_on [] s b = unfold or_else in ground arith
  stats_loop-first_on (line ∷ lines) s b =
      let s' = or_else s (number_on (codes "session") line) in
      let b' = or_else b (number_on (codes "byte") line) in
      ap (λ st. stats_loop float lower lines (find_bytes float lower line st))
        (find_sessions-number_on line s b)
      ∙ ap (stats_loop float lower lines) (find_bytes-number_on line s' b)
      ∙ stats_loop-first_on lines s' b'
      ∙ (λ i.
          stats_of
            (or_else_assoc s (number_on (codes "session") line) (first_on (codes "session") lines)
              i)
            (or_else_assoc b (number_on (codes "byte") line) (first_on (codes "byte") lines) i))

  -- The sessions are the number on the first line that mentions "session" in any case and has a number,
  -- and the bytes that on the first line that mentions "byte" and has one, each 0 where there is none:
  -- neither search depends on the other. The result is good if both are found.
  pub parse_coturn_stats-first_on :
      (text : Runes)
      → parse_coturn_stats float lower text ≡ (
        (
          get_or (first_on (codes "session") (split b'\n' text)) (float.of_nat 0),
          get_or (first_on (codes "byte") (split b'\n' text)) (float.of_nat 0),
        ),
        is_found (first_on (codes "session") (split b'\n' text))
            && is_found (first_on (codes "byte") (split b'\n' text)),
      )
  unfolding parse_coturn_stats or_else
  parse_coturn_stats-first_on text = ap result_of (stats_loop-first_on (split b'\n' text) none none)
