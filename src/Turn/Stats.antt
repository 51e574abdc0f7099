-- ===== src/Turn/Stats.antt =====
-- internal/collector/turn_stats.go: the output of coturn's `stats` command.
pub mod Streaming
pub mod Search
pub mod Numbers
use nadi_agent.Prelude.{
  ℕ, ◌+◌, Bool, true, false, ◌&&◌, not, Option, none, some, List, [], ◌∷◌, ◌++◌, Runes, codes, drop,
  map, if◌then◌else◌,
}
use nadi_agent.Strings.{contains, index_func, count_while, split, slice, is_digit, is_numeric}
use nadi_agent.Collectors.{Float, ◌>>=◌}

-- The variables of parseCoturnStats.
pub record Stats {ℓ} (F : Type ℓ) : Type ℓ where
  pub sessions : F
  pub bytes : F
  pub found_sessions : Bool
  pub found_bytes : Bool

-- sessions, bytes and ok
abbrev pub result_of {ℓ} : {F : Type ℓ} → Stats F → (F × F) × Bool
result_of st = ((st.sessions, st.bytes), st.found_sessions && st.found_bytes)

module _ {ℓ} {F : Type ℓ} (float : Float F) where
  -- The digits and points from the first digit of a line on.
  abbrev number_from : Runes → ℕ → Runes
  number_from line i = slice i (i + count_while is_numeric (drop i line)) line

  unfoldable pub first_number : Runes → Option F
  first_number line = index_func is_digit line >>= λ i. float.parse (number_from line i)

  abbrev note_sessions : Option F → Stats F → Stats F
  note_sessions none st = st
  note_sessions (some n) st = record st { sessions = n; found_sessions = true }

  abbrev note_bytes : Option F → Stats F → Stats F
  note_bytes none st = st
  note_bytes (some n) st = record st { bytes = n; found_bytes = true }

  abbrev pub nothing_found : Stats F
  nothing_found = record {
    sessions = float.of_nat 0;
    bytes = float.of_nat 0;
    found_sessions = false;
    found_bytes = false;
  }

  module _ (lower : ℕ → ℕ) where
    abbrev pub find_sessions : Runes → Stats F → Stats F
    find_sessions line st =
        if not st.found_sessions && contains (map lower line) (codes "session")
        then note_sessions (first_number line) st
        else st

    abbrev pub find_bytes : Runes → Stats F → Stats F
    find_bytes line st =
        if not st.found_bytes && contains (map lower line) (codes "byte")
        then note_bytes (first_number line) st
        else st

    -- The loop over the lines.
    unfoldable pub stats_loop : List Runes → Stats F → Stats F
    unfolding first_number
    stats_loop [] st = st
    stats_loop (line ∷ lines) st = stats_loop lines (find_bytes line (find_sessions line st))

    unfoldable pub parse_coturn_stats : Runes → (F × F) × Bool
    unfolding stats_loop
    parse_coturn_stats text = result_of (stats_loop (split b'\n' text) nothing_found)

    -- The loop of readCoturnStats over the lines that arrive before the end or the deadline, and the
    -- text so far.
    unfoldable pub read_loop : List Runes → Runes → (F × F) × Bool
    unfolding parse_coturn_stats
    read_loop [] buf = parse_coturn_stats buf
    read_loop (line ∷ lines) buf =
        let buf' = buf ++ (line ++ b'\n' ∷ []) in
        elim (parse_coturn_stats buf').1 [
          | true ↦ parse_coturn_stats buf'
          | false ↦ read_loop lines buf'
        ]

    -- readCoturnStats; `none` is an error of the connection or of the command.
    unfoldable pub read_coturn_stats : Option (List Runes) → (F × F) × Bool
    unfolding read_loop
    read_coturn_stats none = ((float.of_nat 0, float.of_nat 0), false)
    read_coturn_stats (some lines) = read_loop lines []
