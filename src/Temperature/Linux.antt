-- ===== src/Temperature/Linux.antt =====
-- internal/collector/temperature_linux.go: the output of lm-sensors.
pub mod Preference
use nadi_agent.Prelude.{
  ℕ, suc, ◌+◌, Bool, ◌||◌, ◌&&◌, Option, none, some, List, [], ◌∷◌, Runes, codes, take, drop, map,
  ltb, ◌==◌, if◌then◌else◌,
}
use nadi_agent.Strings.{has_prefix, contains, split, count_while, is_digit}
use nadi_agent.Collectors.{Float, Tools, ◌>>=◌}

-- The degree sign and a C.
abbrev degrees : Runes
degrees = 0xB0 ∷ b'C' ∷ []

-- Digits, a point and digits: how many runes at the start of a text, or 0 where it starts otherwise.
abbrev whole_length : Runes → ℕ
whole_length s = count_while is_digit s

abbrev point_length : Runes → ℕ
point_length [] = 0
point_length (c ∷ s) =
    if c == b'.' && ltb 0 (count_while is_digit s) then suc (count_while is_digit s) else 0

-- The number that starts a text and has the unit behind it: [0-9]+(?:\.[0-9]+)?°C, where the digits
-- have to be taken whole, since neither a point nor the unit is a digit.
unfoldable pub number_with_unit : Runes → Option Runes
number_with_unit s =
    let whole = whole_length s in
    let fraction = point_length (drop whole s) in
    if ltb 0 whole && has_prefix (drop (whole + fraction) s) degrees
    then some (take (whole + fraction) s)
    else none

abbrev without_plus : Runes → Runes
without_plus [] = []
without_plus (c ∷ s) = if c == b'+' then s else c ∷ s

-- tempRe.FindStringSubmatch: the group of the first match.
unfoldable pub find_temp : Runes → Option Runes
unfolding number_with_unit
find_temp [] = none
find_temp (c ∷ s) = elim (number_with_unit (without_plus (c ∷ s))) [
  | some number ↦ some number
  | none ↦ find_temp s
]

-- `lower` is unicode.ToLower of a rune.
abbrev pub is_cpu_line : (ℕ → ℕ) → Runes → Bool
is_cpu_line lower line =
    let low = map lower line in
    contains low (codes "package")
    || (contains low (codes "tdie") || (contains low (codes "tctl") || contains low (codes "cpu")))

-- The fallback keeps the first of the readings.
abbrev pub keep_first {ℓ} : {F : Type ℓ} → Option F → F → Option F
keep_first none v = some v
keep_first (some fallback) v = some fallback

-- The reading of a line.
abbrev pub reading {ℓ} : {F : Type ℓ} → Float F → Runes → Option F
reading float line = find_temp line >>= float.parse

module _ {ℓ} {F : Type ℓ} (float : Float F) (lower : ℕ → ℕ) where
  -- The loop over the lines and `fallback`.
  unfoldable pub sensors_loop : List Runes → Option F → Option F
  sensors_loop [] fallback = fallback
  sensors_loop (line ∷ lines) fallback = elim (reading float line) [
    | none ↦ sensors_loop lines fallback
    | some v ↦
        let go_on = sensors_loop lines (keep_first fallback v) in
        if is_cpu_line lower line then some v else go_on
  ]

  unfoldable pub parse_sensors_cpu_temp : Runes → Option F
  unfolding sensors_loop
  parse_sensors_cpu_temp text = sensors_loop (split b'\n' text) none

  unfoldable pub cpu_temperature : Tools → Option F
  unfolding parse_sensors_cpu_temp
  cpu_temperature tools =
      if tools.exists (codes "sensors")
      then tools.run (codes "sensors") [] >>= parse_sensors_cpu_temp
      else none
