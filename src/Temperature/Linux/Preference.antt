-- ===== src/Temperature/Linux/Preference.antt =====
-- parseSensorsCPUTemp of internal/collector/temperature_linux.go, against two searches of the lines.
use mathlib.Core.Option.{or_else}
use nadi_agent.Prelude.{
  ℕ, ◌≡◌, refl, inl, inr, Option, none, some, List, [], ◌∷◌, Runes, arith, Option-cases,
  if◌then◌else◌,
}
use nadi_agent.Strings.{split}
use nadi_agent.Collectors.{Float}
use nadi_agent.Temperature.Linux.{
  reading, is_cpu_line, keep_first, sensors_loop, parse_sensors_cpu_temp,
}

module _ {ℓ} {F : Type ℓ} (float : Float F) (lower : ℕ → ℕ) where
  abbrev pub cpu_reading : Runes → Option F
  cpu_reading line = if is_cpu_line lower line then reading float line else none

  -- The first value that a reading of the lines gives.
  pub first_of : (Runes → Option F) → List Runes → Option F
  first_of read_line [] = none
  first_of read_line (line ∷ lines) = or_else (read_line line) (first_of read_line lines)

  sensors_loop-first_of :
      (lines : List Runes) (fallback : Option F)
      → sensors_loop float lower lines fallback
        ≡ or_else (first_of cpu_reading lines) (or_else fallback (first_of (reading float) lines))
  unfolding sensors_loop first_of or_else
  sensors_loop-first_of [] none = refl
  sensors_loop-first_of [] (some v) = refl
  sensors_loop-first_of (line ∷ lines) fallback = elim (Option-cases (reading float line)) [
    | inl missing ↦ ground (arith, missing, sensors_loop-first_of lines fallback)
    | inr (v, found) ↦ ground (arith, found, sensors_loop-first_of lines (keep_first fallback v))
  ]

  -- The temperature is the first reading on a line that names the package, the die or the CPU, and only
  -- where no such line has a reading the first on any line; there is none exactly if no line has one.
  pub parse_sensors_cpu_temp-first_of :
      (text : Runes)
      → parse_sensors_cpu_temp float lower text
        ≡ or_else
            (first_of cpu_reading (split b'\n' text))
            (first_of (reading float) (split b'\n' text))
  unfolding parse_sensors_cpu_temp
  parse_sensors_cpu_temp-first_of text =
      unfold or_else in sensors_loop-first_of (split b'\n' text) none
