-- ===== src/Temperature/Darwin.antt =====
-- internal/collector/temperature_darwin.go: the output of powermetrics.
use mathlib.Core.Option.{or_else}
use nadi_agent.Prelude.{
  ℕ, zero, suc, not, Option, none, some, List, [], ◌∷◌, Runes, codes, if◌then◌else◌,
}
use nadi_agent.Strings.{has_prefix, split, fields, trim_space}
use nadi_agent.Collectors.{Float, Tools, ◌>>=◌}

-- The element at a position, with `none` where the list is too short.
abbrev field_at : ℕ → List Runes → Option Runes
field_at i [] = none
field_at zero (f ∷ fs) = some f
field_at (suc i) (f ∷ fs) = field_at i fs

module _ {ℓ} {F : Type ℓ} (float : Float F) where
  -- The number of a line without the spaces around it.
  abbrev die_temperature : Runes → Option F
  die_temperature line =
      if not (has_prefix line (codes "CPU die temperature:"))
      then none
      else field_at 3 (fields line) >>= float.parse

  unfoldable pub die_temperature_in : List Runes → Option F
  die_temperature_in [] = none
  die_temperature_in (line ∷ lines) =
      or_else (die_temperature (trim_space line)) (die_temperature_in lines)

  unfoldable pub parse_powermetrics_cpu_temp : Runes → Option F
  unfolding die_temperature_in
  parse_powermetrics_cpu_temp text = die_temperature_in (split b'\n' text)

  unfoldable pub cpu_temperature : Tools → Option F
  unfolding parse_powermetrics_cpu_temp
  cpu_temperature tools =
      if tools.exists (codes "powermetrics")
      then tools.run (codes "powermetrics")
          (codes "--samplers" ∷ codes "smc" ∷ codes "-n" ∷ codes "1" ∷ [])
        >>= parse_powermetrics_cpu_temp
      else none
