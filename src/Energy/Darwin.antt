-- ===== src/Energy/Darwin.antt =====
-- internal/collector/energy_darwin.go: the output of powermetrics.
pub mod Line
use nadi_agent.Prelude.{
  ℕ, ◌||◌, Bool, Option, none, some, List, [], ◌∷◌, Bytes, Runes, codes, bytes_eq, map, ◌==◌,
  if◌then◌else◌,
}
use nadi_agent.Strings.{contains, index, split, slice, back_while, is_numeric}
use nadi_agent.Collector.{Metric}
use nadi_agent.Collectors.{Float, Tools, ◌>>=◌}
use nadi_agent.Energy.{power_metrics}

-- A space or a tab.
abbrev pub is_blank : ℕ → Bool
is_blank c = c == b' ' || c == 9

-- The text of the number that ends before the blanks before the position `idx`.
abbrev pub number_before : Runes → ℕ → Runes
number_before line idx =
    let end = back_while is_blank line idx in slice (back_while is_numeric line end) end line

module _ {ℓ} {F : Type ℓ} (float : Float F) where
  abbrev pub to_watts : Bytes → F → F
  to_watts unit v = if bytes_eq unit (codes "mW") then float.div v (float.of_nat 1000) else v

  unfoldable pub watts_from_line : Runes → Bytes → Option F
  watts_from_line line unit = do
    idx ← index line unit
    v ← float.parse (number_before line idx)
    some (to_watts unit v)

  module _ (lower : ℕ → ℕ) where
    unfoldable pub power_in : List Runes → Option F
    unfolding watts_from_line
    power_in [] = none
    power_in (line ∷ lines) =
        let later = power_in lines in
        if contains (map lower line) (codes "package power")
        then watts_from_line line (codes "W")
        else if contains (map lower line) (codes "combined power")
        then watts_from_line line (codes "mW")
        else later

    unfoldable pub parse_powermetrics_package_power : Runes → Option F
    unfolding power_in
    parse_powermetrics_package_power text = power_in (split b'\n' text)

    abbrev pub powermetrics_report : Runes → Option (List (Metric F))
    powermetrics_report out =
        parse_powermetrics_package_power out >>= λ watts. some (power_metrics watts)

    -- energyMetrics
    unfoldable pub energy_metrics : Tools → Option (List (Metric F))
    unfolding parse_powermetrics_package_power
    energy_metrics tools =
        if tools.exists (codes "powermetrics")
        then tools.run (codes "powermetrics")
            (codes "--samplers" ∷ codes "cpu_power" ∷ codes "-n" ∷ codes "1" ∷ [])
          >>= powermetrics_report
        else none
