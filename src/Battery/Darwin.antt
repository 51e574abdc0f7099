-- ===== src/Battery/Darwin.antt =====
-- internal/collector/battery_darwin.go: the output of pmset and of ioreg.
use nadi_agent.Prelude.{
  ℕ, ◌+◌, ◌||◌, not, Option, none, some, List, [], ◌∷◌, ◌++◌, Bytes, Runes, codes, length, take,
  drop, map, ◌==◌, if◌then◌else◌,
}
use nadi_agent.Strings.{contains, index, index_func, split, slice, trim_space, back_while, is_digit}
use nadi_agent.Collector.{Metric, metric}
use nadi_agent.Collectors.{Float, Tools, ◌>>=◌}
use nadi_agent.Battery.{state_metrics}

module _ {ℓ} {F : Type ℓ} (float : Float F) where
  -- The digits before the first % of a line that has one.
  abbrev percent_before : Runes → Option ℕ → Option F
  percent_before line none = none
  percent_before line (some idx) = float.parse (slice (back_while is_digit line idx) idx line)

  unfoldable pub percent_in : List Runes → Option F
  percent_in [] = none
  percent_in (line ∷ lines) =
      let later = percent_in lines in
      if not (contains line (codes "%"))
      then later
      else percent_before line (index line (codes "%"))

  unfoldable pub battery_percent : Runes → Option F
  unfolding percent_in
  battery_percent text = percent_in (split b'\n' text)

  -- The number behind a key of the output of ioreg, up to the end of its line.
  abbrev up_to_newline : Runes → Runes
  up_to_newline rest = elim (index_func (λ c. c == b'\n') rest) [
    | none ↦ rest
    | some end ↦ take end rest
  ]

  abbrev ioreg_needle : Bytes → Runes
  ioreg_needle key = codes "\"" ++ (key ++ codes "\" = ")

  unfoldable pub ioreg_number : Runes → Bytes → Option F
  ioreg_number text key = index text (ioreg_needle key) >>= λ idx.
      float.parse (trim_space (up_to_newline (drop (idx + length (ioreg_needle key)) text)))

  -- (cycle, health), where the design capacity is not 0 or less.
  abbrev health_value : F → F → F → Option (F × F)
  health_value cycle max_capacity design_capacity =
      if float.le design_capacity (float.of_nat 0)
      then none
      else some (cycle, float.mul (float.div max_capacity design_capacity) (float.of_nat 100))

  abbrev health_of : Runes → Option (F × F)
  health_of text = do
    cycle ← ioreg_number text (codes "CycleCount")
    max_capacity ← ioreg_number text (codes "MaximumCapacity")
    design_capacity ← ioreg_number text (codes "DesignCapacity")
    health_value cycle max_capacity design_capacity

  unfoldable pub battery_health : Tools → Option (F × F)
  unfolding ioreg_number
  battery_health tools =
      tools.run (codes "ioreg") (codes "-rn" ∷ codes "AppleSmartBattery" ∷ []) >>= health_of

  abbrev pub health_metrics : Option (F × F) → List (Metric F)
  health_metrics none = []
  health_metrics (some (cycle, health)) =
      metric "battery.cycle_count" cycle "count" ∷ metric "battery.health_percent" health "%" ∷ []

  -- `lower` is unicode.ToLower of a rune.
  module _ (lower : ℕ → ℕ) where
    -- (charging, pluggedIn) of a text in lower case; `plugged` is whether it tells of AC power.
    abbrev state_in : Runes → F → F × F
    state_in low plugged =
        if contains low (codes "discharging")
        then (float.of_nat 0, plugged)
        else if contains low (codes "charging")
        then (float.of_nat 1, float.of_nat 1)
        else if contains low (codes "charged") || contains low (codes "full")
        then (float.of_nat 0, float.of_nat 1)
        else (float.of_nat 0, plugged)

    unfoldable pub battery_state : Runes → F × F
    battery_state text =
        let low = map lower text in
        state_in low (if contains low (codes "ac power") then float.of_nat 1 else float.of_nat 0)

    abbrev of_pmset : Tools → Runes → Option (List (Metric F))
    of_pmset tools text = do
      percent ← battery_percent text
      some (
          state_metrics percent (battery_state text).0 (battery_state text).1
          ++ health_metrics (battery_health tools))

    -- batteryMetrics
    unfoldable pub battery_metrics : Tools → Option (List (Metric F))
    unfolding battery_percent battery_state battery_health
    battery_metrics tools =
        tools.run (codes "pmset") (codes "-g" ∷ codes "batt" ∷ []) >>= of_pmset tools
