-- ===== src/Battery.antt =====
-- internal/collector/battery.go, with the readings of battery_linux.go and battery_darwin.go.
pub mod Linux
pub mod Darwin
use nadi_agent.Prelude.{Option, none, some, List, [], ◌∷◌}
use nadi_agent.Collector.{Metric, metric}
use nadi_agent.Collectors.{best_effort}
use nadi_agent.Registry.{CollectResult}

module _ {ℓ} {F : Type ℓ} where
  -- Collect, from what batteryMetrics returns on the platform.
  abbrev pub collect_battery : Option (List (Metric F)) → CollectResult F
  collect_battery metrics = best_effort metrics

  -- batteryMetrics of battery_other.go.
  abbrev pub battery_metrics_other : Option (List (Metric F))
  battery_metrics_other = none

  -- The three metrics that both platforms report.
  abbrev pub state_metrics : F → F → F → List (Metric F)
  state_metrics percent charging plugged_in =
      metric "battery.percent" percent "%"
      ∷ metric "battery.charging" charging "bool"
      ∷ metric "battery.plugged_in" plugged_in "bool"
      ∷ []
