-- ===== src/Energy.antt =====
-- internal/collector/energy.go, with the readings of energy_linux.go and energy_darwin.go.
pub mod Linux
pub mod Darwin
use nadi_agent.Prelude.{Option, none, some, List, [], ◌∷◌}
use nadi_agent.Collector.{Metric, metric}
use nadi_agent.Collectors.{best_effort}
use nadi_agent.Registry.{CollectResult}

-- What is kept between two cycles. `prev_time` is `none` for the zero time.
pub record EnergyCollector {ℓ κ} (T : Type ℓ) (F : Type κ) : Type (ℓ ⊔ κ) where
  pub prev_energy : F
  pub prev_time : Option T

module _ {ℓ} {F : Type ℓ} where
  -- Collect, from what energyMetrics returns on the platform.
  abbrev pub collect_energy : Option (List (Metric F)) → CollectResult F
  collect_energy metrics = best_effort metrics

  -- energyMetrics of energy_other.go.
  abbrev pub energy_metrics_other : Option (List (Metric F))
  energy_metrics_other = none

  abbrev pub power_metrics : F → List (Metric F)
  power_metrics watts = metric "energy.package_power_watts" watts "W" ∷ []
