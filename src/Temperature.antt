-- ===== src/Temperature.antt =====
-- internal/collector/temperature.go, with the readings of temperature_linux.go and
-- temperature_darwin.go.
pub mod Linux
pub mod Darwin
use nadi_agent.Prelude.{Option, none, some, List, [], ◌∷◌}
use nadi_agent.Collector.{Metric, metric}
use nadi_agent.Collectors.{best_effort, ◌>>=◌}
use nadi_agent.Registry.{CollectResult}

module _ {ℓ} {F : Type ℓ} where
  abbrev pub temperature_metrics : F → List (Metric F)
  temperature_metrics celsius = metric "temperature.cpu_celsius" celsius "C" ∷ []

  -- Collect, from what cpuTemperature returns on the platform.
  abbrev pub collect_temperature : Option F → CollectResult F
  collect_temperature celsius = best_effort (celsius >>= λ c. some (temperature_metrics c))

  -- cpuTemperature of temperature_other.go.
  abbrev pub cpu_temperature_other : Option F
  cpu_temperature_other = none
