-- ===== src/Suite/Names/BestEffort.antt =====
-- The names of the metrics of gpu.go and of the battery, energy and temperature files of
-- internal/collector.
use nadi_agent.Prelude.{
  ℕ, refl, Option, none, some, List, [], ◌∷◌, ◌++◌, Bytes, Runes, codes, if_cases,
}
use nadi_agent.Int64.{ℤ}
use nadi_agent.Payload.{valid_metric_name}
use nadi_agent.Collector.{Metric}
use nadi_agent.Collectors.{Float, Tools, ReadFile, ◌>>=◌}
use nadi_agent.Gpu.{val, gpu_values, parse_nvidia_smi, gpu_metrics}
use nadi_agent.Battery
use nadi_agent.Battery.{state_metrics}
use nadi_agent.Energy
use nadi_agent.Energy.{EnergyCollector, power_metrics}
use nadi_agent.Temperature.{temperature_metrics}
use nadi_agent.Suite.Names.{AllValid, Valid, none-Valid, some-Valid, bind-Valid, if-Valid}

module _ {ℓ} {F : Type ℓ} (float : Float F) where
  gpu_values-Valid : (fields : List Runes) → Valid (gpu_values float fields)
  unfolding valid_metric_name
  gpu_values-Valid fields = bind-Valid (val float 0 fields) _ (λ util.
      bind-Valid (val float 1 fields) _ (λ mem_used. bind-Valid (val float 2 fields) _ (λ mem_total.
        bind-Valid (val float 3 fields) _ (λ temp.
          bind-Valid (val float 4 fields) _
            (λ power. some-Valid _ (refl, (refl, (refl, (refl, (refl, tt))))))))))

  parse_nvidia_smi-Valid : (text : Runes) → Valid (parse_nvidia_smi float text)
  unfolding parse_nvidia_smi
  parse_nvidia_smi-Valid text = if-Valid _ _ _ (none-Valid F) (gpu_values-Valid _)

  pub gpu_metrics-Valid : (tools : Tools) → Valid (gpu_metrics float tools)
  unfolding gpu_metrics
  gpu_metrics-Valid tools = if-Valid _ _ _ (bind-Valid _ _ parse_nvidia_smi-Valid) (none-Valid F)

  state_metrics-AllValid :
      (percent charging plugged_in : F) (rest : List (Metric F))
      → AllValid rest
      → AllValid (state_metrics percent charging plugged_in ++ rest)
  unfolding valid_metric_name
  state_metrics-AllValid percent charging plugged_in rest h = (refl, (refl, (refl, h)))

  cycle_metric-AllValid :
      (cycle : Option F) (rest : List (Metric F))
      → AllValid rest
      → AllValid (Battery.Linux.cycle_metric float cycle ++ rest)
  unfolding valid_metric_name
  cycle_metric-AllValid none rest h = h
  cycle_metric-AllValid (some cycle) rest h = (refl, h)

  health_metric-AllValid :
      (full design : Option F) → AllValid (Battery.Linux.health_metric float full design)
  unfolding valid_metric_name
  health_metric-AllValid none design = tt
  health_metric-AllValid (some full) none = tt
  health_metric-AllValid (some full) (some design) =
      if_cases AllValid (float.lt (float.of_nat 0) design) _ [] (λ on. (refl, tt)) (λ off. tt)

  linux_report-Valid :
      (percent charging plugged_in : F) (cycle full design : Option F)
      → Valid (
          some (
            state_metrics percent charging plugged_in
            ++ (Battery.Linux.cycle_metric float cycle
                ++ Battery.Linux.health_metric float full design)))
  linux_report-Valid percent charging plugged_in cycle full design = some-Valid _ (
      state_metrics-AllValid percent charging plugged_in _
        (cycle_metric-AllValid cycle _ (health_metric-AllValid full design)))

  pub battery_linux-Valid :
      (read_file : ReadFile) (glob : Option (List Bytes))
      → Valid (Battery.Linux.battery_metrics float read_file glob)
  unfolding Battery.Linux.battery_metrics
  battery_linux-Valid read_file glob = bind-Valid (Battery.Linux.first_of glob) _ (λ dir.
      bind-Valid
        (Battery.Linux.read_int_file float read_file (Battery.Linux.in_dir dir (codes "capacity")))
        _ (λ capacity. linux_report-Valid _ _ _ _ _ _))

  health_metrics-AllValid :
      (health : Option (F × F)) → AllValid (Battery.Darwin.health_metrics float health)
  unfolding valid_metric_name
  health_metrics-AllValid none = tt
  health_metrics-AllValid (some (cycle, health)) = (refl, (refl, tt))

  darwin_report-Valid :
      (percent charging plugged_in : F) (health : Option (F × F))
      → Valid (
          some (
            state_metrics percent charging plugged_in
            ++ Battery.Darwin.health_metrics float health))
  darwin_report-Valid percent charging plugged_in health =
      some-Valid _
        (state_metrics-AllValid percent charging plugged_in _ (health_metrics-AllValid health))

  pub battery_darwin-Valid :
      (lower : ℕ → ℕ) (tools : Tools) → Valid (Battery.Darwin.battery_metrics float lower tools)
  unfolding Battery.Darwin.battery_metrics
  battery_darwin-Valid lower tools =
      bind-Valid (tools.run (codes "pmset") (codes "-g" ∷ codes "batt" ∷ [])) _ (λ text.
        bind-Valid (Battery.Darwin.battery_percent float text) _
          (λ percent. darwin_report-Valid _ _ _ _))

  power_metrics-Valid : (watts : F) → Valid (some (power_metrics watts))
  unfolding valid_metric_name
  power_metrics-Valid watts = some-Valid (power_metrics watts) (refl, tt)

  powermetrics_report-Valid :
      (lower : ℕ → ℕ) (out : Runes) → Valid (Energy.Darwin.powermetrics_report float lower out)
  powermetrics_report-Valid lower out =
      bind-Valid (Energy.Darwin.parse_powermetrics_package_power float lower out) _
        power_metrics-Valid

  pub energy_darwin-Valid :
      (lower : ℕ → ℕ) (tools : Tools) → Valid (Energy.Darwin.energy_metrics float lower tools)
  unfolding Energy.Darwin.energy_metrics
  energy_darwin-Valid lower tools =
      if-Valid _ _ _ (bind-Valid _ _ (powermetrics_report-Valid lower)) (none-Valid F)

  pub temperature_metrics-Valid :
      (celsius : Option F) → Valid (celsius >>= λ c. some (temperature_metrics c))
  unfolding valid_metric_name
  temperature_metrics-Valid celsius =
      bind-Valid celsius _ (λ c. some-Valid (temperature_metrics c) (refl, tt))

  module _ {κ} {T : Type κ} (since : T → T → ℤ) where
    with_baseline-Valid :
        (prev_energy : F) (prev_time : T) (energy : F) (now : T) (c : EnergyCollector T F)
        → Valid (Energy.Linux.with_baseline float since prev_energy prev_time energy now c).0
    with_baseline-Valid prev_energy prev_time energy now c =
        if_cases (λ (r : Energy.Linux.Measured float since). Valid r.0)
          (float.le (float.seconds (since now prev_time)) (float.of_nat 0)) _ _ (λ on. none-Valid F)
          (λ off. power_metrics-Valid _)

    since_sample-Valid :
        (before : Option T) (energy : F) (now : T) (c : EnergyCollector T F)
        → Valid (Energy.Linux.since_sample float since before energy now c).0
    since_sample-Valid none energy now c = none-Valid F
    since_sample-Valid (some before) energy now c =
        with_baseline-Valid c.prev_energy before energy now c

    with_energy-Valid :
        (energy : Option F) (now : T) (c : EnergyCollector T F)
        → Valid (Energy.Linux.with_energy float since energy now c).0
    with_energy-Valid none now c = none-Valid F
    with_energy-Valid (some energy) now c = since_sample-Valid c.prev_time energy now c

    pub energy_linux-Valid :
        (file : Option Runes) (now : T) (c : EnergyCollector T F)
        → Valid (Energy.Linux.energy_metrics float since file now c).0
    unfolding Energy.Linux.energy_metrics
    energy_linux-Valid file now c = with_energy-Valid _ now c
