-- ===== src/Energy/Linux.antt =====
-- internal/collector/energy_linux.go: the power from two readings of the RAPL counter of microjoules.
pub mod Power
use nadi_agent.Prelude.{Option, none, some, List, Runes, if◌then◌else◌}
use nadi_agent.Int64.{ℤ}
use nadi_agent.Strings.{trim_space}
use nadi_agent.Collector.{Metric}
use nadi_agent.Collectors.{Float, ◌>>=◌}
use nadi_agent.Energy.{EnergyCollector, power_metrics}

unfoldable pub new_energy_collector {ℓ κ} :
    {T : Type ℓ} {F : Type κ} → Float F → EnergyCollector T F
new_energy_collector float = record { prev_energy = float.of_nat 0; prev_time = none }

-- `since now prev` is now.Sub(prev).
module _ {ℓ κ} {T : Type ℓ} {F : Type κ} (float : Float F) (since : T → T → ℤ) where
  abbrev pub Measured : Type (ℓ ⊔ κ)
  Measured = Option (List (Metric F)) × EnergyCollector T F

  -- A power below 0 is reported as 0.
  abbrev at_least_zero : F → F
  at_least_zero watts = if float.lt watts (float.of_nat 0) then float.of_nat 0 else watts

  -- Microjoules to joules to watts.
  abbrev watts_of : F → F → F → F
  watts_of prev_energy energy dt =
      at_least_zero
        (float.div (float.div (float.sub energy prev_energy) (float.of_nat 1_000_000)) dt)

  abbrev pub with_baseline : F → T → F → T → EnergyCollector T F → Measured
  with_baseline prev_energy prev_time energy now c =
      let dt = float.seconds (since now prev_time) in
      if float.le dt (float.of_nat 0) then (none, c) else (
        some (power_metrics (watts_of prev_energy energy dt)),
        record { prev_energy = energy; prev_time = some now },
      )

  abbrev pub since_sample : Option T → F → T → EnergyCollector T F → Measured
  since_sample none energy now c = (none, record { prev_energy = energy; prev_time = some now })
  since_sample (some before) energy now c = with_baseline c.prev_energy before energy now c

  abbrev pub with_energy : Option F → T → EnergyCollector T F → Measured
  with_energy none now c = (none, c)
  with_energy (some energy) now c = since_sample c.prev_time energy now c

  -- The number in the counter's file; `none` is an error of reading or of parsing it.
  abbrev pub counter_value : Option Runes → Option F
  counter_value file = file >>= λ text. float.parse (trim_space text)

  -- energyMetrics, from the contents of the counter's file.
  unfoldable pub energy_metrics : Option Runes → T → EnergyCollector T F → Measured
  energy_metrics file now c = with_energy (counter_value file) now c
