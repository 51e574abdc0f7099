-- ===== src/Suite.antt =====
-- The collectors that the files of internal/collector register, each with what it finds in a cycle.
pub mod Names
pub mod Quiet
pub mod Kept
pub mod Factories
pub mod Registered
use nadi_agent.Prelude.{ℕ, ◌⊎◌, inl, inr, Option, none, some, List, [], ◌∷◌, Bytes, Runes}
use nadi_agent.Int64.{ℤ}
use nadi_agent.Collector.{Metric}
use nadi_agent.Collectors.{Float, Sample, Tools, ReadFile}
use nadi_agent.Registry.{
  Failure, CollectResult, Race, collected, failed, finished, context_done, other,
}
use nadi_agent.Strings.{trim_space}
use nadi_agent.DiskCollector.{Partition, collect_usage}
use nadi_agent.NetworkCollector.{NetworkCollector, Counters, IpAnswer, collect_network}
use nadi_agent.HostCollectors.{
  LoadAverage, VirtualMemory, collect_cpu, collect_memory, collect_self,
}
use nadi_agent.Smart.{SmartctlOutput, collect_smart}
use nadi_agent.Gpu.{collect_gpu}
use nadi_agent.Battery
use nadi_agent.Battery.{collect_battery, battery_metrics_other}
use nadi_agent.Energy
use nadi_agent.Energy.{EnergyCollector, collect_energy, energy_metrics_other}
use nadi_agent.Temperature
use nadi_agent.Temperature.{collect_temperature, cpu_temperature_other}
use nadi_agent.Turn.{Process, CpuWindow, Memory, collect_turn}
use nadi_agent.Turn.Stats.{read_coturn_stats}

-- One constructor for each collector and platform. The failure of `disk` and `network` is the error
-- that they return where gopsutil's call has one.
pub data Reading {ℓ κ} (T : Type ℓ) (F : Type κ) : Type (ℓ ⊔ κ) where
  cpu : Sample (List F) → Option (LoadAverage F) → Reading T F
  memory : Sample (VirtualMemory F) → Option F → Reading T F
  self : ℤ → Reading T F
  disk : Failure → Option (List (Partition F)) → Reading T F
  network : Failure → Option Counters → T → IpAnswer → NetworkCollector T → Reading T F
  disk_smart : Tools → Reading T F
  gpu : Tools → Reading T F
  battery_linux : ReadFile → Option (List Bytes) → Reading T F
  battery_darwin : Tools → Reading T F
  battery_other : Reading T F
  energy_linux : Option Runes → T → EnergyCollector T F → Reading T F
  energy_darwin : Tools → Reading T F
  energy_other : Reading T F
  temperature_linux : Tools → Reading T F
  temperature_darwin : Tools → Reading T F
  temperature_other : Reading T F
  turn_process : Sample (List Process) → CpuWindow F → Memory → Option (List Runes) → Reading T F

-- The error `e` where there are no metrics.
abbrev or_failed {ℓ} : {F : Type ℓ} → Failure → Option (List (Metric F)) → CollectResult F
or_failed e none = failed e
or_failed e (some metrics) = collected metrics

-- The parameters of the collectors: floats, now.Sub(prev), unicode.ToLower and json.Unmarshal.
module _ {ℓ κ} {T : Type ℓ} {F : Type κ} (float : Float F) (since : T → T → ℤ) (lower : ℕ → ℕ)
    (unmarshal : Runes → Option (SmartctlOutput F)) where
  -- float64(n) / d.Seconds()
  abbrev pub per_second : ℕ → ℤ → F
  per_second n d = float.div (float.of_nat n) (float.seconds d)

  -- What Collect of the collector returns.
  unfoldable pub collect_of : Reading T F → CollectResult F
  unfolding collect_cpu collect_memory collect_self collect_network collect_smart collect_gpu
      collect_turn
  collect_of (cpu per la) = collect_cpu float per la
  collect_of (memory vm swap) = collect_memory float vm swap
  collect_of (self uptime) = collect_self float uptime
  collect_of (disk e partitions) = or_failed e (collect_usage lower partitions)
  collect_of (network e io now ip c) =
      or_failed e
        (collect_network since per_second (float.of_nat 0) (float.of_nat 1) trim_space io now ip
          c).0
  collect_of (disk_smart tools) = collect_smart float unmarshal tools
  collect_of (gpu tools) = collect_gpu float tools
  collect_of (battery_linux read glob) =
      collect_battery (Battery.Linux.battery_metrics float read glob)
  collect_of (battery_darwin tools) =
      collect_battery (Battery.Darwin.battery_metrics float lower tools)
  collect_of battery_other = collect_battery battery_metrics_other
  collect_of (energy_linux file now c) =
      collect_energy (Energy.Linux.energy_metrics float since file now c).0
  collect_of (energy_darwin tools) = collect_energy (Energy.Darwin.energy_metrics float lower tools)
  collect_of energy_other = collect_energy energy_metrics_other
  collect_of (temperature_linux tools) =
      collect_temperature (Temperature.Linux.cpu_temperature float lower tools)
  collect_of (temperature_darwin tools) =
      collect_temperature (Temperature.Darwin.cpu_temperature float tools)
  collect_of temperature_other = collect_temperature cpu_temperature_other
  collect_of (turn_process procs w rss lines) =
      collect_turn float procs w rss (read_coturn_stats float lower lines)

  -- A collector that returns in time, or whose context ends before.
  abbrev race_of : Failure ⊎ Reading T F → Race F
  race_of (inl e) = context_done e
  race_of (inr reading) = finished (collect_of reading)

  unfoldable pub races_of : List (Bytes × (Failure ⊎ Reading T F)) → List (Bytes × Race F)
  races_of [] = []
  races_of ((name, found) ∷ rest) = (name, race_of found) ∷ races_of rest
