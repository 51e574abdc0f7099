-- ===== src/Examples/Machine.antt =====
-- internal/collector/energy_linux_test.go, and cycles of collectors that find little on a machine.
use nadi_agent.Prelude.{
  ℕ, ◌-◌, Bool, true, All, false, ◌≡◌, ◌⊎◌, refl, inl, inr, Option, none, some, List, [], ◌∷◌,
  Bytes, Runes, codes, bytes_eq, map, take, if◌then◌else◌,
}
use nadi_agent.Int64.{ℤ, pos}
use nadi_agent.Payload.{Heartbeat, max_metrics}
use nadi_agent.Collector.{metric}
use nadi_agent.Collectors.{Exec, tools_of, Tools, read}
use nadi_agent.Gpu.{collect_gpu}
use nadi_agent.Registry.{failed, no_data, Failure, deadline_exceeded, collect}
use nadi_agent.Registry.Cycle.{successes}
use nadi_agent.Sender.{to_payload, gather, build_heartbeat}
use nadi_agent.Strings.{trim_space, contains}
use nadi_agent.Smart.{SmartctlOutput}
use nadi_agent.Battery
use nadi_agent.Energy.{EnergyCollector, power_metrics}
use nadi_agent.Energy.Linux.{new_energy_collector, energy_metrics}
use nadi_agent.Energy.Linux.Power.{Silent, after, power, watts_since_last}
use nadi_agent.Suite.{Reading, cpu, gpu, battery_other, energy_linux, collect_of, races_of}
use nadi_agent.Suite.Quiet.{in_time, collect-quiet}
use nadi_agent.Registry.{registry, register, is_enabled, is_registered, new_registry}
use nadi_agent.Registry.Made.{IsMap}
use nadi_agent.Suite.Factories.{Collector, cpu_collector, self_collector, factories}
use nadi_agent.Suite.Registered.{IsNamed, new_registry-IsNamed}
use nadi_agent.Suite.Kept.{build_heartbeat-collect}
use nadi_agent.Examples.Floats.{digits, float, lower}
use nadi_agent.Examples.Cycles.{counter, zero_not, suc_positive, snd, host}

-- Times in nanoseconds.
abbrev since : ℤ → ℤ → ℤ
since (pos now) (pos before) = pos (now - before)
since now before = pos 0

abbrev cold : EnergyCollector ℤ ℕ
cold = new_energy_collector float

-- The counter's file cannot be read once, and the clock stands still once.
abbrev missed : List (Option Runes × ℤ)
missed = (none, pos 2_000_000_000) ∷ (some (codes "1500000\n"), pos 1_000_000_000) ∷ []

missed-Silent :
    Silent float since missed
      (energy_metrics float since (some (codes "1000000\n")) (pos 1_000_000_000) cold).1
unfolding Silent energy_metrics new_energy_collector trim_space digits
missed-Silent = (refl, (refl, tt))

read_first : (float.parse (trim_space (codes "1000000\n"))) ≡ some 1_000_000
unfolding trim_space digits
read_first = refl

read_second : (float.parse (trim_space (codes "7000000\n"))) ≡ some 7_000_000
unfolding trim_space digits
read_second = refl

cold_first : cold.prev_time ≡ none
unfolding new_energy_collector
cold_first = refl

watts_since_last_example :
    (energy_metrics float since (some (codes "7000000\n")) (pos 4_000_000_000) (
      after float since missed
        (energy_metrics float since (some (codes "1000000\n")) (pos 1_000_000_000) cold).1)).0
    ≡ some (
        power_metrics (
          if float.lt (power float since 1_000_000 7_000_000 3) 0
          then 0
          else power float since 1_000_000 7_000_000 3))
watts_since_last_example =
    watts_since_last float since cold (some (codes "1000000\n")) (some (codes "7000000\n"))
      (pos 1_000_000_000) (pos 4_000_000_000) 1_000_000 7_000_000 missed read_first (inl cold_first)
      missed-Silent read_second refl

-- No command is on the path.
abbrev bare : Tools
bare = record { exists = λ name. false; run = λ name args. none }

abbrev unmarshal : Runes → Option (SmartctlOutput ℕ)
unmarshal text = none

abbrev quiet : List (Bytes × Reading ℤ ℕ)
quiet =
    (codes "gpu", gpu bare)
    ∷ (codes "battery", battery_other)
    ∷ (codes "energy", energy_linux (some (codes "1000000\n")) (pos 1_000_000_000) cold)
    ∷ []

collect-quiet_example :
    collect counter (races_of float since lower unmarshal (in_time quiet))
    ≡ successes (races_of float since lower unmarshal (in_time quiet))
collect-quiet_example =
    collect-quiet float since lower unmarshal counter quiet zero_not suc_positive
      (refl, (refl, (refl, tt)))

abbrev cycle : List (Bytes × (Failure ⊎ Reading ℤ ℕ))
cycle =
    (codes "cpu", inr (cpu (read (40 ∷ 60 ∷ [])) none))
    ∷ (codes "memory", inl deadline_exceeded)
    ∷ (codes "gpu", inr (gpu bare))
    ∷ []

abbrev heartbeat : Heartbeat ℕ
heartbeat = record {
  device_id = codes "d";
  timestamp = codes "2026-01-01T00:00:00Z";
  metrics = gather (collect counter (races_of float since lower unmarshal cycle)) [];
  meta = record {
    hostname = codes "h";
    os = codes "linux";
    arch = codes "amd64";
    agent_version = codes "1";
  };
}

heartbeat_built :
    build_heartbeat snd host (collect counter (races_of float since lower unmarshal cycle))
    ≡ some heartbeat
unfolding build_heartbeat
heartbeat_built = refl

build_heartbeat-collect_example :
    heartbeat.metrics
    ≡ take max_metrics
        (map to_payload (collect counter (races_of float since lower unmarshal cycle)))
build_heartbeat-collect_example =
    build_heartbeat-collect float since lower unmarshal counter cycle snd host heartbeat zero_not
      suc_positive (tt, (tt, tt)) heartbeat_built

reported :
    collect counter (races_of float since lower unmarshal cycle)
    ≡ metric "cpu.usage_percent" 50 "%"
      ∷ metric "cpu.usage_percent_total" 100 "%"
      ∷ metric "cpu.cores" 2 "count"
      ∷ metric "agent.collector_errors_count" 1 "count"
      ∷ []
unfolding collect races_of collect_of
reported = refl

-- A battery that is not charging, in the words of pmset and of the kernel.
not_charging_pmset :
    Battery.Darwin.battery_state float lower
      (codes "Now drawing from 'AC Power'\n -InternalBattery-0 80%; AC attached; not charging")
    ≡ (1, 1)
unfolding Battery.Darwin.battery_state contains
not_charging_pmset = refl

not_charging_kernel : Battery.Linux.battery_state float (codes "Not charging") ≡ (0, 0)
unfolding Battery.Linux.battery_state contains bytes_eq
not_charging_kernel = refl

abbrev switches : List (Bytes × Bool)
switches = (codes "cpu", true) ∷ (codes "gpu", false) ∷ (codes "self", true) ∷ []

abbrev switched_on : List (Bytes × Collector ℤ ℕ)
switched_on = (codes "cpu", cpu_collector) ∷ (codes "self", self_collector (pos 7)) ∷ []

registers : new_registry (factories float (pos 7)) switches ≡ registry switched_on
unfolding factories new_registry register bytes_eq
registers = refl

new_registry-IsNamed_example :
    ((name : Bytes) → is_registered switched_on name ≡ is_enabled switches name)
    × IsMap switched_on
    × All (IsNamed float (pos 7)) switched_on
new_registry-IsNamed_example = new_registry-IsNamed float (pos 7) switches switched_on registers

-- A machine with no command on its path.
abbrev no_path : Exec
no_path = record { look_path = λ name. none; output = λ name args. none }

no_gpu : collect_gpu float (tools_of no_path) ≡ failed no_data
unfolding collect_gpu
no_gpu = refl
