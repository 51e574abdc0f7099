-- ===== src/Suite/Factories.antt =====
-- What the init functions of internal/collector register, and the Name methods.
use nadi_agent.Prelude.{List, [], Bytes, codes}
use nadi_agent.Registry.{register}
use nadi_agent.NetworkCollector
use nadi_agent.NetworkCollector.{NetworkCollector}
use nadi_agent.Energy.{EnergyCollector}
use nadi_agent.Energy.Linux.{new_energy_collector}
use nadi_agent.Collectors.{Float}

-- A collector as its New function makes it, with the state that it keeps from one cycle to the next.
-- The self collector keeps the time of its start. Loggers and clients are not modelled, nor are the
-- counters of gopsutil, which NewCPUCollector reads once and throws away.
pub data Collector {ℓ κ} (T : Type ℓ) (F : Type κ) : Type (ℓ ⊔ κ) where
  battery_collector cpu_collector disk_collector disk_smart_collector : Collector T F
  energy_collector : EnergyCollector T F → Collector T F
  gpu_collector memory_collector : Collector T F
  network_collector : NetworkCollector T → Collector T F
  self_collector : T → Collector T F
  temperature_collector turn_collector : Collector T F

-- The Name methods.
abbrev battery_name : Bytes
battery_name = codes "battery"

abbrev cpu_name : Bytes
cpu_name = codes "cpu"

abbrev disk_name : Bytes
disk_name = codes "disk"

abbrev disk_smart_name : Bytes
disk_smart_name = codes "disk_smart"

abbrev energy_name : Bytes
energy_name = codes "energy"

abbrev gpu_name : Bytes
gpu_name = codes "gpu"

abbrev memory_name : Bytes
memory_name = codes "memory"

abbrev network_name : Bytes
network_name = codes "network"

abbrev self_name : Bytes
self_name = codes "self"

abbrev temperature_name : Bytes
temperature_name = codes "temperature"

abbrev turn_name : Bytes
turn_name = codes "turn_process"

-- The map `factories`. A factory is called once at most, so that what it makes stands for it.
abbrev pub Factories {ℓ κ} : Type ℓ → Type κ → Type (ℓ ⊔ κ)
Factories T F = List (Bytes × Collector T F)

module _ {ℓ κ} {T : Type ℓ} {F : Type κ} where
  -- Name of the interface, by the type that stands behind it.
  unfoldable pub name_of : Collector T F → Bytes
  name_of battery_collector = battery_name
  name_of cpu_collector = cpu_name
  name_of disk_collector = disk_name
  name_of disk_smart_collector = disk_smart_name
  name_of (energy_collector c) = energy_name
  name_of gpu_collector = gpu_name
  name_of memory_collector = memory_name
  name_of (network_collector c) = network_name
  name_of (self_collector start) = self_name
  name_of temperature_collector = temperature_name
  name_of turn_collector = turn_name

  -- `now` is time.Now.
  module _ (float : Float F) (now : T) where
    abbrev new_battery : Collector T F
    new_battery = battery_collector

    abbrev init_battery : Factories T F → Factories T F
    init_battery fs = register (codes "battery") new_battery fs

    abbrev new_cpu : Collector T F
    new_cpu = cpu_collector

    abbrev init_cpu : Factories T F → Factories T F
    init_cpu fs = register (codes "cpu") new_cpu fs

    abbrev new_disk : Collector T F
    new_disk = disk_collector

    abbrev init_disk : Factories T F → Factories T F
    init_disk fs = register (codes "disk") new_disk fs

    abbrev new_disk_smart : Collector T F
    new_disk_smart = disk_smart_collector

    abbrev init_disk_smart : Factories T F → Factories T F
    init_disk_smart fs = register (codes "disk_smart") new_disk_smart fs

    abbrev new_energy : Collector T F
    new_energy = energy_collector (new_energy_collector float)

    abbrev init_energy : Factories T F → Factories T F
    init_energy fs = register (codes "energy") new_energy fs

    abbrev new_gpu : Collector T F
    new_gpu = gpu_collector

    abbrev init_gpu : Factories T F → Factories T F
    init_gpu fs = register (codes "gpu") new_gpu fs

    abbrev new_memory : Collector T F
    new_memory = memory_collector

    abbrev init_memory : Factories T F → Factories T F
    init_memory fs = register (codes "memory") new_memory fs

    abbrev new_network : Collector T F
    new_network = network_collector NetworkCollector.new_network_collector

    abbrev init_network : Factories T F → Factories T F
    init_network fs = register (codes "network") new_network fs

    abbrev new_self : Collector T F
    new_self = self_collector now

    abbrev init_self : Factories T F → Factories T F
    init_self fs = register (codes "self") new_self fs

    abbrev new_temperature : Collector T F
    new_temperature = temperature_collector

    abbrev init_temperature : Factories T F → Factories T F
    init_temperature fs = register (codes "temperature") new_temperature fs

    abbrev new_turn : Collector T F
    new_turn = turn_collector

    abbrev init_turn : Factories T F → Factories T F
    init_turn fs = register (codes "turn_process") new_turn fs

    -- The init functions run one behind the other, in the order of their files.
    unfoldable pub factories : Factories T F
    factories = init_turn (
        init_temperature (
          init_self (
            init_network (
              init_memory (
                init_gpu
                  (init_energy (init_disk_smart (init_disk (init_cpu (init_battery []))))))))))
