-- ===== src/HostCollectors.antt =====
-- internal/collector/cpu.go, memory.go and self.go.
use nadi_agent.Prelude.{ℕ, Option, none, some, List, [], ◌∷◌, ◌++◌, length}
use nadi_agent.Int64.{ℤ}
use nadi_agent.Collector.{Metric, metric}
use nadi_agent.Collectors.{Float, Sample, read, unread}
use nadi_agent.Registry.{CollectResult, collected, failed, other}

-- load.AvgStat
pub record LoadAverage {ℓ} (F : Type ℓ) : Type ℓ where
  pub load1 : F
  pub load5 : F
  pub load15 : F

-- The fields of mem.VirtualMemoryStat that are used; sizes are uint64.
pub record VirtualMemory {ℓ} (F : Type ℓ) : Type ℓ where
  pub used_percent : F
  pub used : ℕ
  pub total : ℕ

module _ {ℓ} {F : Type ℓ} (float : Float F) where
  -- `for _, v := range per { total += v }`
  unfoldable pub sum_from : F → List F → F
  sum_from total [] = total
  sum_from total (v ∷ per) = sum_from (float.add total v) per

  abbrev load_metrics : Option (LoadAverage F) → List (Metric F)
  load_metrics none = []
  load_metrics (some la) =
      metric "cpu.load_1m" la.load1 ""
      ∷ metric "cpu.load_5m" la.load5 ""
      ∷ metric "cpu.load_15m" la.load15 ""
      ∷ []

  abbrev cpu_metrics : F → F → List (Metric F)
  cpu_metrics total cores =
      metric "cpu.usage_percent" (float.div total cores) "%"
      ∷ metric "cpu.usage_percent_total" total "%"
      ∷ metric "cpu.cores" cores "count"
      ∷ []

  -- Collect, from the usage of each core and the load average, where `none` is an error.
  unfoldable pub collect_cpu : Sample (List F) → Option (LoadAverage F) → CollectResult F
  unfolding sum_from
  collect_cpu (unread e) la = failed e
  collect_cpu (read []) la = failed other
  collect_cpu (read (v ∷ per)) la =
      let total = sum_from (float.of_nat 0) (v ∷ per) in
      collected (cpu_metrics total (float.of_nat (length (v ∷ per))) ++ load_metrics la)

  -- The percentage of the swap memory is left out where it cannot be read.
  abbrev swap_metric : Option F → List (Metric F)
  swap_metric none = []
  swap_metric (some used_percent) = metric "memory.swap_used_percent" used_percent "%" ∷ []

  unfoldable pub collect_memory : Sample (VirtualMemory F) → Option F → CollectResult F
  collect_memory (unread e) swap = failed e
  collect_memory (read vm) swap = collected (
      (metric "memory.used_percent" vm.used_percent "%"
        ∷ metric "memory.used_bytes" (float.of_nat vm.used) "bytes"
        ∷ metric "memory.total_bytes" (float.of_nat vm.total) "bytes"
        ∷ [])
      ++ swap_metric swap)

  -- `since` is the time from the construction of the collector to now.
  unfoldable pub collect_self : ℤ → CollectResult F
  collect_self since = collected (metric "agent.self_uptime_seconds" (float.seconds since) "s" ∷ [])
