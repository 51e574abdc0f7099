-- ===== src/Gpu.antt =====
-- internal/collector/gpu.go: the row that nvidia-smi prints for a GPU.
pub mod Row
use nadi_agent.Prelude.{
  ℕ, zero, suc, ◌*◌, Option, none, some, List, [], ◌∷◌, Runes, codes, length, ltb, if◌then◌else◌,
}
use nadi_agent.Strings.{split, trim_space}
use nadi_agent.Collector.{Metric, metric}
use nadi_agent.Collectors.{Float, Tools, best_effort, ◌>>=◌}
use nadi_agent.Registry.{CollectResult}

abbrev pub first_line : List Runes → Runes
first_line [] = []
first_line (l ∷ ls) = l

module _ {ℓ} {F : Type ℓ} (float : Float F) where
  -- `val`: the number in a field. The fields are at least five, so no index is out of range.
  abbrev pub val : ℕ → List Runes → Option F
  val i [] = none
  val zero (field ∷ fields) = float.parse (trim_space field)
  val (suc i) (field ∷ fields) = val i fields

  abbrev pub gpu_report : F → F → F → F → F → List (Metric F)
  gpu_report util mem_used mem_total temp power =
      metric "gpu.usage_percent" util "%"
      ∷ metric "gpu.memory_used_bytes" (float.mul mem_used (float.of_nat (1024 * 1024))) "bytes"
      ∷ metric "gpu.memory_total_bytes" (float.mul mem_total (float.of_nat (1024 * 1024))) "bytes"
      ∷ metric "gpu.temperature_celsius" temp "C"
      ∷ metric "gpu.power_watts" power "W"
      ∷ []

  abbrev pub gpu_values : List Runes → Option (List (Metric F))
  gpu_values fields = do
    util ← val 0 fields
    mem_used ← val 1 fields
    mem_total ← val 2 fields
    temp ← val 3 fields
    power ← val 4 fields
    some (gpu_report util mem_used mem_total temp power)

  unfoldable pub parse_nvidia_smi : Runes → Option (List (Metric F))
  parse_nvidia_smi text =
      let fields = split b',' (trim_space (first_line (split b'\n' text))) in
      if ltb (length fields) 5 then none else gpu_values fields

  unfoldable pub gpu_metrics : Tools → Option (List (Metric F))
  unfolding parse_nvidia_smi
  gpu_metrics tools =
      if tools.exists (codes "nvidia-smi")
      then tools.run (codes "nvidia-smi") (
          codes "--query-gpu=utilization.gpu,memory.used,memory.total,temperature.gpu,power.draw"
          ∷ codes "--format=csv,noheader,nounits"
          ∷ [])
        >>= parse_nvidia_smi
      else none

  unfoldable pub collect_gpu : Tools → CollectResult F
  unfolding gpu_metrics
  collect_gpu tools = best_effort (gpu_metrics tools)
