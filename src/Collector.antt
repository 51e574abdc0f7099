-- ===== src/Collector.antt =====
-- internal/collector/collector.go: what a collector returns.
use nadi_agent.Prelude.{Bytes, String, codes}

-- `F` is float64.
pub record Metric {ℓ} (F : Type ℓ) : Type ℓ where
  pub name : Bytes
  pub value : F
  pub unit : Bytes

abbrev pub metric {ℓ} : {F : Type ℓ} → String → F → String → Metric F
metric name value unit = record { name = codes name; value = value; unit = codes unit }
