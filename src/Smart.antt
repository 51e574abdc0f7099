-- ===== src/Smart.antt =====
-- internal/collector/disk_smart.go: the health of the first disk, as smartctl reports it.
use mathlib.Core.Option.{or_else}
use nadi_agent.Prelude.{
  Bool, true, false, Option, none, some, List, [], ◌∷◌, ◌++◌, Runes, String, codes, if◌then◌else◌,
}
use nadi_agent.Int64.{ℤ, pos, eq_ℤ}
use nadi_agent.Strings.{has_prefix, split, fields, trim_space}
use nadi_agent.Collector.{Metric, metric}
use nadi_agent.Collectors.{Float, Tools, best_effort, ◌>>=◌}
use nadi_agent.Registry.{CollectResult}

-- A row of the table of attributes: its id and its raw value.
pub record Attribute {ℓ} (F : Type ℓ) : Type ℓ where
  pub id : ℤ
  pub raw : F

pub record SmartctlOutput {ℓ} (F : Type ℓ) : Type ℓ where
  pub passed : Bool
  pub table : List (Attribute F)

-- The first field of a line, if it names a device.
abbrev device_of : List Runes → Option Runes
device_of [] = none
device_of (field ∷ fields) = if has_prefix field (codes "/dev/") then some field else none

unfoldable pub device_in : List Runes → Option Runes
device_in [] = none
device_in (line ∷ lines) = or_else (device_of (fields (trim_space line))) (device_in lines)

-- firstDevice, with `none` for the empty text.
unfoldable pub first_device : Runes → Option Runes
unfolding device_in
first_device scan = device_in (split b'\n' scan)

-- A map from ids to values, filled in the order of the table: a later value replaces an earlier one.
unfoldable pub by_id_from {ℓ} : {F : Type ℓ} → (ℤ → Option F) → List (Attribute F) → ℤ → Option F
by_id_from found [] = found
by_id_from found (attr ∷ attrs) =
    by_id_from (λ id. if eq_ℤ id attr.id then some attr.raw else found id) attrs

abbrev pub by_id {ℓ} : {F : Type ℓ} → List (Attribute F) → ℤ → Option F
by_id table = by_id_from (λ id. none) table

abbrev pub value_metric {ℓ} : {F : Type ℓ} → String → String → Option F → List (Metric F)
value_metric name unit none = []
value_metric name unit (some v) = metric name v unit ∷ []

module _ {ℓ} {F : Type ℓ} (float : Float F) where
  abbrev bool_to_float : Bool → F
  bool_to_float true = float.of_nat 1
  bool_to_float false = float.of_nat 0

  -- The temperature has the id 194 or, without that, 190.
  unfoldable pub smart_report : SmartctlOutput F → List (Metric F)
  smart_report out =
      let found = by_id out.table in
      metric "disk.smart.health_passed" (bool_to_float out.passed) "bool"
      ∷ (value_metric "disk.smart.reallocated_sectors" "count" (found (pos 5))
          ++ (value_metric "disk.smart.pending_sectors" "count" (found (pos 197))
              ++ (value_metric "disk.smart.uncorrectable_sectors" "count" (found (pos 198))
                  ++ (value_metric "disk.smart.power_on_hours" "hours" (found (pos 9))
                      ++ (value_metric "disk.smart.wear_leveling_percent" "%" (found (pos 177))
                          ++ value_metric "disk.smart.temperature_celsius" "C"
                              (or_else (found (pos 194)) (found (pos 190))))))))

  -- `unmarshal` is json.Unmarshal into a zero smartctlOutput.
  module _ (unmarshal : Runes → Option (SmartctlOutput F)) where
    abbrev pub parse_smartctl_json : Option Runes → Option (List (Metric F))
    parse_smartctl_json none = none
    parse_smartctl_json (some out) = unmarshal out >>= λ parsed. some (smart_report parsed)

    abbrev pub smart_of_device : Tools → Option Runes → Option (List (Metric F))
    smart_of_device tools none = none
    smart_of_device tools (some device) =
        parse_smartctl_json
          (tools.run (codes "smartctl") (codes "-a" ∷ codes "--json" ∷ device ∷ []))

    abbrev pub smart_of_scan : Tools → Option Runes → Option (List (Metric F))
    smart_of_scan tools none = none
    smart_of_scan tools (some out) = smart_of_device tools (first_device out)

    unfoldable pub smart_metrics : Tools → Option (List (Metric F))
    smart_metrics tools =
        if tools.exists (codes "smartctl")
        then smart_of_scan tools (tools.run (codes "smartctl") (codes "--scan" ∷ []))
        else none

    unfoldable pub collect_smart : Tools → CollectResult F
    unfolding smart_metrics
    collect_smart tools = best_effort (smart_metrics tools)
