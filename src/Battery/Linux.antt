-- ===== src/Battery/Linux.antt =====
-- internal/collector/battery_linux.go: the kernel's files about the first battery.
use nadi_agent.Prelude.{
  Option, none, some, List, [], ◌∷◌, ◌++◌, Bytes, Runes, codes, bytes_eq, if◌then◌else◌,
}
use nadi_agent.Strings.{contains, trim_space}
use nadi_agent.Collector.{Metric, metric}
use nadi_agent.Collectors.{Float, ReadFile, ◌>>=◌}
use nadi_agent.Battery.{state_metrics}

-- filepath.Join of a directory and a name in it, both clean.
abbrev pub in_dir : Bytes → Bytes → Bytes
in_dir dir name = dir ++ codes "/" ++ name

abbrev text_of : Option Runes → Runes
text_of none = []
text_of (some text) = trim_space text

-- readStringFile: an error is the empty text.
abbrev read_string_file : ReadFile → Bytes → Runes
read_string_file read path = text_of (read path)

abbrev pub first_of : Option (List Bytes) → Option Bytes
first_of none = none
first_of (some []) = none
first_of (some (dir ∷ dirs)) = some dir

module _ {ℓ} {F : Type ℓ} (float : Float F) where
  -- (charging, pluggedIn)
  unfoldable pub battery_state : Runes → F × F
  battery_state status =
      if contains status (codes "Charg")
      then (float.of_nat 1, float.of_nat 1)
      else if bytes_eq status (codes "Full")
      then (float.of_nat 0, float.of_nat 1)
      else (float.of_nat 0, float.of_nat 0)

  abbrev pub read_int_file : ReadFile → Bytes → Option F
  read_int_file read path = read path >>= λ text. float.parse (trim_space text)

  abbrev pub cycle_metric : Option F → List (Metric F)
  cycle_metric none = []
  cycle_metric (some cycle) = metric "battery.cycle_count" cycle "count" ∷ []

  abbrev pub health_metric : Option F → Option F → List (Metric F)
  health_metric (some full) (some design) =
      if float.lt (float.of_nat 0) design
      then metric "battery.health_percent" (float.mul (float.div full design) (float.of_nat 100))
          "%"
        ∷ []
      else []
  health_metric (some full) none = []
  health_metric none design = []

  abbrev of_capacity : ReadFile → Bytes → F → List (Metric F)
  of_capacity read dir capacity =
      let (charging, plugged_in) =
        battery_state (read_string_file read (in_dir dir (codes "status"))) in
      state_metrics capacity charging plugged_in
      ++ (cycle_metric (read_int_file read (in_dir dir (codes "cycle_count")))
          ++ health_metric (read_int_file read (in_dir dir (codes "energy_full")))
              (read_int_file read (in_dir dir (codes "energy_full_design"))))

  -- batteryMetrics; `glob` is the result of filepath.Glob for the batteries, with `none` for its error.
  unfoldable pub battery_metrics : ReadFile → Option (List Bytes) → Option (List (Metric F))
  unfolding battery_state
  battery_metrics read glob = do
    dir ← first_of glob
    capacity ← read_int_file read (in_dir dir (codes "capacity"))
    some (of_capacity read dir capacity)
