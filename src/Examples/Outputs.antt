-- ===== src/Examples/Outputs.antt =====
-- The outputs of tools in internal/collector/turn_test.go, temperature_linux_test.go and gpu_test.go.
use mathlib.Core.Option.{or_else, get_or}
use nadi_agent.Prelude.{
  ◌≡◌, refl, true, false, ◌&&◌, some, List, [], ◌∷◌, ◌++◌, Runes, codes, bytes_eq,
}
use nadi_agent.Energy.Darwin.{watts_from_line}
use nadi_agent.Strings.{
  index, back_while, is_space, split, index_func, count_while, contains, has_prefix, trim_space,
}
use nadi_agent.Collector.{metric}
use nadi_agent.Turn.Stats.{parse_coturn_stats, read_coturn_stats}
use nadi_agent.Turn.Stats.Streaming.{text_of, read_coturn_stats-whole}
use nadi_agent.Turn.Stats.Search.{first_on, is_found, parse_coturn_stats-first_on}
use nadi_agent.Temperature.Linux.{find_temp, reading, parse_sensors_cpu_temp}
use nadi_agent.Temperature.Linux.Preference.{cpu_reading, first_of, parse_sensors_cpu_temp-first_of}
use nadi_agent.Gpu.{gpu_report, parse_nvidia_smi}
use nadi_agent.Gpu.Row.{IsField, row, parse_nvidia_smi-row}
use nadi_agent.Collectors.{◌>>=◌}
use nadi_agent.Examples.Floats.{digits, float, lower}

abbrev output : List Runes
output =
    codes "Total sessions: 42"
    ∷ codes "Total relayed bytes: 987654"
    ∷ codes "Sessions of bytes: 7"
    ∷ []

read_coturn_stats-whole_example :
    read_coturn_stats float lower (some output) ≡ parse_coturn_stats float lower (text_of output)
read_coturn_stats-whole_example = read_coturn_stats-whole float lower output

read_output : read_coturn_stats float lower (some output) ≡ ((42, 987654), true)
unfolding read_coturn_stats split contains has_prefix index_func count_while digits
read_output = refl

abbrev partial_output : Runes
partial_output = codes "Total Sessions: none\nSessions: 5\n"

parse_coturn_stats-first_on_example : parse_coturn_stats float lower partial_output ≡ (
  (
    get_or (first_on float lower (codes "session") (split b'\n' partial_output)) 0,
    get_or (first_on float lower (codes "byte") (split b'\n' partial_output)) 0,
  ),
  is_found (first_on float lower (codes "session") (split b'\n' partial_output))
      && is_found (first_on float lower (codes "byte") (split b'\n' partial_output)),
)
parse_coturn_stats-first_on_example = parse_coturn_stats-first_on float lower partial_output

parse_partial : parse_coturn_stats float lower partial_output ≡ ((5, 0), false)
unfolding parse_coturn_stats split contains has_prefix index_func count_while digits
parse_partial = refl

abbrev sensors : Runes
sensors =
    codes "Adapter: ISA adapter\nCore 0: +43.0"
    ++ (0xB0 ∷ codes "C\nPackage id 0:  +45.0")
    ++ (0xB0 ∷ codes "C  (high = +80.0")
    ++ (0xB0 ∷ codes "C)\n")

parse_sensors_cpu_temp-first_of_example :
    parse_sensors_cpu_temp float lower sensors
    ≡ or_else
        (first_of float lower (cpu_reading float lower) (split b'\n' sensors))
        (first_of float lower (reading float) (split b'\n' sensors))
parse_sensors_cpu_temp-first_of_example = parse_sensors_cpu_temp-first_of float lower sensors

parse_sensors : parse_sensors_cpu_temp float lower sensors ≡ some 45
unfolding parse_sensors_cpu_temp find_temp split contains has_prefix count_while digits
parse_sensors = refl

parse_row :
    parse_nvidia_smi float (codes "42, 1024, 8192, 65, 120.5\n")
    ≡ some (
        metric "gpu.usage_percent" 42 "%"
        ∷ metric "gpu.memory_used_bytes" 1_073_741_824 "bytes"
        ∷ metric "gpu.memory_total_bytes" 8_589_934_592 "bytes"
        ∷ metric "gpu.temperature_celsius" 65 "C"
        ∷ metric "gpu.power_watts" 120 "W"
        ∷ [])
unfolding parse_nvidia_smi split trim_space digits
parse_row = refl

util-IsField : IsField (codes "42")
unfolding is_space
util-IsField = ((λ p. cc), (refl, (refl, tt)), (refl, (refl, tt)))

used-IsField : IsField (codes "1024")
unfolding is_space
used-IsField = ((λ p. cc), (refl, (refl, (refl, (refl, tt)))), (refl, (refl, (refl, (refl, tt)))))

total-IsField : IsField (codes "8192")
unfolding is_space
total-IsField = ((λ p. cc), (refl, (refl, (refl, (refl, tt)))), (refl, (refl, (refl, (refl, tt)))))

temp-IsField : IsField (codes "65")
unfolding is_space
temp-IsField = ((λ p. cc), (refl, (refl, tt)), (refl, (refl, tt)))

power-IsField : IsField (codes "120.5")
unfolding is_space
power-IsField = (
  (λ p. cc),
  (refl, (refl, (refl, (refl, (refl, tt))))),
  (refl, (refl, (refl, (refl, (refl, tt))))),
)

parse_nvidia_smi-row_example :
    parse_nvidia_smi float (
      row (codes "42") (codes "1024") (codes "8192") (codes "65") (codes "120.5")
      ++ b'\n' ∷ codes "7, 8")
    ≡ (float.parse (codes "42") >>= λ u. float.parse (codes "1024") >>= λ m.
        float.parse (codes "8192") >>= λ n. float.parse (codes "65") >>= λ t.
        float.parse (codes "120.5") >>= λ p. some (gpu_report float u m n t p))
parse_nvidia_smi-row_example =
    parse_nvidia_smi-row (codes "42") (codes "1024") (codes "8192") (codes "65") (codes "120.5")
      util-IsField used-IsField total-IsField temp-IsField power-IsField float (codes "7, 8")

unit_found : index (codes "Combined Power (CPU): 2345.6 mW") (codes "mW") ≡ some 29
unfolding index has_prefix
unit_found = refl

-- A line of internal/collector/energy_darwin_test.go's format for milliwatts.
watts_of_line :
    watts_from_line float (codes "Combined Power (CPU): 2345.6 mW") (codes "mW") ≡ some 2
unfolding watts_from_line index has_prefix back_while digits bytes_eq
watts_of_line = refl
