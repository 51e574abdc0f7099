-- ===== src/Turn.antt =====
-- internal/collector/turn.go: the coturn process.
pub mod Stats
use nadi_agent.Prelude.{
  ℕ, Bool, true, false, ◌||◌, Option, none, some, List, [], ◌∷◌, ◌++◌, Runes, codes, bytes_eq,
  if◌then◌else◌,
}
use nadi_agent.Int64.{ℤ}
use nadi_agent.Collector.{Metric, metric}
use nadi_agent.Collectors.{Float, Sample, read, unread, ◌>>=◌}
use nadi_agent.Registry.{CollectResult, collected, failed}

-- A process with its name, where `none` is an error of reading it.
pub record Process : Type 0 where
  pub pid : ℤ
  pub name : Option Runes

abbrev is_coturn : Runes → Bool
is_coturn name = bytes_eq name (codes "coturn") || bytes_eq name (codes "turnserver")

abbrev has_coturn_name : Option Runes → Bool
has_coturn_name none = false
has_coturn_name (some name) = is_coturn name

unfoldable pub find_turn_process : List Process → Option ℤ
find_turn_process [] = none
find_turn_process (p ∷ procs) =
    let later = find_turn_process procs in if has_coturn_name p.name then some p.pid else later

-- What processCPUPercent finds on its way: whether the process could be opened, its times before and
-- behind the window (`none` is an error), whether the window ended before the context, and the time
-- between.
pub record CpuWindow {ℓ} (F : Type ℓ) : Type ℓ where
  pub opened : Bool
  pub t1 : Option F
  pub waited : Bool
  pub t2 : Option F
  pub wall : ℤ

-- The resident memory in bytes, where `none` is an error of opening the process or of reading it.
abbrev pub Memory : Type 0
Memory = Option ℕ

abbrev guard : Bool → Option (Unit {0})
guard true = some tt
guard false = none

module _ {ℓ} {F : Type ℓ} (float : Float F) where
  -- A percentage below 0 is reported as 0.
  abbrev cpu_percent_of : F → F → F → Option F
  cpu_percent_of t1 t2 wall =
      let pct = float.mul (float.div (float.sub t2 t1) wall) (float.of_nat 100) in
      if float.le wall (float.of_nat 0)
      then none
      else some (if float.lt pct (float.of_nat 0) then float.of_nat 0 else pct)

  unfoldable pub process_cpu_percent : CpuWindow F → Option F
  process_cpu_percent w = do
    opened ← guard w.opened
    t1 ← w.t1
    waited ← guard w.waited
    t2 ← w.t2
    cpu_percent_of t1 t2 (float.seconds w.wall)

  abbrev pub cpu_metric : Option F → List (Metric F)
  cpu_metric none = []
  cpu_metric (some pct) = metric "turn.process_cpu_percent" pct "%" ∷ []

  abbrev pub mem_metric : Memory → List (Metric F)
  mem_metric none = []
  mem_metric (some rss) = metric "turn.process_mem_bytes" (float.of_nat rss) "bytes" ∷ []

  -- Sessions, bytes and whether both were found.
  abbrev pub stats_metrics : (F × F) × Bool → List (Metric F)
  stats_metrics ((sessions, bytes), false) = []
  stats_metrics ((sessions, bytes), true) =
      metric "turn.active_sessions" sessions "count"
      ∷ metric "turn.bytes_relayed" bytes "bytes"
      ∷ []

  abbrev pub turn_of : Option ℤ → CpuWindow F → Memory → (F × F) × Bool → List (Metric F)
  turn_of none w rss stats = metric "turn.process_up" (float.of_nat 0) "bool" ∷ []
  turn_of (some pid) w rss stats =
      metric "turn.process_up" (float.of_nat 1) "bool"
      ∷ (cpu_metric (process_cpu_percent w) ++ (mem_metric rss ++ stats_metrics stats))

  -- Collect, from the processes, and what is read of the one that was found.
  unfoldable pub collect_turn :
      Sample (List Process) → CpuWindow F → Memory → (F × F) × Bool → CollectResult F
  unfolding find_turn_process process_cpu_percent
  collect_turn (unread e) w rss stats = failed e
  collect_turn (read procs) w rss stats = collected (turn_of (find_turn_process procs) w rss stats)
