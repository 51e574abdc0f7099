-- ===== src/Suite/Names/Host.antt =====
-- The names of the metrics of cpu.go, memory.go, disk.go, disk_smart.go, network.go and turn.go of
-- internal/collector.
use mathlib.Core.Option.{or_else}
use nadi_agent.Prelude.{
  ℕ, ◌≤◌, refl, Bool, true, false, Option, none, some, List, [], ◌∷◌, ◌++◌, Bytes, Runes, length,
  All, All-append, if_cases, not,
}
use nadi_agent.Int64.{ℤ, pos}
use nadi_agent.Payload.{valid_metric_name}
use nadi_agent.Collectors.{Float, Tools, Sample, read, unread}
use nadi_agent.Registry.Cycle.{metrics_of}
use nadi_agent.DiskCollector.{
  Partition, should_report, sanitize, usage_metric, usage, collect_usage,
}
use nadi_agent.DiskCollector.Names.{usage_name-valid}
use nadi_agent.NetworkCollector.{
  NetworkCollector, Counters, IpAnswer, rate_metrics, ip_metric, collect_network,
}
use nadi_agent.HostCollectors.{
  LoadAverage, VirtualMemory, collect_cpu, collect_memory, collect_self,
}
use nadi_agent.Smart.{
  SmartctlOutput, by_id, value_metric, smart_report, parse_smartctl_json, smart_of_device,
  smart_of_scan, smart_metrics,
}
use nadi_agent.Turn.{
  Process, CpuWindow, Memory, cpu_metric, mem_metric, stats_metrics, find_turn_process,
  process_cpu_percent, turn_of, collect_turn,
}
use nadi_agent.Suite.Names.{
  AllValid, HasValidName, Valid, none-Valid, some-Valid, bind-Valid, if-Valid,
  value_metric-AllValid, value_metric-last,
}

module _ {ℓ} {F : Type ℓ} (float : Float F) where
  pub collect_cpu-AllValid :
      (per : Sample (List F)) (la : Option (LoadAverage F))
      → AllValid (metrics_of (collect_cpu float per la))
  unfolding collect_cpu valid_metric_name
  collect_cpu-AllValid (unread e) la = tt
  collect_cpu-AllValid (read []) la = tt
  collect_cpu-AllValid (read (v ∷ per)) none = (refl, (refl, (refl, tt)))
  collect_cpu-AllValid (read (v ∷ per)) (some la) =
      (refl, (refl, (refl, (refl, (refl, (refl, tt))))))

  pub collect_memory-AllValid :
      (vm : Sample (VirtualMemory F)) (swap : Option F)
      → AllValid (metrics_of (collect_memory float vm swap))
  unfolding collect_memory valid_metric_name
  collect_memory-AllValid (unread e) swap = tt
  collect_memory-AllValid (read vm) none = (refl, (refl, (refl, tt)))
  collect_memory-AllValid (read vm) (some swap) = (refl, (refl, (refl, (refl, tt))))

  smart_report-AllValid : (out : SmartctlOutput F) → AllValid (smart_report float out)
  unfolding smart_report valid_metric_name
  smart_report-AllValid out =
      let found = by_id out.table in
      let celsius = or_else (found (pos 194)) (found (pos 190)) in
      let last = value_metric "disk.smart.temperature_celsius" "C" celsius in
      let wear = value_metric "disk.smart.wear_leveling_percent" "%" (found (pos 177)) ++ last in
      let hours = value_metric "disk.smart.power_on_hours" "hours" (found (pos 9)) ++ wear in
      let uncorrectable =
        value_metric "disk.smart.uncorrectable_sectors" "count" (found (pos 198)) ++ hours in
      let pending =
        value_metric "disk.smart.pending_sectors" "count" (found (pos 197)) ++ uncorrectable in
      (
        refl,
        value_metric-AllValid "disk.smart.reallocated_sectors" "count" (found (pos 5)) pending refl
            (value_metric-AllValid "disk.smart.pending_sectors" "count" (found (pos 197))
              uncorrectable refl
              (value_metric-AllValid "disk.smart.uncorrectable_sectors" "count" (found (pos 198))
                hours refl
                (value_metric-AllValid "disk.smart.power_on_hours" "hours" (found (pos 9)) wear refl
                  (value_metric-AllValid "disk.smart.wear_leveling_percent" "%" (found (pos 177))
                    last refl
                    (value_metric-last "disk.smart.temperature_celsius" "C" celsius refl))))),
      )

  module _ (unmarshal : Runes → Option (SmartctlOutput F)) where
    parse_smartctl_json-Valid :
        (out : Option Runes) → Valid (parse_smartctl_json float unmarshal out)
    parse_smartctl_json-Valid none = none-Valid F
    parse_smartctl_json-Valid (some out) =
        bind-Valid (unmarshal out) _ (λ parsed. some-Valid _ (smart_report-AllValid parsed))

    smart_of_device-Valid :
        (tools : Tools) (device : Option Runes)
        → Valid (smart_of_device float unmarshal tools device)
    smart_of_device-Valid tools none = none-Valid F
    smart_of_device-Valid tools (some device) = parse_smartctl_json-Valid _

    smart_of_scan-Valid :
        (tools : Tools) (out : Option Runes) → Valid (smart_of_scan float unmarshal tools out)
    smart_of_scan-Valid tools none = none-Valid F
    smart_of_scan-Valid tools (some out) = smart_of_device-Valid tools _

    pub smart_metrics-Valid : (tools : Tools) → Valid (smart_metrics float unmarshal tools)
    unfolding smart_metrics
    smart_metrics-Valid tools = if-Valid _ _ _ (smart_of_scan-Valid tools _) (none-Valid F)

  cpu_metric-AllValid : (pct : Option F) → AllValid (cpu_metric float pct)
  unfolding valid_metric_name
  cpu_metric-AllValid none = tt
  cpu_metric-AllValid (some pct) = (refl, tt)

  mem_metric-AllValid : (rss : Memory) → AllValid (mem_metric float rss)
  unfolding valid_metric_name
  mem_metric-AllValid none = tt
  mem_metric-AllValid (some rss) = (refl, tt)

  stats_metrics-AllValid : (stats : (F × F) × Bool) → AllValid (stats_metrics float stats)
  unfolding valid_metric_name
  stats_metrics-AllValid ((sessions, bytes), false) = tt
  stats_metrics-AllValid ((sessions, bytes), true) = (refl, (refl, tt))

  turn_of-AllValid :
      (pid : Option ℤ) (w : CpuWindow F) (rss : Memory) (stats : (F × F) × Bool)
      → AllValid (turn_of float pid w rss stats)
  unfolding valid_metric_name
  turn_of-AllValid none w rss stats = (refl, tt)
  turn_of-AllValid (some pid) w rss stats =
      let cpu = cpu_metric float (process_cpu_percent float w) in
      let rest =
        All-append HasValidName (mem_metric float rss) (stats_metrics float stats)
          (mem_metric-AllValid rss) (stats_metrics-AllValid stats) in
      (
        refl,
        All-append HasValidName cpu (mem_metric float rss ++ stats_metrics float stats)
            (cpu_metric-AllValid _) rest,
      )

  pub collect_turn-AllValid :
      (procs : Sample (List Process)) (w : CpuWindow F) (rss : Memory) (stats : (F × F) × Bool)
      → AllValid (metrics_of (collect_turn float procs w rss stats))
  unfolding collect_turn
  collect_turn-AllValid (unread e) w rss stats = tt
  collect_turn-AllValid (read procs) w rss stats =
      turn_of-AllValid (find_turn_process procs) w rss stats

  usage_metric-AllValid :
      (lower : ℕ → ℕ) (p : Partition F) (used : Option F)
      → length (sanitize lower p.mountpoint) ≤ 45
      → AllValid (usage_metric lower p used)
  usage_metric-AllValid lower p none short = tt
  usage_metric-AllValid lower p (some used) short =
      ((usage_name-valid lower p.mountpoint).1 short, tt)

  usage-AllValid :
      (lower : ℕ → ℕ) (ps : List (Partition F))
      → All (λ p. length (sanitize lower p.mountpoint) ≤ 45) ps
      → AllValid (usage lower ps)
  unfolding usage
  usage-AllValid lower [] h = tt
  usage-AllValid lower (p ∷ ps) (short, h) =
      let rest = usage-AllValid lower ps h in
      if_cases AllValid (not (should_report p.mountpoint p.fstype)) (usage lower ps)
        (usage_metric lower p p.used_percent ++ usage lower ps) (λ no. rest)
        (λ yes.
          All-append HasValidName (usage_metric lower p p.used_percent) (usage lower ps)
            (usage_metric-AllValid lower p p.used_percent short) rest)

  pub collect_usage-Valid :
      (lower : ℕ → ℕ) (ps : List (Partition F))
      → All (λ p. length (sanitize lower p.mountpoint) ≤ 45) ps
      → Valid (collect_usage lower (some ps))
  collect_usage-Valid lower ps h = some-Valid _ (usage-AllValid lower ps h)

  pub collect_self-AllValid : (uptime : ℤ) → AllValid (metrics_of (collect_self float uptime))
  unfolding collect_self valid_metric_name
  collect_self-AllValid uptime = (refl, tt)

module _ {ℓ κ} {T : Type ℓ} {F : Type κ} (since : T → T → ℤ) (per_second : ℕ → ℤ → F) (zero one : F)
    (trim_space : Bytes → Bytes) where
  network_report-Valid :
      (sent recv : F) (changed : Option F)
      → Valid (
          some (
            rate_metrics since per_second zero one trim_space sent recv
            ++ ip_metric since per_second zero one trim_space changed))
  unfolding valid_metric_name
  network_report-Valid sent recv none = some-Valid _ (refl, (refl, tt))
  network_report-Valid sent recv (some changed) = some-Valid _ (refl, (refl, (refl, tt)))

  pub collect_network-Valid :
      (io : Option Counters) (now : T) (ip : IpAnswer) (c : NetworkCollector T)
      → Valid (collect_network since per_second zero one trim_space io now ip c).0
  unfolding collect_network
  collect_network-Valid none now ip c = none-Valid F
  collect_network-Valid (some io) now ip c = network_report-Valid _ _ _
