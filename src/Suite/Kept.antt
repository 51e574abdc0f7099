-- ===== src/Suite/Kept.antt =====
-- A heartbeat of the agent's own collectors: internal/collector with internal/sender/sender.go.
use nadi_agent.Prelude.{
  ℕ, ◌≤◌, ◌≡◌, ◌∙◌, ap, refl, true, false, suc, ◌⊎◌, inl, inr, Option, none, some, List, [], ◌∷◌,
  Bytes, Runes, map, length, take, All, All-append, if_cases, if◌then◌else◌, ◌==◌,
}
use nadi_agent.Int64.{ℤ}
use nadi_agent.Payload.{Heartbeat, max_metrics, valid_metric_name}
use nadi_agent.Collector.{Metric}
use nadi_agent.Collectors.{Float}
use nadi_agent.Registry.{Failure, Counter, collect, errors_metric}
use nadi_agent.Registry.Cycle.{metrics_of, successes, failures, count, collect_lem}
use nadi_agent.DiskCollector.{Partition, sanitize}
use nadi_agent.Smart.{SmartctlOutput, collect_smart}
use nadi_agent.Gpu.{collect_gpu}
use nadi_agent.Sender.{Sender, Host, to_payload, build_heartbeat}
use nadi_agent.Sender.Build.{sendable, build_heartbeat-metrics}
use nadi_agent.Suite.{
  Reading, cpu, memory, self, disk, network, disk_smart, gpu, battery_linux, battery_darwin,
  battery_other, energy_linux, energy_darwin, energy_other, temperature_linux, temperature_darwin,
  temperature_other, turn_process, or_failed, collect_of, races_of,
}
use nadi_agent.Suite.Names.{AllValid, HasValidName, Valid, best_effort-AllValid}
use nadi_agent.Suite.Names.Host.{
  collect_cpu-AllValid, collect_memory-AllValid, collect_self-AllValid, collect_usage-Valid,
  collect_network-Valid, smart_metrics-Valid, collect_turn-AllValid,
}
use nadi_agent.Suite.Names.BestEffort.{
  gpu_metrics-Valid, battery_linux-Valid, battery_darwin-Valid, energy_linux-Valid,
  energy_darwin-Valid, temperature_metrics-Valid,
}

-- Every metric with a valid name is sent.
sendable-AllValid {ℓ} :
    {F : Type ℓ} (ms : List (Metric F)) → AllValid ms → sendable ms ≡ map to_payload ms
unfolding sendable
sendable-AllValid [] h = refl
sendable-AllValid (m ∷ ms) (valid, h) =
    rw valid (ap (λ t. to_payload m ∷ t) (sendable-AllValid ms h))

or_failed-AllValid {ℓ} :
    {F : Type ℓ} (e : Failure) (o : Option (List (Metric F)))
    → Valid o
    → AllValid (metrics_of (or_failed e o))
unfolding Valid
or_failed-AllValid e none h = tt
or_failed-AllValid e (some ms) h = h

module _ {ℓ κ} {T : Type ℓ} {F : Type κ} (float : Float F) (since : T → T → ℤ) (lower : ℕ → ℕ)
    (unmarshal : Runes → Option (SmartctlOutput F)) where
  -- No mount point that a disk collector reads has a tag of more than 45 bytes.
  abbrev pub HasShortTags : Reading T F → Type 0
  HasShortTags (disk e (some ps)) =
      All (λ (p : Partition F). length (sanitize lower p.mountpoint) ≤ 45) ps
  HasShortTags _ = Unit

  collect_of-AllValid :
      (r : Reading T F)
      → HasShortTags r
      → AllValid (metrics_of (collect_of float since lower unmarshal r))
  unfolding collect_of
  collect_of-AllValid (cpu per la) h = collect_cpu-AllValid float per la
  collect_of-AllValid (memory vm swap) h = collect_memory-AllValid float vm swap
  collect_of-AllValid (self uptime) h = collect_self-AllValid float uptime
  collect_of-AllValid (disk e none) h = tt
  collect_of-AllValid (disk e (some ps)) h =
      or_failed-AllValid e _ (collect_usage-Valid float lower ps h)
  collect_of-AllValid (network e io now ip c) h =
      or_failed-AllValid e _ (collect_network-Valid _ _ _ _ _ io now ip c)
  collect_of-AllValid (disk_smart tools) h =
      unfold collect_smart in best_effort-AllValid _ (smart_metrics-Valid float unmarshal tools)
  collect_of-AllValid (gpu tools) h =
      unfold collect_gpu in best_effort-AllValid _ (gpu_metrics-Valid float tools)
  collect_of-AllValid (battery_linux read glob) h =
      best_effort-AllValid _ (battery_linux-Valid float read glob)
  collect_of-AllValid (battery_darwin tools) h =
      best_effort-AllValid _ (battery_darwin-Valid float lower tools)
  collect_of-AllValid battery_other h = tt
  collect_of-AllValid (energy_linux file now c) h =
      best_effort-AllValid _ (energy_linux-Valid float since file now c)
  collect_of-AllValid (energy_darwin tools) h =
      best_effort-AllValid _ (energy_darwin-Valid float lower tools)
  collect_of-AllValid energy_other h = tt
  collect_of-AllValid (temperature_linux tools) h =
      best_effort-AllValid _ (temperature_metrics-Valid float _)
  collect_of-AllValid (temperature_darwin tools) h =
      best_effort-AllValid _ (temperature_metrics-Valid float _)
  collect_of-AllValid temperature_other h = tt
  collect_of-AllValid (turn_process procs w rss lines) h = collect_turn-AllValid float procs w rss _

  abbrev pub AllShortTags : List (Bytes × (Failure ⊎ Reading T F)) → Type 0
  AllShortTags [] = Unit
  AllShortTags ((name, inl e) ∷ rest) = AllShortTags rest
  AllShortTags ((name, inr r) ∷ rest) = HasShortTags r × AllShortTags rest

  successes-AllValid :
      (cycle : List (Bytes × (Failure ⊎ Reading T F)))
      → AllShortTags cycle
      → AllValid (successes (races_of float since lower unmarshal cycle))
  unfolding successes races_of
  successes-AllValid [] h = tt
  successes-AllValid ((name, inl e) ∷ rest) h = successes-AllValid rest h
  successes-AllValid ((name, inr r) ∷ rest) (hr, h) =
      All-append HasValidName (metrics_of (collect_of float since lower unmarshal r))
        (successes (races_of float since lower unmarshal rest)) (collect_of-AllValid r hr)
        (successes-AllValid rest h)

  module _ (counter : Counter F) where
    errors-AllValid :
        (n : ℕ) → AllValid (if n == 0 then [] else errors_metric counter (count counter n) ∷ [])
    unfolding valid_metric_name
    errors-AllValid n = if_cases AllValid (n == 0) [] _ (λ on. tt) (λ off. (refl, tt))

    -- A heartbeat of a cycle of the agent's own collectors, in any number and on any platform, whatever
    -- each of them finds and whether or not it returns in time, has the first hundred of all the metrics
    -- that the cycle reports: the sender leaves out none for its name, the count of failures included.
    -- No mount point has a tag of more than 45 bytes. `is_positive` is false of 0 and true behind any
    -- increment.
    pub build_heartbeat-collect :
        (cycle : List (Bytes × (Failure ⊎ Reading T F))) (s : Sender) (h : Host) (hb : Heartbeat F)
        → counter.is_positive counter.zero ≡ false
        → ((n : ℕ) → counter.is_positive (count counter (suc n)) ≡ true)
        → AllShortTags cycle
        → build_heartbeat s h (collect counter (races_of float since lower unmarshal cycle))
          ≡ some hb
        → hb.metrics
          ≡ take max_metrics
              (map to_payload (collect counter (races_of float since lower unmarshal cycle)))
    build_heartbeat-collect cycle s h hb at_zero at_suc short built =
        let races = races_of float since lower unmarshal cycle in
        let reported = collect_lem counter races at_zero at_suc in
        let valid : AllValid (collect counter races) = rw reported (
          All-append HasValidName (successes races) _ (successes-AllValid cycle short)
            (errors-AllValid (failures races))) in
        (build_heartbeat-metrics s h (collect counter races) hb built).0
        ∙ ap (take max_metrics) (sendable-AllValid (collect counter races) valid)
