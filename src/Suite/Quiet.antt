-- ===== src/Suite/Quiet.antt =====
-- The collectors of internal/collector that turn every inability into ErrNoData: disk_smart.go, gpu.go,
-- battery.go, energy.go and temperature.go.
use nadi_agent.Prelude.{
  ℕ, suc, ◌≡◌, ◌∙◌, ap, refl, Bool, true, false, ◌⊎◌, inr, Option, none, some, List, [], ◌∷◌, ◌++◌,
  Bytes, Runes, All, append-nil, if◌then◌else◌, ◌==◌,
}
use nadi_agent.Int64.{ℤ}
use nadi_agent.Collector.{Metric}
use nadi_agent.Collectors.{Float, best_effort}
use nadi_agent.Registry.{Failure, Counter, collect, errors_metric}
use nadi_agent.Registry.Cycle.{failures_of, successes, failures, count, collect_lem}
use nadi_agent.Smart.{SmartctlOutput, collect_smart}
use nadi_agent.Gpu.{collect_gpu}
use nadi_agent.Suite.{
  Reading, cpu, memory, self, disk, network, disk_smart, gpu, battery_linux, battery_darwin,
  battery_other, energy_linux, energy_darwin, energy_other, temperature_linux, temperature_darwin,
  temperature_other, turn_process, collect_of, races_of,
}

best_effort-failures {ℓ} :
    {F : Type ℓ} (o : Option (List (Metric F))) → failures_of (best_effort o) ≡ 0
best_effort-failures none = refl
best_effort-failures (some ms) = refl

module _ {ℓ κ} {T : Type ℓ} {F : Type κ} where
  abbrev pub is_best_effort : Reading T F → Bool
  is_best_effort (cpu per la) = false
  is_best_effort (memory vm swap) = false
  is_best_effort (self uptime) = false
  is_best_effort (disk e partitions) = false
  is_best_effort (network e io now ip c) = false
  is_best_effort (turn_process procs w rss lines) = false
  is_best_effort _ = true

  -- Each of the collectors returns before its deadline.
  abbrev pub in_time : List (Bytes × Reading T F) → List (Bytes × (Failure ⊎ Reading T F))
  in_time [] = []
  in_time ((name, r) ∷ rest) = (name, inr r) ∷ in_time rest

  module _ (float : Float F) (since : T → T → ℤ) (lower : ℕ → ℕ)
      (unmarshal : Runes → Option (SmartctlOutput F)) where
    collect_of-failures :
        (r : Reading T F)
        → is_best_effort r ≡ true
        → failures_of (collect_of float since lower unmarshal r) ≡ 0
    unfolding collect_of collect_smart collect_gpu
    collect_of-failures (cpu per la) h = cc
    collect_of-failures (memory vm swap) h = cc
    collect_of-failures (self uptime) h = cc
    collect_of-failures (disk e partitions) h = cc
    collect_of-failures (network e io now ip c) h = cc
    collect_of-failures (turn_process procs w rss lines) h = cc
    collect_of-failures (disk_smart tools) h = best_effort-failures _
    collect_of-failures (gpu tools) h = best_effort-failures _
    collect_of-failures (battery_linux read glob) h = best_effort-failures _
    collect_of-failures (battery_darwin tools) h = best_effort-failures _
    collect_of-failures battery_other h = refl
    collect_of-failures (energy_linux file now c) h = best_effort-failures _
    collect_of-failures (energy_darwin tools) h = best_effort-failures _
    collect_of-failures energy_other h = refl
    collect_of-failures (temperature_linux tools) h = best_effort-failures _
    collect_of-failures (temperature_darwin tools) h = best_effort-failures _
    collect_of-failures temperature_other h = refl

    failures-in_time :
        (cycle : List (Bytes × Reading T F))
        → All (λ x. is_best_effort x.1 ≡ true) cycle
        → failures (races_of float since lower unmarshal (in_time cycle)) ≡ 0
    unfolding failures races_of
    failures-in_time [] h = refl
    failures-in_time ((name, r) ∷ rest) (hr, h) =
        rw (collect_of-failures r hr, failures-in_time rest h) refl

    -- A cycle of collectors for SMART, the GPU, the battery, the energy and the temperature, all of
    -- which return before their deadlines, reports their metrics and no count of failures, whatever
    -- tools, files and outputs they find. `is_positive` is false of 0 and true behind any increment.
    pub collect-quiet :
        (counter : Counter F) (cycle : List (Bytes × Reading T F))
        → counter.is_positive counter.zero ≡ false
        → ((n : ℕ) → counter.is_positive (count counter (suc n)) ≡ true)
        → All (λ x. is_best_effort x.1 ≡ true) cycle
        → collect counter (races_of float since lower unmarshal (in_time cycle))
          ≡ successes (races_of float since lower unmarshal (in_time cycle))
    collect-quiet counter cycle at_zero at_suc h =
        let races = races_of float since lower unmarshal (in_time cycle) in
        collect_lem counter races at_zero at_suc
        ∙ ap
            (λ n.
              successes races
              ++ (if n == 0 then [] else errors_metric counter (count counter n) ∷ []))
            (failures-in_time cycle h)
        ∙ append-nil (successes races)
