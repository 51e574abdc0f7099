-- ===== src/Examples/Cycles.antt =====
-- internal/collector/registry_test.go and the payloads of internal/sender/sender_test.go.
use mathlib.Core.List.{Perm, perm_append_comm}
use nadi_agent.Prelude.{
  ℕ, zero, suc, ◌≡◌, ◌↔◌, refl, ◌≤◌, Bool, true, false, some, List, [], ◌∷◌, ◌++◌, Bytes, codes,
  length, take, ◌==◌, if◌then◌else◌, All,
}
use nadi_agent.Collector
use nadi_agent.Payload.{Heartbeat, max_metrics, valid_metric_name}
use nadi_agent.Sender.{Sender, Host, build_heartbeat, gather}
use nadi_agent.Sender.Build.{sendable, build_heartbeat-metrics}
use nadi_agent.Registry.{
  Race, Counter, finished, context_done, collected, failed, deadline_exceeded, no_data, collect,
  errors_metric,
}
use nadi_agent.Registry.{registry, is_enabled, new_registry}
use nadi_agent.Registry.Enabled.{IsKnown, new_registry_iff}
use nadi_agent.Registry.Cycle.{successes, failures, count, collect_lem, collect_perm}

abbrev positive : ℕ → Bool
positive zero = false
positive (suc n) = true

abbrev pub counter : Counter ℕ
counter = record { zero = 0; increment = suc; is_positive = positive }

abbrev load_metric : Collector.Metric ℕ
load_metric = record { name = codes "cpu.load"; value = 7; unit = codes "%" }

-- One collector works, one misses its deadline, one has no data.
abbrev races : List (Bytes × Race ℕ)
races =
    (codes "cpu", finished (collected (load_metric ∷ [])))
    ∷ (codes "disk", context_done deadline_exceeded)
    ∷ (codes "gpu", finished (failed no_data))
    ∷ []

pub zero_not : counter.is_positive counter.zero ≡ false
zero_not = refl

pub suc_positive : (n : ℕ) → counter.is_positive (count counter (suc n)) ≡ true
unfolding count
suc_positive n = refl

collect_lem_example :
    collect counter races
    ≡ successes races
      ++ (if failures races == 0
          then []
          else errors_metric counter (count counter (failures races)) ∷ [])
collect_lem_example = collect_lem counter races zero_not suc_positive

-- The same results, the last first.
abbrev races' : List (Bytes × Race ℕ)
races' =
    (codes "gpu", finished (failed no_data))
    ∷ (codes "cpu", finished (collected (load_metric ∷ [])))
    ∷ (codes "disk", context_done deadline_exceeded)
    ∷ []

collect_perm_example : Perm (collect counter races) (collect counter races')
collect_perm_example = collect_perm counter races races' zero_not suc_positive (
    perm_append_comm
      ((codes "cpu", finished (collected (load_metric ∷ [])))
        ∷ (codes "disk", context_done deadline_exceeded)
        ∷ [])
      ((codes "gpu", finished (failed no_data)) ∷ []))

abbrev pub snd : Sender
snd = record {
  device_id = codes "d";
  api_key = codes "k";
  server_url = codes "http://s";
  version = codes "1";
}

abbrev pub host : Host
host = record {
  hostname = some (codes "h");
  now = codes "2026-01-01T00:00:00Z";
  goos = codes "linux";
  goarch = codes "amd64";
}

abbrev bad_metric : Collector.Metric ℕ
bad_metric = record { name = codes "Load"; value = 7; unit = codes "%" }

abbrev heartbeat : Heartbeat ℕ
heartbeat = record {
  device_id = codes "d";
  timestamp = codes "2026-01-01T00:00:00Z";
  metrics = gather (bad_metric ∷ load_metric ∷ []) [];
  meta = record {
    hostname = codes "h";
    os = codes "linux";
    arch = codes "amd64";
    agent_version = codes "1";
  };
}

-- The name without a dot is left out.
one_left : heartbeat.metrics ≡ record { name = codes "cpu.load"; value = 7; unit = codes "%" } ∷ []
unfolding gather valid_metric_name
one_left = refl

heartbeat_built : build_heartbeat snd host (bad_metric ∷ load_metric ∷ []) ≡ some heartbeat
unfolding build_heartbeat
heartbeat_built = refl

build_heartbeat-metrics_example :
    (heartbeat.metrics ≡ take max_metrics (sendable (bad_metric ∷ load_metric ∷ [])))
    × All (λ p. valid_metric_name p.name ≡ true) heartbeat.metrics
    × (length heartbeat.metrics ≤ max_metrics)
build_heartbeat-metrics_example =
    build_heartbeat-metrics snd host (bad_metric ∷ load_metric ∷ []) heartbeat heartbeat_built

-- Two registered collectors, each a number, and settings that switch one on.
abbrev factories : List (Bytes × ℕ)
factories = (codes "cpu", 1) ∷ (codes "gpu", 2) ∷ []

abbrev switches : List (Bytes × Bool)
switches = (codes "cpu", true) ∷ (codes "turn", false) ∷ []

new_registry_iff_example :
    ((cs : List (Bytes × ℕ)) × (new_registry factories switches ≡ registry cs)
      × All (λ c. is_enabled switches c.0 ≡ true) cs)
    ↔ All (IsKnown factories) switches
new_registry_iff_example = new_registry_iff factories switches
