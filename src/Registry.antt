-- ===== src/Registry.antt =====
-- internal/collector/registry.go: the enabled collectors, and one cycle over them. A Go map is a list
-- of its keys and values in the order of the range over it, which Go leaves open and which is arbitrary
-- here.
pub mod Cycle
pub mod Enabled
pub mod Made
use nadi_agent.Prelude.{
  ℕ, Bool, true, false, Option, none, some, List, [], ◌∷◌, ◌++◌, Bytes, codes, bytes_eq, map,
  if◌then◌else◌,
}
use nadi_agent.Collector.{Metric}

-- Errors of a collector, as errors.Is tells them apart: ErrNoData, context.Canceled (which a cancelled
-- context also returns), and all others, with context.DeadlineExceeded.
pub data Failure : Type 0 where
  no_data canceled deadline_exceeded other : Failure

pub data CollectResult {ℓ} (F : Type ℓ) : Type ℓ where
  collected : List (Metric F) → CollectResult F
  failed : Failure → CollectResult F

-- What the select of runCollector finds ready: the result of the goroutine, or the end of its context.
pub data Race {ℓ} (F : Type ℓ) : Type ℓ where
  finished : CollectResult F → Race F
  context_done : Failure → Race F

-- float64 as the count of failures needs it.
pub record Counter {ℓ} (F : Type ℓ) : Type ℓ where
  pub zero : F
  pub increment : F → F
  pub is_positive : F → Bool

unfoldable pub is_no_data_error : Failure → Bool
is_no_data_error no_data = true
is_no_data_error _ = false

abbrev is_canceled : Failure → Bool
is_canceled canceled = true
is_canceled _ = false

module _ {ℓ} {F : Type ℓ} where
  unfoldable pub run_collector : Race F → CollectResult F
  run_collector (finished r) = r
  run_collector (context_done e) = failed e

  module _ (counter : Counter F) where
    -- One round of the loop of Collect over `all` and `errorsCount`.
    unfoldable pub add_result : CollectResult F → List (Metric F) → F → List (Metric F) × F
    unfolding is_no_data_error
    add_result (collected metrics) all errors_count = (all ++ metrics, errors_count)
    add_result (failed e) all errors_count =
        if is_no_data_error e
        then (all, errors_count)
        else if is_canceled e
        then (all, errors_count)
        else (all, counter.increment errors_count)

    unfoldable pub collect_loop : List (Bytes × Race F) → List (Metric F) → F → List (Metric F) × F
    unfolding add_result run_collector
    collect_loop [] all errors_count = (all, errors_count)
    collect_loop ((name, race) ∷ rest) all errors_count =
        let (all', errors_count') = add_result (run_collector race) all errors_count in
        collect_loop rest all' errors_count'

    abbrev pub errors_metric : F → Metric F
    errors_metric count = record {
      name = codes "agent.collector_errors_count";
      value = count;
      unit = codes "count";
    }

    unfoldable pub collect : List (Bytes × Race F) → List (Metric F)
    unfolding collect_loop
    collect collectors =
        let (all, errors_count) = collect_loop collectors [] counter.zero in
        if counter.is_positive errors_count then all ++ errors_metric errors_count ∷ [] else all

-- Register: factories[name] = f
unfoldable pub register {ℓ} : {C : Type ℓ} → Bytes → C → List (Bytes × C) → List (Bytes × C)
register name f [] = (name, f) ∷ []
register name f ((key, g) ∷ rest) =
    let others = register name f rest in
    if bytes_eq key name then (name, f) ∷ rest else (key, g) ∷ others

-- Names of the collectors; `sort` is sort.Strings.
unfoldable pub names {ℓ} : {C : Type ℓ} → (List Bytes → List Bytes) → List (Bytes × C) → List Bytes
names sort collectors = sort (map (λ c. c.0) collectors)

-- enabled[name], which is false for a missing key
unfoldable pub is_enabled : List (Bytes × Bool) → Bytes → Bool
is_enabled [] name = false
is_enabled ((key, on) ∷ rest) name = if bytes_eq key name then on else is_enabled rest name

-- What NewRegistry returns: the collectors, or the error that names the unknown ones.
pub data Registry {ℓ} (C : Type ℓ) : Type ℓ where
  registry : List (Bytes × C) → Registry C
  unknown_collectors : List Bytes → Registry C

module _ {ℓ} {C : Type ℓ} where
  unfoldable pub is_registered : List (Bytes × C) → Bytes → Bool
  is_registered [] name = false
  is_registered ((key, f) ∷ rest) name = if bytes_eq key name then true else is_registered rest name

  -- The names that are switched on and not registered.
  unfoldable pub unknown : List (Bytes × C) → List (Bytes × Bool) → List Bytes
  unknown factories [] = []
  unknown factories ((name, on) ∷ rest) =
      let others = unknown factories rest in
      if on then (if is_registered factories name then others else name ∷ others) else others

  -- The factories of the enabled names; each makes its collector once.
  unfoldable pub instantiate : List (Bytes × Bool) → List (Bytes × C) → List (Bytes × C)
  instantiate enabled [] = []
  instantiate enabled ((name, f) ∷ rest) =
      let others = instantiate enabled rest in
      if is_enabled enabled name then (name, f) ∷ others else others

  unfoldable pub new_registry : List (Bytes × C) → List (Bytes × Bool) → Registry C
  unfolding unknown instantiate is_enabled is_registered
  new_registry factories enabled = elim (unknown factories enabled) [
    | [] ↦ registry (instantiate enabled factories)
    | name ∷ names ↦ unknown_collectors (name ∷ names)
  ]
