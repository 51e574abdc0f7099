-- ===== src/Suite/Names.antt =====
-- Metrics whose names the sender takes.
pub mod Host
pub mod BestEffort
use nadi_agent.Prelude.{
  ℕ, ◌≤◌, ◌≡◌, refl, Bool, true, false, ◌⊎◌, inl, inr, Option, none, some, List, [], ◌∷◌, ◌++◌,
  Bytes, Runes, String, codes, length, map, All, All-append, if_cases, if◌then◌else◌, not, ◌||◌,
  ◌&&◌,
}
use nadi_agent.Int64.{ℤ, pos}
use nadi_agent.Payload.{valid_metric_name}
use nadi_agent.Collector.{Metric}
use nadi_agent.Collectors.{Float, Tools, ReadFile, Sample, read, unread, best_effort, ◌>>=◌}
use nadi_agent.Registry.{CollectResult, collected, failed}
use nadi_agent.Registry.Cycle.{metrics_of}
use nadi_agent.Smart.{value_metric}

module _ {ℓ} {F : Type ℓ} where
  abbrev pub HasValidName : Metric F → Type 0
  HasValidName m = valid_metric_name m.name ≡ true

  abbrev pub AllValid : List (Metric F) → Type 0
  AllValid ms = All HasValidName ms

  -- The metrics of a platform, if there are any.
  unfoldable pub Valid : Option (List (Metric F)) → Type 0
  Valid none = Unit
  Valid (some ms) = AllValid ms

pub none-Valid {ℓ} : (F : Type ℓ) → Valid {F = F} none
unfolding Valid
none-Valid F = tt

module _ {ℓ} {F : Type ℓ} where
  pub some-Valid : (ms : List (Metric F)) → AllValid ms → Valid (some ms)
  unfolding Valid
  some-Valid ms h = h

  pub best_effort-AllValid :
      (o : Option (List (Metric F))) → Valid o → AllValid (metrics_of (best_effort o))
  unfolding Valid
  best_effort-AllValid none h = tt
  best_effort-AllValid (some ms) h = h

  pub bind-Valid {κ} :
      {A : Type κ} (o : Option A) (f : A → Option (List (Metric F)))
      → ((a : A) → Valid (f a))
      → Valid (o >>= f)
  bind-Valid none f h = none-Valid F
  bind-Valid (some a) f h = h a

  pub if-Valid :
      (b : Bool) (x y : Option (List (Metric F))) → Valid x → Valid y → Valid (if b then x else y)
  if-Valid true x y hx hy = hx
  if-Valid false x y hx hy = hy

  pub value_metric-AllValid :
      (name unit : String) (v : Option F) (rest : List (Metric F))
      → valid_metric_name (codes name) ≡ true
      → AllValid rest
      → AllValid (value_metric name unit v ++ rest)
  value_metric-AllValid name unit none rest h hs = hs
  value_metric-AllValid name unit (some v) rest h hs = (h, hs)

  pub value_metric-last :
      (name unit : String) (v : Option F)
      → valid_metric_name (codes name) ≡ true
      → AllValid (value_metric name unit v)
  value_metric-last name unit none h = tt
  value_metric-last name unit (some v) h = (h, tt)
