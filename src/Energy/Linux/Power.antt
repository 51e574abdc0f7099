-- ===== src/Energy/Linux/Power.antt =====
-- The samples of internal/collector/energy_linux.go over several cycles.
use nadi_agent.Prelude.{
  ◌≡◌, ◌∙◌, ap, refl, sym, Bool, true, false, ◌⊎◌, inl, inr, Option, none, some, List, [], ◌∷◌,
  Runes, if◌then◌else◌,
}
use mathlib.Core.Path.{subst}
use nadi_agent.Int64.{ℤ}
use nadi_agent.Collector.{Metric}
use nadi_agent.Collectors.{Float}
use nadi_agent.Energy.{EnergyCollector, power_metrics}
use nadi_agent.Energy.Linux.{Measured, counter_value, since_sample, with_energy, energy_metrics}

module _ {ℓ κ} {T : Type ℓ} {F : Type κ} (float : Float F) (since : T → T → ℤ) where
  abbrev pub Cycles : Type ℓ
  Cycles = List (Option Runes × T)

  -- The state behind cycles, each with the counter's file and the time.
  unfoldable pub after : Cycles → EnergyCollector T F → EnergyCollector T F
  after [] c = c
  after ((file, now) ∷ rest) c = after rest (energy_metrics float since file now c).1

  -- Cycles that report no power.
  unfoldable pub Silent : Cycles → EnergyCollector T F → Type κ
  Silent [] c = Unit
  Silent ((file, now) ∷ rest) c =
      ((energy_metrics float since file now c).0 ≡ none)
      × Silent rest (energy_metrics float since file now c).1

  abbrev sample : F → T → EnergyCollector T F
  sample energy now = record { prev_energy = energy; prev_time = some now }

  abbrev either :
      Bool → List (Metric F) → EnergyCollector T F → EnergyCollector T F → Measured float since
  either b ms c d = if b then (none, c) else (some ms, d)

  keeps_if :
      (b : Bool) (ms : List (Metric F)) (c d : EnergyCollector T F)
      → (either b ms c d).0 ≡ none
      → (either b ms c d).1 ≡ c
  keeps_if true ms c d h = refl
  keeps_if false ms c d h = cc

  with_energy-keeps :
      (value : Option F) (now : T) (energy : F) (before : T)
      → (with_energy float since value now (sample energy before)).0 ≡ none
      → (with_energy float since value now (sample energy before)).1 ≡ sample energy before
  with_energy-keeps none now energy before h = refl
  with_energy-keeps (some e) now energy before h =
      keeps_if (float.le (float.seconds (since now before)) (float.of_nat 0)) _ _ _ h

  with_value :
      (file : Option Runes) (now : T) (value : Option F) (c : EnergyCollector T F)
      → counter_value float since file ≡ value
      → energy_metrics float since file now c ≡ with_energy float since value now c
  unfolding energy_metrics
  with_value file now value c read = ap (λ v. with_energy float since v now c) read

  -- A cycle that is silent behind a sample keeps it.
  energy_metrics-keeps :
      (file : Option Runes) (now : T) (energy : F) (before : T)
      → (energy_metrics float since file now (sample energy before)).0 ≡ none
      → (energy_metrics float since file now (sample energy before)).1 ≡ sample energy before
  unfolding energy_metrics
  energy_metrics-keeps file now energy before h =
      with_energy-keeps (counter_value float since file) now energy before h

  after-Silent :
      (cycles : Cycles) (energy : F) (before : T)
      → Silent cycles (sample energy before)
      → after cycles (sample energy before) ≡ sample energy before
  unfolding after Silent
  after-Silent [] energy before h = refl
  after-Silent ((file, now) ∷ rest) energy before (silent, h) =
      let same = energy_metrics-keeps file now energy before silent in
      ap (after rest) same ∙ after-Silent rest energy before (subst (Silent rest) same h)

  -- Whether a cycle at a state takes its value as the next sample: it is the first, or it reports.
  abbrev pub IsSample : Option Runes → T → EnergyCollector T F → Type (ℓ ⊔ κ)
  IsSample file now c =
      (c.prev_time ≡ none)
      ⊎ ((ms : List (Metric F)) × ((energy_metrics float since file now c).0 ≡ some ms))

  taken_if :
      (b : Bool) (ms ms' : List (Metric F)) (c d : EnergyCollector T F)
      → (either b ms c d).0 ≡ some ms'
      → (either b ms c d).1 ≡ d
  taken_if true ms ms' c d h = cc
  taken_if false ms ms' c d h = refl

  since_sample-taken :
      (before : Option T) (energy : F) (now : T) (c : EnergyCollector T F)
      → (before ≡ none)
        ⊎ ((ms : List (Metric F)) × ((since_sample float since before energy now c).0 ≡ some ms))
      → (since_sample float since before energy now c).1 ≡ sample energy now
  since_sample-taken none energy now c h = refl
  since_sample-taken (some before) energy now c (inl first) = cc
  since_sample-taken (some before) energy now c (inr (ms, h)) =
      taken_if (float.le (float.seconds (since now before)) (float.of_nat 0)) _ ms _ _ h

  energy_metrics-taken :
      (file : Option Runes) (now : T) (energy : F) (c : EnergyCollector T F)
      → counter_value float since file ≡ some energy
      → IsSample file now c
      → (energy_metrics float since file now c).1 ≡ sample energy now
  energy_metrics-taken file now energy c read h =
      let same = with_value file now (some energy) c read in
      let known : (c.prev_time ≡ none)
          ⊎ ((ms : List (Metric F)) × ((since_sample float since c.prev_time energy now c).0
                ≡ some ms)) =
        elim h [
          | inl first ↦ inl first
          | inr (ms, reports) ↦ inr (ms, sym (ap (λ r. r.0) same) ∙ reports)
        ] in
      ap (λ r. r.1) same ∙ since_sample-taken c.prev_time energy now c known

  -- The power in watts of a growth of the counter in microjoules over a time in seconds.
  abbrev pub power : F → F → F → F
  power energy energy' dt =
      float.div (float.div (float.sub energy' energy) (float.of_nat 1_000_000)) dt

  -- A cycle reports the power since the last sample, which is the last cycle that could read the counter
  -- and was the first or reported a power: the growth of the counter between the two, over the time
  -- between the two, and 0 where that is negative. Cycles between them that report nothing, for an error
  -- or for a clock that stood still, change nothing of it. The time since the sample is positive.
  pub watts_since_last :
      (c : EnergyCollector T F) (file file' : Option Runes) (t t' : T) (energy energy' : F)
      (cycles : Cycles)
      → counter_value float since file ≡ some energy
      → IsSample file t c
      → Silent cycles (energy_metrics float since file t c).1
      → counter_value float since file' ≡ some energy'
      → float.le (float.seconds (since t' t)) (float.of_nat 0) ≡ false
      → (energy_metrics float since file' t'
          (after cycles (energy_metrics float since file t c).1)).0
        ≡ some (
            power_metrics (
              if float.lt (power energy energy' (float.seconds (since t' t))) (float.of_nat 0)
              then float.of_nat 0
              else power energy energy' (float.seconds (since t' t))))
  watts_since_last c file file' t t' energy energy' cycles read first silent read' later =
      let taken = energy_metrics-taken file t energy c read first in
      let kept : after cycles (energy_metrics float since file t c).1 ≡ sample energy t =
        ap (after cycles) taken
        ∙ after-Silent cycles energy t (subst (Silent cycles) taken silent) in
      ap (λ s. (energy_metrics float since file' t' s).0) kept
      ∙ ap (λ r. r.0) (with_value file' t' (some energy') (sample energy t) read')
      ∙ rw later refl
