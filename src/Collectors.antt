-- ===== src/Collectors.antt =====
-- What the collectors of internal/collector share: floats, the results of calls that read the machine,
-- the runner of commands in exec.go, and the turn of any inability into ErrNoData that battery.go,
-- disk_smart.go, energy.go, gpu.go and temperature.go make in the same words.
use nadi_agent.Prelude.{ℕ, Bool, true, false, Option, none, some, List, Bytes, Runes}
use nadi_agent.Int64.{ℤ}
use nadi_agent.Collector.{Metric}
use nadi_agent.Registry.{Failure, CollectResult, collected, failed, no_data}

-- float64: its constants, conversions and operations. `parse` is strconv.ParseFloat, with `none` for
-- its error; `lt` and `le` are the comparisons, which are false of a NaN; `seconds` is Seconds() of a
-- duration.
pub record Float {ℓ} (F : Type ℓ) : Type ℓ where
  pub of_nat : ℕ → F
  pub parse : Runes → Option F
  pub add : F → F → F
  pub sub : F → F → F
  pub mul : F → F → F
  pub div : F → F → F
  pub lt : F → F → Bool
  pub le : F → F → Bool
  pub seconds : ℤ → F

-- The result of a call that reads the machine.
pub data Sample {ℓ} (A : Type ℓ) : Type ℓ where
  read : A → Sample A
  unread : Failure → Sample A

-- What the collectors find of commands: whether one is on the path, and its output, with `none` for an
-- error.
pub record Tools : Type 0 where
  pub exists : Bytes → Bool
  pub run : Bytes → List Bytes → Option Runes

-- The package os/exec: LookPath, and the output of a command that is run with a deadline, each with
-- `none` for an error.
pub record Exec : Type 0 where
  pub look_path : Bytes → Option Bytes
  pub output : Bytes → List Bytes → Option Runes

abbrev is_found : Option Bytes → Bool
is_found none = false
is_found (some path) = true

abbrev command_exists : Exec → Bytes → Bool
command_exists exec name = is_found (exec.look_path name)

abbrev run_command : Exec → Bytes → List Bytes → Option Runes
run_command exec name args = exec.output name args

-- exec.go as the collectors use it.
abbrev pub tools_of : Exec → Tools
tools_of exec = record { exists = command_exists exec; run = run_command exec }

-- os.ReadFile, with `none` for an error.
abbrev pub ReadFile : Type 0
ReadFile = Bytes → Option Runes

-- The metrics of a platform, or ErrNoData for any of its errors.
abbrev pub best_effort {ℓ} : {F : Type ℓ} → Option (List (Metric F)) → CollectResult F
best_effort none = failed no_data
best_effort (some metrics) = collected metrics

infixl 5 ◌>>=◌
abbrev pub ◌>>=◌ {ℓ κ} : {A : Type ℓ} {B : Type κ} → Option A → (A → Option B) → Option B
none >>= f = none
some a >>= f = f a
