-- ===== src/Program.antt =====
-- cmd/nadi-agent/main.go: main, and run from its first line to its last.
pub mod History
pub mod Waiting
pub mod Lives
pub mod Exit
use nadi_agent.Prelude.{ℕ, ◌≡◌, Bool, true, false, Option, none, some, List, Bytes}
use nadi_agent.Disk.{Disk}
use nadi_agent.Network.{Network}
use nadi_agent.Payload.{Heartbeat}
use nadi_agent.Config.{Config, Url}
use nadi_agent.Agent.{Agent, Run, initial}
use nadi_agent.Startup.{Start, Started, StartError, started, exiting, start_up}

-- The status that main exits with, for the error of run.
unfoldable pub exit_code : Option StartError → ℕ
exit_code none = 0
exit_code (some err) = 1

-- What run is given: the parameters of Load, the registered factories, its version and its flag, what
-- stands behind the sender.
pub record Setting {ℓ κ} (F : Type ℓ) (C : Type κ) : Type (ℓ ⊔ κ) where
  pub parse_url : Bytes → Option Url
  pub unmarshal : Bytes → Option Config
  pub factories : List (Bytes × C)
  pub version : Bytes
  pub config_path : Bytes
  pub marshal : Heartbeat F → Option Bytes
  pub valid_url : Bytes → Bool

module _ {ℓ κ} {F : Type ℓ} {C : Type κ} (p : Setting F C) where
  abbrev pub start_on : Disk → Start C
  start_on d = start_up p.version p.parse_url p.unmarshal p.factories p.config_path d

  -- The state in which run calls agent.Run, with a roll for its first interval.
  abbrev pub entered : Started C → ℕ → Network → Agent
  entered s roll n = initial p.marshal p.valid_url s.interval s.jitter s.snd roll s.buf s.disk n

  abbrev pub Loops : Started C → Agent → List Bytes → Agent → Type ℓ
  Loops s = Run p.marshal p.valid_url s.interval s.jitter s.snd

  -- What run returns: the error of its start, or nothing when its loop has stopped.
  pub data Returned (d : Disk) (n : Network) : Option StartError → Type (ℓ ⊔ κ) where
    not_started : (err : StartError) → start_on d ≡ exiting err → Returned d n (some err)
    stopped :
        (s : Started C) (roll : ℕ) {texts : List Bytes} {a : Agent}
        → start_on d ≡ started s
        → Loops s (entered s roll n) texts a
        → a.running ≡ false
        → Returned d n none
