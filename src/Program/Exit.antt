-- ===== src/Program/Exit.antt =====
-- The status of the program in cmd/nadi-agent/main.go.
use nadi_agent.Prelude.{arith, ◌≡◌, refl, Option, some, All}
use nadi_agent.Disk.{Disk}
use nadi_agent.Network.{Network}
use nadi_agent.Config.{Config}
use nadi_agent.Config.Validation.{IsUsable}
use nadi_agent.Registry.Enabled.{IsKnown}
use nadi_agent.Startup.{StartError, exiting}
use nadi_agent.Startup.Ready.{start_up-IsReady}
use nadi_agent.Program.{Setting, Returned, not_started, stopped, start_on, exit_code}

module _ {ℓ κ} {F : Type ℓ} {C : Type κ} (p : Setting F C) where
  -- The program exits with 0 only if its settings could be used and every collector that they switch on
  -- is registered; and with 1 only if its start failed, as its loop returns no error.
  Returned-exit_code :
      {d : Disk} {n : Network} {err : Option StartError}
      → Returned p d n err
      → (exit_code err ≡ 0
          → (cfg : Config) × IsUsable p.parse_url cfg × All (IsKnown p.factories) cfg.collectors)
        × (exit_code err ≡ 1 → (e : StartError) × (err ≡ some e) × (start_on p d ≡ exiting e))
  unfolding exit_code
  Returned-exit_code (not_started e failed) =
      ((λ zero. absurd (omega arith)), (λ one. (e, refl, failed)))
  Returned-exit_code {d} (stopped s roll begun run over) = (
    (λ zero.
        let (cfg, usable, complete, ready) =
          start_up-IsReady p.version p.factories p.parse_url p.unmarshal p.config_path d s begun in
        (cfg, usable, ready.known)),
    (λ one. absurd (omega arith)),
  )
