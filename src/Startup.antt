-- ===== src/Startup.antt =====
-- cmd/nadi-agent/main.go: from the configuration to the first state of the loop.
pub mod Durations
pub mod Ready
use nadi_agent.Prelude.{
  ℕ, Bool, true, false, Option, none, some, List, [], ◌∷◌, Bytes, codes, bytes_eq, if◌then◌else◌,
}
use nadi_agent.Int64.{ℤ, pos, mul64}
use nadi_agent.Disk.{Disk}
use nadi_agent.Network.{Network}
use nadi_agent.Payload.{Heartbeat}
use nadi_agent.Buffer
use nadi_agent.Buffer.{Buffer, NewBuffer, made, not_made}
use nadi_agent.Sender.{Sender, new as make_sender}
use nadi_agent.Config.{Config, Url, LoadError, Loaded, loaded, not_loaded, load}
use nadi_agent.Registry.{Registry, registry, unknown_collectors, new_registry}
use nadi_agent.Agent.{Agent, initial}

-- time.Duration(n) * time.Second
unfoldable pub seconds : ℤ → ℤ
seconds n = mul64 n (pos 1_000_000_000)

pub data Level : Type 0 where
  debug info warn error : Level

unfoldable pub log_level : Bytes → Level
log_level level =
    if bytes_eq level (codes "debug")
    then debug
    else if bytes_eq level (codes "warn")
    then warn
    else if bytes_eq level (codes "error")
    then error
    else info

-- What run has when it enters the loop.
pub record Started {ℓ} (C : Type ℓ) : Type ℓ where
  pub level : Level
  pub interval : ℤ
  pub jitter : ℤ
  pub collectors : List (Bytes × C)
  pub snd : Sender
  pub buf : Buffer
  pub disk : Disk

pub data StartError : Type 0 where
  config_error : LoadError → StartError
  collector_error : List Bytes → StartError
  buffer_error : Buffer.Error → StartError

pub data Start {ℓ} (C : Type ℓ) : Type ℓ where
  started : Started C → Start C
  exiting : StartError → Start C

abbrev pub new_sender : Bytes → Config → Sender
new_sender version cfg = make_sender cfg.device_id cfg.api_key cfg.server_url version

module _ {ℓ} {C : Type ℓ} (version : Bytes) where
  abbrev pub with_buffer : Config → List (Bytes × C) → NewBuffer → Disk → Start C
  with_buffer cfg collectors (not_made e) d = exiting (buffer_error e)
  with_buffer cfg collectors (made b) d = started (record {
    level = log_level cfg.log_level;
    interval = seconds cfg.interval_seconds;
    jitter = seconds cfg.jitter_seconds;
    collectors = collectors;
    snd = new_sender version cfg;
    buf = b;
    disk = d;
  })

  abbrev pub with_registry : Config → Disk → Registry C → Start C
  with_registry cfg d (unknown_collectors names) = exiting (collector_error names)
  with_registry cfg d (registry collectors) =
      let (b, d') = Buffer.new cfg.buffer_path cfg.buffer_max_size_mb d in
      with_buffer cfg collectors b d'

  abbrev pub with_config : List (Bytes × C) → Disk → Loaded → Start C
  with_config factories d (not_loaded e) = exiting (config_error e)
  with_config factories d (loaded cfg) = with_registry cfg d (new_registry factories cfg.collectors)

  -- The part of run before its loop.
  unfoldable pub start_up :
      (Bytes → Option Url) → (Bytes → Option Config) → List (Bytes × C) → Bytes → Disk → Start C
  start_up parse_url unmarshal factories config_path d =
      let (cfg, d') = load parse_url unmarshal config_path d in with_config factories d' cfg
