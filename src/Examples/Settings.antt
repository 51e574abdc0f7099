-- ===== src/Examples/Settings.antt =====
-- internal/config/config_test.go: settings that are accepted.
use nadi_agent.Prelude.{
  ℕ, List, ◌≡◌, ◌↔◌, refl, true, Option, none, some, [], ◌∷◌, Bytes, codes, arith, bytes_eq,
  if◌then◌else◌,
}
use nadi_agent.Int64.{pos, mul64, ◌<ℤ◌}
use nadi_agent.Disk.{Files, open_read, read}
use nadi_agent.Buffer.Reload.{healthy}
use nadi_agent.Config.{Config, Url, apply_defaults, validate, load, loaded}
use nadi_agent.Config.Validation.{IsUsable, validate_iff, validate→IsUsable}
use nadi_agent.Buffer
use nadi_agent.Registry.{new_registry}
use nadi_agent.Startup.{Started, started, info, log_level, new_sender, seconds, start_up}
use nadi_agent.Startup.Durations.{interval_overflow}

-- Parsers that know one text each.
abbrev pub parse_url : Bytes → Option Url
parse_url s =
    if bytes_eq s (codes "http://h")
    then some (record { scheme = codes "http"; host = codes "h" })
    else none

abbrev written : Config
written = record {
  device_id = codes "d";
  server_url = codes "http://h";
  api_key = codes "k";
  interval_seconds = pos 15;
  jitter_seconds = pos 3;
  buffer_path = [];
  buffer_max_size_mb = pos 0;
  log_level = [];
  collectors = (codes "cpu", true) ∷ [];
}

abbrev pub cfg : Config
cfg = record written {
  buffer_path = codes "agent-buffer.db";
  buffer_max_size_mb = pos 50;
  log_level = codes "info";
}

abbrev pub unmarshal : Bytes → Option Config
unmarshal text = if bytes_eq text (codes "y") then some written else none

abbrev pub path : Bytes
path = codes "c"

abbrev pub files : Files
files p = if bytes_eq p path then some (codes "y") else none

validate_iff_example : (validate parse_url cfg ≡ none) ↔ IsUsable parse_url cfg
validate_iff_example = validate_iff parse_url cfg

loads : (load parse_url unmarshal path (healthy files)).0 ≡ loaded cfg
unfolding load open_read bytes_eq read validate apply_defaults
loads = refl

abbrev slow : Config
slow = record cfg { interval_seconds = pos 10_000_000_000 }

slow_passes : validate parse_url slow ≡ none
unfolding validate bytes_eq
slow_passes = refl

interval_overflow_example :
    (validate parse_url slow ≡ none) × (seconds (pos 10_000_000_000) <ℤ pos 0)
interval_overflow_example =
    interval_overflow parse_url slow 10_000_000_000 (validate→IsUsable parse_url slow slow_passes)
      refl (omega arith) (omega arith)

abbrev pub factories : List (Bytes × ℕ)
factories = (codes "cpu", 1) ∷ (codes "gpu", 2) ∷ []

abbrev pub ready : Started ℕ
ready = record {
  level = info;
  interval = pos 15_000_000_000;
  jitter = pos 3_000_000_000;
  collectors = (codes "cpu", 1) ∷ [];
  snd = new_sender (codes "1") cfg;
  buf = record {
    path = codes "agent-buffer.db";
    max_bytes = pos 52_428_800;
    entries = [];
    size = pos 0;
  };
  disk = healthy files;
}

pub starts : start_up (codes "1") parse_url unmarshal factories path (healthy files) ≡ started ready
unfolding start_up load open_read read bytes_eq validate apply_defaults new_registry Buffer.new
    Buffer.load seconds mul64 log_level
starts = refl
