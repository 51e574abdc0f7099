-- ===== src/Startup/Ready.antt =====
-- What run of cmd/nadi-agent/main.go has checked when it enters the loop.
use mathlib.Core.Path.{subst}
use nadi_agent.Prelude.{◌≡◌, refl, Option, List, Bytes, All}
use nadi_agent.Disk.{Disk}
use nadi_agent.Buffer
use nadi_agent.Buffer.{NewBuffer, made, not_made}
use nadi_agent.Config.{Config, Url, Loaded, loaded, not_loaded, load}
use nadi_agent.Config.Validation.{IsUsable, IsComplete, load_lem}
use nadi_agent.Registry.{Registry, registry, unknown_collectors, new_registry}
use nadi_agent.Registry.Enabled.{IsKnown, registry-IsKnown}
use nadi_agent.Startup.{
  Started, started, seconds, log_level, new_sender, with_buffer, with_registry, with_config,
  start_up,
}

-- What a start has made of the settings `cfg`, which were read when the disk was `d`.
pub record IsReady {ℓ} {C : Type ℓ} (version : Bytes) (factories : List (Bytes × C)) (cfg : Config)
    (d : Disk) (s : Started C) : Type ℓ where
  pub interval : s.interval ≡ seconds cfg.interval_seconds
  pub jitter : s.jitter ≡ seconds cfg.jitter_seconds
  pub snd : s.snd ≡ new_sender version cfg
  pub collectors : new_registry factories cfg.collectors ≡ registry s.collectors
  pub known : All (IsKnown factories) cfg.collectors
  pub buf : Buffer.new cfg.buffer_path cfg.buffer_max_size_mb d ≡ (made s.buf, s.disk)

module _ {ℓ} {C : Type ℓ} (version : Bytes) (factories : List (Bytes × C)) where
  with_buffer-IsReady :
      (cfg : Config) (cs : List (Bytes × C)) (d d' : Disk) (b : NewBuffer) (s : Started C)
      → new_registry factories cfg.collectors ≡ registry cs
      → Buffer.new cfg.buffer_path cfg.buffer_max_size_mb d ≡ (b, d')
      → with_buffer version cfg cs b d' ≡ started s
      → IsReady version factories cfg d s
  with_buffer-IsReady cfg cs d d' (not_made e) s r n h = cc
  with_buffer-IsReady cfg cs d d' (made b) s r n h =
      let same : record {
        level = log_level cfg.log_level;
        interval = seconds cfg.interval_seconds;
        jitter = seconds cfg.jitter_seconds;
        collectors = cs;
        snd = new_sender version cfg;
        buf = b;
        disk = d';
      }
          ≡ s =
        cc in
      subst (IsReady version factories cfg d) same (record {
        interval = refl;
        jitter = refl;
        snd = refl;
        collectors = r;
        known = registry-IsKnown factories cfg.collectors cs r;
        buf = n;
      })

  pub with_registry-IsReady :
      (cfg : Config) (d : Disk) (r : Registry C) (s : Started C)
      → new_registry factories cfg.collectors ≡ r
      → with_registry version cfg d r ≡ started s
      → IsReady version factories cfg d s
  with_registry-IsReady cfg d (unknown_collectors names) s e h = cc
  with_registry-IsReady cfg d (registry cs) s e h =
      let (b, d') = Buffer.new cfg.buffer_path cfg.buffer_max_size_mb d in
      with_buffer-IsReady cfg cs d d' b s e refl h

  with_config-IsReady :
      (o : Loaded) (d : Disk) (s : Started C)
      → with_config version factories d o ≡ started s
      → (cfg : Config) × (o ≡ loaded cfg) × IsReady version factories cfg d s
  with_config-IsReady (not_loaded e) d s h = cc
  with_config-IsReady (loaded cfg) d s h =
      (cfg, refl, with_registry-IsReady cfg d (new_registry factories cfg.collectors) s refl h)

  pub start_up-IsReady :
      (parse_url : Bytes → Option Url) (unmarshal : Bytes → Option Config) (path : Bytes) (d : Disk)
      → (s : Started C) → start_up version parse_url unmarshal factories path d ≡ started s
      → (cfg : Config) × IsUsable parse_url cfg
        × IsComplete cfg
        × IsReady version factories cfg (load parse_url unmarshal path d).1 s
  unfolding start_up
  start_up-IsReady parse_url unmarshal path d s h =
      let (cfg, read, ready) =
        with_config-IsReady (load parse_url unmarshal path d).0 (load parse_url unmarshal path d).1
          s h in
      let (usable, complete) = load_lem parse_url unmarshal path d cfg read in
      (cfg, usable, complete, ready)
