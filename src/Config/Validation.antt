-- ===== src/Config/Validation.antt =====
-- Validate and Load of internal/config/config.go: what settings have that pass.
use nadi_agent.Prelude.{
  ◌≡◌, ◌≢◌, ◌↔◌, ◌⊎◌, refl, true, Option, none, some, [], Bytes, codes, arith, bytes_eq_iff,
  Option-cases, Bool-cases, inl, inr,
}
use nadi_agent.Int64.{pos, ◌≤ℤ◌, ◌<ℤ◌}
use nadi_agent.Disk.{Disk, Opened, not_exist, failed, opened, open_read, read}
use nadi_agent.Config.{
  Config, Url, apply_defaults, validate, load, loaded, checked, parsed, from_file, missing,
  check_values, http_url,
}

-- What the agent needs of its settings.
pub record IsUsable (parse_url : Bytes → Option Url) (c : Config) : Type 0 where
  pub device_id : c.device_id ≢ []
  pub server_url : c.server_url ≢ []
  pub api_key : c.api_key ≢ []
  pub url :
      (u : Url) × (parse_url c.server_url ≡ some u)
      × ((u.scheme ≡ codes "http") ⊎ (u.scheme ≡ codes "https"))
      × (u.host ≢ [])
  pub interval : pos 0 <ℤ c.interval_seconds
  pub jitter : pos 0 ≤ℤ c.jitter_seconds
  pub buffer_size : pos 0 ≤ℤ c.buffer_max_size_mb

-- A URL that the test takes.
abbrev IsHttp : Option Url → Type 0
IsHttp o =
    (u : Url) × (o ≡ some u)
    × ((u.scheme ≡ codes "http") ⊎ (u.scheme ≡ codes "https"))
    × (u.host ≢ [])

http_url-IsHttp : (o : Option Url) → http_url o ≡ true → IsHttp o
http_url-IsHttp none h = cc
http_url-IsHttp (some u) h = (
  u,
  refl,
  ground (arith, bytes_eq_iff u.scheme (codes "http"), bytes_eq_iff u.scheme (codes "https")),
  ground arith,
)

IsHttp→http_url : (o : Option Url) → IsHttp o → http_url o ≡ true
IsHttp→http_url o (u, p, s, h) =
    rw p
      (ground (arith, bytes_eq_iff u.scheme (codes "http"), bytes_eq_iff u.scheme (codes "https")))

missing_nothing :
    (c : Config) → missing c ≡ [] → (c.device_id ≢ []) × (c.server_url ≢ []) × (c.api_key ≢ [])
unfolding missing
missing_nothing c h = (ground arith, ground arith, ground arith)

nothing_missing :
    (c : Config) → c.device_id ≢ [] → c.server_url ≢ [] → c.api_key ≢ [] → missing c ≡ []
unfolding missing
nothing_missing c h k l = ground arith

module _ (parse_url : Bytes → Option Url) where
  validate_parts :
      (c : Config)
      → validate parse_url c ≡ none
      → (missing c ≡ []) × (check_values parse_url c ≡ none)
  unfolding validate
  validate_parts c h = ground arith

  check_values_parts :
      (c : Config)
      → check_values parse_url c ≡ none
      → (http_url (parse_url c.server_url) ≡ true)
        × (pos 0 <ℤ c.interval_seconds)
        × (pos 0 ≤ℤ c.jitter_seconds)
        × (pos 0 ≤ℤ c.buffer_max_size_mb)
  unfolding check_values
  check_values_parts c h = ground arith

  pub validate→IsUsable : (c : Config) → validate parse_url c ≡ none → IsUsable parse_url c
  validate→IsUsable c h =
      let (full, right) = validate_parts c h in
      let (device, server, key) = missing_nothing c full in
      let (http, interval, jitter, size) = check_values_parts c right in
      record {
        device_id = device;
        server_url = server;
        api_key = key;
        url = http_url-IsHttp (parse_url c.server_url) http;
        interval = interval;
        jitter = jitter;
        buffer_size = size;
      }

  IsUsable→validate : (c : Config) → IsUsable parse_url c → validate parse_url c ≡ none
  unfolding validate
  IsUsable→validate c v =
      rw (nothing_missing c v.device_id v.server_url v.api_key, validate)
        (unfold check_values in
          ground (
            arith,
            IsHttp→http_url (parse_url c.server_url) v.url,
            v.interval,
            v.jitter,
            v.buffer_size,
          ))

  -- Validate returns no error exactly for the settings that the agent can use: the three required
  -- fields are there, the URL is an http or https URL with a host, the interval is positive, and the
  -- jitter and the buffer's size are not negative.
  pub validate_iff : (c : Config) → (validate parse_url c ≡ none) ↔ IsUsable parse_url c
  validate_iff c = (validate→IsUsable c, IsUsable→validate c)

-- Defaults fill only what is not set, and a second time they change nothing.
pub apply_defaults_idem : (c : Config) → apply_defaults (apply_defaults c) ≡ apply_defaults c
unfolding apply_defaults
apply_defaults_idem c = ground arith

-- What Load adds to the checks: the defaults.
pub record IsComplete (c : Config) : Type 0 where
  pub buffer_path : c.buffer_path ≢ []
  pub buffer_size : c.buffer_max_size_mb ≢ pos 0
  pub log_level : c.log_level ≢ []

apply_defaults-IsComplete : (c : Config) → IsComplete (apply_defaults c)
unfolding apply_defaults
apply_defaults-IsComplete c = record {
  buffer_path = ground arith;
  buffer_size = ground arith;
  log_level = ground arith;
}

module _ (parse_url : Bytes → Option Url) (unmarshal : Bytes → Option Config) where
  checked-loaded :
      (c c' : Config)
      → checked parse_url unmarshal c ≡ loaded c'
      → (c ≡ c') × (validate parse_url c ≡ none)
  checked-loaded c c' h = elim (Option-cases (validate parse_url c)) [
    | inl right ↦ (ground (arith, right), right)
    | inr (e, wrong) ↦ absurd (ground (arith, wrong))
  ]

  parsed-loaded :
      (o : Option Config) (c : Config)
      → parsed parse_url unmarshal o ≡ loaded c
      → IsUsable parse_url c × IsComplete c
  parsed-loaded none c h = cc
  parsed-loaded (some c0) c h =
      let (same, right) = checked-loaded (apply_defaults c0) c h in
      rw (← same)
        (validate→IsUsable parse_url (apply_defaults c0) right, apply_defaults-IsComplete c0)

  from_file-loaded :
      (file : Opened) (d : Disk) (c : Config)
      → (from_file parse_url unmarshal file d).0 ≡ loaded c
      → IsUsable parse_url c × IsComplete c
  from_file-loaded not_exist d c h = cc
  from_file-loaded failed d c h = cc
  from_file-loaded (opened text) d c h = elim (Bool-cases (read text d).0.1) [
    | inl whole ↦ parsed-loaded (unmarshal (read text d).0.0) c (rw whole at h)
    | inr torn ↦ absurd (ground (arith, torn))
  ]

  -- The settings that Load returns can be used, and with a path, a positive size and a level.
  pub load_lem :
      (path : Bytes) (d : Disk) (c : Config)
      → (load parse_url unmarshal path d).0 ≡ loaded c
      → IsUsable parse_url c × IsComplete c
  unfolding load
  load_lem path d c h = from_file-loaded (open_read path d).0 (open_read path d).1 c h
