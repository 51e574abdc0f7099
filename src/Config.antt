-- ===== src/Config.antt =====
-- internal/config/config.go: the settings, their defaults and their validation.
pub mod Validation
use nadi_agent.Prelude.{
  ℕ, Bool, true, false, ◌&&◌, ◌||◌, not, Option, none, some, List, [], ◌∷◌, ◌++◌, Bytes, String,
  codes, bytes_eq, if◌then◌else◌,
}
use nadi_agent.Int64.{ℤ, pos, negsuc, ltb_ℤ}
use nadi_agent.Disk.{Disk, Opened, not_exist, failed, opened, open_read, read}

-- `int` fields are int64.
pub record Config : Type 0 where
  pub device_id : Bytes
  pub server_url : Bytes
  pub api_key : Bytes
  pub interval_seconds : ℤ
  pub jitter_seconds : ℤ
  pub buffer_path : Bytes
  pub buffer_max_size_mb : ℤ
  pub log_level : Bytes
  pub collectors : List (Bytes × Bool)

-- The parts of a URL that Validate looks at.
pub record Url : Type 0 where
  pub scheme : Bytes
  pub host : Bytes

pub data Invalid : Type 0 where
  missing_fields : List Bytes → Invalid
  bad_server_url : Bytes → Invalid
  bad_interval bad_jitter bad_buffer_size : Invalid

-- s == ""
abbrev pub is_empty : Bytes → Bool
is_empty [] = true
is_empty (c ∷ s) = false

abbrev int_eq_zero : ℤ → Bool
int_eq_zero z = not (ltb_ℤ z (pos 0)) && not (ltb_ℤ (pos 0) z)

unfoldable pub apply_defaults : Config → Config
apply_defaults c = record c {
  buffer_path = if is_empty c.buffer_path then codes "agent-buffer.db" else c.buffer_path;
  buffer_max_size_mb = if int_eq_zero c.buffer_max_size_mb then pos 50 else c.buffer_max_size_mb;
  log_level = if is_empty c.log_level then codes "info" else c.log_level;
}

abbrev missing_if : Bytes → String → List Bytes
missing_if field name = if is_empty field then codes name ∷ [] else []

-- The names appended to `missing`, in the order of the tests.
unfoldable pub missing : Config → List Bytes
missing c =
    missing_if c.device_id "device_id"
    ++ (missing_if c.server_url "server_url" ++ missing_if c.api_key "api_key")

abbrev pub http_url : Option Url → Bool
http_url none = false
http_url (some u) =
    (bytes_eq u.scheme (codes "http") || bytes_eq u.scheme (codes "https")) && not (is_empty u.host)

-- `parse_url` is url.Parse, with `none` for its error.
module _ (parse_url : Bytes → Option Url) where
  unfoldable pub check_values : Config → Option Invalid
  check_values c =
      if not (http_url (parse_url c.server_url))
      then some (bad_server_url c.server_url)
      else if not (ltb_ℤ (pos 0) c.interval_seconds)
      then some bad_interval
      else if ltb_ℤ c.jitter_seconds (pos 0)
      then some bad_jitter
      else if ltb_ℤ c.buffer_max_size_mb (pos 0)
      then some bad_buffer_size
      else none

  unfoldable pub validate : Config → Option Invalid
  unfolding check_values missing
  validate c = elim (missing c) [ [] ↦ check_values c | f ∷ fs ↦ some (missing_fields (f ∷ fs)) ]

pub data LoadError : Type 0 where
  reading parsing : LoadError
  invalid : Invalid → LoadError

pub data Loaded : Type 0 where
  loaded : Config → Loaded
  not_loaded : LoadError → Loaded

-- `unmarshal` is yaml.Unmarshal into a zero Config.
module _ (parse_url : Bytes → Option Url) (unmarshal : Bytes → Option Config) where
  abbrev pub checked : Config → Loaded
  checked c = elim (validate parse_url c) [ none ↦ loaded c | some e ↦ not_loaded (invalid e) ]

  abbrev pub parsed : Option Config → Loaded
  parsed none = not_loaded parsing
  parsed (some c) = checked (apply_defaults c)

  abbrev pub from_file : Opened → Disk → Loaded × Disk
  from_file not_exist d = (not_loaded reading, d)
  from_file failed d = (not_loaded reading, d)
  from_file (opened text) d =
      let ((bytes, whole), d') = read text d in
      (if whole then parsed (unmarshal bytes) else not_loaded reading, d')

  -- os.ReadFile opens the file and reads it to its end; any error is the same to Load.
  unfoldable pub load : Bytes → Disk → Loaded × Disk
  load path d = let (file, d1) = open_read path d in from_file file d1
