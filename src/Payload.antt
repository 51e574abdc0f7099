-- ===== src/Payload.antt =====
-- internal/payload/payload.go: the wire format, and the names that it allows.
pub mod Names
use nadi_agent.Prelude.{ℕ, Bool, ◌&&◌, ◌||◌, Bytes, List, length, leb, ◌==◌}
use nadi_agent.Regexp.{Regexp, class, seq, plus, match_string}

-- `F` is float64, which the payload only carries.
pub record Metric {ℓ} (F : Type ℓ) : Type ℓ where
  pub name : Bytes
  pub value : F
  pub unit : Bytes

pub record Meta : Type 0 where
  pub hostname : Bytes
  pub os : Bytes
  pub arch : Bytes
  pub agent_version : Bytes

pub record Heartbeat {ℓ} (F : Type ℓ) : Type ℓ where
  pub device_id : Bytes
  pub timestamp : Bytes
  pub metrics : List (Metric F)
  pub meta : Meta

abbrev pub max_metrics : ℕ
max_metrics = 100

abbrev pub max_name_len : ℕ
max_name_len = 64

-- [a-z0-9_]
unfoldable pub name_char : ℕ → Bool
name_char c = leb b'a' c && leb c b'z' || leb b'0' c && leb c b'9' || c == b'_'

abbrev pub is_dot : ℕ → Bool
is_dot c = c == b'.'

abbrev pub segment : Regexp
segment = plus (class name_char)

-- ^[a-z0-9_]+(\.[a-z0-9_]+)+$
unfoldable pub metric_name_re : Regexp
metric_name_re = seq segment (plus (seq (class is_dot) segment))

unfoldable pub valid_metric_name : Bytes → Bool
unfolding metric_name_re match_string name_char
valid_metric_name name = leb (length name) max_name_len && match_string metric_name_re name
