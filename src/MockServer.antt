-- ===== src/MockServer.antt =====
-- cmd/mockserver/main.go: the server that records heartbeats.
pub mod Serve
use nadi_agent.Prelude.{
  ℕ, Bool, true, false, ◌&&◌, not, Option, none, some, List, [], ◌∷◌, ◌++◌, Bytes, codes, bytes_eq,
  ◌==◌, if◌then◌else◌,
}
use nadi_agent.Payload.{Heartbeat}
use nadi_agent.Network.{Request}
use nadi_agent.Strings.{has_prefix}

-- What the handler reads of a request: its method, two values of its query and a header, each empty
-- where it is missing, and its body.
pub record Incoming : Type 0 where
  pub method : Bytes
  pub fail : Bytes
  pub delay : Bytes
  pub authorization : Bytes
  pub body : Bytes

-- The fields `fail` and `delay` of the source are never used.
pub record Recorder {ℓ} (F : Type ℓ) : Type ℓ where
  pub received : List (Heartbeat F)

-- `decode` is a json.Decoder on the body, with `none` for its error.
module _ {ℓ} {F : Type ℓ} (decode : Bytes → Option (Heartbeat F)) where
  abbrev pub record_heartbeat : Option (Heartbeat F) → Recorder F → ℕ × Recorder F
  record_heartbeat none r = (400, r)
  record_heartbeat (some hb) r = (200, record { received = r.received ++ hb ∷ [] })

  -- The status of the response, and the recorder. A delay only waits.
  unfoldable pub handle_heartbeat : Incoming → Recorder F → ℕ × Recorder F
  handle_heartbeat q r =
      if bytes_eq q.fail (codes "1")
      then (500, r)
      else if not (bytes_eq q.method (codes "POST"))
      then (405, r)
      else if not (has_prefix q.authorization (codes "Bearer "))
      then (401, r)
      else record_heartbeat (decode q.body) r

  -- The body of the debug endpoint, with `encode` for json.Encoder.
  pub handle_received : (List (Heartbeat F) → Option Bytes) → Recorder F → Option Bytes
  handle_received encode r = encode r.received

-- The request that the sender's client makes, as it arrives. `query` reads a key of a URL's query.
abbrev pub incoming : (Bytes → Bytes → Bytes) → Request → Incoming
incoming query q = record {
  method = codes "POST";
  fail = query q.url (codes "fail");
  delay = query q.url (codes "delay");
  authorization = q.authorization;
  body = q.body;
}
