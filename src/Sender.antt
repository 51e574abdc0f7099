-- ===== src/Sender.antt =====
-- internal/sender/sender.go: heartbeats from metrics, and their POST to the server.
pub mod Build
pub mod Delivery
use nadi_agent.Prelude.{
  ℕ, Bool, true, false, ◌||◌, not, Option, none, some, List, [], ◌∷◌, ◌++◌, Bytes, codes, length,
  ltb, leb, if◌then◌else◌,
}
use nadi_agent.Collector
use nadi_agent.Payload
use nadi_agent.Payload.{Heartbeat, max_metrics, valid_metric_name}
use nadi_agent.Network.{Network, Request, Reply, failed, status, do_request}

-- The fields that decide what is sent; the logger and the client are not modelled.
pub record Sender : Type 0 where
  pub device_id : Bytes
  pub api_key : Bytes
  pub server_url : Bytes
  pub version : Bytes

-- New. The client decides only how a request is made.
abbrev pub new : Bytes → Bytes → Bytes → Bytes → Sender
new device_id api_key server_url version = record {
  device_id = device_id;
  api_key = api_key;
  server_url = server_url;
  version = version;
}

pub data SendError : Type 0 where
  building_request posting : SendError
  server_returned : ℕ → SendError

pub data BuildError : Type 0 where
  getting_hostname marshaling : BuildError

pub data Built : Type 0 where
  built : Bytes → Built
  not_built : BuildError → Built

-- What the operating system and the runtime tell a call of Build: os.Hostname (`none` is its error),
-- time.Now in RFC 3339, runtime.GOOS and runtime.GOARCH.
pub record Host : Type 0 where
  pub hostname : Option Bytes
  pub now : Bytes
  pub goos : Bytes
  pub goarch : Bytes

module _ {ℓ} {F : Type ℓ} where
  abbrev pub to_payload : Collector.Metric F → Payload.Metric F
  to_payload m = record { name = m.name; value = m.value; unit = m.unit }

  -- The loop of buildHeartbeat over `pmetrics`.
  unfoldable pub gather :
      List (Collector.Metric F) → List (Payload.Metric F) → List (Payload.Metric F)
  gather [] pmetrics = pmetrics
  gather (m ∷ ms) pmetrics =
      let skip = gather ms pmetrics in
      let pmetrics' = pmetrics ++ to_payload m ∷ [] in
      let go_on = gather ms pmetrics' in
      if not (valid_metric_name m.name)
      then skip
      else if leb max_metrics (length pmetrics')
      then pmetrics'
      else go_on

  unfoldable pub build_heartbeat : Sender → Host → List (Collector.Metric F) → Option (Heartbeat F)
  build_heartbeat s h metrics = elim h.hostname [
    | none ↦ none
    | some name ↦ some (record {
      device_id = s.device_id;
      timestamp = h.now;
      metrics = gather metrics [];
      meta = record { hostname = name; os = h.goos; arch = h.goarch; agent_version = s.version };
    })
  ]

  -- `marshal` is json.Marshal, which fails on a number that JSON has not.
  module _ (marshal : Heartbeat F → Option Bytes) where
    unfoldable pub build : Sender → Host → List (Collector.Metric F) → Built
    unfolding build_heartbeat gather
    build s h metrics = elim (build_heartbeat s h metrics) [
      | none ↦ not_built getting_hostname
      | some heartbeat ↦ elim (marshal heartbeat) [
        | none ↦ not_built marshaling
        | some text ↦ built text
      ]
    ]

abbrev pub check_reply : Reply → Option SendError
check_reply failed = some posting
check_reply (status code) =
    if ltb code 200 || leb 300 code then some (server_returned code) else none

abbrev pub post_request : Sender → Bytes → Request
post_request s text = record {
  url = s.server_url;
  content_type = codes "application/json";
  authorization = codes "Bearer " ++ s.api_key;
  body = text;
}

-- `valid_url` is the test of http.NewRequestWithContext: whether url.Parse takes the URL.
module _ (valid_url : Bytes → Bool) where
  unfoldable pub send_raw : Sender → Bytes → Network → Option SendError × Network
  unfolding do_request
  send_raw s text n =
      let (reply, n') = do_request (post_request s text) n in
      if valid_url s.server_url then (check_reply reply, n') else (some building_request, n)

abbrev send_built :
    (Bytes → Network → Option SendError × Network)
    → Built
    → Network
    → (Option BuildError × Option SendError) × Network
send_built send (built text) n = let (err, n') = send text n in ((none, err), n')
send_built send (not_built err) n = ((some err, none), n)

-- Send, which the agent does not call. One of the two errors at most is there.
unfoldable pub send {ℓ} :
    {F : Type ℓ}
    → (Heartbeat F → Option Bytes)
    → (Bytes → Bool)
    → Sender
    → Host
    → List (Collector.Metric F)
    → Network
    → (Option BuildError × Option SendError) × Network
send marshal valid_url s h metrics n =
    send_built (send_raw valid_url s) (build marshal s h metrics) n
