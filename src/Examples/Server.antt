-- ===== src/Examples/Server.antt =====
-- The sender of internal/sender/sender_test.go against the server of cmd/mockserver.
use nadi_agent.Prelude.{
  ℕ, ◌≡◌, refl, true, false, Bool, Option, some, List, [], ◌∷◌, ◌++◌, Bytes, codes, bytes_eq, map,
}
use nadi_agent.Payload.{Heartbeat}
use nadi_agent.Network.{Network, Request, status, failed, delivered_in}
use nadi_agent.Sender.{Sender, post_request}
use nadi_agent.MockServer.{Recorder, handle_heartbeat, incoming}
use nadi_agent.MockServer.Serve.{start, answered, reply_lost, Sublist, Served-recorded}

abbrev snd : Sender
snd = record {
  device_id = codes "d";
  api_key = codes "k";
  server_url = codes "http://s";
  version = codes "1";
}

abbrev heartbeat : Heartbeat ℕ
heartbeat = record {
  device_id = codes "d";
  timestamp = codes "2026-01-01T00:00:00Z";
  metrics = [];
  meta = record {
    hostname = codes "h";
    os = codes "linux";
    arch = codes "amd64";
    agent_version = codes "1";
  };
}

-- A decoder that takes every text, URLs without a query, and a client that takes every URL.
abbrev decode : Bytes → Option (Heartbeat ℕ)
decode text = some heartbeat

abbrev query : Bytes → Bytes → Bytes
query url key = []

abbrev valid_url : Bytes → Bool
valid_url url = true

abbrev net : Network
net = record { replies = []; posted = [] }

abbrev idle : Recorder ℕ
idle = record { received = [] }

abbrev request : Request
request = post_request snd (codes "{}")

abbrev handled : Recorder ℕ → Recorder ℕ
handled r = (handle_heartbeat decode (incoming query request) r).1

abbrev first_status : ℕ
first_status = (handle_heartbeat decode (incoming query request) (handled idle)).0

-- The reply to the first request is lost, and the client sends again.
Served-recorded_example :
    (new : List (Heartbeat ℕ)) × ((handled (handled idle)).received ≡ idle.received ++ new)
    × Sublist
        (map decode (delivered_in ((request, failed) ∷ (request, status first_status) ∷ [])))
        (map some new)
Served-recorded_example = Served-recorded decode query (answered (reply_lost start request) request)

unread : bytes_eq (query snd.server_url (codes "fail")) (codes "1") ≡ false
unfolding bytes_eq
unread = refl
