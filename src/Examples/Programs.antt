-- ===== src/Examples/Programs.antt =====
-- The program of cmd/nadi-agent/main.go from its start, against the server of cmd/mockserver/main.go.
use nadi_agent.Network.{Request, status}
use nadi_agent.MockServer.{handle_heartbeat, incoming}
use nadi_agent.MockServer.Serve.{answered}
use nadi_agent.Strings.{has_prefix}
use nadi_agent.Prelude.{some}
use nadi_agent.Examples.System.{heartbeat}
use nadi_agent.Int64.{pos, add64}
use nadi_agent.Disk.{open_append, write, close, put_file, raw_lines, scan}
use nadi_agent.Buffer.{append, append_file, trim, drop_oldest_to_fit, drop_loop, add_entry}
use nadi_agent.Registry.{new_registry}
use nadi_agent.Startup.{Started, started, start_up, seconds, log_level}
use nadi_agent.Program.{start_on}
use nadi_agent.Program.History.{disk_of, Lives, installed, lived, between, in_flush}
use mathlib.Core.List.{Mem}
use mathlib.Core.Logic.{◌∨₁◌}
use nadi_agent.Payload.{Heartbeat}
use nadi_agent.Network.{do_request}
use nadi_agent.Sender.{send_raw, post_request}
use nadi_agent.Agent.{tick_send, after_send, flush_buffer, flush_loop}
use nadi_agent.MockServer.{Recorder}
use nadi_agent.MockServer.Serve
use nadi_agent.MockServer.Serve.{Served, request_lost}
use nadi_agent.System.Deployed.{Deployed, Deployed-complete}
use nadi_agent.System.Lossless.{IsRecorded}
use mathlib.Core.List.{Perm}
use nadi_agent.Prelude.{
  Bytes, List, Option, ℕ, ◌≡◌, refl, [], ◌∷◌, ◌++◌, codes, arith, bytes_eq, All,
}
use nadi_agent.Int64.{mul64}
use nadi_agent.Disk.{open_read, read, contents}
use nadi_agent.Buffer
use nadi_agent.Buffer.{Buffer, max_line}
use nadi_agent.Buffer.Reload.{IsLine, healthy}
use nadi_agent.Network.{Network, delivered, delivered_in}
use nadi_agent.Sender.{build}
use nadi_agent.Config.{load, loaded, apply_defaults, validate}
use nadi_agent.Agent.{Agent, start, ticked, on_tick, initial, build_of, text_of}
use nadi_agent.Program.{Setting, entered, Loops}
use nadi_agent.Program.Lives.{Lives-complete}
use nadi_agent.Examples.Loop.{cycle, marshal, valid_url}
use nadi_agent.Examples.Settings.{cfg, parse_url, unmarshal, path, files, factories, ready, starts}

abbrev p : Setting ℕ ℕ
p = record {
  parse_url = parse_url;
  unmarshal = unmarshal;
  factories = factories;
  version = codes "1";
  config_path = path;
  marshal = marshal;
  valid_url = valid_url;
}

-- A server that takes nothing.
abbrev down : Network
down = record { replies = []; posted = [] }

abbrev behind : Agent
behind =
    on_tick marshal valid_url ready.interval ready.jitter ready.snd cycle (entered p ready 0 down)

tick :
    Loops p ready
      (entered p ready 0 down)
      ([] ++ text_of (build_of marshal valid_url ready.interval ready.jitter ready.snd cycle))
      behind
unfolding initial
tick = ticked start cycle refl

loads_files : (load parse_url unmarshal path (healthy files)).0 ≡ loaded cfg
unfolding load open_read bytes_eq read validate apply_defaults
loads_files = refl

first_life :
    Lives p files
      ((cfg, []) ∷ [])
      ([] ++ delivered behind.network)
      ([] ++ ((([] ++ codes "{}" ∷ []) ++ [])))
      ([] ++ [])
      behind.disk.files
unfolding build
first_life = lived installed (cfg, []) ready 0 down loads_files starts refl tick between

none_yet : contents (files cfg.buffer_path) ≡ []
unfolding bytes_eq
none_yet = refl

-- The next life finds the heartbeat in the file.
abbrev again : Started ℕ
again = record ready {
  buf = record ready.buf { entries = codes "{}" ∷ []; size = pos 3 };
  disk = healthy behind.disk.files;
}

loads_again : (load parse_url unmarshal path (disk_of behind.disk.files [])).0 ≡ loaded cfg
unfolding on_tick initial build send_raw do_request tick_send after_send flush_buffer flush_loop
    Buffer.peek Buffer.len load open_read bytes_eq read validate apply_defaults append append_file
    open_append write close add64 trim drop_oldest_to_fit drop_loop add_entry put_file
loads_again = refl

starts_again : start_on p (disk_of behind.disk.files []) ≡ started again
unfolding on_tick initial build send_raw do_request tick_send after_send flush_buffer flush_loop
    Buffer.peek Buffer.len load open_read bytes_eq read validate apply_defaults append append_file
    open_append write close add64 trim drop_oldest_to_fit drop_loop add_entry put_file start_up
    new_registry Buffer.new Buffer.load seconds mul64 log_level raw_lines scan Buffer.load_contents
    Buffer.load_lines
starts_again = refl

-- The server is back.
abbrev decode : Bytes → Option (Heartbeat ℕ)
decode text = some heartbeat

abbrev query : Bytes → Bytes → Bytes
query url key = []

abbrev idle : Recorder ℕ
idle = record { received = [] }

abbrev request : Request
request = post_request ready.snd (codes "{}")

abbrev received : Recorder ℕ → Recorder ℕ
received r = (handle_heartbeat decode (incoming query request) r).1

abbrev answered_by : Recorder ℕ → ℕ
answered_by r = (handle_heartbeat decode (incoming query request) r).0

-- It takes the heartbeat in the flush of the second life, which is killed before Persist.
abbrev once : Network
once = record { replies = status (answered_by idle) ∷ []; posted = [] }

abbrev killed : Network
killed = (flush_loop (send_raw valid_url again.snd) 1 again.buf once 0).1

cut : delivered killed ≡ [] ++ codes "{}" ∷ []
unfolding flush_loop Buffer.peek send_raw do_request Buffer.pop bytes_eq has_prefix handle_heartbeat
    delivered_in
cut = refl

second_life :
    Lives p files
      ((cfg, []) ∷ (cfg, []) ∷ [])
      (([] ++ delivered behind.network) ++ delivered killed)
      (codes "{}" ∷ [])
      (codes "{}" ∷ [])
      behind.disk.files
unfolding initial delivered_in
second_life =
    lived first_life (cfg, []) again 0 once loads_again starts_again refl start
      (in_flush 1 (codes "{}" ∷ []) behind.disk.files refl cut (λ q other. refl))

-- The third life starts like the second, sends the heartbeat again and one of its own.
abbrev up : Network
up = record {
  replies =
      status (answered_by (received idle)) ∷ status (answered_by (received (received idle))) ∷ [];
  posted = [];
}

abbrev last : Agent
last = on_tick marshal valid_url again.interval again.jitter again.snd cycle (entered p again 0 up)

tick_again :
    Loops p again
      (entered p again 0 up)
      ([] ++ text_of (build_of marshal valid_url again.interval again.jitter again.snd cycle))
      last
unfolding initial
tick_again = ticked start cycle refl

abbrev taken : List Bytes
taken = (([] ++ delivered behind.network) ++ delivered killed) ++ delivered last.network

third_life :
    Lives p files
      ((cfg, []) ∷ (cfg, []) ∷ (cfg, []) ∷ [])
      taken
      (codes "{}" ∷ codes "{}" ∷ [])
      (codes "{}" ∷ [])
      last.disk.files
unfolding build
third_life = lived second_life (cfg, []) again 0 up loads_again starts_again refl tick_again between

two-IsLine : All (IsLine max_line) (codes "{}" ∷ codes "{}" ∷ [])
two-IsLine = ground arith

Lives-complete_example :
    (b : Buffer) × (Buffer.new cfg.buffer_path cfg.buffer_max_size_mb (healthy last.disk.files)
      ≡ (Buffer.made b, healthy last.disk.files))
    × Perm (taken ++ b.entries) (codes "{}" ∷ codes "{}" ∷ codes "{}" ∷ [])
unfolding mul64
Lives-complete_example =
    Lives-complete p cfg third_life ((refl, refl), ((refl, refl), ((refl, refl), tt))) none_yet
      (omega arith) (omega arith) two-IsLine

unreached : Served decode query idle behind.network.posted idle
unfolding on_tick initial build send_raw do_request tick_send after_send flush_buffer flush_loop
    Buffer.peek Buffer.len
unreached = request_lost Serve.start request

reached : Served decode query idle killed.posted (received idle)
unfolding send_raw do_request flush_loop Buffer.peek Buffer.len Buffer.pop handle_heartbeat bytes_eq
    has_prefix
reached = answered Serve.start request

reached_again :
    Served decode query (received idle) last.network.posted (received (received (received idle)))
unfolding on_tick initial build send_raw do_request tick_send after_send flush_buffer flush_loop
    Buffer.peek Buffer.len Buffer.pop handle_heartbeat bytes_eq has_prefix
reached_again = answered (answered Serve.start request) request

deployed :
    Deployed decode query p files idle
      ((cfg, []) ∷ (cfg, []) ∷ (cfg, []) ∷ [])
      taken
      (codes "{}" ∷ codes "{}" ∷ [])
      (codes "{}" ∷ [])
      last.disk.files
      (received (received (received idle)))
unfolding initial build delivered_in
deployed =
    Deployed.lived
      (Deployed.lived
        (Deployed.lived Deployed.installed (cfg, []) ready 0 down loads_files starts refl tick
          between unreached)
        (cfg, []) again 0 once loads_again starts_again refl start
        (in_flush 1 (codes "{}" ∷ []) behind.disk.files refl cut (λ q other. refl)) reached)
      (cfg, []) again 0 up loads_again starts_again refl tick_again between reached_again

Deployed-complete_example :
    (b : Buffer) × (Buffer.new cfg.buffer_path cfg.buffer_max_size_mb (healthy last.disk.files)
      ≡ (Buffer.made b, healthy last.disk.files))
    × ((text : Bytes)
        → Mem text (codes "{}" ∷ codes "{}" ∷ [])
        → Mem text b.entries ∨₁ IsRecorded decode text (received (received (received idle))))
unfolding mul64
Deployed-complete_example =
    Deployed-complete decode query p cfg deployed ((refl, refl), ((refl, refl), ((refl, refl), tt)))
      none_yet (omega arith) (omega arith) two-IsLine
