-- ===== src/Examples/System.antt =====
-- One tick of the agent against the server of cmd/mockserver/main.go.
use mathlib.Core.List.{Mem, mem-cons_self}
use mathlib.Core.Logic.{◌∨₁◌}
use nadi_agent.Prelude.{
  ℕ, ◌≡◌, refl, true, Bool, Option, none, some, List, [], ◌∷◌, ◌++◌, ◌&&◌, ◌==◌, ==_iff, false, inr,
  ap, sym, Bytes, codes, bytes_eq, bytes_eq_iff, bytes_eq_refl, Bool-cases, if◌then◌else◌, arith,
  inl, All,
}
use nadi_agent.Int64.{pos}
use nadi_agent.Disk.{Files}
use nadi_agent.Buffer
use nadi_agent.Buffer.{Buffer}
use nadi_agent.Buffer.Reload.{healthy}
use nadi_agent.Network.{Network, Request, status, do_request}
use nadi_agent.Payload.{Heartbeat, Metric, Meta, valid_metric_name}
use nadi_agent.Strings.{has_prefix}
use nadi_agent.Sender.{build, send_raw, post_request}
use nadi_agent.Agent
use nadi_agent.Agent.{Agent, Run, on_tick, initial, build_of, text_of}
use nadi_agent.MockServer.{Recorder, handle_heartbeat, incoming}
use nadi_agent.MockServer.Serve.{Served, answered}
use nadi_agent.MockServer.Serve
use nadi_agent.Agent.Origin.{cycles}
use nadi_agent.System.Origin.{IsOwn, run-IsOwn}
use nadi_agent.System.Refused.{run_refused}
use nadi_agent.System.Lossless.{IsRecorded, run-IsRecorded}
use nadi_agent.Examples.Loop.{snd, cycle, valid_url}

-- One text for the heartbeat of the tick, which is the only one that can be written and read.
abbrev pub heartbeat : Heartbeat ℕ
heartbeat = record {
  device_id = codes "d";
  timestamp = codes "2026-01-01T00:00:00Z";
  metrics = record { name = codes "cpu.usage_percent"; value = 7; unit = codes "%" } ∷ [];
  meta = record {
    hostname = codes "h";
    os = codes "linux";
    arch = codes "amd64";
    agent_version = codes "1";
  };
}

abbrev is_load : Metric ℕ → Bool
is_load m =
    bytes_eq m.name (codes "cpu.usage_percent") && ((m.value == 7) && bytes_eq m.unit (codes "%"))

abbrev only_load : List (Metric ℕ) → Bool
only_load [] = false
only_load (m ∷ []) = is_load m
only_load (m ∷ n ∷ ms) = false

abbrev is_meta : Meta → Bool
is_meta m =
    (bytes_eq m.hostname (codes "h") && bytes_eq m.os (codes "linux"))
    && (bytes_eq m.arch (codes "amd64") && bytes_eq m.agent_version (codes "1"))

abbrev is_heartbeat : Heartbeat ℕ → Bool
is_heartbeat hb =
    (bytes_eq hb.device_id (codes "d") && bytes_eq hb.timestamp (codes "2026-01-01T00:00:00Z"))
    && (only_load hb.metrics && is_meta hb.meta)

abbrev marshal : Heartbeat ℕ → Option Bytes
marshal hb = if is_heartbeat hb then some (codes "{}") else none

abbrev decode : Bytes → Option (Heartbeat ℕ)
decode text = if bytes_eq text (codes "{}") then some heartbeat else none

both : {a b : Bool} → (a && b) ≡ true → (a ≡ true) × (b ≡ true)
both {a = true} {b} h = (refl, h)
both {a = false} {b} h = (h, absurd cc)

is_load-eq :
    (m : Metric ℕ)
    → is_load m ≡ true
    → m ≡ record { name = codes "cpu.usage_percent"; value = 7; unit = codes "%" }
is_load-eq m h =
    let (name, rest) = both h in
    let (value, unit) = both rest in
    λ i. record {
      name = (bytes_eq_iff m.name (codes "cpu.usage_percent")).0 name i;
      value = (==_iff m.value 7).0 value i;
      unit = (bytes_eq_iff m.unit (codes "%")).0 unit i;
    }

only_load-eq : (ms : List (Metric ℕ)) → only_load ms ≡ true → ms ≡ heartbeat.metrics
only_load-eq [] h = absurd cc
only_load-eq (m ∷ []) h = ap (λ t. t ∷ []) (is_load-eq m h)
only_load-eq (m ∷ n ∷ ms) h = absurd cc

is_meta-eq : (m : Meta) → is_meta m ≡ true → m ≡ heartbeat.meta
is_meta-eq m h =
    let (left, right) = both h in
    let (hostname, os) = both left in
    let (arch, version) = both right in
    λ i. record {
      hostname = (bytes_eq_iff m.hostname (codes "h")).0 hostname i;
      os = (bytes_eq_iff m.os (codes "linux")).0 os i;
      arch = (bytes_eq_iff m.arch (codes "amd64")).0 arch i;
      agent_version = (bytes_eq_iff m.agent_version (codes "1")).0 version i;
    }

is_heartbeat-eq : (hb : Heartbeat ℕ) → is_heartbeat hb ≡ true → hb ≡ heartbeat
is_heartbeat-eq hb h =
    let (left, right) = both h in
    let (device, time) = both left in
    let (metrics, meta) = both right in
    λ i. record {
      device_id = (bytes_eq_iff hb.device_id (codes "d")).0 device i;
      timestamp = (bytes_eq_iff hb.timestamp (codes "2026-01-01T00:00:00Z")).0 time i;
      metrics = only_load-eq hb.metrics metrics i;
      meta = is_meta-eq hb.meta meta i;
    }

round_trip : (hb : Heartbeat ℕ) (text : Bytes) → marshal hb ≡ some text → decode text ≡ some hb
round_trip hb text e = elim (Bool-cases (is_heartbeat hb)) [
  | inl own ↦
      let printed : some (codes "{}") ≡ some text = rw own at e in
      let same : codes "{}" ≡ text = cc in
      rw (sym same, bytes_eq_refl (codes "{}")) (ap some (sym (is_heartbeat-eq hb own)))
  | inr strange ↦ let no : none ≡ some text = rw strange at e in cc
]

abbrev query : Bytes → Bytes → Bytes
query url key = []

abbrev idle : Recorder ℕ
idle = record { received = [] }

abbrev request : Request
request = post_request snd (codes "{}")

-- The server takes what the agent sends, and the reply comes back.
abbrev up : Network
up = record {
  replies = status (handle_heartbeat decode (incoming query request) idle).0 ∷ [];
  posted = [];
}

abbrev empty : Buffer
empty = record { path = codes "b"; max_bytes = pos 40; entries = []; size = pos 0 }

abbrev files : Files
files p = none

abbrev first : Agent
first = initial marshal valid_url (pos 15_000_000_000) (pos 0) snd 0 empty (healthy files) up

abbrev last : Agent
last = on_tick marshal valid_url (pos 15_000_000_000) (pos 0) snd cycle first

one_tick :
    Run marshal valid_url
      (pos 15_000_000_000)
      (pos 0)
      snd
      first
      ([] ++ text_of (build_of marshal valid_url (pos 15_000_000_000) (pos 0) snd cycle))
      last
unfolding initial
one_tick = Agent.ticked Agent.start cycle refl

served :
    Served decode query idle last.network.posted
      (handle_heartbeat decode (incoming query request) idle).1
unfolding on_tick initial build send_raw do_request Agent.tick_send Agent.after_send
    Agent.flush_buffer Agent.flush_loop Buffer.peek Buffer.len bytes_eq valid_metric_name
    handle_heartbeat has_prefix
served = answered Serve.start request

run-IsOwn_example :
    All
      (IsOwn snd (cycles marshal valid_url (pos 15_000_000_000) (pos 0) snd one_tick))
      (handle_heartbeat decode (incoming query request) idle).1.received
unfolding initial
run-IsOwn_example =
    run-IsOwn decode query snd marshal valid_url (pos 15_000_000_000) (pos 0) round_trip one_tick
      served refl refl refl

run-IsRecorded_example :
    Mem (codes "{}") last.buf.entries
    ∨₁ IsRecorded decode (codes "{}") (handle_heartbeat decode (incoming query request) idle).1
unfolding initial build bytes_eq valid_metric_name
run-IsRecorded_example =
    run-IsRecorded decode query marshal valid_url (pos 15_000_000_000) (pos 0) snd one_tick served
      (record { sized = refl; fits = inl (omega arith); limit_small = omega arith }) refl
      (omega arith) (codes "{}") mem-cons_self

-- A part of a payload is the oldest entry: the server answers 400 to it, and takes the tick's own.
abbrev cut : Bytes
cut = codes "{"

abbrev stuck : Agent
stuck = record first {
  buf = record empty { entries = cut ∷ []; size = pos 2 };
  network = record {
    replies =
        status (handle_heartbeat decode (incoming query (post_request snd cut)) idle).0
        ∷ status (handle_heartbeat decode (incoming query request) idle).0
        ∷ [];
    posted = [];
  };
}

abbrev unstuck : Agent
unstuck = on_tick marshal valid_url (pos 15_000_000_000) (pos 0) snd cycle stuck

refused_tick :
    Run marshal valid_url
      (pos 15_000_000_000)
      (pos 0)
      snd
      stuck
      ([] ++ text_of (build_of marshal valid_url (pos 15_000_000_000) (pos 0) snd cycle))
      unstuck
unfolding initial
refused_tick = Agent.ticked Agent.start cycle refl

refused_served :
    Served decode query idle unstuck.network.posted
      (handle_heartbeat decode
        (incoming query request)
        (handle_heartbeat decode (incoming query (post_request snd cut)) idle).1).1
unfolding on_tick initial build send_raw do_request Agent.tick_send Agent.after_send
    Agent.flush_buffer Agent.flush_loop Buffer.peek Buffer.len bytes_eq valid_metric_name
    handle_heartbeat has_prefix
refused_served = answered (answered Serve.start (post_request snd cut)) request

cut_unread : decode cut ≡ none
unfolding bytes_eq
cut_unread = refl

run_refused_example : (added : List Bytes) × (unstuck.buf.entries ≡ cut ∷ ([] ++ added))
unfolding initial build bytes_eq valid_metric_name
run_refused_example =
    run_refused decode query marshal valid_url (pos 15_000_000_000) (pos 0) snd cut [] refused_tick
      refused_served cut_unread
      (record { sized = refl; fits = inl (omega arith); limit_small = omega arith }) refl
      (omega arith) refl
