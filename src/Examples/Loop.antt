-- ===== src/Examples/Loop.antt =====
-- internal/agent/agent_test.go: ticks and retries with a server that refuses and comes back.
use nadi_agent.Prelude.{
  ℕ, suc, ◌+◌, ◌≡◌, refl, true, false, Bool, Option, none, some, [], ◌∷◌, ◌++◌, Bytes, codes, arith,
  inl,
}
use nadi_agent.Int64.{pos, ◌≤ℤ◌, add64, sub64}
use nadi_agent.Backoff.{next as next_delay, new as new_backoff}
use nadi_agent.Disk.{Files, open_append, open_trunc, write, close, rename}
use nadi_agent.Buffer
use nadi_agent.Buffer.{Buffer, append, append_file, trim, add_entry, drop_oldest_to_fit, drop_loop}
use nadi_agent.Buffer.Reload.{healthy}
use nadi_agent.Network.{Network, status}
use nadi_agent.Payload.{Heartbeat}
use nadi_agent.Sender.{Sender, Host, build, send_raw}
use nadi_agent.Agent.{
  Agent, Cycle, Run, start, ticked, arm, armed, flush_buffer, flush_loop, on_tick, on_retry,
  initial, text_of, build_of,
}
use nadi_agent.Agent.Rounds.{flush_loop-ends}
use nadi_agent.Agent.Flush.{Flushed, flush_sends_oldest}
use nadi_agent.Agent.Drain.{on_retry-drains}
use nadi_agent.Agent.Held.{Keeps}
use nadi_agent.Agent.Conserve.{run-Keeps}
use nadi_agent.Agent.Account.{Refines, run-Refines}
use nadi_agent.Agent.Timer.{run_delays, longest}

abbrev pub snd : Sender
snd = record {
  device_id = codes "d";
  api_key = codes "k";
  server_url = codes "http://s";
  version = codes "1";
}

abbrev host : Host
host = record {
  hostname = some (codes "h");
  now = codes "2026-01-01T00:00:00Z";
  goos = codes "linux";
  goarch = codes "amd64";
}

abbrev pub cycle : Cycle ℕ
cycle = record {
  metrics = record { name = codes "cpu.usage_percent"; value = 7; unit = codes "%" } ∷ [];
  host = host;
  roll = 3;
}

-- A payload with nothing but braces, and a test that takes every URL.
abbrev pub marshal : Heartbeat ℕ → Option Bytes
marshal heartbeat = some (codes "{}")

abbrev pub valid_url : Bytes → Bool
valid_url url = true

abbrev queued : Buffer
queued = record {
  path = codes "b";
  max_bytes = pos 40;
  entries = codes "{1}" ∷ codes "{2}" ∷ [];
  size = pos 8;
}

abbrev empty : Buffer
empty = record queued { entries = []; size = pos 0 }

abbrev files : Files
files p = none

-- The server takes one heartbeat, refuses two, and is back.
abbrev pub net : Network
net = record {
  replies = status 200 ∷ status 503 ∷ status 503 ∷ status 200 ∷ status 200 ∷ [];
  posted = [];
}

abbrev first : Agent
first = initial marshal valid_url (pos 15_000_000_000) (pos 0) snd 0 queued (healthy files) net

abbrev ticks : Cycle ℕ → Agent → Agent
ticks = on_tick marshal valid_url (pos 15_000_000_000) (pos 0) snd

abbrev one_tick :
    Run marshal valid_url
      (pos 15_000_000_000)
      (pos 0)
      snd
      first
      ([] ++ text_of (build_of marshal valid_url (pos 15_000_000_000) (pos 0) snd cycle))
      (ticks cycle first)
unfolding initial
one_tick = ticked start cycle refl

one_queued : (ticks cycle first).buf.entries ≡ codes "{2}" ∷ codes "{}" ∷ []
unfolding on_tick build send_raw flush_buffer flush_loop Buffer.peek initial Buffer.len Buffer.pop
    append add64 append_file open_append Buffer.persist Buffer.write_all open_trunc
    Buffer.write_entries trim drop_oldest_to_fit drop_loop add_entry write close sub64 rename
    Buffer.replace_file
one_queued = refl

run-Keeps_example : Keeps first (codes "{}" ∷ []) (ticks cycle first)
unfolding initial build
run-Keeps_example =
    run-Keeps valid_url snd marshal (pos 15_000_000_000) (pos 0) one_tick
      (record { sized = refl; fits = inl (omega arith); limit_small = omega arith }) refl
      (omega arith)

flush_sends_oldest_example :
    (j : ℕ) × Flushed
      (send_raw valid_url snd)
      queued
      net
      (flush_buffer (send_raw valid_url snd) queued net (healthy files)).0
      (flush_buffer (send_raw valid_url snd) queued net (healthy files)).1
      j
flush_sends_oldest_example = flush_sends_oldest valid_url snd queued net (healthy files)

delay : (ticks cycle first).retrier.timer ≡ some (pos 1_000_000_000)
unfolding on_tick build send_raw flush_buffer flush_loop Buffer.peek initial Buffer.len Buffer.pop
    arm next_delay new_backoff
delay = refl

run_delays_example :
    (pos 1_000_000_000 ≤ℤ pos 1_000_000_000) × (pos 1_000_000_000 ≤ℤ longest (pos 15_000_000_000))
run_delays_example =
    run_delays marshal valid_url (pos 15_000_000_000) (pos 0) snd 0 queued (healthy files) net
      (pos 1_000_000_000) (omega arith) one_tick delay

-- The server is back for as long as it takes.
abbrev waiting : Agent
waiting = record first { network = record { replies = status 200 ∷ status 204 ∷ []; posted = [] } }

on_retry-drains_example :
    ((on_retry marshal valid_url (pos 15_000_000_000) (pos 0) snd waiting).buf.entries ≡ [])
    × (armed (on_retry marshal valid_url (pos 15_000_000_000) (pos 0) snd waiting).retrier ≡ false)
    × ((on_retry marshal valid_url (pos 15_000_000_000) (pos 0) snd waiting).retrier.backoff.current
        ≡ waiting.retrier.backoff.min)
unfolding initial Buffer.len
on_retry-drains_example =
    on_retry-drains valid_url snd marshal (pos 15_000_000_000) (pos 0) waiting refl
      (refl, (refl, tt))

flush_loop-ends_example :
    flush_loop (send_raw valid_url snd) (suc (Buffer.len queued) + 7) queued net 0
    ≡ flush_loop (send_raw valid_url snd) (suc (Buffer.len queued)) queued net 0
flush_loop-ends_example = flush_loop-ends (send_raw valid_url snd) queued net 0 7

run-Refines_example : Refines first (codes "{}" ∷ []) (ticks cycle first)
unfolding build
run-Refines_example = run-Refines valid_url snd marshal (pos 15_000_000_000) (pos 0) one_tick
