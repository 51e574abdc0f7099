-- ===== src/NetworkCollector.antt =====
-- internal/collector/network.go: the rates between two cycles, and the machine's public address.
pub mod Rates
use nadi_agent.Prelude.{
  ℕ, ◌-◌, Bool, true, false, ◌&&◌, not, Option, none, some, List, [], ◌∷◌, ◌++◌, Bytes, codes,
  bytes_eq, ltb, ◌==◌, if◌then◌else◌,
}
use nadi_agent.Int64.{ℤ, pos, ltb_ℤ}
use nadi_agent.Collector.{Metric}
use nadi_agent.Config.{is_empty}

-- Counters are uint64. `prev_time` is `none` for the zero time.
pub record NetworkCollector {ℓ} (T : Type ℓ) : Type ℓ where
  pub prev_bytes_sent : ℕ
  pub prev_bytes_recv : ℕ
  pub prev_time : Option T
  pub last_public_ip : Bytes

-- The result of the request for the public address: an error before or in it, or a status with the
-- body, where `none` is an error of reading it.
pub data IpAnswer : Type 0 where
  no_answer : IpAnswer
  answer : ℕ → Option Bytes → IpAnswer

-- The two counters, over all interfaces.
pub record Counters : Type 0 where
  pub bytes_sent : ℕ
  pub bytes_recv : ℕ

abbrev pub new_network_collector {ℓ} : {T : Type ℓ} → NetworkCollector T
new_network_collector = record {
  prev_bytes_sent = 0;
  prev_bytes_recv = 0;
  prev_time = none;
  last_public_ip = [];
}

-- `since now prev` is now.Sub(prev) in nanoseconds, `per_second n d` is float64(n) / d.Seconds(), and
-- `zero` and `one` are floats. `trim_space` is strings.TrimSpace.
module _ {ℓ κ} {T : Type ℓ} {F : Type κ} (since : T → T → ℤ) (per_second : ℕ → ℤ → F) (zero one : F)
    (trim_space : Bytes → Bytes) where
  abbrev pub rate_since : ℤ → ℕ → ℕ → F
  rate_since dt prev cur =
      if ltb cur prev
      then zero
      else if not (ltb_ℤ (pos 0) dt)
      then zero
      else per_second (cur - prev) dt

  unfoldable pub rate : NetworkCollector T → T → ℕ → ℕ → F
  rate c now prev cur = elim c.prev_time [
    | none ↦ zero
    | some before ↦ rate_since (since now before) prev cur
  ]

  abbrev note_ip : Bytes → NetworkCollector T → Option F × NetworkCollector T
  note_ip ip c = if is_empty ip then (none, c) else (
    some (
        if not (is_empty c.last_public_ip) && not (bytes_eq ip c.last_public_ip)
        then one
        else zero),
    record c { last_public_ip = ip },
  )

  abbrev read_ip : Option Bytes → NetworkCollector T → Option F × NetworkCollector T
  read_ip none c = (none, c)
  read_ip (some body) c = note_ip (trim_space body) c

  -- The value and whether there is one.
  unfoldable pub public_ip_changed : IpAnswer → NetworkCollector T → Option F × NetworkCollector T
  public_ip_changed no_answer c = (none, c)
  public_ip_changed (answer code body) c = if not (code == 200) then (none, c) else read_ip body c

  abbrev pub ip_metric : Option F → List (Metric F)
  ip_metric none = []
  ip_metric (some changed) =
      record { name = codes "network.public_ip_changed"; value = changed; unit = codes "bool" } ∷ []

  abbrev pub rate_metrics : F → F → List (Metric F)
  rate_metrics sent recv =
      record { name = codes "network.bytes_sent_per_sec"; value = sent; unit = codes "bytes/s" }
      ∷ record { name = codes "network.bytes_recv_per_sec"; value = recv; unit = codes "bytes/s" }
      ∷ []

  -- Collect, with `none` for the error of reading the counters.
  unfoldable pub collect_network :
      Option Counters
      → T
      → IpAnswer
      → NetworkCollector T
      → Option (List (Metric F)) × NetworkCollector T
  collect_network none now ip c = (none, c)
  collect_network (some io) now ip c =
      let metrics =
        rate_metrics (rate c now c.prev_bytes_sent io.bytes_sent)
          (rate c now c.prev_bytes_recv io.bytes_recv) in
      let c1 : NetworkCollector T = record c {
        prev_bytes_sent = io.bytes_sent;
        prev_bytes_recv = io.bytes_recv;
        prev_time = some now;
      } in
      let (changed, c2) = public_ip_changed ip c1 in (some (metrics ++ ip_metric changed), c2)
