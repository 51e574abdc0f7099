-- ===== src/Examples/Sensors.antt =====
-- internal/collector/disk_test.go and network_test.go, and names of internal/payload/payload_test.go.
use nadi_agent.Prelude.{
  ℕ, ◌-◌, ◌≤◌, ◌≡◌, ◌↔◌, refl, true, false, Option, some, [], ◌∷◌, ◌++◌, Bytes, codes, bytes_eq,
  arith, length,
}
use nadi_agent.Int64.{ℤ, pos}
use nadi_agent.Payload.{max_name_len, valid_metric_name}
use nadi_agent.Payload.Names.{IsDotted, valid_metric_name_iff}
use nadi_agent.DiskCollector.{sanitize, usage_name, should_report}
use nadi_agent.DiskCollector.Names.{usage_name-valid}
use nadi_agent.NetworkCollector.{
  NetworkCollector, Counters, no_answer, answer, new_network_collector, collect_network,
  rate_metrics, ip_metric,
}
use nadi_agent.NetworkCollector.Rates.{unread, rates_since_last}

valid_metric_name_iff_example :
    (valid_metric_name (codes "cpu.load_1") ≡ true)
    ↔ ((length (codes "cpu.load_1") ≤ max_name_len) × IsDotted (codes "cpu.load_1"))
valid_metric_name_iff_example = valid_metric_name_iff (codes "cpu.load_1")

takes : valid_metric_name (codes "cpu.load_1") ≡ true
unfolding valid_metric_name
takes = refl

refuses : valid_metric_name (codes "cpu") ≡ false
unfolding valid_metric_name
refuses = refl

abbrev lower : ℕ → ℕ
lower r = r

tag : sanitize lower (codes "/home/user-1/") ≡ codes "home_user_1"
unfolding sanitize
tag = refl

reported : should_report (codes "/home") (codes "ext4") ≡ true
unfolding should_report bytes_eq
reported = refl

not_reported : should_report (codes "/dev/shm") (codes "ext4") ≡ false
unfolding should_report bytes_eq
not_reported = refl

usage_name-valid_example :
    (valid_metric_name (usage_name lower (codes "/home/user-1")) ≡ true)
    ↔ (length (sanitize lower (codes "/home/user-1")) ≤ 45)
usage_name-valid_example = usage_name-valid lower (codes "/home/user-1")

-- Times in nanoseconds, and a rate as a whole number of bytes in a second.
abbrev since : ℤ → ℤ → ℤ
since now before = pos 2_000_000_000

abbrev per_second : ℕ → ℤ → ℕ
per_second n d = n

abbrev trim_space : Bytes → Bytes
trim_space s = s

abbrev cold : NetworkCollector ℤ
cold = new_network_collector

abbrev earlier : Counters
earlier = record { bytes_sent = 10; bytes_recv = 20 }

abbrev later : Counters
later = record { bytes_sent = 110; bytes_recv = 25 }

rates_since_last_example :
    (changed : Option ℕ) × ((collect_network since per_second 0 1 trim_space
        (some later)
        (pos 5_000_000_000)
        (answer 200 (some (codes "192.0.2.1")))
        (unread since per_second 0 1 trim_space
          ((pos 4_000_000_000, no_answer) ∷ [])
          (collect_network since per_second 0 1 trim_space
            (some earlier)
            (pos 3_000_000_000)
            no_answer
            cold).1)).0
      ≡ some (
          rate_metrics since per_second 0 1 trim_space
            (per_second (later.bytes_sent - earlier.bytes_sent) (pos 2_000_000_000))
            (per_second (later.bytes_recv - earlier.bytes_recv) (pos 2_000_000_000))
          ++ ip_metric since per_second 0 1 trim_space changed))
rates_since_last_example =
    rates_since_last since per_second 0 1 trim_space cold earlier later (pos 3_000_000_000)
      (pos 5_000_000_000) no_answer (answer 200 (some (codes "192.0.2.1")))
      ((pos 4_000_000_000, no_answer) ∷ []) (omega arith) (omega arith) (omega arith)
