-- ===== src/NetworkCollector/Rates.antt =====
-- The rates of internal/collector/network.go over several cycles.
use nadi_agent.Prelude.{
  ℕ, ◌-◌, ◌≤◌, ◌≡◌, ◌∙◌, ap, refl, not, Option, none, some, List, [], ◌∷◌, ◌++◌, Bytes, arith, ◌==◌,
  if_cases,
}
use nadi_agent.Int64.{ℤ, pos, ◌<ℤ◌}
use nadi_agent.Collector.{Metric}
use nadi_agent.Config.{is_empty}
use nadi_agent.NetworkCollector.{
  NetworkCollector, Counters, IpAnswer, no_answer, answer, rate, public_ip_changed, note_ip,
  collect_network, rate_metrics, ip_metric,
}

module _ {ℓ κ} {T : Type ℓ} {F : Type κ} (since : T → T → ℤ) (per_second : ℕ → ℤ → F) (zero one : F)
    (trim_space : Bytes → Bytes) where
  abbrev after_collect : Option Counters → T → IpAnswer → NetworkCollector T → NetworkCollector T
  after_collect io now ip c = (collect_network since per_second zero one trim_space io now ip c).1

  -- The counters and their time.
  abbrev counters_of : NetworkCollector T → (ℕ × ℕ) × Option T
  counters_of c = ((c.prev_bytes_sent, c.prev_bytes_recv), c.prev_time)

  note_ip-counters :
      (ip : Bytes) (c : NetworkCollector T)
      → counters_of (note_ip since per_second zero one trim_space ip c).1 ≡ counters_of c
  note_ip-counters ip c =
      if_cases (λ (r : Option F × NetworkCollector T). counters_of r.1 ≡ counters_of c)
        (is_empty ip) _ _ (λ _. refl) (λ _. refl)

  public_ip-counters :
      (ip : IpAnswer) (c : NetworkCollector T)
      → counters_of (public_ip_changed since per_second zero one trim_space ip c).1 ≡ counters_of c
  unfolding public_ip_changed
  public_ip-counters no_answer c = refl
  public_ip-counters (answer code none) c =
      if_cases (λ (r : Option F × NetworkCollector T). counters_of r.1 ≡ counters_of c)
        (not (code == 200)) _ _ (λ _. refl) (λ _. refl)
  public_ip-counters (answer code (some body)) c =
      if_cases (λ (r : Option F × NetworkCollector T). counters_of r.1 ≡ counters_of c)
        (not (code == 200)) _ _ (λ _. refl) (λ _. note_ip-counters (trim_space body) c)

  -- Cycles in which the counters could not be read.
  pub unread : List (T × IpAnswer) → NetworkCollector T → NetworkCollector T
  unread [] c = c
  unread ((now, ip) ∷ cycles) c = unread cycles (after_collect none now ip c)

  unread_same : (cycles : List (T × IpAnswer)) (c : NetworkCollector T) → unread cycles c ≡ c
  unfolding unread collect_network
  unread_same [] c = refl
  unread_same ((now, ip) ∷ cycles) c = unread_same cycles c

  -- The collector with the counters of a cycle.
  abbrev noted : Counters → T → NetworkCollector T → NetworkCollector T
  noted io now c = record c {
    prev_bytes_sent = io.bytes_sent;
    prev_bytes_recv = io.bytes_recv;
    prev_time = some now;
  }

  collect-counters :
      (io : Counters) (now : T) (ip : IpAnswer) (c : NetworkCollector T)
      → counters_of (after_collect (some io) now ip c) ≡ ((io.bytes_sent, io.bytes_recv), some now)
  unfolding collect_network
  collect-counters io now ip c = public_ip-counters ip (noted io now c)

  rate-grown :
      (c : NetworkCollector T) (before now : T) (prev cur : ℕ)
      → c.prev_time ≡ some before
      → prev ≤ cur
      → pos 0 <ℤ since now before
      → rate since per_second zero one trim_space c now prev cur
        ≡ per_second (cur - prev) (since now before)
  unfolding rate
  rate-grown c before now prev cur timed grown later = rw timed (ground (arith, grown, later))

  -- What a cycle reports.
  abbrev Reports : F → F → Option (List (Metric F)) → Type κ
  Reports sent recv ms =
      (changed : Option F) × (ms
        ≡ some (
            rate_metrics since per_second zero one trim_space sent recv
            ++ ip_metric since per_second zero one trim_space changed))

  collect-grown :
      (c : NetworkCollector T) (sent recv : ℕ) (io : Counters) (t t' : T) (ip : IpAnswer)
      → counters_of c ≡ ((sent, recv), some t)
      → sent ≤ io.bytes_sent
      → recv ≤ io.bytes_recv
      → pos 0 <ℤ since t' t
      → Reports
          (per_second (io.bytes_sent - sent) (since t' t))
          (per_second (io.bytes_recv - recv) (since t' t))
          (collect_network since per_second zero one trim_space (some io) t' ip c).0
  unfolding collect_network
  collect-grown c sent recv io t t' ip known h k later =
      let timed : c.prev_time ≡ some t = ap (λ r. r.1) known in
      let was_sent : c.prev_bytes_sent ≡ sent = ap (λ r. r.0.0) known in
      let was_recv : c.prev_bytes_recv ≡ recv = ap (λ r. r.0.1) known in
      let sent_rate =
        ap (λ n. rate since per_second zero one trim_space c t' n io.bytes_sent) was_sent
        ∙ rate-grown c t t' sent io.bytes_sent timed h later in
      let recv_rate =
        ap (λ n. rate since per_second zero one trim_space c t' n io.bytes_recv) was_recv
        ∙ rate-grown c t t' recv io.bytes_recv timed k later in
      let changed = (public_ip_changed since per_second zero one trim_space ip (noted io t' c)).0 in
      (
        changed,
        λ i. some (
            rate_metrics since per_second zero one trim_space (sent_rate i) (recv_rate i)
            ++ ip_metric since per_second zero one trim_space changed),
      )

  -- A cycle reports what was sent and received since the last cycle that could read the counters, over
  -- the time between the two: cycles that failed between them, and the requests for the public
  -- address, change nothing of it. The counters did not go back, and time went on.
  pub rates_since_last :
      (c : NetworkCollector T) (io io' : Counters) (t t' : T) (ip ip' : IpAnswer)
      (cycles : List (T × IpAnswer))
      → io.bytes_sent ≤ io'.bytes_sent
      → io.bytes_recv ≤ io'.bytes_recv
      → pos 0 <ℤ since t' t
      → (changed : Option F) × ((collect_network since per_second zero one trim_space
            (some io')
            t'
            ip'
            (unread cycles
              (collect_network since per_second zero one trim_space (some io) t ip c).1)).0
          ≡ some (
              rate_metrics since per_second zero one trim_space
                (per_second (io'.bytes_sent - io.bytes_sent) (since t' t))
                (per_second (io'.bytes_recv - io.bytes_recv) (since t' t))
              ++ ip_metric since per_second zero one trim_space changed))
  rates_since_last c io io' t t' ip ip' cycles sent recv later =
      let c1 = after_collect (some io) t ip c in
      rw (unread_same cycles c1) (
        collect-grown c1 io.bytes_sent io.bytes_recv io' t t' ip' (collect-counters io t ip c) sent
          recv later)
