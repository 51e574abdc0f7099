-- ===== src/Sender/Build.antt =====
-- buildHeartbeat of internal/sender/sender.go: the metrics of a heartbeat.
use nadi_agent.Prelude.{
  ◌<◌, ◌≤◌, ◌≡◌, ◌∙◌, ap, sym, true, inl, inr, some, List, [], ◌∷◌, ◌++◌, length, take, take_prefix,
  take_short, arith, append_assoc, append-nil, length-append, length-take, Bool-cases, Option,
  Option-cases, Bytes, leb→le, leb_lt, leb, All, All-take, if◌then◌else◌,
}
use nadi_agent.Collector
use nadi_agent.Payload
use nadi_agent.Payload.{Heartbeat, max_metrics, valid_metric_name}
use nadi_agent.Sender.{Sender, Host, to_payload, gather, build_heartbeat, built, build}

module _ {ℓ} {F : Type ℓ} where
  -- The metrics whose names are valid, in their order.
  unfoldable pub sendable : List (Collector.Metric F) → List (Payload.Metric F)
  sendable [] = []
  sendable (m ∷ ms) =
      let others = sendable ms in if valid_metric_name m.name then to_payload m ∷ others else others

  gather-sendable :
      (ms : List (Collector.Metric F)) (acc : List (Payload.Metric F))
      → length acc < max_metrics
      → gather ms acc ≡ take max_metrics (acc ++ sendable ms)
  unfolding gather sendable
  gather-sendable [] acc h =
      sym (ap (take max_metrics) (append-nil acc) ∙ take_short max_metrics acc (omega arith))
  gather-sendable (m ∷ ms) acc h = elim (Bool-cases (valid_metric_name m.name)) [
    | inr bad ↦ rw bad (gather-sendable ms acc h)
    | inl good ↦
        let p = to_payload m in
        let longer : acc ++ p ∷ sendable ms ≡ (acc ++ p ∷ []) ++ sendable ms =
          sym (append_assoc acc (p ∷ []) (sendable ms)) in
        let counted = length-append acc (p ∷ []) in
        elim (Bool-cases (leb max_metrics (length (acc ++ p ∷ [])))) [
          | inl full ↦
              rw (good, full)
                (sym (
                  ap (take max_metrics) longer
                  ∙ take_prefix max_metrics (acc ++ p ∷ []) (sendable ms)
                      (omega (arith, leb→le _ _ full))))
          | inr more ↦
              rw (good, more)
                (gather-sendable ms (acc ++ p ∷ []) (omega (arith, leb_lt _ _ more))
                  ∙ ap (take max_metrics) (sym longer))
        ]
  ]

  sendable-valid :
      (ms : List (Collector.Metric F)) → All (λ p. valid_metric_name p.name ≡ true) (sendable ms)
  unfolding sendable
  sendable-valid [] = tt
  sendable-valid (m ∷ ms) = elim (Bool-cases (valid_metric_name m.name)) [
    | inl good ↦ rw (good, sendable) (good, sendable-valid ms)
    | inr bad ↦ rw (bad, sendable) (sendable-valid ms)
  ]

  -- A heartbeat has the first hundred of the metrics with valid names, in their order, and no others.
  -- So all its names are valid and it has at most a hundred metrics.
  pub build_heartbeat-metrics :
      (s : Sender) (h : Host) (ms : List (Collector.Metric F)) (hb : Heartbeat F)
      → build_heartbeat s h ms ≡ some hb
      → (hb.metrics ≡ take max_metrics (sendable ms))
        × All (λ p. valid_metric_name p.name ≡ true) hb.metrics
        × (length hb.metrics ≤ max_metrics)
  unfolding build_heartbeat
  build_heartbeat-metrics s h ms hb e =
      let gathered : hb.metrics ≡ gather ms [] = ground (arith, e) in
      let exact : hb.metrics ≡ take max_metrics (sendable ms) =
        gathered ∙ gather-sendable ms [] (omega arith) in
      (
        exact,
        rw exact (All-take _ max_metrics (sendable ms) (sendable-valid ms)),
        rw exact (omega (arith, length-take max_metrics (sendable ms))),
      )

  -- A payload that Build makes is the text of a heartbeat of buildHeartbeat.
  pub build-marshal :
      (marshal : Heartbeat F → Option Bytes) (s : Sender) (h : Host)
      (ms : List (Collector.Metric F)) (text : Bytes)
      → build marshal s h ms ≡ built text
      → (hb : Heartbeat F) × (build_heartbeat s h ms ≡ some hb) × (marshal hb ≡ some text)
  unfolding build
  build-marshal marshal s h ms text e = elim (Option-cases (build_heartbeat s h ms)) [
    | inl nothing ↦ absurd (ground (arith, e, nothing))
    | inr (hb, made) ↦ elim (Option-cases (marshal hb)) [
      | inl nothing ↦ absurd (ground (arith, e, made, nothing))
      | inr (own, printed) ↦ (hb, made, printed ∙ ground (arith, e, made, printed))
    ]
  ]
