-- ===== src/System/Origin.antt =====
-- What the server of cmd/mockserver/main.go records comes from buildHeartbeat of
-- internal/sender/sender.go.
use mathlib.Core.List.{Mem, mem-cons_self, mem-cons_of_mem}
use mathlib.Core.Path.{subst}
use nadi_agent.Prelude.{
  ℕ, ◌≤◌, ◌≡◌, ◌∙◌, ap, sym, Bool, true, inl, inr, Option, some, List, [], ◌∷◌, Bytes, length,
  arith, All, All-append, All-append_inv,
}
use nadi_agent.Int64.{ℤ}
use nadi_agent.Payload.{Heartbeat, max_metrics, valid_metric_name}
use nadi_agent.Network.{Request, Reply}
use nadi_agent.Sender.{Sender, build_heartbeat}
use nadi_agent.Sender.Build.{build-marshal, build_heartbeat-metrics}
use nadi_agent.MockServer.{Recorder}
use nadi_agent.MockServer.Serve.{
  Recorded, handled, Served, start, answered, request_lost, reply_lost,
}
use nadi_agent.Agent.{Agent, Cycle, Run}
use nadi_agent.Agent.Origin.{AllPosted, Builds, cycles, run-Stems}

-- What buildHeartbeat made of one of the ticks `cs`, within the limits of the payload.
pub record IsOwn {ℓ} {F : Type ℓ} (s : Sender) (cs : List (Cycle F)) (hb : Heartbeat F)
    : Type ℓ where
  pub tick : Cycle F
  pub ticked : Mem tick cs
  pub made : build_heartbeat s tick.host tick.metrics ≡ some hb
  pub valid : All (λ p. valid_metric_name p.name ≡ true) hb.metrics
  pub within : length hb.metrics ≤ max_metrics

module _ {ℓ} {F : Type ℓ} (decode : Bytes → Option (Heartbeat F)) (query : Bytes → Bytes → Bytes)
    (snd : Sender) (cs : List (Cycle F)) where
  -- The text of no heartbeat but one of these ticks.
  abbrev pub Tells : Bytes → Type ℓ
  Tells text = (hb : Heartbeat F) → decode text ≡ some hb → IsOwn snd cs hb

  build_heartbeat-IsOwn :
      (c : Cycle F) (hb : Heartbeat F)
      → Mem c cs
      → build_heartbeat snd c.host c.metrics ≡ some hb
      → IsOwn snd cs hb
  build_heartbeat-IsOwn c hb m e =
      let (exact, valid, within) = build_heartbeat-metrics snd c.host c.metrics hb e in
      record { tick = c; ticked = m; made = e; valid = valid; within = within }

  handled-IsOwn :
      (q : Request) (r : Recorder F) (o : ℕ × Recorder F)
      → Recorded decode query q r o
      → Tells q.body
      → All (IsOwn snd cs) r.received
      → All (IsOwn snd cs) o.1.received
  handled-IsOwn q r (code, r') (inl (hb, ok, e, g)) t h =
      subst (All (IsOwn snd cs)) (sym g)
        (All-append (IsOwn snd cs) r.received (hb ∷ []) h (t hb e, tt))
  handled-IsOwn q r (code, r') (inr (bad, same)) t h = rw same h

  abbrev Posts : List (Request × Reply) → Type ℓ
  Posts = All (λ (x : Request × Reply). Tells x.0.body)

  Served-IsOwn :
      {r : Recorder F} {l : List (Request × Reply)} {r' : Recorder F}
      → Served decode query r l r'
      → Posts l
      → All (IsOwn snd cs) r.received
      → All (IsOwn snd cs) r'.received
  Served-IsOwn start t h = h
  Served-IsOwn (answered {l} {r'} served q) t h =
      let (before, (own, _)) = All-append_inv (λ (x : Request × Reply). Tells x.0.body) l _ t in
      handled-IsOwn q r' _ (handled decode query q r') own (Served-IsOwn served before h)
  Served-IsOwn (request_lost {l} {r'} served q) t h =
      let (before, own) = All-append_inv (λ (x : Request × Reply). Tells x.0.body) l _ t in
      Served-IsOwn served before h
  Served-IsOwn (reply_lost {l} {r'} served q) t h =
      let (before, (own, _)) = All-append_inv (λ (x : Request × Reply). Tells x.0.body) l _ t in
      handled-IsOwn q r' _ (handled decode query q r') own (Served-IsOwn served before h)

  module _ (marshal : Heartbeat F → Option Bytes) (valid_url : Bytes → Bool) (interval jitter : ℤ)
      (round_trip : (hb : Heartbeat F) (text : Bytes)
        → marshal hb ≡ some text
        → decode text ≡ some hb) where
    built-Tells : (c : Cycle F) → Mem c cs → Builds Tells valid_url snd marshal interval jitter c
    built-Tells c m text e hb read =
        let (own, made, printed) = build-marshal marshal snd c.host c.metrics text e in
        let same : own ≡ hb = ground (arith, round_trip own text printed, read) in
        build_heartbeat-IsOwn c hb m (made ∙ ap some same)

    All-Tells :
        (ts : List (Cycle F))
        → ((c : Cycle F) → Mem c ts → Mem c cs)
        → All (Builds Tells valid_url snd marshal interval jitter) ts
    All-Tells [] h = tt
    All-Tells (c ∷ ts) h =
        (built-Tells c (h c mem-cons_self), All-Tells ts (λ t m. h t (mem-cons_of_mem c m)))

module _ {ℓ} {F : Type ℓ} (decode : Bytes → Option (Heartbeat F)) (query : Bytes → Bytes → Bytes)
    (snd : Sender) (marshal : Heartbeat F → Option Bytes) (valid_url : Bytes → Bool)
    (interval jitter : ℤ)
    (round_trip : (hb : Heartbeat F) (text : Bytes)
      → marshal hb ≡ some text
      → decode text ≡ some hb) where
  -- Whatever ticks, retries and failures of a run there are, and whichever of its requests and replies
  -- are lost, the server records no heartbeat but what buildHeartbeat made of the metrics of one of the
  -- ticks of the run: at most a hundred metrics, with names that ValidMetricName takes. At the start
  -- nothing was sent, the recorder was empty and the queue was, and the decoder of the server reads what
  -- json.Marshal writes.
  pub run-IsOwn :
      {a : Agent} {texts : List Bytes} {a' : Agent} {r r' : Recorder F}
      (run : Run marshal valid_url interval jitter snd a texts a')
      → Served decode query r a'.network.posted r'
      → a.network.posted ≡ []
      → a.buf.entries ≡ []
      → r.received ≡ []
      → All (IsOwn snd (cycles marshal valid_url interval jitter snd run)) r'.received
  run-IsOwn {a} {r = r} run served unsent clean idle =
      let cs = cycles marshal valid_url interval jitter snd run in
      let P = Tells decode query snd cs in
      let posted : AllPosted P a.network =
        subst (All (λ (x : Request × Reply). P x.0.body)) (sym unsent) tt in
      let queued : All P a.buf.entries = subst (All P) (sym clean) tt in
      let before : All (IsOwn snd cs) r.received = rw idle tt in
      let built =
        All-Tells decode query snd cs marshal valid_url interval jitter round_trip cs (λ c m. m) in
      Served-IsOwn decode query snd cs served
        (run-Stems P valid_url snd marshal interval jitter run built (queued, posted)).1 before
