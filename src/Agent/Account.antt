-- ===== src/Agent/Account.antt =====
-- The loop of internal/agent/agent.go as an outbox: the queue waits, and what the server has taken is
-- what got a 2xx reply.
use mathlib.Core.List.{Perm, perm_append_singleton}
use mathlib.Core.Path.{subst, subst₂}
use mathlib.Core.Quot.{sound}
use mathlib.Mathlib.Data.Multiset.Defs.{Multiset, of_list}
use mathlib.Mathlib.Data.Multiset.ZeroCons.{cons}
use nadi_agent.Prelude.{
  ◌≡◌, ◌∙◌, ap, refl, sym, inl, inr, Bool, Option, Option-cases, List, [], ◌∷◌, ◌++◌, Bytes,
  append_assoc, append-nil,
}
use nadi_agent.Int64.{ℤ}
use nadi_agent.Buffer.{append}
use nadi_agent.Buffer.Dropped.{append-dropped}
use nadi_agent.Network.{delivered}
use nadi_agent.Payload.{Heartbeat}
use nadi_agent.Sender.{Sender, Built, built, not_built, send_raw}
use nadi_agent.Sender.Delivery.{taken, delivered-send_raw}
use nadi_agent.Agent.{
  Agent, Cycle, Run, start, ticked, retried, stopped, after_send, tick_send, on_tick, on_retry,
  on_done, build_of, text_of,
}
use nadi_agent.Agent.Flush.{flush_buffer-Flushed}
use nadi_agent.Agent.Held.{flushed}
use nadi_agent.Agent.Outbox.{Outbox, Moves, rest, make, take, lose, Moves-trans}

-- The outbox of a state of the loop.
abbrev pub outbox : Agent → Multiset Bytes → Outbox
outbox a lost = record {
  waiting = of_list a.buf.entries;
  taken = of_list (delivered a.network);
  lost = lost;
}

-- Whatever was lost before, the outbox moves from one state to the other.
abbrev pub Refines : Agent → List Bytes → Agent → Type 0
Refines a ms b = (l : Multiset Bytes) → (l' : Multiset Bytes) × Moves (outbox a l) ms (outbox b l')

Refines-trans :
    (a b c : Agent) (xs ys : List Bytes) → Refines a xs b → Refines b ys c → Refines a (xs ++ ys) c
Refines-trans a b c xs ys h k l =
    let (l1, m1) = h l in let (l2, m2) = k l1 in (l2, Moves-trans m1 m2)

abbrev box : List Bytes → List Bytes → Multiset Bytes → Outbox
box entries server lost = record { waiting = of_list entries; taken = of_list server; lost = lost }

-- The oldest entries go to the server.
moves_sent :
    (sent kept server : List Bytes) (l : Multiset Bytes)
    → Moves (box (sent ++ kept) server l) [] (box kept (server ++ sent) l)
moves_sent [] kept server l =
    subst (λ s. Moves (box kept server l) [] (box kept s l)) (sym (append-nil server)) rest
moves_sent (t ∷ sent) kept server l =
    let one : Moves (box ((t ∷ sent) ++ kept) server l) []
        (box (sent ++ kept) (server ++ t ∷ []) l) =
      subst
        (λ (m : Multiset Bytes).
          Moves (box ((t ∷ sent) ++ kept) server l) []
            (record { waiting = of_list (sent ++ kept); taken = m; lost = l }))
        (sym (sound (perm_append_singleton t server)))
        (take rest t (of_list (sent ++ kept)) refl) in
    subst (λ s. Moves (box ((t ∷ sent) ++ kept) server l) [] (box kept s l))
      (append_assoc server (t ∷ []) sent)
      (Moves-trans one (moves_sent sent kept (server ++ t ∷ []) l))

moves_lost :
    (lost kept server : List Bytes) (l : Multiset Bytes)
    → (l' : Multiset Bytes) × Moves (box (lost ++ kept) server l) [] (box kept server l')
moves_lost [] kept server l = (l, rest)
moves_lost (t ∷ lost) kept server l =
    let (l', m) = moves_lost lost kept server (cons t l) in
    (l', Moves-trans (lose rest t (of_list (lost ++ kept)) refl) m)

-- A heartbeat is made, and some are lost.
moves_append :
    (t : Bytes) (entries lost kept server : List Bytes) (l : Multiset Bytes)
    → Perm (entries ++ t ∷ []) (lost ++ kept)
    → (l' : Multiset Bytes) × Moves (box entries server l) (t ∷ []) (box kept server l')
moves_append t entries lost kept server l p =
    let made : Moves (box entries server l) (t ∷ []) (box (lost ++ kept) server l) =
      subst
        (λ (m : Multiset Bytes).
          Moves (box entries server l) (t ∷ [])
            (record { waiting = m; taken = of_list server; lost = l }))
        (sym (sound (perm_append_singleton t entries)) ∙ sound p) (make rest t) in
    let (l', m) = moves_lost lost kept server l in (l', Moves-trans made m)

-- A heartbeat is made and goes to the server at once.
moves_through :
    (t : Bytes) (entries server : List Bytes) (l : Multiset Bytes)
    → Moves (box entries server l) (t ∷ []) (box entries (server ++ t ∷ []) l)
moves_through t entries server l =
    subst
      (λ (m : Multiset Bytes).
        Moves (box entries server l) (t ∷ [])
          (record { waiting = of_list entries; taken = m; lost = l }))
      (sym (sound (perm_append_singleton t server))) (take (make rest t) t (of_list entries) refl)

module _ (valid_url : Bytes → Bool) (snd : Sender) where
  flushed-Refines : (a : Agent) → Refines a [] (flushed (send_raw valid_url snd) a)
  unfolding flushed
  flushed-Refines a l =
      let (j, f) =
        flush_buffer-Flushed (send_raw valid_url snd) (delivered-send_raw valid_url snd) a.buf
          a.network a.disk in
      let b = flushed (send_raw valid_url snd) a in
      (
        l,
        subst₂ (λ w t. Moves (box w (delivered a.network) l) [] (box b.buf.entries t l))
            (sym f.split) (sym f.arrived) (moves_sent f.sent b.buf.entries (delivered a.network) l),
      )

  own_send-Refines :
      (text : Bytes) (a : Agent)
      → Refines a (text ∷ []) (
          after_send text
            (send_raw valid_url snd text a.network).0
            (record a { network = (send_raw valid_url snd text a.network).1 }))
  unfolding after_send
  own_send-Refines text a l =
      let n = (send_raw valid_url snd text a.network).1 in
      let arrived = delivered-send_raw valid_url snd text a.network in
      elim (Option-cases (send_raw valid_url snd text a.network).0) [
        | inl ok ↦
            let here : delivered n ≡ delivered a.network ++ text ∷ [] =
              arrived ∙ ap (λ t. delivered a.network ++ taken t text) ok in
            rw ok (
              l,
              subst
                  (λ t.
                    Moves (box a.buf.entries (delivered a.network) l) (text ∷ [])
                      (box a.buf.entries t l))
                  (sym here) (moves_through text a.buf.entries (delivered a.network) l),
            )
        | inr (e, refused) ↦
            let same : delivered n ≡ delivered a.network =
              arrived
              ∙ ap (λ t. delivered a.network ++ taken t text) refused
              ∙ append-nil (delivered a.network) in
            let (lost, p) = append-dropped text a.buf a.disk in
            let kept = (append text a.buf a.disk).1.entries in
            let (l', m) = moves_append text a.buf.entries lost kept (delivered a.network) l p in
            rw refused (
              l',
              subst
                  (λ t.
                    Moves (box a.buf.entries (delivered a.network) l) (text ∷ []) (box kept t l'))
                  (sym same) m,
            )
      ]

  module _ {ℓ} {F : Type ℓ} (marshal : Heartbeat F → Option Bytes) (interval jitter : ℤ) where
    tick_send-Refines :
        (text : Bytes) (a : Agent)
        → Refines a (text ∷ []) (tick_send marshal valid_url interval jitter snd text a)
    unfolding tick_send flushed
    tick_send-Refines text a =
        let b = flushed (send_raw valid_url snd) a in
        Refines-trans a b
          (after_send text (send_raw valid_url snd text b.network).0
            (record b { network = (send_raw valid_url snd text b.network).1 }))
          [] (text ∷ []) (flushed-Refines a) (own_send-Refines text b)

    on_tick-Refines :
        (c : Cycle F) (a : Agent) (r : Built)
        → build_of marshal valid_url interval jitter snd c ≡ r
        → Refines a (text_of r) (on_tick marshal valid_url interval jitter snd c a)
    unfolding on_tick
    on_tick-Refines c a (built text) e = rw (e, on_tick) (tick_send-Refines text a)
    on_tick-Refines c a (not_built err) e = rw (e, on_tick) (λ l. (l, rest))

    on_retry-Refines : (a : Agent) → Refines a [] (on_retry marshal valid_url interval jitter snd a)
    unfolding on_retry flushed
    on_retry-Refines a = flushed-Refines a

    on_done-Refines : (a : Agent) → Refines a [] (on_done a)
    unfolding on_done
    on_done-Refines a l = (l, rest)

    -- Every run of the loop is one of the outbox, with the heartbeats that the ticks built: whatever the
    -- server replies, whichever calls on files fail and however full the queue gets.
    pub run-Refines :
        {a : Agent} {texts : List Bytes} {a' : Agent}
        → Run marshal valid_url interval jitter snd a texts a'
        → Refines a texts a'
    run-Refines start = λ l. (l, rest)
    run-Refines {a} (ticked {made = texts} {b = b} r c on) =
        Refines-trans a b (on_tick marshal valid_url interval jitter snd c b) texts
          (text_of (build_of marshal valid_url interval jitter snd c)) (run-Refines r)
          (on_tick-Refines c b _ refl)
    run-Refines {a} (retried {made = texts} {b = b} r on ready) =
        subst (λ l. Refines a l (on_retry marshal valid_url interval jitter snd b))
          (append-nil texts)
          (Refines-trans a b (on_retry marshal valid_url interval jitter snd b) texts []
            (run-Refines r) (on_retry-Refines b))
    run-Refines {a} (stopped {made = texts} {b = b} r on) =
        subst (λ l. Refines a l (on_done b)) (append-nil texts)
          (Refines-trans a b (on_done b) texts [] (run-Refines r) (on_done-Refines b))
