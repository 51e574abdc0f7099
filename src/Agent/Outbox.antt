-- ===== src/Agent/Outbox.antt =====
-- An outbox, as internal/agent/agent.go promises it: heartbeats are made, and each of them is waiting,
-- taken by the server, or lost. Their order is forgotten.
use mathlib.Core.Path.{subst}
use mathlib.Mathlib.Data.Multiset.Defs.{Multiset}
use mathlib.Mathlib.Data.Multiset.ZeroCons.{cons}
use nadi_agent.Prelude.{◌≡◌, sym, List, [], ◌∷◌, ◌++◌, Bytes, append_assoc, append-nil}

pub record Outbox : Type 0 where
  pub waiting : Multiset Bytes
  pub taken : Multiset Bytes
  pub lost : Multiset Bytes

-- From an outbox, with the heartbeats that are made on the way, to another.
pub data Moves (o : Outbox) : List Bytes → Outbox → Type 0 where
  rest : Moves o [] o
  make :
      {ms : List Bytes} {p : Outbox}
      → Moves o ms p
      → (t : Bytes) → Moves o (ms ++ t ∷ []) (record p { waiting = cons t p.waiting })
  take :
      {ms : List Bytes} {p : Outbox}
      → Moves o ms p
      → (t : Bytes) (w : Multiset Bytes) → p.waiting ≡ cons t w
      → Moves o ms (record p { waiting = w; taken = cons t p.taken })
  lose :
      {ms : List Bytes} {p : Outbox}
      → Moves o ms p
      → (t : Bytes) (w : Multiset Bytes) → p.waiting ≡ cons t w
      → Moves o ms (record p { waiting = w; lost = cons t p.lost })

pub Moves-trans :
    {o p q : Outbox} {xs ys : List Bytes} → Moves o xs p → Moves p ys q → Moves o (xs ++ ys) q
Moves-trans {o} {p} {xs = xs} h rest = subst (λ l. Moves o l p) (sym (append-nil xs)) h
Moves-trans {o} {xs = xs} h (make {ms = ms} {p = p} k t) =
    subst (λ l. Moves o l (record p { waiting = cons t p.waiting })) (append_assoc xs ms (t ∷ []))
      (make (Moves-trans h k) t)
Moves-trans h (take k t w e) = take (Moves-trans h k) t w e
Moves-trans h (lose k t w e) = lose (Moves-trans h k) t w e
