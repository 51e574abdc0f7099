-- ===== src/MockServer/Serve.antt =====
-- The sender of internal/sender/sender.go and the server of cmd/mockserver/main.go together.
use nadi_agent.Prelude.{
  ℕ, ◌≡◌, ◌∙◌, ap, refl, sym, Bool, true, false, not, ◌⊎◌, inl, inr, Option, none, some, List, [],
  ◌∷◌, ◌++◌, Bytes, codes, bytes_eq, map, append_assoc, append-nil, if_cases,
}
use mathlib.Core.Path.{subst, subst₂}
use nadi_agent.Payload.{Heartbeat}
use nadi_agent.Network.{
  Network, Request, Reply, failed, status, accepted, delivered_in, delivered_in-append, do_request,
}
use nadi_agent.Sender.{Sender, send_raw, post_request}
use nadi_agent.MockServer.{Recorder, handle_heartbeat, record_heartbeat, incoming}
use nadi_agent.Strings.{has_prefix}

-- `xs` is `ys` without some of its elements.
pub data Sublist {ℓ} {A : Type ℓ} : List A → List A → Type ℓ where
  nil : Sublist [] []
  skip : {xs ys : List A} → (y : A) → Sublist xs ys → Sublist xs (ys ++ y ∷ [])
  keep : {xs ys : List A} → (y : A) → Sublist xs ys → Sublist (xs ++ y ∷ []) (ys ++ y ∷ [])

pub map-append {ℓ κ} :
    {A : Type ℓ} {B : Type κ} (f : A → B) (xs ys : List A) → map f (xs ++ ys) ≡ map f xs ++ map f ys
map-append f [] ys = refl
map-append f (x ∷ xs) ys = ap (λ t. f x ∷ t) (map-append f xs ys)

module _ {ℓ} {F : Type ℓ} (decode : Bytes → Option (Heartbeat F))
    (query : Bytes → Bytes → Bytes) where
  -- What the server does with a request, in one of two ways.
  abbrev pub Recorded : Request → Recorder F → ℕ × Recorder F → Type ℓ
  Recorded q r (code, r') =
      ((hb : Heartbeat F) × (code ≡ 200)
        × (decode q.body ≡ some hb)
        × (r'.received ≡ r.received ++ hb ∷ []))
      ⊎ ((accepted (status code) ≡ false) × (r' ≡ r))

  body_read :
      (q : Request) (r : Recorder F) (o : Option (Heartbeat F))
      → decode q.body ≡ o
      → Recorded q r (record_heartbeat decode o r)
  body_read q r none e = inr (refl, refl)
  body_read q r (some hb) e = inl (hb, refl, e, refl)

  pub handled :
      (q : Request) (r : Recorder F) → Recorded q r (handle_heartbeat decode (incoming query q) r)
  unfolding handle_heartbeat
  handled q r =
      if_cases (Recorded q r) (bytes_eq (query q.url (codes "fail")) (codes "1")) _ _
        (λ _. inr (refl, refl))
        (λ _.
          if_cases (Recorded q r) (not (bytes_eq (codes "POST") (codes "POST"))) _ _
            (λ _. inr (refl, refl))
            (λ _.
              if_cases (Recorded q r) (not (has_prefix q.authorization (codes "Bearer "))) _ _
                (λ _. inr (refl, refl)) (λ _. body_read q r (decode q.body) refl)))

  -- From `r` to `r'` the server gets the requests, and the client gets the replies beside them. A
  -- request can be lost, and so can the reply to a request that the server has handled.
  pub data Served (r : Recorder F) : List (Request × Reply) → Recorder F → Type ℓ where
    start : Served r [] r
    answered :
        {l : List (Request × Reply)} {r' : Recorder F}
        → Served r l r'
        → (q : Request)
        → Served r
            (l ++ (q, status (handle_heartbeat decode (incoming query q) r').0) ∷ [])
            (handle_heartbeat decode (incoming query q) r').1
    request_lost :
        {l : List (Request × Reply)} {r' : Recorder F}
        → Served r l r'
        → (q : Request) → Served r (l ++ (q, failed) ∷ []) r'
    reply_lost :
        {l : List (Request × Reply)} {r' : Recorder F}
        → Served r l r'
        → (q : Request)
        → Served r (l ++ (q, failed) ∷ []) (handle_heartbeat decode (incoming query q) r').1

  -- What the server has recorded since `r`, against the bodies that the client counts as taken.
  abbrev Known : Recorder F → List Bytes → Recorder F → Type ℓ
  Known r bodies r' =
      (new : List (Heartbeat F)) × (r'.received ≡ r.received ++ new)
      × Sublist (map decode bodies) (map some new)

  lost_reply :
      (q : Request) (r r' : Recorder F) (bodies : List Bytes) (o : ℕ × Recorder F)
      → Recorded q r' o
      → Known r bodies r'
      → Known r bodies o.1
  lost_reply q r r' bodies (code, r'') (inl (hb, ok, e, g)) (new, grown, sub) = (
    new ++ hb ∷ [],
    g ∙ ap (λ t. t ++ hb ∷ []) grown ∙ append_assoc r.received new (hb ∷ []),
    subst (λ t. Sublist (map decode bodies) t) (sym (map-append some new (hb ∷ [])))
        (skip (some hb) sub),
  )
  lost_reply q r r' bodies (code, r'') (inr (bad, same)) k = rw same k

  with_reply :
      (q : Request) (r r' : Recorder F) (bodies : List Bytes) (o : ℕ × Recorder F)
      → Recorded q r' o
      → Known r bodies r'
      → Known r (bodies ++ delivered_in ((q, status o.0) ∷ [])) o.1
  unfolding delivered_in
  with_reply q r r' bodies (code, r'') (inl (hb, ok, e, g)) (new, grown, sub) = (
    new ++ hb ∷ [],
    g ∙ ap (λ t. t ++ hb ∷ []) grown ∙ append_assoc r.received new (hb ∷ []),
    rw ok (
        subst₂ Sublist
          (sym (map-append decode bodies (q.body ∷ []) ∙ ap (λ t. map decode bodies ++ t ∷ []) e))
          (sym (map-append some new (hb ∷ []))) (keep (some hb) sub)),
  )
  with_reply q r r' bodies (code, r'') (inr (bad, same)) k =
      rw (bad, same) (subst (λ t. Known r t r') (sym (append-nil bodies)) k)

  -- Every payload that the client counts as taken was recorded by the server, in the same order and
  -- as the heartbeat that it decodes to, whichever requests and replies are lost. The server can
  -- have recorded others.
  pub Served-recorded :
      {r : Recorder F} {l : List (Request × Reply)} {r' : Recorder F}
      → Served r l r'
      → (new : List (Heartbeat F)) × (r'.received ≡ r.received ++ new)
        × Sublist (map decode (delivered_in l)) (map some new)
  unfolding delivered_in
  Served-recorded {r} start = ([], sym (append-nil r.received), nil)
  Served-recorded {r} (answered {l} {r'} h q) =
      subst (λ t. Known r t (handle_heartbeat decode (incoming query q) r').1)
        (sym (delivered_in-append l _))
        (with_reply q r r' (delivered_in l) _ (handled q r') (Served-recorded h))
  Served-recorded {r} (request_lost {l} {r'} h q) =
      subst (λ t. Known r t r') (sym (delivered_in-append l _ ∙ append-nil _)) (Served-recorded h)
  Served-recorded {r} (reply_lost {l} {r'} h q) =
      subst (λ t. Known r t (handle_heartbeat decode (incoming query q) r').1)
        (sym (delivered_in-append l _ ∙ append-nil _))
        (lost_reply q r r' (delivered_in l) _ (handled q r') (Served-recorded h))

  -- SendRaw to a server that gets its request and whose reply comes back: with a payload that decodes,
  -- and a URL that the client takes and that does not ask for a failure, the server records the
  -- heartbeat, once, and SendRaw reports no error.
  send_raw-recorded :
      (valid_url : Bytes → Bool) (s : Sender) (text : Bytes) (hb : Heartbeat F) (n : Network)
      (r : Recorder F)
      → valid_url s.server_url ≡ true
      → bytes_eq (query s.server_url (codes "fail")) (codes "1") ≡ false
      → decode text ≡ some hb
      → ((send_raw valid_url s text (record n {
        replies =
            status (handle_heartbeat decode (incoming query (post_request s text)) r).0 ∷ n.replies;
      })).0
          ≡ none)
        × ((handle_heartbeat decode (incoming query (post_request s text)) r).1.received
            ≡ r.received ++ hb ∷ [])
  unfolding handle_heartbeat send_raw do_request has_prefix bytes_eq
  send_raw-recorded valid_url s text hb n r ok whole e = rw (ok, whole, e) (refl, refl)
