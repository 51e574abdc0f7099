-- ===== src/Sender/Delivery.antt =====
-- SendRaw of internal/sender/sender.go: its error and what the server has taken.
use nadi_agent.Prelude.{
  ◌≡◌, ◌∙◌, ap, refl, Bool, Option, none, some, List, [], ◌∷◌, ◌++◌, Bytes, arith, append-nil, sym,
  Bool-cases, inl, inr,
}
use nadi_agent.Network.{
  Network, Reply, Request, failed, status, next_reply, do_request, delivered, delivered_in,
  delivered_in-append,
}
use nadi_agent.Sender.{Sender, SendError, check_reply, send_raw, post_request}

-- The bodies that a call of SendRaw adds to those that the server has taken.
abbrev pub taken : Option SendError → Bytes → List Bytes
taken none text = text ∷ []
taken (some e) text = []

-- The status test of SendRaw passes exactly the 2xx replies.
taken-check_reply :
    (q : Request) (r : Reply) → delivered_in ((q, r) ∷ []) ≡ taken (check_reply r) q.body
unfolding delivered_in
taken-check_reply q failed = refl
taken-check_reply q (status code) = ground arith

module _ (valid_url : Bytes → Bool) (s : Sender) where
  -- SendRaw reports no error exactly where it made a request that got a 2xx reply: then the payload is
  -- added to what the server has taken, behind all before it, and otherwise nothing is.
  pub delivered-send_raw :
      (text : Bytes) (n : Network)
      → delivered (send_raw valid_url s text n).1
        ≡ delivered n ++ taken (send_raw valid_url s text n).0 text
  unfolding send_raw do_request
  delivered-send_raw text n = elim (Bool-cases (valid_url s.server_url)) [
    | inl ok ↦
        let q = post_request s text in
        rw ok (
          delivered_in-append n.posted ((q, next_reply n.replies) ∷ [])
          ∙ ap (λ t. delivered n ++ t) (taken-check_reply q (next_reply n.replies)))
    | inr bad ↦ rw bad (sym (append-nil (delivered n)))
  ]
