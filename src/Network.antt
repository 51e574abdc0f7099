-- ===== src/Network.antt =====
-- The network as the sender uses it, through the package net/http. The replies of the server, and
-- the requests that get none, are the environment's choice: a list with an entry for each request,
-- whose end means that the server cannot be reached.
use nadi_agent.Prelude.{
  ℕ, Bool, true, false, ◌&&◌, List, [], ◌∷◌, ◌++◌, Bytes, ltb, leb, ◌≡◌, refl, arith,
}

-- A method and headers other than these are not set by the program.
pub record Request : Type 0 where
  pub url : Bytes
  pub content_type : Bytes
  pub authorization : Bytes
  pub body : Bytes

-- `failed` is an error of (*http.Client).Do: no connection, a timeout, a cancelled context.
pub data Reply : Type 0 where
  failed : Reply
  status : ℕ → Reply

-- `posted` has the requests so far, oldest first, each with what came back.
pub record Network : Type 0 where
  pub replies : List Reply
  pub posted : List (Request × Reply)

abbrev pub next_reply : List Reply → Reply
next_reply [] = failed
next_reply (r ∷ rs) = r

abbrev pub later : List Reply → List Reply
later [] = []
later (r ∷ rs) = rs

-- (*http.Client).Do
unfoldable pub do_request : Request → Network → Reply × Network
do_request q n =
    let r = next_reply n.replies in
    (r, record { replies = later n.replies; posted = n.posted ++ (q, r) ∷ [] })

-- A 2xx reply: the server has taken the body.
abbrev pub accepted : Reply → Bool
accepted failed = false
accepted (status code) = leb 200 code && ltb code 300

abbrev pub add_body : Bytes → List Bytes → Bool → List Bytes
add_body body bodies true = body ∷ bodies
add_body body bodies false = bodies

-- The bodies that the server has taken, in the order of their requests.
unfoldable pub delivered_in : List (Request × Reply) → List Bytes
delivered_in [] = []
delivered_in ((q, r) ∷ l) = add_body q.body (delivered_in l) (accepted r)

abbrev pub delivered : Network → List Bytes
delivered n = delivered_in n.posted

pub delivered_in-append :
    (xs ys : List (Request × Reply)) → delivered_in (xs ++ ys) ≡ delivered_in xs ++ delivered_in ys
unfolding delivered_in
delivered_in-append [] ys = refl
delivered_in-append ((q, r) ∷ xs) ys = ground (arith, delivered_in-append xs ys)
