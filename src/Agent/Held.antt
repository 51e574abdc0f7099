-- ===== src/Agent/Held.antt =====
-- The heartbeats that a state of the loop in internal/agent/agent.go holds, and what keeps them.
use mathlib.Core.List.{Perm, perm_append_comm}
use mathlib.Core.List.Perm
use mathlib.Core.Path.{subst}
use nadi_agent.Prelude.{
  ◌+◌, ◌≤◌, ◌≡◌, ◌∙◌, refl, sym, Option, List, [], ◌∷◌, ◌++◌, Bytes, arith, append_assoc,
  append-nil,
}
use nadi_agent.Int64.{ℤ}
use nadi_agent.Buffer.Trim.{total, total-append}
use nadi_agent.Buffer.Invariant.{IsValid}
use nadi_agent.Buffer.Faultless.{IsFaultless}
use nadi_agent.Network.{Network, delivered}
use nadi_agent.Sender.{SendError}
use nadi_agent.Agent.{Agent, flush_buffer, on_done}

-- What the server has taken and what is queued.
abbrev pub held : Agent → List Bytes
held a = delivered a.network ++ a.buf.entries

-- From `a` to `a'` the heartbeats `made` were added to those held, and none went.
pub record Keeps (a : Agent) (made : List Bytes) (a' : Agent) : Type 0 where
  pub same : Perm (held a') (held a ++ made)
  pub valid : IsValid a'.buf
  pub faultless : IsFaultless a'.disk
  pub same_limit : a'.buf.max_bytes ≡ a.buf.max_bytes
  pub grown : total a'.buf.entries ≤ total a.buf.entries + total made

-- The state after the flush at the start of a tick or of a retry.
unfoldable pub flushed : (Bytes → Network → Option SendError × Network) → Agent → Agent
flushed send a =
    let (b, n, d) = flush_buffer send a.buf a.network a.disk in
    record a { buf = b; network = n; disk = d }

pub Keeps-trans :
    (a b c : Agent) (xs ys : List Bytes) → Keeps a xs b → Keeps b ys c → Keeps a (xs ++ ys) c
Keeps-trans a b c xs ys h k = record {
  same = Perm.trans k.same (
      subst (λ l. Perm (held b ++ ys) l) (append_assoc (held a) xs ys)
        (Perm.append_right ys h.same));
  valid = k.valid;
  faultless = k.faultless;
  same_limit = k.same_limit ∙ h.same_limit;
  grown = omega (arith, h.grown, k.grown, total-append xs ys);
}

pub unchanged-Keeps : (a : Agent) → IsValid a.buf → IsFaultless a.disk → Keeps a [] a
unchanged-Keeps a v h = record {
  same = subst (λ l. Perm (held a) l) (sym (append-nil (held a))) (Perm.refl (held a));
  valid = v;
  faultless = h;
  same_limit = refl;
  grown = omega arith;
}

pub Keeps-retimed :
    (a b : Agent) (made : List Bytes) (t : ℤ)
    → Keeps a made b
    → Keeps a made (record b { ticker = t })
Keeps-retimed a b made t k = record {
  same = k.same;
  valid = k.valid;
  faultless = k.faultless;
  same_limit = k.same_limit;
  grown = k.grown;
}

pub on_done-Keeps : (a b : Agent) (made : List Bytes) → Keeps a made b → Keeps a made (on_done b)
unfolding on_done
on_done-Keeps a b made k = record {
  same = k.same;
  valid = k.valid;
  faultless = k.faultless;
  same_limit = k.same_limit;
  grown = k.grown;
}

-- An element passes from before a list to behind it.
pub perm_own : (D E : List Bytes) (t : Bytes) → Perm ((D ++ t ∷ []) ++ E) ((D ++ E) ++ t ∷ [])
perm_own D E t =
    subst (λ l. Perm l ((D ++ E) ++ t ∷ [])) (sym (append_assoc D (t ∷ []) E))
      (subst (λ l. Perm (D ++ ((t ∷ []) ++ E)) l) (sym (append_assoc D E (t ∷ [])))
        (Perm.append_left D (perm_append_comm (t ∷ []) E)))
