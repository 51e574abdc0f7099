-- ===== src/Program/Waiting.antt =====
-- The queue that one life of the program in cmd/nadi-agent/main.go leaves in its file, however it ends.
use mathlib.Core.List.{Perm, perm_append_comm}
use mathlib.Core.List.Perm
use mathlib.Core.Path.{subst, subst₂}
use nadi_agent.Prelude.{
  ◌+◌, ◌^◌, ◌≤◌, ◌≡◌, ◌∙◌, ap, refl, sym, inl, Bool, List, [], ◌++◌, Bytes, arith, append_assoc,
  append-nil, All,
}
use nadi_agent.Int64.{ℤ, pos, ◌≤ℤ◌, ◌<ℤ◌}
use nadi_agent.Disk.{Files, contents}
use nadi_agent.Buffer
use nadi_agent.Buffer.{Buffer, fresh, max_line}
use nadi_agent.Buffer.File.{jsonl, temp-ne}
use nadi_agent.Buffer.Trim.{total, total-append}
use nadi_agent.Buffer.Invariant.{IsValid}
use nadi_agent.Buffer.Reload.{IsLine, healthy, new-saved}
use nadi_agent.Network.{Network, delivered, delivered_in}
use nadi_agent.Config.{Config}
use nadi_agent.Agent.{Agent, Run}
use nadi_agent.Agent.Saved.{Stored}
use nadi_agent.Buffer.Faultless.{IsFaultless}
use nadi_agent.Sender.{Sender, send_raw}
use nadi_agent.Agent.Held.{held, flushed, Keeps, Keeps-trans}
use nadi_agent.Agent.Conserve.{run-Keeps, flushed-Keeps}
use nadi_agent.Agent.Restart.{run-Stored, flushed-Stored}
use nadi_agent.Agent.Path.{run_path, flushed_path}
use nadi_agent.Program.History.{Life, Ended, between, in_flush, before_send, behind_send}
use nadi_agent.Payload.{Heartbeat}
use nadi_agent.Prelude.{Option}

-- The last of three lists goes between the others.
perm_last_inner : (xs ys zs : List Bytes) → Perm ((xs ++ ys) ++ zs) ((xs ++ zs) ++ ys)
perm_last_inner xs ys zs =
    subst₂ Perm (sym (append_assoc xs ys zs)) (sym (append_assoc xs zs ys))
      (Perm.append_left xs (perm_append_comm ys zs))

module _ (cfg : Config) where
  -- A life with these settings in which no call on files fails.
  abbrev pub IsSteady : Life → Type 0
  IsSteady l = (l.0 ≡ cfg) × (l.1 ≡ [])

  abbrev pub made : List Bytes → Buffer
  made es = record (fresh cfg.buffer_path cfg.buffer_max_size_mb) {
    entries = es;
    size = pos (total es);
  }

  abbrev pub limit : ℤ
  limit = (fresh cfg.buffer_path cfg.buffer_max_size_mb).max_bytes

  -- The file holds a queue that completes what the server has taken.
  pub record Waiting (taken built again : List Bytes) (f : Files) : Type 0 where
    pub queue : List Bytes
    pub saved : contents (f cfg.buffer_path) ≡ jsonl queue
    pub lines : All (IsLine max_line) queue
    pub same : Perm (taken ++ queue) (built ++ again)
    pub grown : total queue ≤ total built

  -- The server has taken entries that the file still holds.
  resent :
      {taken built again : List Bytes} {f : Files} (sent : List Bytes)
      → Waiting taken built again f
      → Waiting (taken ++ sent) built (again ++ sent) f
  resent {taken} {built} {again} sent w = record {
    queue = w.queue;
    saved = w.saved;
    lines = w.lines;
    same = Perm.trans (perm_last_inner taken sent w.queue) (
        subst (Perm ((taken ++ w.queue) ++ sent)) (append_assoc built again sent)
          (Perm.append_right sent w.same));
    grown = w.grown;
  }

  -- What was built went to the server at once.
  sent_on :
      {taken built again : List Bytes} {f : Files} (own : List Bytes)
      → Waiting taken built again f
      → Waiting (taken ++ own) (built ++ own) again f
  sent_on {taken} {built} {again} own w = record {
    queue = w.queue;
    saved = w.saved;
    lines = w.lines;
    same =
        Perm.trans (perm_last_inner taken own w.queue)
          (Perm.trans (Perm.append_right own w.same) (perm_last_inner built again own));
    grown = omega (arith, w.grown, total-append built own);
  }

  -- The same queue, if the file of the buffer is the same.
  elsewhere :
      {taken built again : List Bytes} {f f' : Files}
      → f' cfg.buffer_path ≡ f cfg.buffer_path
      → Waiting taken built again f
      → Waiting taken built again f'
  elsewhere same_file w = record {
    queue = w.queue;
    saved = rw same_file w.saved;
    lines = w.lines;
    same = w.same;
    grown = w.grown;
  }

  made-IsValid :
      (es : List Bytes) → limit <ℤ pos (2 ^ 62) → pos (total es) ≤ℤ limit → IsValid (made es)
  made-IsValid es small fits = record { sized = refl; fits = inl fits; limit_small = small }

  pub reloaded :
      {taken built again : List Bytes} {f : Files} (w : Waiting taken built again f)
      → limit <ℤ pos (2 ^ 62)
      → pos (total built) ≤ℤ limit
      → Buffer.new cfg.buffer_path cfg.buffer_max_size_mb (healthy f)
        ≡ (Buffer.made (made w.queue), healthy f)
  reloaded {f = f} w small fits =
      new-saved (made w.queue) cfg.buffer_max_size_mb f
        (made-IsValid w.queue small (omega (arith, w.grown, fits))) w.lines refl w.saved

  module _ {ℓ} {F : Type ℓ} (marshal : Heartbeat F → Option Bytes) (valid_url : Bytes → Bool)
      (interval jitter : ℤ) (snd : Sender) where
    -- What holds at the end of a life that started in `a` with this queue.
    pub record Kept (queue : List Bytes) (a : Agent) (texts : List Bytes) (a' : Agent)
        : Type 0 where
      keeps : Keeps a texts a'
      stored : Stored a'.buf a'.disk
      path : a'.buf.path ≡ cfg.buffer_path
      began : a.buf ≡ made queue
      unsent : a.network.posted ≡ []

    Kept-Waiting :
        {taken built again : List Bytes} {f : Files} (w : Waiting taken built again f)
        {a a' : Agent} {texts : List Bytes}
        → Kept w.queue a texts a'
        → Waiting (taken ++ delivered a'.network) (built ++ texts) again a'.disk.files
    unfolding delivered_in
    Kept-Waiting {taken} {built} {again} w {a} {a'} {texts} k =
        let kept : Perm (delivered a'.network ++ a'.buf.entries) (w.queue ++ texts) =
          subst (λ l. Perm (held a') (l ++ texts)) (rw (k.unsent, k.began) refl) k.keeps.same in
        let waited : total a.buf.entries ≡ total w.queue =
          ap (λ (b : Buffer). total b.entries) k.began in
        let before : Perm (taken ++ (w.queue ++ texts)) ((built ++ again) ++ texts) =
          subst (λ l. Perm l ((built ++ again) ++ texts)) (append_assoc taken w.queue texts)
            (Perm.append_right texts w.same) in
        record {
          queue = a'.buf.entries;
          saved = subst (λ q. contents (a'.disk.files q) ≡ jsonl a'.buf.entries) k.path k.stored.0;
          lines = k.stored.1;
          same =
              subst (λ l. Perm l ((built ++ texts) ++ again))
                (sym (append_assoc taken (delivered a'.network) a'.buf.entries))
                (Perm.trans (Perm.append_left taken kept)
                  (Perm.trans before (perm_last_inner built again texts)));
          grown = omega (arith, k.keeps.grown, waited, w.grown, total-append built texts);
        }

    -- One life up to an event, from the state in which it enters its loop.
    pub run-Kept :
        {taken built again : List Bytes} {f : Files} (w : Waiting taken built again f) {a : Agent}
        {texts : List Bytes} {a' : Agent}
        → a.buf ≡ made w.queue
        → a.disk ≡ healthy f
        → a.network.posted ≡ []
        → Run marshal valid_url interval jitter snd a texts a'
        → limit <ℤ pos (2 ^ 62)
        → pos (total (built ++ texts)) ≤ℤ limit
        → All (IsLine max_line) texts
        → Kept w.queue a texts a'
    run-Kept {built = built} w {a} {texts} same_buf same_disk unsent run small fits lines =
        let counted = total-append built texts in
        let valid : IsValid a.buf =
          rw same_buf (made-IsValid w.queue small (omega (arith, w.grown, fits, counted))) in
        let faultless : IsFaultless a.disk = rw same_disk refl in
        let room : pos (total a.buf.entries + total texts) ≤ℤ a.buf.max_bytes =
          rw same_buf (omega (arith, w.grown, fits, counted)) in
        let stored : Stored a.buf a.disk = rw (same_buf, same_disk) (w.saved, w.lines) in
        record {
          keeps = run-Keeps valid_url snd marshal interval jitter run valid faultless room;
          stored =
              run-Stored marshal valid_url interval jitter snd run valid faultless room lines
                stored;
          path =
              run_path marshal valid_url interval jitter snd run
              ∙ ap (λ (b : Buffer). b.path) same_buf;
          began = same_buf;
          unsent = unsent;
        }

    -- The flush of a tick or of a retry behind it.
    flushed-Kept :
        {queue : List Bytes} {a : Agent} {texts : List Bytes} {a' : Agent}
        → Kept queue a texts a'
        → Kept queue a texts (flushed (send_raw valid_url snd) a')
    flushed-Kept {a = a} {texts} {a'} k = record {
      keeps =
          subst (λ l. Keeps a l (flushed (send_raw valid_url snd) a')) (append-nil texts)
            (Keeps-trans a a' (flushed (send_raw valid_url snd) a') texts [] k.keeps
              (flushed-Keeps valid_url snd a' k.keeps.valid k.keeps.faultless));
      stored = flushed-Stored marshal valid_url interval jitter snd a' k.keeps.faultless k.stored;
      path = flushed_path marshal valid_url interval jitter snd a' ∙ k.path;
      began = k.began;
      unsent = k.unsent;
    }

    -- What the server has taken on top of what it had.
    regrouped :
        (taken server more all : List Bytes)
        → all ≡ server ++ more
        → (taken ++ server) ++ more ≡ taken ++ all
    regrouped taken server more all e =
        append_assoc taken server more ∙ ap (λ t. taken ++ t) (sym e)

    pub Ended-Waiting :
        {taken built again : List Bytes} {f : Files} (w : Waiting taken built again f)
        {a a' : Agent} {texts : List Bytes}
        → Kept w.queue a texts a'
        → {n : Network} {own cut : List Bytes} {f' : Files}
        → Ended marshal valid_url interval jitter snd a' n own cut f'
        → Waiting (taken ++ delivered n) (built ++ (texts ++ own)) (again ++ cut) f'
    Ended-Waiting {again = again} w {texts = texts} k between =
        rw (append-nil texts, append-nil again) (Kept-Waiting w k)
    Ended-Waiting {taken} {built} {again} w {a' = a'} {texts = texts} k
          (in_flush rounds sent f on e old) =
        let file : f cfg.buffer_path ≡ a'.disk.files cfg.buffer_path =
          subst (λ q. f q ≡ a'.disk.files q) k.path
            (old a'.buf.path (λ same. temp-ne a'.buf.path (sym same))) in
        rw (append-nil texts) (
          subst (λ t. Waiting t (built ++ texts) (again ++ sent) f)
            (regrouped taken (delivered a'.network) sent _ e)
            (elsewhere file (resent sent (Kept-Waiting w k))))
    Ended-Waiting {again = again} w {texts = texts} k (before_send on) =
        rw (append-nil texts, append-nil again) (Kept-Waiting w (flushed-Kept k))
    Ended-Waiting {taken} {built} {again} w {a' = a'} {texts = texts} k
          (behind_send c text own on b e) =
        let b' = flushed (send_raw valid_url snd) a' in
        rw (append-nil again) (
          subst₂ (λ t m. Waiting t m again b'.disk.files)
            (regrouped taken (delivered b'.network) own _ e) (append_assoc built texts own)
            (sent_on own (Kept-Waiting w (flushed-Kept k))))
