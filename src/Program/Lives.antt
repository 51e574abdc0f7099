-- ===== src/Program/Lives.antt =====
-- Any number of lives of the program in cmd/nadi-agent/main.go, one behind the other.
use mathlib.Core.List.{Perm}
use mathlib.Core.List.Perm
use nadi_agent.Prelude.{
  ℕ, ◌∷◌, Option-cases, inr, ◌^◌, ◌≡◌, ◌∙◌, ap, refl, sym, inl, List, [], ◌++◌, Bytes, arith, All,
  All-append_inv,
}
use nadi_agent.Int64.{pos, ◌≤ℤ◌, ◌<ℤ◌}
use nadi_agent.Disk.{Files, contents, open_read, read}
use nadi_agent.Buffer
use nadi_agent.Buffer.{Buffer, fresh, max_line}
use nadi_agent.Buffer.Trim.{total, total-append}
use nadi_agent.Buffer.Reload.{IsLine, healthy}
use nadi_agent.Network.{Network, delivered}
use nadi_agent.Config.{Config, loaded, load}
use nadi_agent.Agent.{Agent, initial}
use nadi_agent.Startup.{Started, started, start_up}
use nadi_agent.Startup.Ready.{with_registry-IsReady}
use nadi_agent.Program.{Setting, start_on, entered, Loops}
use nadi_agent.Program.History.{Life, disk_of, Ends, Lives, installed, lived}
use nadi_agent.Program.Waiting.{IsSteady, made, limit, Waiting, reloaded, run-Kept, Ended-Waiting}

module _ {ℓ κ} {F : Type ℓ} {C : Type κ} (p : Setting F C) (cfg : Config) where
  load-healthy :
      (f : Files) → (load p.parse_url p.unmarshal p.config_path (healthy f)).1 ≡ healthy f
  unfolding load open_read read
  load-healthy f = elim (Option-cases (f p.config_path)) [
    | inl gone ↦ rw gone refl
    | inr (text, found) ↦ rw found refl
  ]

  entered-Waiting :
      {taken built again : List Bytes} {f : Files} (w : Waiting cfg taken built again f) (l : Life)
      (s : Started C)
      → IsSteady cfg l
      → limit cfg <ℤ pos (2 ^ 62)
      → pos (total built) ≤ℤ limit cfg
      → (load p.parse_url p.unmarshal p.config_path (disk_of f l.1)).0 ≡ loaded l.0
      → start_on p (disk_of f l.1) ≡ started s
      → (s.buf ≡ made cfg w.queue) × (s.disk ≡ healthy f)
  unfolding start_up
  entered-Waiting {f = f} w l s (set, calm) small fits read begun =
      let from = load p.parse_url p.unmarshal p.config_path (healthy f) in
      let config : from.0 ≡ loaded cfg = rw (calm, set) at read in
      let start : start_on p (healthy f) ≡ started s = rw calm at begun in
      let whole : from ≡ (loaded cfg, healthy f) = λ i. (config i, load-healthy f i) in
      let ready =
        with_registry-IsReady p.version p.factories cfg (healthy f) _ s refl (rw whole at start) in
      let same = sym ready.buf ∙ reloaded cfg w small fits in
      let found : Buffer.made s.buf ≡ Buffer.made (made cfg w.queue) = ap (λ r. r.0) same in
      (cc, ap (λ r. r.1) same)

  lived-Waiting :
      {taken built again : List Bytes} {f : Files} (w : Waiting cfg taken built again f) (l : Life)
      (s : Started C) (roll : ℕ) (n : Network) {texts : List Bytes} {a : Agent}
      → IsSteady cfg l
      → (load p.parse_url p.unmarshal p.config_path (disk_of f l.1)).0 ≡ loaded l.0
      → start_on p (disk_of f l.1) ≡ started s
      → n.posted ≡ []
      → Loops p s (entered p s roll n) texts a
      → {n' : Network} {own cut : List Bytes} {f' : Files} → Ends p s a n' own cut f'
      → limit cfg <ℤ pos (2 ^ 62)
      → pos (total (built ++ (texts ++ own))) ≤ℤ limit cfg
      → All (IsLine max_line) (texts ++ own)
      → Waiting cfg (taken ++ delivered n') (built ++ (texts ++ own)) (again ++ cut) f'
  unfolding initial
  lived-Waiting {built = built} w l s roll n {texts} steady config begun unsent run {own = own} ends
        small fits lines =
      let counted = total-append built (texts ++ own) in
      let (earlier, last) = All-append_inv (IsLine max_line) texts own lines in
      let more = total-append texts own in
      let all = total-append built texts in
      let (same_buf, same_disk) =
        entered-Waiting w l s steady small (omega (arith, fits, counted)) config begun in
      Ended-Waiting cfg p.marshal p.valid_url s.interval s.jitter s.snd w
        (run-Kept cfg p.marshal p.valid_url s.interval s.jitter s.snd w same_buf same_disk unsent
          run small (omega (arith, fits, counted, more, all)) earlier)
        ends

  Lives-Waiting :
      {files : Files} {ls : List Life} {taken built again : List Bytes} {f : Files}
      → Lives p files ls taken built again f
      → All (IsSteady cfg) ls
      → contents (files cfg.buffer_path) ≡ []
      → limit cfg <ℤ pos (2 ^ 62)
      → pos (total built) ≤ℤ limit cfg
      → All (IsLine max_line) built
      → Waiting cfg taken built again f
  Lives-Waiting installed steady clean small fits lines = record {
    queue = [];
    saved = clean;
    lines = tt;
    same = Perm.refl [];
    grown = omega arith;
  }
  Lives-Waiting
        (lived {ls} {taken} {built} {again} {f} before l s roll n {texts} {a} config begun unsent
          run {own = own} ends)
        steady clean small fits lines =
      let (earlier, last) = All-append_inv (IsLine max_line) built (texts ++ own) lines in
      let (was_steady, (is_steady, _)) = All-append_inv (IsSteady cfg) ls (l ∷ []) steady in
      let room : pos (total built) ≤ℤ limit cfg =
        omega (arith, fits, total-append built (texts ++ own)) in
      lived-Waiting (Lives-Waiting before was_steady clean small room earlier) l s roll n is_steady
        config begun unsent run ends small fits last

  -- Behind any number of lives of the program, each of which ended between two events of its loop,
  -- inside flushBuffer before the rename of its Persist, or inside a tick behind its flush and before
  -- its Append, the next start finds in the file a queue that is, with all that the server has taken in
  -- all lives, in some order, what their ticks built and what it has taken of the flushes that were cut,
  -- each as often. What is taken is what got a 2xx reply: nothing is lost, and only the entries of a
  -- flush that was cut can get a second one, although an entry whose reply was lost is sent again too.
  -- The heartbeat of a tick that was cut counts only if it got a 2xx reply. All lives have the same
  -- settings and no call on files fails in them, the program was installed with no buffer file or an
  -- empty one, the size of the settings is below 2^62 bytes and has room for all that was built, and
  -- each of these is one line of the file.
  pub Lives-complete :
      {files : Files} {ls : List Life} {taken built again : List Bytes} {f : Files}
      → Lives p files ls taken built again f
      → All (IsSteady cfg) ls
      → contents (files cfg.buffer_path) ≡ []
      → limit cfg <ℤ pos (2 ^ 62)
      → pos (total built) ≤ℤ limit cfg
      → All (IsLine max_line) built
      → (b : Buffer) × (Buffer.new cfg.buffer_path cfg.buffer_max_size_mb (healthy f)
          ≡ (Buffer.made b, healthy f))
        × Perm (taken ++ b.entries) (built ++ again)
  Lives-complete lives steady clean small fits lines =
      let w = Lives-Waiting lives steady clean small fits lines in
      (made cfg w.queue, reloaded cfg w small fits, w.same)
