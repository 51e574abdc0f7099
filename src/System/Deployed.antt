-- ===== src/System/Deployed.antt =====
-- The program of cmd/nadi-agent/main.go over all its lives, against the server of cmd/mockserver/main.go.
use mathlib.Core.List.{Mem, Mem-prop, not-mem-nil, mem-append, mem-append_left}
use mathlib.Core.List.Perm
use mathlib.Core.Logic.{◌∨₁◌}
use mathlib.Core.Logic.Or
use nadi_agent.Prelude.{ℕ, ◌∷◌, ◌^◌, ◌≡◌, Option, List, [], ◌++◌, Bytes, All}
use nadi_agent.Int64.{pos, ◌≤ℤ◌, ◌<ℤ◌}
use nadi_agent.Disk.{Files, contents}
use nadi_agent.Buffer
use nadi_agent.Buffer.{Buffer, max_line}
use nadi_agent.Buffer.Reload.{IsLine, healthy}
use nadi_agent.Buffer.Trim.{total}
use nadi_agent.Network.{Network, delivered}
use nadi_agent.Payload.{Heartbeat}
use nadi_agent.Config.{Config, loaded, load}
use nadi_agent.Agent.{Agent}
use nadi_agent.Startup.{Started, started}
use nadi_agent.MockServer.{Recorder}
use nadi_agent.MockServer.Serve.{Served}
use nadi_agent.Program.{Setting, start_on, entered, Loops}
use nadi_agent.Program.History.{Life, disk_of, Ends, Lives}
use nadi_agent.Program.Waiting.{IsSteady, limit}
use nadi_agent.Program.Lives.{Lives-complete}
use nadi_agent.System.Lossless.{IsRecorded, Served-IsRecorded, delivered-IsRecorded}

-- Lives of the program, as in Program.History, and a server that goes on recording from life to life.
pub data Deployed {ℓ κ} {F : Type ℓ} {C : Type κ} (decode : Bytes → Option (Heartbeat F))
    (query : Bytes → Bytes → Bytes) (p : Setting F C) (files : Files) (idle : Recorder F)
    : List Life → List Bytes → List Bytes → List Bytes → Files → Recorder F → Type (ℓ ⊔ κ) where
  installed : Deployed decode query p files idle [] [] [] [] files idle
  lived :
      {ls : List Life} {taken built again : List Bytes} {f : Files} {r r' : Recorder F}
      → Deployed decode query p files idle ls taken built again f r
      → (l : Life) (s : Started C) (roll : ℕ) (n : Network) {texts : List Bytes} {a : Agent}
      → (load p.parse_url p.unmarshal p.config_path (disk_of f l.1)).0 ≡ loaded l.0
      → start_on p (disk_of f l.1) ≡ started s
      → n.posted ≡ []
      → Loops p s (entered p s roll n) texts a
      → {n' : Network} {own cut : List Bytes} {f' : Files} → Ends p s a n' own cut f'
      → Served decode query r n'.posted r'
      → Deployed decode query p files idle
          (ls ++ l ∷ [])
          (taken ++ delivered n')
          (built ++ (texts ++ own))
          (again ++ cut)
          f'
          r'

module _ {ℓ κ} {F : Type ℓ} {C : Type κ} (decode : Bytes → Option (Heartbeat F))
    (query : Bytes → Bytes → Bytes) (p : Setting F C) where
  Deployed-Lives :
      {files : Files} {idle : Recorder F} {ls : List Life} {taken built again : List Bytes}
      {f : Files} {r : Recorder F}
      → Deployed decode query p files idle ls taken built again f r
      → Lives p files ls taken built again f
  Deployed-Lives installed = Lives.installed
  Deployed-Lives (lived before l s roll n read begun unsent run ends served) =
      Lives.lived (Deployed-Lives before) l s roll n read begun unsent run ends

  Deployed-IsRecorded :
      {files : Files} {idle : Recorder F} {ls : List Life} {taken built again : List Bytes}
      {f : Files} {r : Recorder F} (text : Bytes)
      → Deployed decode query p files idle ls taken built again f r
      → Mem text taken
      → IsRecorded decode text r
  Deployed-IsRecorded text installed m = absurd (not-mem-nil m)
  Deployed-IsRecorded text (lived before l s roll n read begun unsent run {n' = n'} ends served) m =
      Or.elim Mem-prop (mem-append.0 m)
        (λ earlier.
          Served-IsRecorded decode query text served (Deployed-IsRecorded text before earlier))
        (λ own. delivered-IsRecorded decode query n' text served own)

  -- Over any number of lives of the program, every heartbeat that one of its ticks built stands in the
  -- recorder of the server or in the queue that the next start finds in the file, whichever requests and
  -- replies are lost. Each life ended between two events of its loop, inside flushBuffer before the
  -- rename of its Persist, or inside a tick behind its flush and before its Append, where the heartbeat
  -- of a tick that was cut counts only if it got a 2xx reply. All lives have the same settings and no
  -- call on files fails in them, the program was installed with no buffer file or an empty one, the size
  -- of the settings is below 2^62 bytes and has room for all that was built, and each of these is one
  -- line of the file.
  pub Deployed-complete :
      (cfg : Config) {files : Files} {idle : Recorder F} {ls : List Life}
      {taken built again : List Bytes} {f : Files} {r : Recorder F}
      → Deployed decode query p files idle ls taken built again f r
      → All (IsSteady cfg) ls
      → contents (files cfg.buffer_path) ≡ []
      → limit cfg <ℤ pos (2 ^ 62)
      → pos (total built) ≤ℤ limit cfg
      → All (IsLine max_line) built
      → (b : Buffer) × (Buffer.new cfg.buffer_path cfg.buffer_max_size_mb (healthy f)
          ≡ (Buffer.made b, healthy f))
        × ((text : Bytes) → Mem text built → Mem text b.entries ∨₁ IsRecorded decode text r)
  Deployed-complete cfg {again = again} deployed steady clean small fits lines =
      let (b, reloaded, same) =
        Lives-complete p cfg (Deployed-Lives deployed) steady clean small fits lines in
      (
        b,
        reloaded,
        λ text m. Or.symm (
            Or.imp (Deployed-IsRecorded text deployed) (λ i. i)
              (mem-append.0 ((Perm.mem_iff same).1 (mem-append_left again m)))),
      )
