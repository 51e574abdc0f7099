-- ===== src/Program/History.antt =====
-- The lives of the program in cmd/nadi-agent/main.go, one behind the other, and how each of them ends.
use nadi_agent.Buffer.{temp}
use nadi_agent.Prelude.{◌≢◌, ℕ, ◌≡◌, Bool, true, Option, List, [], ◌∷◌, ◌++◌, Bytes}
use nadi_agent.Int64.{ℤ}
use nadi_agent.Disk.{Disk, Files, Outcome}
use nadi_agent.Network.{Network, delivered}
use nadi_agent.Payload.{Heartbeat}
use nadi_agent.Config.{Config, loaded, load}
use nadi_agent.Sender.{Sender, built, send_raw}
use nadi_agent.Agent.{Agent, Cycle, build_of, flush_loop}
use nadi_agent.Agent.Held.{flushed}
use nadi_agent.Startup.{Started, started}
use nadi_agent.Program.{Setting, start_on, entered, Loops}

-- What a life finds beside the files: the settings that Load reads, and the outcomes of calls on files.
abbrev pub Life : Type 0
Life = Config × List Outcome

abbrev pub disk_of : Files → List Outcome → Disk
disk_of f faults = record { files = f; faults = faults }

-- How a life can end in the state `a` of its loop, by a signal, a kill or a crash: between two events;
-- inside flushBuffer, behind any number of rounds of its loop and before its Persist has renamed the new
-- file, whatever is in that by then; or inside a tick, behind its flush, with its own heartbeat sent or
-- not and not yet appended. What is left is the network, the tick's own heartbeat if the server has taken
-- it, what it has taken of the flush that was cut, and the files. An end inside Append is not among them.
pub data Ended {ℓ} {F : Type ℓ} (marshal : Heartbeat F → Option Bytes) (valid_url : Bytes → Bool)
    (interval jitter : ℤ) (snd : Sender) (a : Agent)
    : Network → List Bytes → List Bytes → Files → Type ℓ where
  between : Ended marshal valid_url interval jitter snd a a.network [] [] a.disk.files
  in_flush :
      (rounds : ℕ) (sent : List Bytes) (f : Files)
      → a.running ≡ true
      → delivered (flush_loop (send_raw valid_url snd) rounds a.buf a.network 0).1
        ≡ delivered a.network ++ sent
      → ((q : Bytes) → q ≢ temp a.buf.path → f q ≡ a.disk.files q)
      → Ended marshal valid_url interval jitter snd a
          (flush_loop (send_raw valid_url snd) rounds a.buf a.network 0).1
          []
          sent
          f
  before_send :
      a.running ≡ true
      → Ended marshal valid_url interval jitter snd a
          (flushed (send_raw valid_url snd) a).network
          []
          []
          (flushed (send_raw valid_url snd) a).disk.files
  behind_send :
      (c : Cycle F) (text : Bytes) (own : List Bytes)
      → a.running ≡ true
      → build_of marshal valid_url interval jitter snd c ≡ built text
      → delivered (send_raw valid_url snd text (flushed (send_raw valid_url snd) a).network).1
        ≡ delivered (flushed (send_raw valid_url snd) a).network ++ own
      → Ended marshal valid_url interval jitter snd a
          (send_raw valid_url snd text (flushed (send_raw valid_url snd) a).network).1
          own
          []
          (flushed (send_raw valid_url snd) a).disk.files

module _ {ℓ κ} {F : Type ℓ} {C : Type κ} (p : Setting F C) where
  -- The ends of a life that `s` started.
  abbrev pub Ends : Started C → Agent → Network → List Bytes → List Bytes → Files → Type ℓ
  Ends s = Ended p.marshal p.valid_url s.interval s.jitter s.snd

  -- The lives, with what the server has taken, what the ticks built, what it has taken of the flushes that
  -- were cut, and the files behind them. A tick that was cut counts among those that built something only
  -- if the server has taken it. A life finds the files and nothing else of those before it.
  pub data Lives (files : Files)
      : List Life → List Bytes → List Bytes → List Bytes → Files → Type (ℓ ⊔ κ) where
    installed : Lives files [] [] [] [] files
    lived :
        {ls : List Life} {taken built again : List Bytes} {f : Files}
        → Lives files ls taken built again f
        → (l : Life) (s : Started C) (roll : ℕ) (n : Network) {texts : List Bytes} {a : Agent}
        → (load p.parse_url p.unmarshal p.config_path (disk_of f l.1)).0 ≡ loaded l.0
        → start_on p (disk_of f l.1) ≡ started s
        → n.posted ≡ []
        → Loops p s (entered p s roll n) texts a
        → {n' : Network} {own cut : List Bytes} {f' : Files} → Ends s a n' own cut f'
        → Lives files
            (ls ++ l ∷ [])
            (taken ++ delivered n')
            (built ++ (texts ++ own))
            (again ++ cut)
            f'
