-- ===== src/Lib.antt =====
-- nadi-agent is a program that runs on a machine, collects metrics in cycles, and sends each cycle's
-- heartbeat to a server. What the server refuses is queued, in memory and in a file, and is sent again
-- with a growing delay. This library models the agent's own logic and proves what it promises.
--
-- The parts, with the files of the repository that they model:
--
--   Int64            int64 of Go, as time.Duration and the sizes use it, with wrap-around
--   Backoff          internal/backoff/backoff.go: New, Next, Reset, Current
--   Disk             the file system as the buffer and the configuration use it: each call takes the
--                    next outcome of a list and may fail, a write after any number of its bytes
--   Buffer           internal/buffer/buffer.go: New (with load), Append, Peek, Pop, Persist, Len,
--                    SizeBytes, and dropOldestToFit and writeAll below them
--   Regexp, Payload  internal/payload/payload.go: the wire types, MaxMetrics, MaxNameLen and
--                    ValidMetricName with its regular expression
--   Collector, Registry   internal/collector/collector.go and registry.go: Register,
--                    NewRegistry, Names, Collect, runCollector, IsNoDataError
--   Config           internal/config/config.go: Load, applyDefaults, Validate
--   Network          net/http as the sender uses it: each request takes the next reply of a list
--   Sender           internal/sender/sender.go: New, Build, SendRaw, Send, buildHeartbeat
--   Agent            internal/agent/agent.go: Run, flushBuffer, nextInterval and the retrier
--   DiskCollector    internal/collector/disk.go: Collect, shouldReport, sanitize, sanitizePart
--   NetworkCollector internal/collector/network.go: Collect, rate, publicIPChanged
--   Strings          the functions of Go's strings, bufio and unicode that the collectors call
--   Collectors       what the collectors share: floats, files, and the commands of
--                    internal/collector/exec.go
--   HostCollectors   internal/collector/cpu.go, memory.go and self.go: Collect
--   Smart, Gpu       internal/collector/disk_smart.go and gpu.go: Collect and the parsers below it
--   Battery, Energy, Temperature   internal/collector/battery.go, energy.go and temperature.go, with a
--                    child each for the file of Linux and that of macOS: from the kernel's files or
--                    a tool's output to the metrics
--   Turn             internal/collector/turn.go and turn_stats.go (Turn.Stats): Collect,
--                    findTurnProcess, processCPUPercent, readCoturnStats, parseCoturnStats,
--                    firstNumber
--   Suite            a cycle of all these collectors, with what each finds as a value; in
--                    Suite.Factories the init functions of their files, and their New and Name
--   MockServer       cmd/mockserver/main.go: handleHeartbeat, handleReceived
--   Startup          cmd/nadi-agent/main.go: run up to its loop, and the level of newLogger
--   Program          cmd/nadi-agent/main.go: run and main as a whole, and the lives of the program one
--                    behind the other (Program.Lives)
--   System           the agent against the mock server
--   Prelude, Examples   shared names and lemmas; runs on concrete inputs
--
-- The children of a module hold what is proved of it. How the parts interact: Startup loads the
-- configuration, makes the registry, the sender and the buffer, and enters the loop. A state of the
-- loop (Agent.Agent) is the retry timer, the delay of the ticker, the buffer, the disk and the network.
-- Agent.Run relates the state before any number of events to the state behind them: a tick collects,
-- builds, flushes the queue and sends; a retry flushes the queue; the end of the context stops. The
-- order of the events is free, but a retry needs an armed timer. Agent.Outbox is what the loop promises
-- without its order, its files and its timer: a multiset of waiting heartbeats, one of those that the
-- server has taken and one of the lost, with the moves between them. Program.History chains starts and runs
-- over the files: a run can end between any two events, inside flushBuffer behind any number of its rounds
-- and before its Persist has renamed the new file, or inside a tick behind its flush, with the heartbeat of the tick sent or not and
-- not yet appended. A heartbeat that was sent in a flush that is cut stays in the file and is sent again. In
-- System the list of requests and replies of a run is the list that the mock server answers, where requests
-- and replies can be lost. What is called taken are the bodies of the requests for which the sender saw a 2xx
-- reply; a server can have recorded more, when a reply is lost.
--
-- Choices. A method that changes its receiver returns the receiver after it; an error is a value.
-- Every method of the buffer holds its mutex throughout, so it is one step. An int64 is an integer
-- with the wrap-around written out. A byte string is a list of numbers. A Go map is a list in the
-- order of the range over it, which is arbitrary. The rand.Int64N of a tick is the remainder of an
-- arbitrary number. Code outside the repository is a parameter (json.Marshal, the JSON decoder of
-- the server, yaml.Unmarshal, url.Parse, the URL test of net/http, float64) or an
-- arbitrary list of outcomes (files, replies). The loop of flushBuffer runs on fuel, one more than
-- the entries of the queue, so that a round is left when the queue is empty.
--
-- What a collector reads of the machine is an argument of its Collect: the results of gopsutil's calls,
-- the contents of files, the output of a command for its name and arguments, the lines that arrive on
-- a connection before its end or its deadline, and the clock. Texts are lists of code points, as valid
-- UTF-8; a position in a text counts them, which no function of the collectors can tell from bytes, as
-- they cut texts only beside ASCII characters. A float64 is a type with the operations of
-- Collectors.Float, strconv.ParseFloat among them, of which nothing is assumed; the count of failures
-- in Registry has its own, of which is assumed that 0 is not above 0 and that any increment is.
-- unicode.ToLower, sort.Strings and the decoder of smartctl's JSON are parameters too.
--
-- Not modelled: the run of a command with its deadline (os/exec), the dial and the deadlines of
-- turn_stats.go, the counters of gopsutil, which cpu.go primes; the routes of the mock
-- server; flags, signals and logging, and the real time between two events. A life of Program.History
-- does not end inside Append; what a write of Append that was cut leaves is in Buffer.Crash. The counters
-- of the network are one pair or an error: that gopsutil returns an empty list without an error, where
-- network.go would panic, is not modelled.
pub mod Prelude
pub mod Int64
pub mod Strings
pub mod Backoff
pub mod Disk
pub mod Buffer
pub mod Regexp
pub mod Payload
pub mod Collector
pub mod Registry
pub mod Collectors
pub mod HostCollectors
pub mod Smart
pub mod Gpu
pub mod Battery
pub mod Energy
pub mod Temperature
pub mod Turn
pub mod Suite
pub mod Config
pub mod Network
pub mod Sender
pub mod Agent
pub mod DiskCollector
pub mod NetworkCollector
pub mod MockServer
pub mod System
pub mod Program
pub mod Startup
pub mod Examples
