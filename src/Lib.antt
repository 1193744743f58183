-- ===== src/Lib.antt =====
-- quorum-log: a replicated key-value log around etcd's raft.
--
-- The program is a key-value state machine (internal/sm) that every node applies the committed log
-- to, a driver of the raft library (internal/engine) that persists with internal/storage, a server
-- (internal/server) around it, and a checker (internal/check) that decides with the porcupine
-- library whether the histories that the simulator (internal/sim) and the multi-host gate
-- (internal/multihost) record are linearizable.
--
-- The files and the code they model:
--   Prelude           Boolean tests, integers, lists, sorting, association maps and errors as
--                     values, with the lemmas on them; GoMap is a Go map, as a list of its entries
--   Sm                internal/sm/sm.go: `apply` is SM.Apply, split at its blank lines into `cached`,
--                     `execute` and `remember`; `get`, `len` and `init` are Get, Len and New
--   Check             internal/check/check.go: KVModel, whose Step, Partition and Init are `step`,
--                     `partition` and `init`; Check.Linearizable says what porcupine decides
--   Check.Recorder    the Recorder of internal/check/check.go: `invoke`, `return_` and `history`
--   Check.Http        internal/check/http_history.go: HTTPHistory, with the body of its loop as
--                     `scan_event`; Check.Http.Verdict has CheckHTTPHistoryWithin
--   Raftpb            the messages of the raft library that the program reads and fills
--   Storage           internal/storage/storage.go: the write-ahead log, replayWAL and the lines that
--                     Append and resetWAL write; Storage.Lines is the bufio scanner it reads with
--   Storage.Disk      DiskStorage: Append, SetHardState, SaveSnapshot and CreateSnapshot; Storage.Reopen
--                     has Open. The directory is a map from names to bytes, Storage.Files has the calls
--                     of the package os as steps on it, of which so many succeed and the next one fails
--                     half-way, which is how an error and a crash are modelled
--   Sm.Persist        Op.Encode, DecodeOp, SM.Snapshot and SM.Restore over encoding/json; Sm.Digest has
--                     SM.Hash over the hash of hash/fnv
--   Engine            internal/engine/engine.go: the engine's state and the calls of its waiters;
--                     Engine.Batch has HandleReady with applyEntry, maybeSnapshot and flushReads,
--                     and Engine.Client has Propose, CancelProposal, ProposeConfChange and ReadIndex.
--                     A method that fails carries the engine that it leaves. Callbacks are numbers,
--                     and the engine notes the calls it makes.
--   Chaos             internal/server/chaos.go: the drop sets, the endpoint's handlers and, in
--                     Chaos.Address, checkLoopbackAddr over the package net
--   Server            internal/server/server.go: Server.Loop has processReadyLocked, enqueueLocked, the
--                     senders and handleRaft, Server.Peers the peers map and its file, Server.Api the
--                     handlers of clients, each as a part up to its select and one from it on. What
--                     holds the mutex is one function
--   Sim               internal/sim/sim.go: Sim.Network has the partitions, the queue and the delivery of
--                     messages, Sim.Supervisor the starts, crashes, elections and the work of the engines
--   Sim.Client        internal/sim/client.go: a step of a client, and the callbacks that it gives to the
--                     engines
--   Engine.OnDisk     the storage as the engine uses it
--   Multihost         internal/multihost, by file: Multihost.Hosts is inventory.go, Multihost.Preflight
--                     preflight.go (Collect has collectHostFacts, Evaluate EvaluateDistinct, Report
--                     Preflight), Multihost.Exec exec.go, Multihost.History history.go,
--                     Multihost.Deploy status.go and deploy.go with their scripts in
--                     Multihost.Scripts, Multihost.Client the client of traffic.go and
--                     Multihost.Traffic its workload, Multihost.Faults the steps of faults.go with
--                     runFull, runLeaderIsolationOnly and RestartAllAndVerify in
--                     Multihost.Faults.Scenarios, Multihost.Measure the measurements of faults.go,
--                     Multihost.Gate the criteria and the verdict of run.go with checkrun.go. A step
--                     of a scenario takes the runner and returns it with a result or an error
--
-- Parameters for what the repository does not contain: `Porcupine` is the search of the porcupine
-- library, which is relied on for sound verdicts; `Encoding` is encoding/json and encoding/base64 on
-- the records of the log, `Json` encoding/json on the state machine's; `Raft` is etcd's RawNode, of
-- which nothing is assumed; `Net` is the package net. `Disk` is the interface of the engine to the
-- storage, `Boot` what they do when a node starts; `Memory` is raft's MemoryStorage, `FileJson` and
-- `PeersJson` are encoding/json on the other files, `Rand` is math/rand with its floating-point
-- numbers. Of the multi-host driver, `Floats` is float64, `Web` net/http with the clock and the random
-- numbers of a client, `Processes` os/exec, `Machine` the driver's own machine, and `Site` the executor,
-- the requests to /status and the clock as the scenarios use them; of none of these is anything assumed
-- but in a theorem's own hypotheses. Each but `Boot` and `Processes` has a concrete instance among the tests.
--
-- Bounds: numbers of the source that are unsigned are natural numbers and signed times are integers;
-- HTTPHistory bounds them, and its guard is modelled; the counter of the reads and the
-- distance to the last snapshot wrap at 64 bits. The loops are structural recursions,
-- but the decimal numeral of `n` is printed with fuel n + 1, which is more than its digits; and the
-- loops that drain the engine's batches run on fuel, since it is the raft library that decides when no
-- batch is left, and have an outcome of their own when it is used up. The multi-host driver's loops
-- that poll until a deadline run on fuel, and return an error of their own when it is used up; what is
-- said of a scenario holds with any fuel, and a test runs one to its end. A buffer of the server holds 4096 messages, as in the source.
--
-- Not modelled: the consensus algorithm, which is the raft library's; the server's listeners and
-- signals; a whole step of the simulator, and its synchronous calls; of the
-- multi-host driver the JSON of the inventory, the build and copy of the binary, the order in which Run
-- puts its parts together, the writing of the artifacts and the printed report; the commands, which
-- read flags and print.
pub mod Prelude
pub mod Raftpb
pub mod Sm
pub mod Check
pub mod Storage
pub mod Engine
pub mod Chaos
pub mod Server
pub mod Sim
pub mod Multihost
