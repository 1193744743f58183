-- ===== src/Server.antt =====
-- internal/server/server.go: the runtime of a node. A callback of the engine is the number of the
-- handler that waits for it; a send on the handler's channel of one slot is an entry of `answers`.
-- The mutex makes each of the functions below one step; what a goroutine does without it stands
-- between two steps.
pub mod Loop
pub mod Peers
pub mod Api
pub mod Rejoin
pub mod Isolation
mod Tests
use quorum_log.Prelude.{ℕ, String, Bool, true, false, Option, none, some, List, [], ◌∷◌, ◌++◌}
use quorum_log.Prelude.GoMap.{GoMap}
use quorum_log.Sm.{Result}
use quorum_log.Engine.Interfaces.{Raft, Disk}
use quorum_log.Engine.{Engine}
use quorum_log.Chaos.{ChaosState}

-- What a channel of a handler brings.
pub data Answer : Type 0 where
  wrote : Result → Answer
  applied : Answer
  may_read : Answer

module _ (raft : Raft) (disk : Disk) where
  pub record Server : Type 0 where
    pub eng : Engine raft disk
    pub peers : GoMap ℕ String
    -- the buffers of the channels, the oldest message first
    pub senders : GoMap ℕ (List raft.Message)
    pub chaos : ChaosState
    pub answers : GoMap ℕ Answer
    -- the number of the next handler
    pub next : ℕ
    -- the contents of peers.json, and whether a write of it succeeds
    pub peers_file : Option (List ℕ)
    pub writable : Bool
