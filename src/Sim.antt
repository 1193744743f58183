-- ===== src/Sim.antt =====
-- internal/sim: the simulator of a cluster. The random numbers of math/rand are a parameter, with the
-- floating-point numbers they are compared with; a step of the logical clock is a number; a callback
-- is a number of a table.
pub mod Network
pub mod Supervisor
pub mod Quorum
pub mod Order
pub mod Client
pub mod Retry
pub mod Generations
mod Tests
use quorum_log.Prelude.{ℕ, String, Bool, Option, List}
use quorum_log.Prelude.GoMap.{GoMap}
use quorum_log.Engine.Interfaces.{Raft, Disk}
use quorum_log.Engine.{Engine}

-- rand.Rand and float64
pub record Rand : Type 1 where
  pub State : Type 0
  pub Float : Type 0
  pub float64 : State → State × Float
  pub less : Float → Float → Bool
  pub add : Float → Float → Float
  -- Intn and Int63n
  pub intn : State → ℕ → State × ℕ

pub record NetConfig (rand : Rand) : Type 0 where
  pub drop_prob : rand.Float
  pub dup_prob : rand.Float
  pub min_delay : ℕ
  pub max_delay : ℕ

-- event
pub record Event (Message : Type 0) : Type 0 where
  pub at : ℕ
  pub seq : ℕ
  pub from : ℕ
  pub msg : Message

-- Node; a crashed node has no engine.
pub record Node (raft : Raft) (disk : Disk) : Type 0 where
  pub id : ℕ
  pub eng : Option (Engine raft disk)
  pub alive : Bool

module _ (rand : Rand) (raft : Raft) (disk : Disk) where
  -- Cluster, without its clients
  pub record Cluster : Type 0 where
    pub net : NetConfig rand
    pub rng : rand.State
    pub now : ℕ
    pub seq : ℕ
    pub inc : ℕ
    pub nodes : GoMap ℕ (Node raft disk)
    pub ids : List ℕ
    pub queue : List (Event raft.Message)
    pub group : GoMap ℕ ℕ
    pub no_leader_since : ℕ
    pub trace_hash : ℕ
    pub delivered : ℕ
    pub dropped : ℕ
