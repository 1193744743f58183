-- ===== src/Engine/Interfaces.antt =====
-- What the engine uses of etcd's raft library, and of its storage.
use quorum_log.Prelude.{ℕ, String, Bool, Option, List}
use quorum_log.Raftpb.{Entry, ConfState, Snapshot, HardState, ConfChange}

-- raft.ReadState
pub record ReadState : Type 0 where
  pub index : ℕ
  pub request_ctx : String

-- raft.Ready. A part that the library's tests call empty is `none`.
pub record Ready (Message : Type 0) : Type 0 where
  pub snapshot : Option Snapshot
  pub entries : List Entry
  pub hard_state : Option HardState
  -- the leader that the soft state names
  pub soft_state : Option ℕ
  pub read_states : List ReadState
  pub committed_entries : List Entry
  pub messages : List Message

-- raft.RawNode, and the decoder of raftpb.ConfChange
pub record Raft : Type 1 where
  pub Node : Type 0
  pub Message : Type 0
  pub is_leader : Node → Bool
  pub has_ready : Node → Bool
  pub ready : Node → Node × Ready Message
  pub advance : Node → Ready Message → Node
  -- whether the proposal was taken
  pub propose : Node → List ℕ → Node × Bool
  pub propose_conf_change : Node → ConfChange → Node × Bool
  pub apply_conf_change : Node → ConfChange → Node × ConfState
  pub read_index : Node → String → Node
  pub unmarshal_conf_change : List ℕ → Option ConfChange
  pub tick : Node → Node
  -- whether the call returned no error
  pub campaign : Node → Node × Bool
  pub step : Node → Message → Node × Bool
  -- true for SnapshotFinish, false for SnapshotFailure
  pub report_snapshot : Node → ℕ → Bool → Node
  -- the first of the two majorities of the configuration
  pub voters : Node → List ℕ
  -- the fields of raftpb.Message
  pub message_to : Message → ℕ
  pub message_from : Message → ℕ
  pub message_kind : Message → ℕ
  pub message_index : Message → ℕ
  pub message_term : Message → ℕ
  pub unmarshal_message : List ℕ → Option Message

-- The errors of CreateSnapshot: raft.ErrSnapOutOfDate, and the others.
pub data CreateError (Failure : Type 0) : Type 0 where
  out_of_date : CreateError Failure
  create_failed : Failure → CreateError Failure

-- The methods of storage.DiskStorage that the engine calls. Each leaves the files in some state,
-- also when it fails.
pub record Disk : Type 1 where
  pub Files : Type 0
  pub Failure : Type 0
  pub save_snapshot : Files → Snapshot → Files × Option Failure
  pub append : Files → List Entry → Files × Option Failure
  pub set_hard_state : Files → HardState → Files × Option Failure
  pub create_snapshot : Files → ℕ → ConfState → List ℕ → ℕ → Files × Option (CreateError Failure)
