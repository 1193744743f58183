-- ===== src/Raftpb.antt =====
-- The messages of go.etcd.io/raft/v3/raftpb, as this program reads and fills them.
use quorum_log.Prelude.{ℕ, List}

pub record Entry : Type 0 where
  pub index : ℕ
  pub term : ℕ
  pub kind : ℕ
  pub payload : List ℕ

pub record ConfState : Type 0 where
  pub voters : List ℕ
  pub learners : List ℕ

-- A snapshot with its metadata.
pub record Snapshot : Type 0 where
  pub index : ℕ
  pub term : ℕ
  pub conf_state : ConfState
  pub payload : List ℕ

pub record HardState : Type 0 where
  pub term : ℕ
  pub vote : ℕ
  pub commit : ℕ

pub record ConfChange : Type 0 where
  pub id : ℕ
  pub kind : ℕ
  pub node_id : ℕ
  pub context : List ℕ

-- The numbers of the types of an entry and of a change.
abbrev pub entry_normal : ℕ
entry_normal = 0

abbrev pub entry_conf_change : ℕ
entry_conf_change = 1

abbrev pub conf_change_add_node : ℕ
conf_change_add_node = 0

abbrev pub conf_change_remove_node : ℕ
conf_change_remove_node = 1

-- MsgSnap
abbrev pub msg_snap : ℕ
msg_snap = 7
