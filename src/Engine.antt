-- ===== src/Engine.antt =====
-- internal/engine/engine.go: the driver of the raft library. A method that fails leaves the engine
-- as it then is, so an error carries the engine. A callback is a number, and the engine records the
-- calls it makes. What a method of etcd's RawNode, or of the storage, does is a parameter.
pub mod Interfaces
pub mod Batch
pub mod Client
pub mod Handled
pub mod Replica
pub mod Reads
pub mod Balance
pub mod Waiters
pub mod Boot
pub mod Durable
pub mod OnDisk
pub mod Proposals
pub mod Toy
mod Tests
mod DiskTests
use quorum_log.Prelude.{
  ℕ, ◌+◌, ◌-◌, ◌%◌, ◌^◌, String, Bool, true, false, not, ◌&&◌, ◌||◌, Option, none, some, List, [],
  ◌∷◌, ◌++◌, ltb, leb, if◌then◌else◌, ◌==◌, nat_eq, string_eq, Except, ok, err, ◌>>=◌,
}
use quorum_log.Prelude.GoMap
use quorum_log.Prelude.GoMap.{GoMap}
use quorum_log.Prelude.Decimal.{decimal}
use Prim.Native.String.{◌++◌ as concat}
use quorum_log.Sm.{Op, Sm, Result, apply}
use quorum_log.Sm.Persist.{Json, encode, decode_op, snapshot, restore}
use quorum_log.Raftpb.{
  ConfState, Entry, Snapshot, HardState, ConfChange, entry_normal, entry_conf_change,
  conf_change_remove_node,
}
use quorum_log.Engine.Interfaces.{
  ReadState, Ready, Raft, Disk, CreateError, out_of_date, create_failed,
}

pub record Config : Type 0 where
  pub id : ℕ
  pub incarnation : ℕ
  pub snapshot_threshold : ℕ
  pub snapshot_trailing : ℕ
  -- whether OnConfChange is set
  pub on_conf_change : Bool

-- A call of a callback, with what it is told; `told` is a call of OnConfChange.
pub data Call : Type 0 where
  replied : ℕ → Result → Call
  changed : ℕ → Call
  readable : ℕ → Call
  told : ConfChange → Call

-- propKey
unfoldable pub prop_key : String → ℕ → String
prop_key client_id req_id = concat client_id (concat "/" (decimal req_id))

-- The difference of two numbers of 64 bits.
abbrev pub sub_uint64 : ℕ → ℕ → ℕ
sub_uint64 a b = ((a + 2 ^ 64) - b) % 2 ^ 64

module _ (raft : Raft) (disk : Disk) where
  pub record Engine : Type 0 where
    pub cfg : Config
    pub rn : raft.Node
    pub st : disk.Files
    pub sm : Sm
    pub lead : ℕ
    pub applied_index : ℕ
    pub snap_index : ℕ
    pub conf_state : ConfState
    pub removed : Bool
    pub prop_waiters : GoMap String ℕ
    pub cc_waiters : GoMap ℕ ℕ
    pub read_seq : ℕ
    pub read_waiters : GoMap String ℕ
    pub pending_read : List ReadState
    pub calls : List Call

  pub data EngineError : Type 0 where
    not_leader : ℕ → EngineError
    refused : EngineError
    storage_failed : disk.Failure → EngineError
    restore_failed : EngineError
    bad_entry : ℕ → EngineError
    bad_conf_change : EngineError

  -- The outcome of a method: an error leaves an engine too.
  pub record Failed : Type 0 where
    pub error : EngineError
    pub left : Engine

  -- A method that returns an error.
  abbrev pub Step : Type 0
  Step = Except Failed Engine

module _ {raft : Raft} {disk : Disk} where
  abbrev pub fail : EngineError raft disk → Engine raft disk → Step raft disk
  fail error left = err (record { error = error; left = left })

  -- The call of the waiter of a proposal, if there is one, and its removal.
  unfoldable pub reply : Engine raft disk → String → Result → Engine raft disk
  reply e key res = elim (GoMap.get e.prop_waiters key) [
    | none ↦ e
    | some cb ↦ record e {
      prop_waiters = GoMap.delete e.prop_waiters key;
      calls = replied cb res ∷ e.calls;
    }
  ]

  -- The same for a membership change.
  unfoldable pub confirm : Engine raft disk → ℕ → Engine raft disk
  confirm e id = elim (GoMap.get e.cc_waiters id) [
    | none ↦ e
    | some cb ↦ record e { cc_waiters = GoMap.delete e.cc_waiters id; calls = changed cb ∷ e.calls }
  ]

  -- The same for a read.
  unfoldable pub release : Engine raft disk → String → Engine raft disk
  release e rctx = elim (GoMap.get e.read_waiters rctx) [
    | none ↦ e
    | some cb ↦ record e {
      read_waiters = GoMap.delete e.read_waiters rctx;
      calls = readable cb ∷ e.calls;
    }
  ]

  -- `if err != nil { return err }` after a call of the storage
  unfoldable pub stored : Engine raft disk → disk.Files × Option disk.Failure → Step raft disk
  stored e (files, none) = ok (record e { st = files })
  stored e (files, some failure) = fail (storage_failed failure) (record e { st = files })
