-- ===== src/Engine/Boot.antt =====
-- New of internal/engine/engine.go. What the storage and the raft library do at a start is a
-- parameter.
use quorum_log.Prelude.{
  ℕ, Bool, false, none, some, List, [], ◌∷◌, if◌then◌else◌, ◌==◌, nat_eq, Except, ok, err, ◌>>=◌,
}
use quorum_log.Prelude.GoMap
use quorum_log.Raftpb.{Snapshot}
use quorum_log.Sm
use quorum_log.Sm.{Sm}
use quorum_log.Sm.Persist.{Json, restore}
use quorum_log.Engine.Interfaces.{Raft, Disk}
use quorum_log.Engine.{Engine, Config}

-- storage.Open with whether there was any state, the snapshot of the storage, raft.NewRawNode with the
-- applied index, and Bootstrap with the peers' numbers.
pub record Boot (raft : Raft) (disk : Disk) : Type 1 where
  pub Failure : Type 0
  pub open_files : Except Failure (disk.Files × Bool)
  pub snapshot : disk.Files → Except Failure Snapshot
  pub new_raw_node : ℕ → disk.Files → ℕ → Except Failure raft.Node
  pub bootstrap : raft.Node → List ℕ → Except Failure raft.Node
  pub bad_snapshot : Failure

module _ {raft : Raft} {disk : Disk} (boot : Boot raft disk) (json : Json) where
  -- The state machine, with the snapshot if it is not empty.
  unfoldable pub restored : Snapshot → Except boot.Failure Sm
  restored snap =
      if snap.index == 0
      then ok Sm.init
      else elim (restore json snap.payload) [ none ↦ err boot.bad_snapshot | some s ↦ ok s ]

  -- The call of Bootstrap, for a node without state that has peers.
  unfoldable pub bootstrapped : Bool → List ℕ → raft.Node → Except boot.Failure raft.Node
  bootstrapped has_state [] node = ok node
  bootstrapped has_state (p ∷ peers) node =
      if has_state then ok node else boot.bootstrap node (p ∷ peers)

  unfoldable pub new_engine : Config → List ℕ → Except boot.Failure (Engine raft disk)
  new_engine cfg peers = do
    opened ← boot.open_files
    snap ← boot.snapshot opened.0
    s ← restored snap
    node ← boot.new_raw_node cfg.id opened.0 snap.index
    started ← bootstrapped opened.1 peers node
    ok (record {
      cfg = cfg;
      rn = started;
      st = opened.0;
      sm = s;
      lead = 0;
      applied_index = snap.index;
      snap_index = snap.index;
      conf_state =
          if snap.index == 0 then record { voters = []; learners = [] } else snap.conf_state;
      removed = false;
      prop_waiters = GoMap.empty;
      cc_waiters = GoMap.empty;
      read_seq = 0;
      read_waiters = GoMap.empty;
      pending_read = [];
      calls = [];
    })
