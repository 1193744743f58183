-- ===== src/Engine/Client.antt =====
-- What the clients of internal/engine/engine.go call: Propose, ProposeConfChange, ReadIndex.
use quorum_log.Prelude.{
  ℕ, ◌+◌, ◌%◌, ◌^◌, String, Bool, true, false, not, Option, none, some, List, if◌then◌else◌, nat_eq,
  string_eq, ok,
}
use quorum_log.Prelude.GoMap
use quorum_log.Prelude.GoMap.{GoMap}
use quorum_log.Prelude.Decimal.{decimal}
use Prim.Native.String.{◌++◌ as concat}
use quorum_log.Sm.{Op, apply}
use quorum_log.Sm.Persist.{Json, encode}
use quorum_log.Raftpb.{ConfChange}
use quorum_log.Engine.Interfaces.{Raft, Disk}
use quorum_log.Engine.{Engine, Step, fail, not_leader, refused, prop_key, reply}

module _ {raft : Raft} {disk : Disk} where
  -- IsLeader
  abbrev pub is_leader : Engine raft disk → Bool
  is_leader e = raft.is_leader e.rn

  -- The waiter that Propose registers, when the callback is not nil.
  unfoldable pub await : Engine raft disk → String → Option ℕ → Engine raft disk
  await e key none = e
  await e key (some cb) = record e { prop_waiters = GoMap.put e.prop_waiters key cb }

  -- The test of the error of the library's Propose.
  unfoldable pub proposed : Engine raft disk → String → raft.Node × Bool → Step raft disk
  proposed e key (node, true) = ok (record e { rn = node })
  proposed e key (node, false) =
      fail refused (record e { rn = node; prop_waiters = GoMap.delete e.prop_waiters key })

  -- Propose, in the build without the planted fault
  unfoldable pub propose : Json → Engine raft disk → Op → Option ℕ → Step raft disk
  propose json e op cb =
      let key = prop_key op.client_id op.req_id in
      if not (is_leader e)
      then fail (not_leader e.lead) e
      else proposed (await e key cb) key (raft.propose e.rn (encode json op))

  -- CancelProposal
  unfoldable pub cancel_proposal : Engine raft disk → String → ℕ → Engine raft disk
  cancel_proposal e client_id req_id = record e {
    prop_waiters = GoMap.delete e.prop_waiters (prop_key client_id req_id);
  }

  -- The waiter that ProposeConfChange registers.
  unfoldable pub await_change : Engine raft disk → ℕ → Option ℕ → Engine raft disk
  await_change e id none = e
  await_change e id (some cb) = record e { cc_waiters = GoMap.put e.cc_waiters id cb }

  -- The test of the error of the library's ProposeConfChange.
  unfoldable pub proposed_change : Engine raft disk → ℕ → raft.Node × Bool → Step raft disk
  proposed_change e id (node, true) = ok (record e { rn = node })
  proposed_change e id (node, false) =
      fail refused (record e { rn = node; cc_waiters = GoMap.delete e.cc_waiters id })

  -- ProposeConfChange
  unfoldable pub propose_conf_change : Engine raft disk → ConfChange → Option ℕ → Step raft disk
  propose_conf_change e change cb =
      if not (is_leader e)
      then fail (not_leader e.lead) e
      else proposed_change (await_change e change.id cb) change.id
          (raft.propose_conf_change e.rn change)

  -- The context of the next read: "%d/%d/%d".
  unfoldable pub read_context : Engine raft disk → String
  read_context e = concat (decimal e.cfg.id) (
      concat "/"
        (concat (decimal e.cfg.incarnation) (concat "/" (decimal ((e.read_seq + 1) % 2 ^ 64)))))

  -- ReadIndex
  unfoldable pub read_index : Engine raft disk → ℕ → Engine raft disk
  read_index e cb = record e {
    read_seq = (e.read_seq + 1) % 2 ^ 64;
    read_waiters = GoMap.put e.read_waiters (read_context e) cb;
    rn = raft.read_index e.rn (read_context e);
  }

  -- plantedApplyBeforeQuorum, in the build with the planted fault
  unfoldable pub planted_apply_before_quorum : Engine raft disk → Op → Engine raft disk
  planted_apply_before_quorum e op =
      let (s, res) = apply e.sm op in
      reply (record e { sm = s }) (prop_key op.client_id op.req_id) res

  -- HasReady
  abbrev pub has_ready : Engine raft disk → Bool
  has_ready e = raft.has_ready e.rn

  -- Tick
  unfoldable pub tick : Engine raft disk → Engine raft disk
  tick e = record e { rn = raft.tick e.rn }

  -- Campaign, whose error the callers drop
  unfoldable pub campaign : Engine raft disk → Engine raft disk
  campaign e = record e { rn = (raft.campaign e.rn).0 }

  -- Step, and whether it returned no error
  unfoldable pub step : Engine raft disk → raft.Message → Engine raft disk × Bool
  step e m = let (node, taken) = raft.step e.rn m in (record e { rn = node }, taken)

  -- ReportSnapshot
  unfoldable pub report_snapshot : Engine raft disk → ℕ → Bool → Engine raft disk
  report_snapshot e to reached = record e { rn = raft.report_snapshot e.rn to reached }

  -- Voters
  abbrev pub voters : Engine raft disk → List ℕ
  voters e = raft.voters e.rn
