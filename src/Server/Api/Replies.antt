-- ===== src/Server/Api/Replies.antt =====
-- What ends the handlers of internal/server/server.go that wait: the second part of handleWrite, of
-- handleRead and of handleMembers; and handleStatus.
use quorum_log.Prelude.{ℕ, String, Option, none, some, nat_eq, string_eq}
use quorum_log.Prelude.GoMap
use quorum_log.Prelude.GoMap.{GoMap}
use quorum_log.Sm
use quorum_log.Sm.{Op, Result}
use quorum_log.Engine.Interfaces.{Raft, Disk}
use quorum_log.Engine.Client.{cancel_proposal, is_leader, voters}
use quorum_log.Server.{Server, wrote, applied, may_read}
use quorum_log.Server.Api.{
  Reply, kv_resp, err_resp, change_applied, status_resp, proposal_timed_out, read_timed_out,
  change_timed_out, Wake, answered, timed_out, read_local,
}

module _ {raft : Raft} {disk : Disk} where
  -- What a handler has received from its channel, which is then empty.
  abbrev pub received : Server raft disk → ℕ → Server raft disk
  received s cb = record s { answers = GoMap.delete s.answers cb }

  -- The select of handleWrite. There is no reply while the channel is empty.
  unfoldable pub finish_write :
      Server raft disk → ℕ → Op → Wake → Option (Server raft disk × Reply raft disk)
  finish_write s cb op timed_out = some (
    record s { eng = cancel_proposal s.eng op.client_id op.req_id },
    err_resp 503 proposal_timed_out,
  )
  finish_write s cb op answered = elim (GoMap.get s.answers cb) [
    | some (wrote res) ↦ some (received s cb, kv_resp res.val res.ok)
    | _ ↦ none
  ]

  -- The select of handleRead
  unfoldable pub finish_read :
      Server raft disk → ℕ → String → Wake → Option (Server raft disk × Reply raft disk)
  finish_read s cb key timed_out = some (s, err_resp 503 read_timed_out)
  finish_read s cb key answered = elim (GoMap.get s.answers cb) [
    | some may_read ↦ some (received s cb, read_local s key)
    | _ ↦ none
  ]

  -- The select of handleMembers
  unfoldable pub finish_change :
      Server raft disk → ℕ → Wake → Option (Server raft disk × Reply raft disk)
  finish_change s cb timed_out = some (s, err_resp 503 change_timed_out)
  finish_change s cb answered = elim (GoMap.get s.answers cb) [
    | some applied ↦ some (received s cb, change_applied)
    | _ ↦ none
  ]

  -- handleStatus
  unfoldable pub handle_status : Server raft disk → Reply raft disk
  handle_status s = status_resp (record {
    id = s.eng.cfg.id;
    leader = s.eng.lead;
    is_leader = is_leader s.eng;
    applied = s.eng.applied_index;
    snap_index = s.eng.snap_index;
    voters = voters s.eng;
    peers = s.peers;
    keys = Sm.len s.eng.sm;
  })
