-- ===== src/Server/Api.antt =====
-- The client API of internal/server/server.go. A handler runs up to its `select` and then once more,
-- when its channel brings an answer or five seconds are over. What encoding/json makes of a body and
-- net/url of a query is in the request; the text of an error is its constructor.
pub mod Replies
pub mod Members
use quorum_log.Prelude.{
  ℕ, ◌+◌, String, Bool, true, false, not, ◌&&◌, ◌||◌, Option, none, some, List, [], ◌∷◌,
  if◌then◌else◌, ◌==◌, nat_eq, string_eq, Except, ok, err,
}
use Prim.Native.String.{◌++◌ as concat}
use quorum_log.Prelude.GoMap
use quorum_log.Prelude.GoMap.{GoMap}
use quorum_log.Prelude.Text.{trim_prefix, parse_uint, number_of}
use quorum_log.Sm
use quorum_log.Sm.{Op, Result, op_put, op_delete}
use quorum_log.Sm.Persist.{Json}
use quorum_log.Engine.Interfaces.{Raft, Disk}
use quorum_log.Engine.{Engine, EngineError, not_leader}
use quorum_log.Engine.Client.{propose, cancel_proposal, read_index}
use quorum_log.Server.{Server, Answer, wrote, applied, may_read}
use quorum_log.Server.Peers.{PeersJson}
use quorum_log.Server.Loop.{Outcome, running, fatal, exhausted, process_ready}

pub record KvWriteReq : Type 0 where
  pub op : String
  pub value : String
  pub client_id : String
  pub req_id : ℕ

pub record MemberReq : Type 0 where
  pub id : ℕ
  pub url : String

pub record Request : Type 0 where
  pub method : String
  pub path : String
  pub uri : String
  pub query : String → String
  pub write_body : Option KvWriteReq
  pub member_body : Option MemberReq

pub record StatusResp : Type 0 where
  pub id : ℕ
  pub leader : ℕ
  pub is_leader : Bool
  pub applied : ℕ
  pub snap_index : ℕ
  pub voters : List ℕ
  pub peers : GoMap ℕ String
  pub keys : ℕ

module _ (raft : Raft) (disk : Disk) where
  -- The error of an errResp.
  pub data Reason : Type 0 where
    engine_error : EngineError raft disk → Reason
    no_leader proposal_timed_out read_timed_out change_timed_out : Reason

  -- What a handler writes: http.Error with a status, or JSON with its status.
  pub data Reply : Type 0 where
    http_error : ℕ → Reply
    kv_resp : String → Bool → Reply
    err_resp : ℕ → Reason → Reply
    -- status 307: the location, the leader and its URL
    redirected : String → ℕ → String → Reply
    change_applied : Reply
    status_resp : StatusResp → Reply

  -- Where a handler is after its first part: it has replied, or it waits on its channel; or the
  -- process has ended, or the loop has not.
  pub data Stage : Type 0 where
    replied : Server raft disk → Reply → Stage
    waiting : Server raft disk → ℕ → Stage
    died : EngineError raft disk → Stage
    looping : Server raft disk → Stage

-- What ends the wait: a send on the channel, or time.After.
pub data Wake : Type 0 where
  answered timed_out : Wake

module _ {raft : Raft} {disk : Disk} where
  -- writeProposeErr
  unfoldable pub write_propose_err :
      Server raft disk → String → EngineError raft disk → Reply raft disk
  write_propose_err s uri (not_leader lead) =
      let url = GoMap.get_or s.peers lead "" in
      if not (lead == 0) && not (url == "")
      then redirected (concat url uri) lead url
      else err_resp 503 no_leader
  write_propose_err s uri e = err_resp 500 (engine_error e)

  abbrev pub wait_for : ℕ → Outcome raft disk → Stage raft disk
  wait_for cb (running s) = waiting s cb
  wait_for cb (fatal e) = died e
  wait_for cb (exhausted s) = looping s

  -- The server with the number of one more handler given out.
  abbrev pub took_number : Server raft disk → Server raft disk
  took_number s = record s { next = s.next + 1 }

  abbrev get_resp : Option String → Reply raft disk
  get_resp none = kv_resp "" false
  get_resp (some v) = kv_resp v true

  -- The value of a key in the local state machine.
  abbrev pub read_local : Server raft disk → String → Reply raft disk
  read_local s key = get_resp (Sm.get s.eng.sm key)

-- The request of handleWrite: from the query for a deletion, from the body else.
unfoldable pub write_request : Request → Option KvWriteReq
write_request r =
    if r.method == "DELETE"
    then some (record {
      op = op_delete;
      value = "";
      client_id = r.query "client_id";
      req_id = if r.query "req_id" == "" then 0 else number_of (parse_uint (r.query "req_id"));
    })
    else r.write_body

unfoldable pub to_op : String → KvWriteReq → Op
to_op key req = record {
  kind = if req.op == "" then op_put else req.op;
  key = key;
  val = req.value;
  client_id = req.client_id;
  req_id = req.req_id;
}

module _ {raft : Raft} {disk : Disk} (pj : PeersJson) (json : Json) (fuel : ℕ) where
  -- The proposal of handleWrite.
  unfoldable pub propose_write : Server raft disk → String → Op → Stage raft disk
  unfolding write_propose_err
  propose_write s uri op = elim (propose json s.eng op (some s.next)) [
    | err f ↦
        (let s' = took_number (record s { eng = f.left }) in
          replied s' (write_propose_err s' uri f.error))
    | ok e ↦ wait_for s.next (process_ready pj json fuel (took_number (record s { eng = e })))
  ]

  -- handleWrite up to its select
  unfoldable pub handle_write : Server raft disk → Request → String → Stage raft disk
  unfolding propose_write write_request to_op
  handle_write s r key = elim (write_request r) [
    | none ↦ replied s (http_error 400)
    | some req ↦ propose_write s r.uri (to_op key req)
  ]

  -- The case "linearizable" of handleRead up to its select.
  unfoldable pub read_linearizable : Server raft disk → Stage raft disk
  read_linearizable s =
      wait_for s.next
        (process_ready pj json fuel (took_number (record s { eng = read_index s.eng s.next })))

  -- handleRead up to its select
  unfoldable pub handle_read : Server raft disk → Request → String → Stage raft disk
  unfolding read_linearizable
  handle_read s r key =
      if r.query "consistency" == "local"
      then replied s (read_local s key)
      else if r.query "consistency" == "linearizable" || r.query "consistency" == ""
      then read_linearizable s
      else replied s (http_error 400)

  -- handleKV
  unfoldable pub handle_kv : Server raft disk → Request → Stage raft disk
  unfolding handle_read handle_write
  handle_kv s r =
      let key = trim_prefix r.path "/kv/" in
      if key == ""
      then replied s (http_error 400)
      else if r.method == "GET"
      then handle_read s r key
      else if r.method == "PUT" || r.method == "POST" || r.method == "DELETE"
      then handle_write s r key
      else replied s (http_error 405)
