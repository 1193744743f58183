-- ===== src/Server/Api/Members.antt =====
-- handleMembers of internal/server/server.go up to its select.
use quorum_log.Prelude.{
  ℕ, String, ◌||◌, Option, none, some, [], if◌then◌else◌, ◌==◌, nat_eq, string_eq, Except, ok, err,
}
use quorum_log.Prelude.Text.{trim_prefix, parse_uint, Parsed, parsed, bad_syntax, out_of_range}
use quorum_log.Raftpb.{ConfChange, conf_change_add_node, conf_change_remove_node}
use quorum_log.Sm.Persist.{Json}
use quorum_log.Engine.Interfaces.{Raft, Disk}
use quorum_log.Engine.Client.{propose_conf_change}
use quorum_log.Server.{Server}
use quorum_log.Server.Peers.{PeersJson}
use quorum_log.Server.Loop.{process_ready}
use quorum_log.Server.Api.{
  MemberReq, Request, http_error, Stage, replied, write_propose_err, wait_for, took_number,
}

-- The case `http.MethodPost`, with the number `now` for the change.
unfoldable pub add_change : PeersJson → ℕ → Option MemberReq → Option ConfChange
add_change pj now none = none
add_change pj now (some req) =
    if req.id == 0 || req.url == ""
    then none
    else some (record {
      id = now;
      kind = conf_change_add_node;
      node_id = req.id;
      context = pj.to_bytes req.url;
    })

-- The case `http.MethodDelete`.
unfoldable pub remove_change : ℕ → Parsed → Option ConfChange
remove_change now bad_syntax = none
remove_change now out_of_range = none
remove_change now (parsed id) =
    if id == 0
    then none
    else some (record { id = now; kind = conf_change_remove_node; node_id = id; context = [] })

-- The switch of handleMembers: the change, or the status of the error.
unfoldable pub member_change : PeersJson → ℕ → Request → Except ℕ ConfChange
unfolding add_change remove_change
member_change pj now r =
    if r.method == "POST"
    then or_bad (add_change pj now r.member_body)
    else if r.method == "DELETE"
    then or_bad (remove_change now (parse_uint (trim_prefix r.path "/members/")))
    else err 405
  where
    or_bad : Option ConfChange → Except ℕ ConfChange
    or_bad none = err 400
    or_bad (some change) = ok change

module _ {raft : Raft} {disk : Disk} (pj : PeersJson) (json : Json) (fuel : ℕ) where
  unfoldable pub propose_change : Server raft disk → String → ConfChange → Stage raft disk
  propose_change s uri change = elim (propose_conf_change s.eng change (some s.next)) [
    | err f ↦
        (let s' = took_number (record s { eng = f.left }) in
          replied s' (write_propose_err s' uri f.error))
    | ok e ↦ wait_for s.next (process_ready pj json fuel (took_number (record s { eng = e })))
  ]

  unfoldable pub handle_members : ℕ → Server raft disk → Request → Stage raft disk
  unfolding propose_change
  handle_members now s r = elim (member_change pj now r) [
    | err status ↦ replied s (http_error status)
    | ok change ↦ propose_change s r.uri change
  ]
