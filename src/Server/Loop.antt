-- ===== src/Server/Loop.antt =====
-- The loops of internal/server/server.go around the engine: processReadyLocked, enqueueLocked,
-- senderLoop, handleRaft and tickLoop.
use quorum_log.Prelude.{
  ℕ, zero, suc, String, Bool, true, false, not, Option, none, some, List, [], ◌∷◌, ◌++◌, length,
  ltb, if◌then◌else◌, ◌==◌, nat_eq, string_eq, ok, err,
}
use mathlib.Core.List.{reverse}
use quorum_log.Prelude.GoMap
use quorum_log.Prelude.GoMap.{GoMap}
use quorum_log.Raftpb.{msg_snap}
use quorum_log.Sm.Persist.{Json}
use quorum_log.Engine.Interfaces.{Raft, Disk}
use quorum_log.Engine.{Engine, EngineError, Call, replied, changed, readable, told}
use quorum_log.Engine.Batch.{handle_ready}
use quorum_log.Engine.Client.{has_ready, tick, step, report_snapshot}
use quorum_log.Chaos.{allow_inbound, allow_outbound}
use quorum_log.Server.{Server, Answer, wrote, applied, may_read}
use quorum_log.Server.Peers.{PeersJson, on_conf_change}

-- The size of the buffer of a channel to a sender.
abbrev pub queue_bound : ℕ
queue_bound = 4096

module _ (raft : Raft) (disk : Disk) where
  -- The outcome of a loop: the server, or log.Fatalf, or more turns than the fuel allows.
  pub data Outcome : Type 0 where
    running : Server raft disk → Outcome
    fatal : EngineError raft disk → Outcome
    exhausted : Server raft disk → Outcome

-- sendMsg, with what the post of the message brings: whether it was answered with status 204.
unfoldable pub send_msg : {Message : Type 0} → (String → Message → Bool) → String → Message → Bool
send_msg post url m = if url == "" then false else post url m

-- The reply of handleRaft, when the process goes on.
abbrev pub raft_status : Bool → ℕ
raft_status taken = if taken then 204 else 500

module _ {raft : Raft} {disk : Disk} where
  -- The send of a callback on its handler's channel; a second one is dropped.
  unfoldable pub answer : Server raft disk → ℕ → Answer → Server raft disk
  answer s cb a = elim (GoMap.get s.answers cb) [
    | none ↦ record s { answers = GoMap.put s.answers cb a }
    | some _ ↦ s
  ]

  -- The calls of the engine, in their order.
  unfoldable pub hear : PeersJson → Server raft disk → List Call → Server raft disk
  unfolding answer
  hear json s [] = s
  hear json s (replied cb res ∷ calls) = hear json (answer s cb (wrote res)) calls
  hear json s (changed cb ∷ calls) = hear json (answer s cb applied) calls
  hear json s (readable cb ∷ calls) = hear json (answer s cb may_read) calls
  hear json s (told change ∷ calls) = hear json (on_conf_change json s change) calls

  -- The server after a method of the engine, with the calls that the method made.
  unfoldable pub called : PeersJson → Server raft disk → Engine raft disk → Server raft disk
  unfolding hear
  called json s e = hear json (record s { eng = record e { calls = [] } }) (reverse e.calls)

  -- The select of enqueueLocked, on the buffer of the channel.
  unfoldable pub offer : Server raft disk → raft.Message → List raft.Message → Server raft disk
  offer s m queue =
      if ltb (length queue) queue_bound
      then record s { senders = GoMap.put s.senders (raft.message_to m) (queue ++ m ∷ []) }
      else if raft.message_kind m == msg_snap
      then record s { eng = report_snapshot s.eng (raft.message_to m) false }
      else s

  -- enqueueLocked; the sender of a new channel has an empty buffer.
  unfoldable pub enqueue : Server raft disk → raft.Message → Server raft disk
  unfolding offer
  enqueue s m = offer s m (GoMap.get_or s.senders (raft.message_to m) [])

  unfoldable pub enqueue_all : Server raft disk → List raft.Message → Server raft disk
  unfolding enqueue
  enqueue_all s [] = s
  enqueue_all s (m ∷ messages) = enqueue_all (enqueue s m) messages

  -- processReadyLocked, for so many turns at most.
  unfoldable pub process_ready : PeersJson → Json → ℕ → Server raft disk → Outcome raft disk
  unfolding called enqueue_all
  process_ready pj json zero s = if has_ready s.eng then exhausted s else running s
  process_ready pj json (suc fuel) s = elim (has_ready s.eng) [
    | false ↦ running s
    | true ↦ elim (handle_ready json s.eng) [
      | err f ↦ fatal f.error
      | ok (e, messages) ↦ process_ready pj json fuel (enqueue_all (called pj s e) messages)
    ]
  ]

  -- A turn of tickLoop.
  unfoldable pub tick_turn : PeersJson → Json → ℕ → Server raft disk → Outcome raft disk
  unfolding process_ready
  tick_turn pj json fuel s = process_ready pj json fuel (record s { eng = tick s.eng })

  -- What senderLoop takes from its channel: the message and the URL of the peer if it is to be
  -- sent, nothing if it is blocked or there is none.
  unfoldable pub take_message :
      Server raft disk → ℕ → Server raft disk × Option (raft.Message × String)
  take_message s to = elim (GoMap.get_or s.senders to []) [
    | [] ↦ (s, none)
    | m ∷ queue ↦ (
      record s { senders = GoMap.put s.senders to queue },
      if not (allow_outbound s.chaos to) then none else some (m, GoMap.get_or s.peers to ""),
    )
  ]

  -- What senderLoop does after it has sent a message.
  unfoldable pub message_sent :
      PeersJson → Json → ℕ → Server raft disk → ℕ → raft.Message → Bool → Outcome raft disk
  unfolding process_ready
  message_sent pj json fuel s to m reached =
      if raft.message_kind m == msg_snap
      then process_ready pj json fuel (record s { eng = report_snapshot s.eng to reached })
      else running s

  -- handleRaft on a message.
  unfoldable pub receive :
      PeersJson → Json → ℕ → Server raft disk → raft.Message → Outcome raft disk × ℕ
  unfolding process_ready
  receive pj json fuel s m =
      if not (allow_inbound s.chaos (raft.message_from m))
      then (running s, 204)
      else (let (e, taken) = step s.eng m in
          (process_ready pj json fuel (record s { eng = e }), raft_status taken))

  -- handleRaft, on the body of the request if it can be read.
  unfoldable pub handle_raft :
      PeersJson → Json → ℕ → Server raft disk → Option (List ℕ) → Outcome raft disk × ℕ
  unfolding receive
  handle_raft pj json fuel s none = (running s, 400)
  handle_raft pj json fuel s (some body) = elim (raft.unmarshal_message body) [
    | none ↦ (running s, 400)
    | some m ↦ receive pj json fuel s m
  ]
