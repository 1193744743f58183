-- ===== src/Server/Isolation.antt =====
-- The two guards of internal/server/server.go that ask internal/server/chaos.go: in handleRaft and in
-- senderLoop.
use quorum_log.Prelude.{
  ℕ, ◌≡◌, ◌≢◌, refl, ap, Bool, true, false, none, some, List, [], ◌∷◌, arith, nat_eq,
}
use quorum_log.Prelude.GoMap
use quorum_log.Sm.Persist.{Json}
use quorum_log.Engine.Interfaces.{Raft, Disk}
use quorum_log.Chaos.{ChaosIsolateReq, allow_inbound, allow_outbound, handle_chaos_isolate}
use quorum_log.Chaos.Rules.{asked, named, isolate-allow}
use quorum_log.Server.{Server}
use quorum_log.Server.Peers.{PeersJson}
use quorum_log.Server.Loop.{running, receive, take_message}

module _ {raft : Raft} {disk : Disk} (s : Server raft disk) where
  blocked_in :
      (pj : PeersJson) (json : Json) (fuel : ℕ) (m : raft.Message)
      → allow_inbound s.chaos (raft.message_from m) ≡ false
      → receive pj json fuel s m ≡ (running s, 204)
  unfolding receive
  blocked_in pj json fuel m h = rw h refl

  blocked_out :
      (to : ℕ) (out : raft.Message) (queue : List raft.Message)
      → allow_outbound s.chaos to ≡ false
      → GoMap.get_or s.senders to [] ≡ out ∷ queue
      → take_message s to ≡ (record s { senders = GoMap.put s.senders to queue }, none)
  unfolding take_message
  blocked_out to out queue h waits = rw (take_message, waits, h) refl

module _ {raft : Raft} {disk : Disk} where
  -- The server after a request to its endpoint.
  abbrev pub asked_to : Server raft disk → ChaosIsolateReq → Server raft disk
  asked_to s req = record s {
    chaos = (handle_chaos_isolate s.eng.cfg.id s.chaos "POST" (some req)).0;
  }

  -- After a request that names a peer and turns both directions on, by itself or since it leaves both
  -- out, the node answers a message of the peer with status 204 and does nothing else; and of the
  -- messages that wait for the peer it takes the first from its buffer, sends nothing, and changes
  -- nothing else, so that its engine is not told.
  pub isolated :
      (s : Server raft disk) (pj : PeersJson) (json : Json) (fuel : ℕ) (req : ChaosIsolateReq)
      (m out : raft.Message) (queue : List raft.Message)
      → req.peers ≢ []
      → asked req.drop_inbound req.drop_outbound ≡ (true, true)
      → named (raft.message_from m) req.peers ≡ true
      → GoMap.get_or s.senders (raft.message_from m) [] ≡ out ∷ queue
      → (receive pj json fuel (asked_to s req) m ≡ (running (asked_to s req), 204))
        × (take_message (asked_to s req) (raft.message_from m) ≡ (
          record (asked_to s req) { senders = GoMap.put s.senders (raft.message_from m) queue },
          none,
        ))
  isolated s pj json fuel req m out queue some_peers both name waits =
      let id = raft.message_from m in
      let (inbound, outbound) = isolate-allow s.eng.cfg.id s.chaos req id some_peers in
      let i = ap (λ (d : Bool × Bool). d.0) both in
      let o = ap (λ (d : Bool × Bool). d.1) both in
      (
        blocked_in (asked_to s req) pj json fuel m (ground (arith, inbound, i, name)),
        blocked_out (asked_to s req) id out queue (ground (arith, outbound, o, name)) waits,
      )
