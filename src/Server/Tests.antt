-- ===== src/Server/Tests.antt =====
-- internal/server/server.go on a small node.
use quorum_log.Prelude.{
  ℕ, ◌≡◌, refl, String, Bool, true, false, none, some, List, [], ◌∷◌, length, nat_eq, string_eq,
  lookup, without,
}
use quorum_log.Prelude.GoMap
use quorum_log.Prelude.GoMap.{GoMap}
use quorum_log.Prelude.Text.{trim_prefix, parse_uint}
use quorum_log.Sm.Toy
use quorum_log.Engine.Interfaces.{Ready}
use quorum_log.Engine.Toy.{toy_raft_as, toy_raft, toy_disk, start_as, no_batch}
use quorum_log.Engine.Batch.{
  install, append_entries, set_hard_state, track, apply_entries, maybe_snapshot, flush, flush_reads,
  handle_batch, process, handle_ready,
}
use quorum_log.Engine.Client.{tick}
use quorum_log.Chaos.{ChaosIsolateReq, new_chaos_state, direction}
use quorum_log.Chaos.Rules.{has}
use quorum_log.Server.{Server}
use quorum_log.Server.Peers.{PeersJson, Config, initial_peers}
use quorum_log.Server.Loop.{
  Outcome, running, fatal, exhausted, answer, hear, called, offer, enqueue, enqueue_all,
  process_ready, tick_turn, take_message, receive,
}
use quorum_log.Server.Isolation.{asked_to, isolated}
use quorum_log.Server.Rejoin.{or_else, last_saved, get-initial_peers}
use quorum_log.Server.Api.{write_request}
use quorum_log.Server.Api.Members.{add_change, remove_change, member_change}

program : Unit {0}
unfolding install append_entries set_hard_state track apply_entries maybe_snapshot flush flush_reads
    handle_batch process handle_ready tick answer hear called offer enqueue enqueue_all
    process_ready tick_turn take_message receive GoMap.get GoMap.put GoMap.delete GoMap.get_or
    lookup without has direction write_request trim_prefix parse_uint add_change remove_change
    member_change
program = tt

abbrev peers_json : PeersJson
peers_json = record {
  marshal_indent = λ ps. 1 ∷ [];
  unmarshal = λ bytes. some (("2", "http://b") ∷ []);
  to_string = λ bytes. "http://c";
  to_bytes = λ s. 1 ∷ [];
}

abbrev peers : GoMap ℕ String
peers = record { entries = (1, "http://a") ∷ (2, "http://b") ∷ [] }

abbrev node_as : (leads : Bool) → List (Ready ℕ) → Server (toy_raft_as leads) toy_disk
node_as leads batches = record {
  eng = record (start_as leads batches) { lead = 2 };
  peers = peers;
  senders = GoMap.empty;
  chaos = new_chaos_state;
  answers = GoMap.empty;
  next = 1;
  peers_file = none;
  writable = true;
}

-- A batch with a message to 3.
abbrev sending : Ready ℕ
sending = record no_batch { messages = 103 ∷ [] }

abbrev node : Server toy_raft toy_disk
node = node_as true (sending ∷ sending ∷ [])

abbrev server_of : Outcome toy_raft toy_disk → Server toy_raft toy_disk
server_of (running s) = s
server_of (fatal e) = node
server_of (exhausted s) = s

abbrev ticked_node : Server toy_raft toy_disk
ticked_node = unfold program in server_of (tick_turn peers_json Toy.toy 3 node)

two_sent : length (GoMap.get_or ticked_node.senders 3 []) ≡ 2
unfolding program
two_sent = refl

abbrev request : ChaosIsolateReq
request = record { peers = 2 ∷ []; drop_inbound = none; drop_outbound = none }

-- Two messages wait for 2.
abbrev filled_node : Server toy_raft toy_disk
filled_node = record node { senders = record { entries = (2, 102 ∷ 112 ∷ []) ∷ [] } }

isolated_example :
    (receive peers_json Toy.toy 9 (asked_to filled_node request) 721
      ≡ (running (asked_to filled_node request), 204))
    × (take_message (asked_to filled_node request) 2 ≡ (
      record (asked_to filled_node request) {
        senders = GoMap.put filled_node.senders 2 (112 ∷ []);
      },
      none,
    ))
unfolding program
isolated_example =
    isolated filled_node peers_json Toy.toy 9 request 721 102 (112 ∷ []) (λ e. cc e) refl refl refl

abbrev flags : Config
flags = record {
  id = 1;
  peers = peers;
  join = false;
  snapshot_threshold = 0;
  snapshot_trailing = 0;
  tick_interval = 0;
}

get-initial_peers_example :
    GoMap.get (initial_peers peers_json flags (some (1 ∷ []))) 1
    ≡ or_else (last_saved 1 (("2", "http://b") ∷ [])) (GoMap.get peers 1)
unfolding program
get-initial_peers_example =
    get-initial_peers peers_json flags (1 ∷ []) (("2", "http://b") ∷ []) 1 (refl, (refl, tt)) refl
