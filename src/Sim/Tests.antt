-- ===== src/Sim/Tests.antt =====
-- internal/sim/sim.go on a small cluster.
use quorum_log.Prelude.{
  ◌++◌, ◌≤◌, All, ℕ, ◌≡◌, refl, true, false, some, [], ◌∷◌, select, insert_by, sort_by, arith,
  nat_eq, lookup, without,
}
use quorum_log.Prelude.GoMap
use quorum_log.Prelude.GoMap.{GoMap}
use quorum_log.Engine.Toy.{toy_raft, toy_disk, start}
use quorum_log.Sim.{Rand, Node, Cluster}
use quorum_log.Sim.Network.{
  partition, put_group, put_groups, running, is_up, connected, reach, reaches_quorum, due_of,
}
use quorum_log.Sim.Client.{Client, World, write_answered}
use quorum_log.Sim.Generations.{IsWithin, IsOver, still, and_then, write_called, Turns-IsOver}
use quorum_log.Sm.{Result}
use quorum_log.Sm.Toy.{toy}
use quorum_log.Check.Recorder.{new_recorder, return_}
use quorum_log.Sim.Quorum.{quorums-connected}
use quorum_log.Sim.Order.{InTurn, waiting, due-InTurn}
use mathlib.Core.List.{Perm}

program : Unit {0}
unfolding partition put_group put_groups running is_up connected reach reaches_quorum due_of
    GoMap.get GoMap.put GoMap.get_or lookup without select insert_by sort_by write_answered return_
program = tt

abbrev toy_rand : Rand
toy_rand = record {
  State = ℕ;
  Float = ℕ;
  float64 = λ s. (s, s);
  less = λ a b. false;
  add = λ a b. a;
  intn = λ s n. (s, 0);
}

abbrev up : ℕ → Node toy_raft toy_disk
up id = record { id = id; eng = some (start []); alive = true }

-- Node 3 is cut off from 1 and 2.
abbrev cluster : Cluster toy_rand toy_raft toy_disk
cluster = record {
  net = record { drop_prob = 0; dup_prob = 0; min_delay = 1; max_delay = 3 };
  rng = 0;
  now = 4;
  seq = 3;
  inc = 3;
  nodes = record { entries = (1, up 1) ∷ (2, up 2) ∷ (3, up 3) ∷ [] };
  ids = 1 ∷ 2 ∷ 3 ∷ [];
  queue =
      record { at = 4; seq = 1; from = 1; msg = 102 }
      ∷ record { at = 6; seq = 2; from = 1; msg = 103 }
      ∷ record { at = 3; seq = 3; from = 2; msg = 101 }
      ∷ [];
  group = record { entries = (3, 1) ∷ [] };
  no_leader_since = 0;
  trace_hash = 0;
  delivered = 0;
  dropped = 0;
}

-- The side of the majority reaches a quorum, the other does not.
sides : (reaches_quorum cluster 1 ≡ true) × (reaches_quorum cluster 3 ≡ false)
unfolding program
sides = (refl, refl)

quorums-connected_example : connected cluster 1 2 ≡ true
unfolding program
quorums-connected_example =
    quorums-connected cluster 1 2 (start []) (start []) refl refl refl refl refl

abbrev world : World toy_rand toy_raft toy_disk
world = record { cluster = cluster; recorder = new_recorder; callbacks = GoMap.empty; next = 0 }

-- A client with its second operation pending, of three.
abbrev client : Client toy_rand
client = record {
  idx = 0;
  name = "c0";
  num_ops = 3;
  keys = "k0" ∷ [];
  get_frac = 0;
  del_frac = 0;
  op_timeout = 60;
  ops_done = 1;
  req_id = 2;
  gen = 2;
  pending = some (record {
    rec_id = 1;
    op = record { kind = "put"; key = "k0"; val = "c0.2;"; client_id = "c0"; req_id = 2 };
    is_read = false;
    read_key = "";
    inflight = true;
    deadline = 60;
  });
  target = 1;
}

abbrev result : Result
result = record { val = "c0.2;"; ok = true }

-- It is answered, and once more by a callback of the first operation.
abbrev answered : Client toy_rand
answered = unfold program in (write_answered world client 2 1 result).1

abbrev answered_again : Client toy_rand
answered_again = unfold program in (write_answered world answered 1 0 result).1

Turns-IsOver_example : IsWithin answered_again × IsOver answered_again 1
unfolding program
Turns-IsOver_example =
    Turns-IsOver toy_raft toy_disk {half = 0} {json = toy} {cl = client} {cl' = answered_again} 1
      (and_then (and_then still (write_called world client 2 1 result))
        (write_called world answered 1 0 result))
      ((λ h. omega arith), omega arith) (refl, omega arith)

due-InTurn_example :
    InTurn (due_of cluster)
    × Perm (due_of cluster ++ waiting cluster) cluster.queue
    × All (λ ev. ev.at ≤ 4) (due_of cluster)
due-InTurn_example = due-InTurn cluster
