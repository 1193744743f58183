-- ===== src/Sim/Network.antt =====
-- The simulated network of internal/sim/sim.go: partitions, the queue of messages and their delivery.
use quorum_log.Prelude.{
  ℕ, zero, suc, ◌+◌, ◌-◌, ◌/◌, Bool, true, false, not, ◌&&◌, ◌||◌, Option, none, some, List, [],
  ◌∷◌, ◌++◌, length, ltb, leb, select, sort_by, if◌then◌else◌, ◌==◌, nat_eq,
}
use quorum_log.Prelude.GoMap
use quorum_log.Prelude.GoMap.{GoMap}
use quorum_log.Raftpb.{msg_snap}
use quorum_log.Engine.Interfaces.{Raft, Disk}
use quorum_log.Engine.{Engine}
use quorum_log.Engine.Client.{step, report_snapshot, voters}
use quorum_log.Sim.{Rand, Event, Node, Cluster}

-- The inner loop of Partition.
unfoldable pub put_group : GoMap ℕ ℕ → ℕ → List ℕ → GoMap ℕ ℕ
put_group group gi [] = group
put_group group gi (id ∷ ids) = put_group (GoMap.put group id gi) gi ids

unfoldable pub put_groups : GoMap ℕ ℕ → ℕ → List (List ℕ) → GoMap ℕ ℕ
unfolding put_group
put_groups group gi [] = group
put_groups group gi (g ∷ groups) = put_groups (put_group group gi g) (gi + 1) groups

module _ {raft : Raft} {disk : Disk} where
  -- The engine of a node that is alive.
  unfoldable pub running : Option (Node raft disk) → Option (Engine raft disk)
  running none = none
  running (some n) = if n.alive then n.eng else none

  abbrev is_running : Option (Engine raft disk) → Bool
  is_running none = false
  is_running (some _) = true

-- The order in which due messages are delivered.
abbrev pub before : {Message : Type 0} → Event Message → Event Message → Bool
before a b = if a.at == b.at then ltb a.seq b.seq else ltb a.at b.at

module _ {rand : Rand} {raft : Raft} {disk : Disk} where
  -- Partition
  unfoldable pub partition : Cluster rand raft disk → List (List ℕ) → Cluster rand raft disk
  unfolding put_groups
  partition c groups = record c { group = put_groups GoMap.empty 0 groups }

  -- Heal
  abbrev pub heal : Cluster rand raft disk → Cluster rand raft disk
  heal c = record c { group = GoMap.empty }

  unfoldable pub connected : Cluster rand raft disk → ℕ → ℕ → Bool
  connected c a b = GoMap.get_or c.group a 0 == GoMap.get_or c.group b 0

  abbrev pub engine_of : Cluster rand raft disk → ℕ → Option (Engine raft disk)
  engine_of c id = running (GoMap.get c.nodes id)

  unfoldable pub is_up : Cluster rand raft disk → ℕ → Bool
  unfolding running
  is_up c id = is_running (engine_of c id)

  -- The loop of reachesQuorum.
  unfoldable pub reach : Cluster rand raft disk → ℕ → List ℕ → ℕ
  reach c id [] = 0
  reach c id (v ∷ vs) =
      let rest = reach c id vs in
      if is_up c v && (v == id || connected c id v) then rest + 1 else rest

  -- reachesQuorum
  unfoldable pub reaches_quorum : Cluster rand raft disk → ℕ → Bool
  unfolding reach
  reaches_quorum c id = elim (engine_of c id) [
    | none ↦ false
    | some e ↦ not (length (voters e) == 0) && ltb (length (voters e) / 2) (reach c id (voters e))
  ]

  -- The change of the engine of a node.
  abbrev pub set_engine : Cluster rand raft disk → ℕ → Engine raft disk → Cluster rand raft disk
  set_engine c id e = record c {
    nodes = GoMap.put c.nodes id (record { id = id; eng = some e; alive = true });
  }

  -- reportSnap
  unfoldable pub report_snap : Cluster rand raft disk → ℕ → ℕ → Bool → Cluster rand raft disk
  report_snap c from to reached = elim (engine_of c from) [
    | none ↦ c
    | some e ↦ set_engine c from (report_snapshot e to reached)
  ]

  unfoldable pub report_if_snap :
      Cluster rand raft disk → ℕ → raft.Message → Bool → Cluster rand raft disk
  unfolding report_snap
  report_if_snap c from m reached =
      if raft.message_kind m == msg_snap then report_snap c from (raft.message_to m) reached else c

  -- The delay of a copy.
  unfoldable pub draw_delay : Cluster rand raft disk → Cluster rand raft disk × ℕ
  draw_delay c =
      if ltb c.net.min_delay c.net.max_delay
      then (let (rng, n) = rand.intn c.rng ((c.net.max_delay - c.net.min_delay) + 1) in
          (record c { rng = rng }, c.net.min_delay + n))
      else (c, c.net.min_delay)

  -- The loop of enqueue over the copies of a message.
  unfoldable pub put_copies : ℕ → Cluster rand raft disk → ℕ → raft.Message → Cluster rand raft disk
  unfolding draw_delay
  put_copies zero c from m = c
  put_copies (suc copies) c from m =
      let (c', delay) = draw_delay c in
      put_copies copies
        (record c' {
          seq = c'.seq + 1;
          queue =
              c'.queue
              ++ record { at = c'.now + delay; seq = c'.seq + 1; from = from; msg = m } ∷ [];
        })
        from m

  -- `c.rng.Float64() < p`
  abbrev pub draw_below : Cluster rand raft disk → rand.Float → Cluster rand raft disk × Bool
  draw_below c p = let (rng, r) = rand.float64 c.rng in (record c { rng = rng }, rand.less r p)

  -- The body of the loop of enqueue.
  unfoldable pub enqueue_one : Cluster rand raft disk → ℕ → raft.Message → Cluster rand raft disk
  unfolding report_if_snap put_copies
  enqueue_one c from m =
      let (c₁, lost) = draw_below c c.net.drop_prob in
      let (c₂, twice) = draw_below c₁ c.net.dup_prob in
      if lost
      then report_if_snap (record c₁ { dropped = c₁.dropped + 1 }) from m false
      else put_copies (if twice then 2 else 1) c₂ from m

  -- enqueue
  unfoldable pub enqueue : Cluster rand raft disk → ℕ → List raft.Message → Cluster rand raft disk
  unfolding enqueue_one
  enqueue c from [] = c
  enqueue c from (m ∷ messages) = enqueue (enqueue_one c from m) from messages

  abbrev pub is_due : Cluster rand raft disk → Event raft.Message → Bool
  is_due c ev = leb ev.at c.now

  -- The messages that are due, in the order of their delivery.
  unfoldable pub due_of : Cluster rand raft disk → List (Event raft.Message)
  due_of c = sort_by before (select (is_due c) c.queue)

  module _ (digest : Cluster rand raft disk → Event raft.Message → ℕ) where
    -- What deliver does with a message whose target receives it.
    unfoldable pub hand_over :
        Cluster rand raft disk → Event raft.Message → Engine raft disk → Cluster rand raft disk
    unfolding report_if_snap
    hand_over c ev e =
        let to = raft.message_to ev.msg in
        report_if_snap
          (record (set_engine c to (step e ev.msg).0) {
            delivered = c.delivered + 1;
            trace_hash = digest c ev;
          })
          ev.from ev.msg true

    -- deliver
    unfoldable pub deliver : Cluster rand raft disk → Event raft.Message → Cluster rand raft disk
    unfolding hand_over report_if_snap
    deliver c ev = elim (engine_of c (raft.message_to ev.msg)) [
      | none ↦ report_if_snap (record c { dropped = c.dropped + 1 }) ev.from ev.msg false
      | some e ↦
          if connected c ev.from (raft.message_to ev.msg)
          then hand_over c ev e
          else report_if_snap (record c { dropped = c.dropped + 1 }) ev.from ev.msg false
    ]

    unfoldable pub deliver_all :
        Cluster rand raft disk → List (Event raft.Message) → Cluster rand raft disk
    unfolding deliver
    deliver_all c [] = c
    deliver_all c (ev ∷ due) = deliver_all (deliver c ev) due

    -- deliverDue
    unfoldable pub deliver_due : Cluster rand raft disk → Cluster rand raft disk
    unfolding deliver_all due_of
    deliver_due c =
        deliver_all (record c { queue = select (λ ev. not (is_due c ev)) c.queue }) (due_of c)
