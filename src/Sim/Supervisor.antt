-- ===== src/Sim/Supervisor.antt =====
-- The nodes of internal/sim/sim.go: crashes and restarts, ticks, elections, the work of the engines, and
-- the tests of the whole cluster.
use quorum_log.Prelude.{
  ℕ, zero, suc, ◌+◌, ◌-◌, Bool, true, false, not, ◌&&◌, ◌||◌, Option, none, some, List, [], ◌∷◌,
  ◌++◌, length, ltb, select, sort_by, if◌then◌else◌, ◌==◌, nat_eq, Except, ok, err,
}
use quorum_log.Prelude.GoMap
use quorum_log.Prelude.GoMap.{GoMap}
use quorum_log.Sm.{Sm}
use quorum_log.Sm.Persist.{Json}
use quorum_log.Engine.Interfaces.{Raft, Disk}
use quorum_log.Engine.{Engine, Config, EngineError}
use quorum_log.Engine.Boot.{Boot, new_engine}
use quorum_log.Engine.Batch.{handle_ready}
use quorum_log.Engine.Client.{tick, campaign, is_leader, has_ready}
use quorum_log.Sim.{Rand, Node, Cluster}
use quorum_log.Sim.Network.{engine_of, set_engine, reaches_quorum, enqueue}

abbrev pub election_patience : ℕ
election_patience = 25

module _ {raft : Raft} {disk : Disk} where
  abbrev present : Option (Node raft disk) → Bool
  present none = false
  present (some _) = true

  -- The IDs with a new one in its place.
  abbrev pub with_id : Option (Node raft disk) → List ℕ → ℕ → List ℕ
  with_id known ids id = if present known then ids else sort_by ltb (ids ++ id ∷ [])

abbrev pub nth : List ℕ → ℕ → ℕ
nth [] n = 0
nth (x ∷ xs) zero = x
nth (x ∷ xs) (suc n) = nth xs n

module _ {raft : Raft} {disk : Disk} where
  abbrev pub is_member : Engine raft disk → Bool
  is_member e = not e.removed

  abbrev pub leads : Engine raft disk → Bool
  leads e = not e.removed && is_leader e

  abbrev keep_first :
      Option (EngineError raft disk) → EngineError raft disk → Option (EngineError raft disk)
  keep_first none e = some e
  keep_first (some first) e = some first

module _ {rand : Rand} {raft : Raft} {disk : Disk} where
  -- startNode
  unfoldable pub start_node :
      (boot : Boot raft disk)
      → Json
      → Config
      → Cluster rand raft disk
      → ℕ
      → List ℕ
      → Except boot.Failure (Cluster rand raft disk)
  start_node boot json cfg c id peers =
      elim (new_engine boot json (record cfg { id = id; incarnation = c.inc + 1 }) peers) [
        | err e ↦ err e
        | ok e ↦ ok (record c {
          inc = c.inc + 1;
          ids = with_id (GoMap.get c.nodes id) c.ids id;
          nodes = GoMap.put c.nodes id (record { id = id; eng = some e; alive = true });
        })
      ]

  -- Crash
  unfoldable pub crash : Cluster rand raft disk → ℕ → Cluster rand raft disk
  crash c id = record c {
    nodes = GoMap.put c.nodes id (record { id = id; eng = none; alive = false });
  }

  -- A change of the engine of a node, if it runs.
  abbrev pub with_engine :
      (Engine raft disk → Engine raft disk) → Cluster rand raft disk → ℕ → Cluster rand raft disk
  with_engine f c id = elim (engine_of c id) [ none ↦ c | some e ↦ set_engine c id (f e) ]

  -- The first phase of Step.
  unfoldable pub tick_all : Cluster rand raft disk → List ℕ → Cluster rand raft disk
  tick_all c [] = c
  tick_all c (id ∷ ids) = tick_all (with_engine tick c id) ids

  -- Whether a node runs and its engine passes a test.
  abbrev pub engine_is : (Engine raft disk → Bool) → Cluster rand raft disk → ℕ → Bool
  engine_is p c id = elim (engine_of c id) [ none ↦ false | some e ↦ p e ]

  -- The loop of Leader; 0 is none.
  unfoldable pub leader_among : Cluster rand raft disk → List ℕ → ℕ
  leader_among c [] = 0
  leader_among c (id ∷ ids) =
      let rest = leader_among c ids in
      if engine_is leads c id && reaches_quorum c id then id else rest

  -- Leader
  unfoldable pub leader : Cluster rand raft disk → ℕ
  unfolding leader_among
  leader c = leader_among c c.ids

  -- The loop of superviseElection, and the one of pickAlive and AliveIDs.
  unfoldable pub eligible : Cluster rand raft disk → List ℕ
  eligible c = select (λ id. engine_is is_member c id && reaches_quorum c id) c.ids

  unfoldable pub alive_ids : Cluster rand raft disk → List ℕ
  alive_ids c = select (λ id. engine_is is_member c id) c.ids

  -- `xs[c.rng.Intn(len(xs))]`
  abbrev pub draw : Cluster rand raft disk → List ℕ → Cluster rand raft disk × ℕ
  draw c xs = let (rng, n) = rand.intn c.rng (length xs) in (record c { rng = rng }, nth xs n)

  -- The end of superviseElection.
  unfoldable pub call_election : Cluster rand raft disk → List ℕ → Cluster rand raft disk
  call_election c [] = record c { no_leader_since = c.now }
  call_election c (id ∷ ids) =
      let (c', candidate) = draw c (id ∷ ids) in
      record (with_engine campaign c' candidate) { no_leader_since = c.now }

  -- superviseElection
  unfoldable pub supervise_election : Cluster rand raft disk → Cluster rand raft disk
  unfolding call_election eligible leader
  supervise_election c =
      if not (leader c == 0)
      then record c { no_leader_since = c.now }
      else if ltb (c.now - c.no_leader_since) election_patience
      then c
      else call_election c (eligible c)

  -- pickAlive; 0 is none.
  unfoldable pub pick_alive : Cluster rand raft disk → Cluster rand raft disk × ℕ
  unfolding alive_ids
  pick_alive c = elim (alive_ids c) [ [] ↦ (c, 0) | id ∷ ids ↦ draw c (id ∷ ids) ]

  -- The body of the loop of drainReady for a node, and whether there was work. An error is the
  -- first one.
  unfoldable pub drain_node :
      Json
      → Cluster rand raft disk
      → Option (EngineError raft disk)
      → ℕ
      → Cluster rand raft disk × Option (EngineError raft disk) × Bool
  drain_node json c error id = elim (engine_of c id) [
    | none ↦ (c, error, false)
    | some e ↦ elim (has_ready e) [
      | false ↦ (c, error, false)
      | true ↦ elim (handle_ready json e) [
        | err f ↦ (set_engine c id f.left, keep_first error f.error, true)
        | ok (e', messages) ↦ (enqueue (set_engine c id e') id messages, error, true)
      ]
    ]
  ]

  -- One round of drainReady over the nodes.
  unfoldable pub drain_round :
      Json
      → Cluster rand raft disk
      → Option (EngineError raft disk)
      → Bool
      → List ℕ
      → Cluster rand raft disk × Option (EngineError raft disk) × Bool
  unfolding drain_node
  drain_round json c error progress [] = (c, error, progress)
  drain_round json c error progress (id ∷ ids) =
      let (c', error', worked) = drain_node json c error id in
      drain_round json c' error' (progress || worked) ids

  -- drainReady, for so many rounds at most: the cluster, its error, and whether the loop has ended.
  unfoldable pub drain_ready :
      Json
      → ℕ
      → Cluster rand raft disk
      → Option (EngineError raft disk)
      → Cluster rand raft disk × Option (EngineError raft disk) × Bool
  unfolding drain_round
  drain_ready json zero c error = (c, error, false)
  drain_ready json (suc fuel) c error =
      let (c', error', progress) = drain_round json c error false c.ids in
      let more = drain_ready json fuel c' error' in if progress then more else (c', error', true)

  -- What the nodes are compared by: the applied index and the hash of the state machine.
  abbrev summary : (Sm → ℕ) → Cluster rand raft disk → ℕ → ℕ × ℕ
  summary hash c id = elim (engine_of c id) [
    | none ↦ (0, 0)
    | some e ↦ (e.applied_index, hash e.sm)
  ]

  -- The loop of Converged.
  unfoldable pub agree : (Sm → ℕ) → Cluster rand raft disk → ℕ → List ℕ → Bool
  agree hash c first [] = true
  agree hash c first (id ∷ ids) =
      let rest = agree hash c first ids in
      let (index, digest) = summary hash c id in
      let (index', digest') = summary hash c first in
      if not (index == index') || not (digest == digest') then false else rest

  -- Converged
  unfoldable pub converged : (Sm → ℕ) → Cluster rand raft disk → Bool
  unfolding agree alive_ids
  converged hash c = elim (alive_ids c) [ [] ↦ false | first ∷ ids ↦ agree hash c first ids ]
