-- ===== src/Sim/Client.antt =====
-- The clients of internal/sim/client.go. A closure that a client gives to an engine is a number of the
-- table `callbacks`.
use Prim.Native.String.{◌++◌ as concat}
use quorum_log.Prelude.{
  ℕ, zero, suc, ◌+◌, pos, String, Bool, true, false, not, ◌&&◌, Option, none, some, List, [], ◌∷◌,
  length, ltb, leb, if◌then◌else◌, ◌==◌, nat_eq, string_eq, ok, err,
}
use quorum_log.Prelude.GoMap
use quorum_log.Prelude.GoMap.{GoMap}
use quorum_log.Prelude.Decimal.{decimal}
use quorum_log.Sm
use quorum_log.Sm.{Op, Result, op_put, op_append, op_delete}
use quorum_log.Sm.Persist.{Json}
use quorum_log.Check.{KvInput, KvOutput}
use quorum_log.Check.Recorder.{Recorder, invoke, return_}
use quorum_log.Engine.Interfaces.{Raft, Disk}
use quorum_log.Engine.{Engine, EngineError, not_leader}
use quorum_log.Engine.Client.{propose, read_index}
use quorum_log.Sim.{Rand, Cluster}
use quorum_log.Sim.Network.{engine_of, set_engine}
use quorum_log.Sim.Supervisor.{engine_is, is_member, pick_alive}

-- pendingOp
pub record Pending : Type 0 where
  pub rec_id : ℕ
  pub op : Op
  pub is_read : Bool
  pub read_key : String
  pub inflight : Bool
  pub deadline : ℕ

-- Client, with its configuration
pub record Client (rand : Rand) : Type 0 where
  pub idx : ℕ
  pub name : String
  pub num_ops : ℕ
  pub keys : List String
  pub get_frac : rand.Float
  pub del_frac : rand.Float
  pub op_timeout : ℕ
  pub ops_done : ℕ
  pub req_id : ℕ
  pub gen : ℕ
  pub pending : Option Pending
  pub target : ℕ

-- The closure given to ReadIndex, and the one given to Propose, with what they capture.
pub data Callback : Type 0 where
  read_back : (client gen target rec_id : ℕ) → String → Callback
  write_back : (client gen rec_id : ℕ) → Callback

module _ (rand : Rand) (raft : Raft) (disk : Disk) where
  pub record World : Type 0 where
    pub cluster : Cluster rand raft disk
    pub recorder : Recorder
    pub callbacks : GoMap ℕ Callback
    pub next : ℕ

abbrev pub is_pending : Option Pending → Bool
is_pending none = false
is_pending (some _) = true

-- An operation that is not in flight, with the handle that the recorder gave.
abbrev fresh : Op → Bool → String → ℕ → Pending
fresh op is_read key rec_id = record {
  rec_id = rec_id;
  op = op;
  is_read = is_read;
  read_key = key;
  inflight = false;
  deadline = 0;
}

abbrev nth_key : List String → ℕ → String
nth_key [] n = ""
nth_key (k ∷ ks) zero = k
nth_key (k ∷ ks) (suc n) = nth_key ks n

abbrev no_op : Op
no_op = record { kind = ""; key = ""; val = ""; client_id = ""; req_id = 0 }

module _ {rand : Rand} where
  -- Done
  abbrev pub is_done : Client rand → Bool
  is_done cl = not (is_pending cl.pending) && leb cl.num_ops cl.ops_done

  -- The operation of startNextOp for the kind that was drawn, and the client's request number after it.
  unfoldable pub write_op : Client rand → String → String → Op
  write_op cl kind key = record {
    kind = kind;
    key = key;
    val =
        if kind == op_delete
        then ""
        else concat cl.name (concat "." (concat (decimal (cl.req_id + 1)) ";"));
    client_id = cl.name;
    req_id = cl.req_id + 1;
  }

  -- What a callback does to the client when it may.
  abbrev pub finished : Client rand → Client rand
  finished cl = record cl { pending = none; ops_done = cl.ops_done + 1 }

  -- The guard of the callbacks: the generation and the pending operation.
  abbrev pub expects : Client rand → ℕ → Bool
  expects cl gen = cl.gen == gen && is_pending cl.pending

abbrev output_of : Option String → KvOutput
output_of none = record { val = ""; found = false; unknown = false }
output_of (some v) = record { val = v; found = true; unknown = false }

module _ {raft : Raft} {disk : Disk} where
  -- The target after a refused proposal.
  abbrev retarget : EngineError raft disk → ℕ
  retarget (not_leader lead) = lead
  retarget _ = 0

module _ {rand : Rand} {raft : Raft} {disk : Disk} where
  abbrev record_call : World rand raft disk → Client rand → KvInput → World rand raft disk × ℕ
  record_call w cl input =
      let (recorder, id) = invoke w.recorder (pos cl.idx) input w.cluster.now in
      (record w { recorder = recorder }, id)

  -- The read of startNextOp.
  unfoldable pub start_read :
      World rand raft disk → Client rand → String → World rand raft disk × Client rand
  start_read w cl key =
      let (w', id) = record_call w cl (record { op = "get"; key = key; val = "" }) in
      (w', record cl { gen = cl.gen + 1; pending = some (fresh no_op true key id) })

  -- The write of startNextOp.
  unfoldable pub start_write :
      World rand raft disk → Client rand → String → String → World rand raft disk × Client rand
  unfolding write_op
  start_write w cl kind key =
      let op = write_op cl kind key in
      let (w', id) = record_call w cl (record { op = kind; key = key; val = op.val }) in
      (
        w',
        record cl {
          req_id = cl.req_id + 1;
          gen = cl.gen + 1;
          pending = some (fresh op false "" id);
        },
      )

  -- startNextOp, with the number 0.5
  unfoldable pub start_next_op :
      rand.Float → World rand raft disk → Client rand → World rand raft disk × Client rand
  unfolding start_read start_write
  start_next_op half w cl =
      let (rng₁, n) = rand.intn w.cluster.rng (length cl.keys) in
      let (rng₂, r) = rand.float64 rng₁ in
      let (rng₃, r') = rand.float64 rng₂ in
      let key = nth_key cl.keys n in
      let drawn : World rand raft disk = record w { cluster = record w.cluster { rng = rng₂ } } in
      let twice : World rand raft disk = record w { cluster = record w.cluster { rng = rng₃ } } in
      if rand.less r cl.get_frac
      then start_read drawn cl key
      else if rand.less r (rand.add cl.get_frac cl.del_frac)
      then start_write drawn cl op_delete key
      else start_write twice cl (if rand.less r' half then op_append else op_put) key

  -- The choice of the target in attempt.
  unfoldable pub choose_target :
      World rand raft disk → Client rand → World rand raft disk × Client rand
  choose_target w cl =
      let (c, id) = pick_alive w.cluster in
      if not (cl.target == 0) && engine_is is_member w.cluster cl.target
      then (w, cl)
      else (record w { cluster = c }, record cl { target = id })

  abbrev sent : World rand raft disk → Client rand → Pending → Client rand
  sent w cl p = record cl {
    pending = some (record p { inflight = true; deadline = w.cluster.now + cl.op_timeout });
  }

  abbrev with_callback :
      World rand raft disk → ℕ → Engine raft disk → Callback → World rand raft disk
  with_callback w id e cb = record w {
    cluster = set_engine w.cluster id e;
    callbacks = GoMap.put w.callbacks w.next cb;
    next = w.next + 1;
  }

  -- The rest of attempt, on the engine of the target.
  unfoldable pub submit :
      Json
      → World rand raft disk
      → Client rand
      → Pending
      → Engine raft disk
      → World rand raft disk × Client rand
  submit json w cl p e =
      if p.is_read
      then (
        with_callback w cl.target (read_index e w.next)
            (read_back cl.idx cl.gen cl.target p.rec_id p.read_key),
        sent w cl p,
      )
      else elim (propose json e p.op (some w.next)) [
        | err f ↦ (
          record w { cluster = set_engine w.cluster cl.target f.left },
          record cl { target = retarget f.error; pending = some (record p { inflight = false }) },
        )
        | ok e' ↦ (with_callback w cl.target e' (write_back cl.idx cl.gen p.rec_id), sent w cl p)
      ]

  -- attempt
  unfoldable pub attempt :
      Json → World rand raft disk → Client rand → Pending → World rand raft disk × Client rand
  unfolding submit choose_target
  attempt json w cl p =
      let (w', cl') = choose_target w cl in
      elim (engine_of w'.cluster cl'.target) [ none ↦ (w', cl') | some e ↦ submit json w' cl' p e ]

  -- The end of step, on the pending operation.
  unfoldable pub press :
      Json
      → World rand raft disk
      → Client rand
      → Option Pending
      → World rand raft disk × Client rand
  unfolding attempt
  press json w cl none = (w, cl)
  press json w cl (some p) =
      if p.inflight
      then (if ltb w.cluster.now p.deadline
          then (w, cl)
          else attempt json w
              (record cl { target = 0; pending = some (record p { inflight = false }) })
              (record p { inflight = false }))
      else attempt json w cl p

  -- step
  unfoldable pub step :
      rand.Float → Json → World rand raft disk → Client rand → World rand raft disk × Client rand
  unfolding start_next_op press
  step half json w cl =
      if is_done cl
      then (w, cl)
      else (let (w', cl') = (if is_pending cl.pending then (w, cl) else start_next_op half w cl) in
          press json w' cl' cl'.pending)

  -- The callback of a write, with the result.
  unfoldable pub write_answered :
      World rand raft disk → Client rand → ℕ → ℕ → Result → World rand raft disk × Client rand
  write_answered w cl gen rec_id res = if not (expects cl gen) then (w, cl) else (
    record w {
      recorder =
          return_ w.recorder rec_id (record { val = res.val; found = res.ok; unknown = false })
            w.cluster.now;
    },
    finished cl,
  )

  -- The callback of a read.
  unfoldable pub read_answered :
      World rand raft disk → Client rand → ℕ → ℕ → ℕ → String → World rand raft disk × Client rand
  read_answered w cl gen target rec_id key =
      if not (expects cl gen) then (w, cl) else elim (engine_of w.cluster target) [
        | none ↦ (w, cl)
        | some e ↦ (
          record w {
            recorder = return_ w.recorder rec_id (output_of (Sm.get e.sm key)) w.cluster.now;
          },
          finished cl,
        )
      ]
