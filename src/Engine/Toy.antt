-- ===== src/Engine/Toy.antt =====
-- A small raft library and storage for the tests: the library hands out the batches it was given, the
-- storage notes its writes.
use quorum_log.Prelude.{ℕ, ◌/◌, ◌%◌, Bool, true, false, Option, none, some, List, [], ◌∷◌}
use quorum_log.Prelude.GoMap
use quorum_log.Sm
use quorum_log.Raftpb.{ConfChange}
use quorum_log.Engine.Interfaces.{Ready, Raft, Disk}
use quorum_log.Engine.{Engine}

abbrev pub is_waiting : List (Ready ℕ) → Bool
is_waiting [] = false
is_waiting (_ ∷ _) = true

abbrev pub no_batch : Ready ℕ
no_batch = record {
  snapshot = none;
  entries = [];
  hard_state = none;
  soft_state = none;
  read_states = [];
  committed_entries = [];
  messages = [];
}

abbrev pub next_batch : List (Ready ℕ) → List (Ready ℕ) × Ready ℕ
next_batch [] = ([], no_batch)
next_batch (rd ∷ later) = (later, rd)

abbrev read_change : List ℕ → Option ConfChange
read_change (id ∷ kind ∷ node ∷ []) =
    some (record { id = id; kind = kind; node_id = node; context = [] })
read_change _ = none

abbrev read_message : List ℕ → Option ℕ
read_message (message ∷ []) = some message
read_message _ = none

-- A message from 2 to 3 of the kind 7 is 723.
abbrev pub toy_raft_as : Bool → Raft
toy_raft_as leads = record {
  Node = List (Ready ℕ);
  Message = ℕ;
  is_leader = λ node. leads;
  has_ready = is_waiting;
  ready = next_batch;
  advance = λ node rd. node;
  propose = λ node bytes. (node, true);
  propose_conf_change = λ node change. (node, true);
  apply_conf_change = λ node change. (node, record { voters = change.node_id ∷ []; learners = [] });
  read_index = λ node rctx. node;
  unmarshal_conf_change = read_change;
  tick = λ node. node;
  campaign = λ node. (node, true);
  step = λ node message. (node, true);
  report_snapshot = λ node to reached. node;
  voters = λ node. 1 ∷ 2 ∷ 3 ∷ [];
  message_to = λ message. message % 10;
  message_from = λ message. (message / 10) % 10;
  message_kind = λ message. message / 100;
  message_index = λ message. 0;
  message_term = λ message. 0;
  unmarshal_message = read_message;
}

abbrev pub toy_raft : Raft
toy_raft = toy_raft_as true

abbrev pub toy_disk : Disk
toy_disk = record {
  Files = List ℕ;
  Failure = ℕ;
  save_snapshot = λ f snap. (1 ∷ f, none);
  append = λ f entries. (2 ∷ f, none);
  set_hard_state = λ f hs. (3 ∷ f, none);
  create_snapshot = λ f index voters bytes trailing. (4 ∷ f, none);
}

abbrev pub start_on :
    (disk : Disk) → disk.Files → (leads : Bool) → List (Ready ℕ) → Engine (toy_raft_as leads) disk
start_on disk files leads batches = record {
  cfg = record {
    id = 1;
    incarnation = 1;
    snapshot_threshold = 5;
    snapshot_trailing = 2;
    on_conf_change = true;
  };
  rn = batches;
  st = files;
  sm = Sm.init;
  lead = 0;
  applied_index = 0;
  snap_index = 0;
  conf_state = record { voters = []; learners = [] };
  removed = false;
  prop_waiters = GoMap.empty;
  cc_waiters = GoMap.empty;
  read_seq = 0;
  read_waiters = GoMap.empty;
  pending_read = [];
  calls = [];
}

abbrev pub start_as : (leads : Bool) → List (Ready ℕ) → Engine (toy_raft_as leads) toy_disk
start_as leads batches = start_on toy_disk [] leads batches

abbrev pub start : List (Ready ℕ) → Engine toy_raft toy_disk
start batches = start_as true batches
