-- ===== src/Engine/Tests.antt =====
-- The theorems about the engine at concrete inputs.
use quorum_log.Prelude.{
  ℕ, ◌+◌, String, ◌≡◌, refl, not, ◌⊎◌, none, some, List, [], ◌∷◌, ◌++◌, select, ok, err,
  if◌then◌else◌, string_eq, Except, lookup, without,
}
use quorum_log.Prelude.GoMap
use quorum_log.Prelude.Decimal.{decimal}
use quorum_log.Sm.{Op, op_put, apply, cached, execute, remember, run}
use quorum_log.Sm.Persist.{snapshot}
use quorum_log.Sm.Toy
use quorum_log.Sm.Toy.{toy}
use quorum_log.Raftpb.{ConfState, Entry}
use quorum_log.Engine.Interfaces.{Ready}
use quorum_log.Engine.{Engine, Failed, prop_key, stored, reply, release}
use quorum_log.Engine.Client.{propose}
use quorum_log.Engine.Batch
use quorum_log.Engine.Batch.{handle_ready}
use quorum_log.Engine.Handled.{batch}
use quorum_log.Engine.Replica.{IsReplica, commands, handle_ready-IsReplica}
use quorum_log.Engine.Reads.{is_due, names, handle_ready-reads}
use quorum_log.Engine.Waiters.{handle_ready-Balanced}
use quorum_log.Engine.Durable.{HasSaved, HasAppended, HasVoted, handle_ready-durable}
use quorum_log.Engine.Proposals
use quorum_log.Engine.Proposals.{is_ok, propose-stands}
use quorum_log.Engine.Balance.{AreMaps, stands}
use quorum_log.Engine.Toy.{toy_raft, toy_disk, start}

abbrev put_x : Op
put_x = record { kind = op_put; key = "x"; val = "1"; client_id = "c"; req_id = 7 }

abbrev two_entries : List Entry
two_entries =
    record { index = 1; term = 1; kind = 0; payload = [] }
    ∷ record { index = 2; term = 1; kind = 0; payload = toy.marshal_op put_x }
    ∷ []

abbrev a_batch : Ready ℕ
a_batch = record {
  snapshot = none;
  entries = two_entries;
  hard_state = some (record { term = 1; vote = 1; commit = 2 });
  soft_state = some 1;
  read_states =
      record { index = 2; request_ctx = "r" } ∷ record { index = 3; request_ctx = "s" } ∷ [];
  committed_entries = two_entries;
  messages = 9 ∷ [];
}

-- The node after a proposal and a read.
abbrev asked : Engine toy_raft toy_disk
asked = record (start (a_batch ∷ [])) {
  prop_waiters = GoMap.put GoMap.empty (prop_key "c" 7) 40;
  read_waiters = GoMap.put GoMap.empty "r" 41;
}

abbrev left_by :
    Except (Failed toy_raft toy_disk) (Engine toy_raft toy_disk × List ℕ) → Engine toy_raft toy_disk
left_by (ok (e, _)) = e
left_by (err f) = f.left

abbrev after : Engine toy_raft toy_disk
after = left_by (handle_ready toy asked)

handles : handle_ready toy asked ≡ ok (after, 9 ∷ [])
unfolding handle_ready Batch.process Batch.handle_batch Batch.install Batch.append_entries stored
    Batch.set_hard_state Batch.apply_entries Batch.apply_entry Batch.apply_normal Toy.of_code
    Batch.maybe_snapshot reply GoMap.get lookup Batch.track GoMap.put prop_key Batch.created
    Batch.flush Batch.flush_reads release decimal GoMap.delete GoMap.get_or without snapshot apply
    cached execute remember
handles = refl

-- After the batch the first read is answered and the second is kept.
handle_ready-reads_example :
    (after.pending_read
      ≡ select
          (λ rs. not (is_due after.applied_index rs))
          (asked.pending_read ++ (batch asked).read_states))
    × ((rctx : String)
        → GoMap.get after.read_waiters rctx ≡ (
            if names rctx (
              select (is_due after.applied_index) (asked.pending_read ++ (batch asked).read_states))
            then none
            else GoMap.get asked.read_waiters rctx))
handle_ready-reads_example = handle_ready-reads toy asked refl handles

asked-AreMaps : AreMaps asked
unfolding GoMap.put lookup without
asked-AreMaps = record { prop_waiters = (refl, tt); cc_waiters = tt; read_waiters = (refl, tt) }

handle_ready-Balanced_example : AreMaps after × ((cb : ℕ) → stands cb after ≡ stands cb asked)
handle_ready-Balanced_example = handle_ready-Balanced toy asked refl handles asked-AreMaps

handle_ready-durable_example :
    (9 ∷ [] ≡ (batch asked).messages)
    × (f₁ f₂ f₃ : List ℕ) × HasSaved toy_disk none [] f₁
    × HasAppended toy_disk two_entries f₁ f₂
    × HasVoted toy_disk (some (record { term = 1; vote = 1; commit = 2 })) f₂ f₃
    × ((after.st ≡ f₃)
        ⊎ ((voters : ConfState) × (after.st
              ≡ (toy_disk.create_snapshot f₃ after.applied_index voters
                  (snapshot toy after.sm)
                  after.cfg.snapshot_trailing).0)))
handle_ready-durable_example = handle_ready-durable toy asked refl handles

handle_ready-IsReplica_example : IsReplica toy after ([] ++ two_entries)
unfolding commands run
handle_ready-IsReplica_example =
    handle_ready-IsReplica toy asked [] [] refl handles
      (record { kv = λ k. refl; sessions = λ k. refl }) refl

propose-stands_example :
    stands 40 (Proposals.left_by (propose toy (start []) put_x (some 40)))
    ≡ (if is_ok (propose toy (start []) put_x (some 40)) then 1 else 0) + stands 40 (start [])
propose-stands_example =
    propose-stands toy (start []) put_x 40 40
      (record { prop_waiters = tt; cc_waiters = tt; read_waiters = tt }) (GoMap.get-empty _)
