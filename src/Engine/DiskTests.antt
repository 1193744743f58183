-- ===== src/Engine/DiskTests.antt =====
-- The engine of internal/engine/engine.go on the storage of internal/storage/storage.go, with one batch.
use quorum_log.Prelude.{
  ℕ, ◌≡◌, refl, ◌⊎◌, true, none, some, List, [], ◌∷◌, Except, ok, err, string_eq, lookup, without,
}
use quorum_log.Prelude.GoMap
use quorum_log.Prelude.Decimal.{decimal}
use quorum_log.Sm.{apply, cached, execute, remember as remember_session}
use quorum_log.Sm.Persist.{snapshot}
use quorum_log.Sm.Toy
use quorum_log.Raftpb.{ConfState}
use quorum_log.Storage.{wal_lines}
use quorum_log.Storage.Toy.{toy}
use quorum_log.Storage.DiskToy.{toy_files, toy_memory}
use quorum_log.Storage.Files.{perform, break_off}
use quorum_log.Storage.Disk.{
  DiskStorage, wal_name, run_steps, remember, append, set_hard_state, save_snapshot,
  write_snapshot_file, reset_wal, create_snapshot,
}
use quorum_log.Storage.Stored.{Durable, Stores}
use quorum_log.Engine.Interfaces.{Ready, Disk}
use quorum_log.Engine.{Engine, Failed, stored, reply, release, prop_key}
use quorum_log.Engine.Batch
use quorum_log.Engine.Batch.{handle_ready}
use quorum_log.Engine.OnDisk.{
  on_disk, create_outcome, with_snapshot, with_entries, with_vote, handle_ready-Stores,
}
use quorum_log.Engine.Toy.{toy_raft, start_on}

program : Unit {0}
unfolding handle_ready Batch.process Batch.handle_batch Batch.install Batch.append_entries stored
    Batch.set_hard_state Batch.apply_entries Batch.apply_entry Batch.apply_normal
    Batch.maybe_snapshot reply Batch.track Batch.created Batch.flush Batch.flush_reads release
    prop_key decimal wal_lines perform break_off run_steps remember append set_hard_state
    save_snapshot write_snapshot_file reset_wal create_snapshot GoMap.get GoMap.put GoMap.delete
    GoMap.get_or lookup without apply cached execute remember_session snapshot
program = tt

abbrev files : Disk
files = on_disk toy toy_files toy_memory

abbrev storage : DiskStorage toy_memory
storage = record {
  mem = toy_memory.new;
  files = record { entries = (wal_name, []) ∷ [] };
  left = 50;
  partial = 0;
}

abbrev nothing : Durable
nothing = record { snap = none; written = []; hard = none }

storage-Stores : Stores toy toy_files storage.files nothing
unfolding program
storage-Stores = record { snap_stored = refl; written_stored = refl; hard_stored = refl }

abbrev a_batch : Ready ℕ
a_batch = record {
  snapshot = none;
  entries = record { index = 1; term = 1; kind = 0; payload = [] } ∷ [];
  hard_state = some (record { term = 1; vote = 1; commit = 1 });
  soft_state = some 1;
  read_states = [];
  committed_entries = record { index = 1; term = 1; kind = 0; payload = [] } ∷ [];
  messages = 9 ∷ [];
}

abbrev engine : Engine toy_raft files
engine = start_on files storage true (a_batch ∷ [])

abbrev engine_of :
    Except (Failed toy_raft files) (Engine toy_raft files × List ℕ) → Engine toy_raft files
engine_of (ok (e, _)) = e
engine_of (err f) = f.left

abbrev after : Engine toy_raft files
after = unfold program in engine_of (handle_ready Toy.toy engine)

handles : handle_ready Toy.toy engine ≡ ok (after, 9 ∷ [])
unfolding program
handles = refl

handle_ready-Stores_example :
    (ds : DiskStorage toy_memory) × Stores toy toy_files ds.files
      (with_vote a_batch.hard_state (with_entries a_batch.entries (with_snapshot none nothing)))
    × ((after.st ≡ ds)
        ⊎ ((voters : ConfState) × (after.st
              ≡ (create_outcome toy_memory (
                  create_snapshot toy toy_files ds after.applied_index voters
                    (snapshot Toy.toy after.sm)
                    after.cfg.snapshot_trailing)).0)))
handle_ready-Stores_example = handle_ready-Stores Toy.toy engine nothing storage-Stores refl handles
