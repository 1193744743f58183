-- ===== src/Storage/DiskTests.antt =====
-- The files of internal/storage/storage.go on concrete calls.
use mathlib.Core.List.{reverse}
use quorum_log.Prelude.{
  ℕ, ◌≡◌, refl, ◌⊎◌, true, none, some, [], ◌∷◌, take, arith, ok, ◌>>=◌, string_eq, lookup, without,
}
use quorum_log.Prelude.GoMap
use quorum_log.Raftpb.{Entry, Snapshot, HardState}
use quorum_log.Storage.{wal_lines, drop_covered}
use quorum_log.Storage.Toy.{toy}
use quorum_log.Storage.DiskToy.{toy_files, toy_memory}
use quorum_log.Storage.Replay.{append_all}
use quorum_log.Storage.Files.{Directory, perform, break_off, open_append}
use quorum_log.Storage.Disk.{
  wal_name, hard_state_name, snapshot_name, DiskStorage, kept, run_steps, remember, append,
  set_hard_state, save_snapshot, write_snapshot_file, reset_wal, compact, rewrite_wal,
  store_snapshot, create_snapshot,
}
use quorum_log.Storage.Reopen.{open_storage, replay_file}
use quorum_log.Storage.Stored.{Durable, Stores}
use quorum_log.Storage.Restart.{
  Calls, no_calls, then_call, appended, voted, rebuild, replayed_from, restart,
}
use quorum_log.Storage.Crash.{left_by, set_hard_state_crash, save_snapshot_crash, append_crash}

program : Unit {0}
unfolding wal_lines perform break_off kept run_steps remember append set_hard_state save_snapshot
    write_snapshot_file reset_wal compact rewrite_wal store_snapshot create_snapshot GoMap.get
    GoMap.put GoMap.delete GoMap.get_or lookup without
program = tt

abbrev entry : ℕ → Entry
entry i = record { index = i; term = 1; kind = 0; payload = i ∷ [] }

abbrev snap : Snapshot
snap = record {
  index = 7;
  term = 2;
  conf_state = record { voters = 1 ∷ 2 ∷ []; learners = [] };
  payload = 5 ∷ [];
}

abbrev hard : HardState
hard = record { term = 2; vote = 1; commit = 1 }

-- The directory of a new node, and its storage, whose third step fails.
abbrev fresh : Directory
fresh = record { entries = (wal_name, []) ∷ [] }

abbrev nothing : Durable
nothing = record { snap = none; written = []; hard = none }

fresh-Stores : Stores toy toy_files fresh nothing
unfolding program
fresh-Stores = record { snap_stored = refl; written_stored = refl; hard_stored = refl }

abbrev storage : ℕ → DiskStorage toy_memory
storage n = record { mem = toy_memory.new; files = fresh; left = n; partial = 3 }

abbrev second : DiskStorage toy_memory
second = unfold program in left_by (append toy toy_files (storage 20) (entry 1 ∷ entry 2 ∷ []))

abbrev third : DiskStorage toy_memory
third = unfold program in left_by (set_hard_state toy toy_files second hard)

abbrev two_calls : Durable
two_calls = record { snap = none; written = entry 1 ∷ entry 2 ∷ []; hard = some hard }

calls : Calls toy toy_files (storage 20) nothing third two_calls
unfolding program
calls = then_call (then_call no_calls (appended (entry 1 ∷ entry 2 ∷ []) refl)) (voted hard refl)

restart_example :
    open_storage toy toy_files toy_memory third.files 9 0
    ≡ ◌>>=◌
        (rebuild toy_memory none (replayed_from toy toy_files toy_memory two_calls) (some hard))
        (λ mem. ok (
          record {
            mem = mem;
            files = perform (open_append wal_name) third.files;
            left = 9;
            partial = 0;
          },
          true,
        ))
restart_example = restart toy toy_files toy_memory 9 0 fresh-Stores calls (omega arith)

-- A storage that fails at the third step.
abbrev failing : DiskStorage toy_memory
failing = storage 2

set_hard_state_crash_example :
    Stores toy toy_files (left_by (set_hard_state toy toy_files failing hard)).files nothing
    ⊎ Stores toy toy_files
        (left_by (set_hard_state toy toy_files failing hard)).files
        (record nothing { hard = some hard })
set_hard_state_crash_example = set_hard_state_crash toy toy_files failing fresh-Stores hard

save_snapshot_crash_example :
    Stores toy toy_files (left_by (save_snapshot toy toy_files (storage 6) snap)).files nothing
    ⊎ (Stores toy toy_files
          (left_by (save_snapshot toy toy_files (storage 6) snap)).files
          (record nothing { snap = some snap })
        ⊎ Stores toy toy_files
            (left_by (save_snapshot toy toy_files (storage 6) snap)).files
            (record nothing { snap = some snap; written = [] }))
save_snapshot_crash_example = save_snapshot_crash toy toy_files (storage 6) fresh-Stores snap

append_crash_example :
    (GoMap.get (left_by (append toy toy_files (storage 0) (entry 1 ∷ []))).files snapshot_name
      ≡ none)
    × (GoMap.get (left_by (append toy toy_files (storage 0) (entry 1 ∷ []))).files hard_state_name
        ≡ none)
    × ((k : ℕ) × (replay_file toy
            (GoMap.get (left_by (append toy toy_files (storage 0) (entry 1 ∷ []))).files wal_name)
            0
          ≡ ok (drop_covered 0 (reverse (append_all [] (take k (entry 1 ∷ [])))), true)))
append_crash_example =
    append_crash toy toy_files (storage 0) fresh-Stores (entry 1 ∷ []) 0 (omega arith) (omega arith)
