-- ===== src/Storage/Reopen.antt =====
-- Open of internal/storage/storage.go, with loadSnapshotFile and loadHardStateFile.
use quorum_log.Prelude.{
  ℕ, ◌+◌, Bool, true, false, ◌||◌, Option, none, some, List, [], ◌∷◌, ltb, if◌then◌else◌, string_eq,
  Except, ok, err, ◌>>=◌,
}
use quorum_log.Prelude.GoMap
use quorum_log.Raftpb.{Entry, Snapshot, HardState}
use quorum_log.Storage.{Encoding, StorageError, replay_wal}
use quorum_log.Storage.Files.{Directory, open_append, perform}
use quorum_log.Storage.Disk.{
  wal_name, hard_state_name, snapshot_name, SnapshotFile, FileJson, Memory, DiskStorage, DiskError,
  bad_hard_state, bad_snapshot, missing_data, bad_wal, memory_failed,
}

abbrev pub is_there {ℓ} : {A : Type ℓ} → Option A → Bool
is_there none = false
is_there (some _) = true

abbrev pub index_of : Option Snapshot → ℕ
index_of none = 0
index_of (some snap) = snap.index

module _ (memory : Memory) where
  abbrev pub Attempt : Type 0 → Type 0
  Attempt A = Except (DiskError memory) A

  abbrev checked : memory.State × Option memory.Failure → Attempt memory.State
  checked (mem, none) = ok mem
  checked (mem, some e) = err (memory_failed e)

  abbrev or_fail : {A : Type 0} → DiskError memory → Option A → Attempt A
  or_fail e none = err e
  or_fail e (some a) = ok a

  abbrev unreadable : {A : Type 0} → Except StorageError A → Attempt A
  unreadable (ok a) = ok a
  unreadable (err e) = err (bad_wal e)

  unfoldable pub apply_snapshot : memory.State → Option Snapshot → Attempt memory.State
  apply_snapshot mem none = ok mem
  apply_snapshot mem (some snap) = checked (memory.apply_snapshot mem snap)

  -- The test for a gap, and the call of Append.
  unfoldable pub append_replayed : memory.State → ℕ → List Entry → Attempt memory.State
  append_replayed mem snap_index [] = ok mem
  append_replayed mem snap_index (e ∷ ents) =
      if ltb (snap_index + 1) e.index
      then err missing_data
      else checked (memory.append mem (e ∷ ents))

  unfoldable pub apply_hard_state : memory.State → Option HardState → Attempt memory.State
  apply_hard_state mem none = ok mem
  apply_hard_state mem (some hs) = checked (memory.set_hard_state mem hs)

module _ (json : FileJson) where
  -- loadHardStateFile, likewise
  unfoldable pub load_hard_state_file : Option (List ℕ) → Option (Option HardState)
  load_hard_state_file none = some none
  load_hard_state_file (some bytes) = elim (json.unmarshal_hard bytes) [
    | none ↦ none
    | some f ↦ some (some (record { term = f.term; vote = f.vote; commit = f.commit }))
  ]

module _ (enc : Encoding) where
  -- replayWAL on the file that may be missing: the entries, and whether it was found.
  unfoldable pub replay_file : Option (List ℕ) → ℕ → Except StorageError (List Entry × Bool)
  replay_file none snap_index = ok ([], false)
  replay_file (some bytes) snap_index = do ents ← replay_wal enc bytes snap_index; ok (ents, true)

  -- What decoding a snapshot file gives.
  unfoldable pub of_snapshot_file : SnapshotFile → Option Snapshot
  of_snapshot_file f = elim (enc.decode_string f.payload) [
    | none ↦ none
    | some bytes ↦ some (record {
      index = f.index;
      term = f.term;
      conf_state = record { voters = f.voters; learners = f.learners };
      payload = bytes;
    })
  ]

  abbrev of_snapshot_bytes : Option SnapshotFile → Option Snapshot
  of_snapshot_bytes none = none
  of_snapshot_bytes (some f) = of_snapshot_file f

module _ (enc : Encoding) (json : FileJson) where
  -- loadSnapshotFile on the contents of the file: `none` is an error, and `some none` no file.
  unfoldable pub load_snapshot_file : Option (List ℕ) → Option (Option Snapshot)
  load_snapshot_file none = some none
  load_snapshot_file (some bytes) = elim (of_snapshot_bytes enc (json.unmarshal_snap bytes)) [
    | none ↦ none
    | some snap ↦ some (some snap)
  ]

  module _ (memory : Memory) where
    -- Open: the storage, and whether there was any state.
    unfoldable pub open_storage : Directory → ℕ → ℕ → Attempt memory (DiskStorage memory × Bool)
    open_storage files left partial = do
      snap ← or_fail memory bad_snapshot (load_snapshot_file (GoMap.get files snapshot_name))
      restored ← apply_snapshot memory memory.new snap
      replayed ← unreadable memory (replay_file enc (GoMap.get files wal_name) (index_of snap))
      appended ← append_replayed memory restored (index_of snap) replayed.0
      hs ←
          or_fail memory bad_hard_state
            (load_hard_state_file json (GoMap.get files hard_state_name))
      voted ← apply_hard_state memory appended hs
      ok (
        record {
          mem = voted;
          files = perform (open_append wal_name) files;
          left = left;
          partial = partial;
        },
        is_there snap || replayed.1 || is_there hs,
      )
