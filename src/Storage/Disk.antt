-- ===== src/Storage/Disk.antt =====
-- DiskStorage of internal/storage/storage.go over raft's MemoryStorage, which is a parameter. Every
-- method leaves a storage, also when it fails; a file that exists can be read.
use quorum_log.Prelude.{
  ℕ, ◌+◌, ◌-◌, ◌≡◌, String, Bool, Option, none, some, List, [], ◌∷◌, ltb, leb, if◌then◌else◌,
  nat_eq, string_eq, Except, ok, err, ◌>>=◌,
}
use quorum_log.Raftpb.{Entry, ConfState, Snapshot, HardState}
use quorum_log.Storage.{Encoding, StorageError, wal_lines}
use quorum_log.Storage.Files.{
  Directory, create, write, sync, rename, open_append, FileStep, attempt, atomic_write, tmp,
}

abbrev pub wal_name : String
wal_name = "wal.log"

abbrev pub hard_state_name : String
hard_state_name = "hardstate.json"

abbrev pub snapshot_name : String
snapshot_name = "snapshot.json"

-- hardStateFile
pub record HardStateFile : Type 0 where
  pub term : ℕ
  pub vote : ℕ
  pub commit : ℕ

pub record SnapshotFile : Type 0 where
  pub index : ℕ
  pub term : ℕ
  pub voters : List ℕ
  pub learners : List ℕ
  pub payload : List ℕ

-- encoding/json on the two files: it reads back what it wrote.
pub record FileJson : Type 0 where
  pub marshal_hard : HardStateFile → List ℕ
  pub unmarshal_hard : List ℕ → Option HardStateFile
  pub marshal_snap : SnapshotFile → List ℕ
  pub unmarshal_snap : List ℕ → Option SnapshotFile
  pub unmarshal-marshal_hard : (f : HardStateFile) → unmarshal_hard (marshal_hard f) ≡ some f
  pub unmarshal-marshal_snap : (f : SnapshotFile) → unmarshal_snap (marshal_snap f) ≡ some f

abbrev pub to_hard_file : HardState → HardStateFile
to_hard_file hs = record { term = hs.term; vote = hs.vote; commit = hs.commit }

module _ (enc : Encoding) where
  abbrev pub to_snapshot_file : Snapshot → SnapshotFile
  to_snapshot_file snap = record {
    index = snap.index;
    term = snap.term;
    voters = snap.conf_state.voters;
    learners = snap.conf_state.learners;
    payload = enc.encode_to_string snap.payload;
  }

-- raft.MemoryStorage and its errors, of which two are told apart.
pub record Memory : Type 1 where
  pub State : Type 0
  pub Failure : Type 0
  pub new : State
  pub apply_snapshot : State → Snapshot → State × Option Failure
  pub append : State → List Entry → State × Option Failure
  pub set_hard_state : State → HardState → State × Option Failure
  pub create_snapshot : State → ℕ → ConfState → List ℕ → State × Except Failure Snapshot
  pub compact : State → ℕ → State × Option Failure
  pub first_index : State → ℕ
  pub last_index : State → ℕ
  pub entries : State → ℕ → ℕ → Except Failure (List Entry)
  pub is_out_of_date : Failure → Bool
  pub is_compacted : Failure → Bool

module _ (enc : Encoding) where
  -- The steps of Append on the files, and those of resetWAL.
  abbrev pub append_steps : List Entry → List FileStep
  append_steps entries = write wal_name (wal_lines enc entries) ∷ sync wal_name ∷ []

  abbrev pub reset_steps : List Entry → List FileStep
  reset_steps entries =
      create (tmp wal_name)
      ∷ write (tmp wal_name) (wal_lines enc entries)
      ∷ sync (tmp wal_name)
      ∷ rename (tmp wal_name) wal_name
      ∷ open_append wal_name
      ∷ []

module _ (memory : Memory) where
  pub data DiskError : Type 0 where
    io_failed bad_hard_state bad_snapshot missing_data : DiskError
    bad_wal : StorageError → DiskError
    memory_failed : memory.Failure → DiskError

  -- The storage, with the number of steps on the files that still succeed, and the bytes that the
  -- next write after those makes.
  pub record DiskStorage : Type 0 where
    pub mem : memory.State
    pub files : Directory
    pub left : ℕ
    pub partial : ℕ

  pub record Failed : Type 0 where
    pub error : DiskError
    pub storage : DiskStorage

  abbrev pub Method : Type 0
  Method = Except Failed DiskStorage

  -- `err != nil && err != raft.ErrCompacted`
  abbrev pub ignore_compacted : Option memory.Failure → Option memory.Failure
  ignore_compacted none = none
  ignore_compacted (some e) = if memory.is_compacted e then none else some e

  -- The entries that CreateSnapshot keeps in the log.
  unfoldable pub kept : memory.State → Except memory.Failure (List Entry)
  kept mem =
      if leb (memory.first_index mem) (memory.last_index mem)
      then memory.entries mem (memory.first_index mem) (memory.last_index mem + 1)
      else ok []

module _ {memory : Memory} where
  abbrev pub after_steps : DiskStorage memory → Directory × Option ℕ → Method memory
  after_steps ds (files, none) =
      err (record { error = io_failed; storage = record ds { files = files; left = 0 } })
  after_steps ds (files, some left) = ok (record ds { files = files; left = left })

  -- A run of steps on the files, and its error.
  unfoldable pub run_steps : DiskStorage memory → List FileStep → Method memory
  run_steps ds steps = after_steps ds (attempt ds.left ds.partial steps ds.files)

  -- A call of the memory storage, and its error.
  unfoldable pub remember :
      DiskStorage memory → memory.State × Option memory.Failure → Method memory
  remember ds (mem, none) = ok (record ds { mem = mem })
  remember ds (mem, some e) =
      err (record { error = memory_failed e; storage = record ds { mem = mem } })

  module _ (enc : Encoding) (json : FileJson) where
    unfoldable pub append : DiskStorage memory → List Entry → Method memory
    append ds [] = ok ds
    append ds (e ∷ entries) = do
      written ← run_steps ds (append_steps enc (e ∷ entries))
      remember written (memory.append written.mem (e ∷ entries))

    unfoldable pub set_hard_state : DiskStorage memory → HardState → Method memory
    set_hard_state ds hs = do
      written ← run_steps ds (atomic_write hard_state_name (json.marshal_hard (to_hard_file hs)))
      remember written (memory.set_hard_state written.mem hs)

    -- writeSnapshotFile
    unfoldable pub write_snapshot_file : DiskStorage memory → Snapshot → Method memory
    write_snapshot_file ds snap =
        run_steps ds (atomic_write snapshot_name (json.marshal_snap (to_snapshot_file enc snap)))

    -- resetWAL
    unfoldable pub reset_wal : DiskStorage memory → List Entry → Method memory
    reset_wal ds entries = run_steps ds (reset_steps enc entries)

    unfoldable pub save_snapshot : DiskStorage memory → Snapshot → Method memory
    save_snapshot ds snap = do
      written ← write_snapshot_file ds snap
      reset ← reset_wal written []
      remember reset (memory.apply_snapshot reset.mem snap)

    -- The compaction in CreateSnapshot.
    unfoldable pub compact : DiskStorage memory → ℕ → ℕ → Method memory
    compact ds applied_index trailing =
        let compact_to = if ltb trailing applied_index then applied_index - trailing else 0 in
        if leb (memory.first_index ds.mem) compact_to
        then (let (mem, failure) = memory.compact ds.mem compact_to in
            remember ds (mem, ignore_compacted memory failure))
        else ok ds

    -- The rewriting of the log in CreateSnapshot.
    unfoldable pub rewrite_wal :
        DiskStorage memory → Except memory.Failure (List Entry) → Method memory
    rewrite_wal ds (err e) = err (record { error = memory_failed e; storage = ds })
    rewrite_wal ds (ok entries) = reset_wal ds entries

    -- CreateSnapshot after the memory storage has made the snapshot.
    unfoldable pub store_snapshot :
        DiskStorage memory → ℕ → ℕ → memory.State × Except memory.Failure Snapshot → Method memory
    store_snapshot ds applied_index trailing (mem, err e) =
        err (record { error = memory_failed e; storage = record ds { mem = mem } })
    store_snapshot ds applied_index trailing (mem, ok snap) = do
      written ← write_snapshot_file (record ds { mem = mem }) snap
      compacted ← compact written applied_index trailing
      rewrite_wal compacted (kept memory compacted.mem)

    unfoldable pub create_snapshot : DiskStorage memory → ℕ → ConfState → List ℕ → ℕ → Method memory
    create_snapshot ds applied_index cs bytes trailing =
        store_snapshot ds applied_index trailing
          (memory.create_snapshot ds.mem applied_index cs bytes)
