-- ===== src/Engine/OnDisk.antt =====
-- The engine of internal/engine/engine.go on the storage of internal/storage/storage.go.
use quorum_log.Prelude.{
  ◌≡◌, sym, ap, subst, ◌⊎◌, true, Option, none, some, List, [], ◌∷◌, ◌++◌, if◌then◌else◌, ok, err,
}
use mathlib.Core.List.{append-nil}
use quorum_log.Raftpb.{Entry, ConfState, Snapshot, HardState}
use quorum_log.Sm.Persist.{Json, snapshot}
use quorum_log.Storage.{Encoding}
use quorum_log.Storage.Disk.{
  FileJson, Memory, DiskError, io_failed, bad_hard_state, bad_snapshot, missing_data, bad_wal,
  memory_failed, DiskStorage, Method, save_snapshot, append, set_hard_state, create_snapshot,
}
use quorum_log.Storage.Stored.{Durable, Stores}
use quorum_log.Storage.Calls.{append-Stores, set_hard_state-Stores, save_snapshot-Stores}
use quorum_log.Engine.Interfaces.{Raft, Disk, CreateError, out_of_date, create_failed}
use quorum_log.Engine.{Engine}
use quorum_log.Engine.Batch.{handle_ready}
use quorum_log.Engine.Handled.{batch}
use quorum_log.Engine.Durable.{HasSaved, HasAppended, HasVoted, handle_ready-durable}

module _ (memory : Memory) where
  -- A method's storage and its error.
  abbrev pub outcome : Method memory → DiskStorage memory × Option (DiskError memory)
  outcome (ok ds) = (ds, none)
  outcome (err f) = (f.storage, some f.error)

  -- `err == raft.ErrSnapOutOfDate`
  abbrev pub create_error : DiskError memory → CreateError (DiskError memory)
  create_error (memory_failed e) =
      if memory.is_out_of_date e then out_of_date else create_failed (memory_failed e)
  create_error io_failed = create_failed io_failed
  create_error bad_hard_state = create_failed bad_hard_state
  create_error bad_snapshot = create_failed bad_snapshot
  create_error missing_data = create_failed missing_data
  create_error (bad_wal e) = create_failed (bad_wal e)

  abbrev pub create_outcome :
      Method memory → DiskStorage memory × Option (CreateError (DiskError memory))
  create_outcome (ok ds) = (ds, none)
  create_outcome (err f) = (f.storage, some (create_error f.error))

module _ (enc : Encoding) (json : FileJson) (memory : Memory) where
  -- The storage as the engine uses it.
  abbrev pub on_disk : Disk
  on_disk = record {
    Files = DiskStorage memory;
    Failure = DiskError memory;
    save_snapshot = λ ds snap. outcome memory (save_snapshot enc json ds snap);
    append = λ ds entries. outcome memory (append enc json ds entries);
    set_hard_state = λ ds hs. outcome memory (set_hard_state enc json ds hs);
    create_snapshot = λ ds index cs bytes trailing.
        create_outcome memory (create_snapshot enc json ds index cs bytes trailing);
  }

-- What a batch makes durable.
abbrev pub with_snapshot : Option Snapshot → Durable → Durable
with_snapshot none c = c
with_snapshot (some snap) c = record c { snap = some snap; written = [] }

abbrev pub with_vote : Option HardState → Durable → Durable
with_vote none c = c
with_vote (some hs) c = record c { hard = some hs }

abbrev pub with_entries : List Entry → Durable → Durable
with_entries entries c = record c { written = c.written ++ entries }

module _ {memory : Memory} where
  outcome-ok :
      (r : Method memory) (ds : DiskStorage memory) → outcome memory r ≡ (ds, none) → r ≡ ok ds
  outcome-ok (ok ds') ds h = ap ok (ap (λ x. x.0) h)
  outcome-ok (err f) ds h = absurd (cc (ap (λ x. x.1) h))

module _ {enc : Encoding} {json : FileJson} {memory : Memory} where
  saved-Stores :
      (snap : Option Snapshot) (ds ds' : DiskStorage memory) (c : Durable)
      → HasSaved (on_disk enc json memory) snap ds ds'
      → Stores enc json ds.files c
      → Stores enc json ds'.files (with_snapshot snap c)
  saved-Stores none ds ds' c h s = subst (λ d. Stores enc json d.files c) (sym h) s
  saved-Stores (some snap) ds ds' c h s =
      save_snapshot-Stores ds s snap (outcome-ok (save_snapshot enc json ds snap) ds' h)

  appended-Stores :
      (entries : List Entry) (ds ds' : DiskStorage memory) (c : Durable)
      → HasAppended (on_disk enc json memory) entries ds ds'
      → Stores enc json ds.files c
      → Stores enc json ds'.files (with_entries entries c)
  appended-Stores [] ds ds' c h s =
      subst (λ w. Stores enc json ds'.files (record c { written = w })) (sym (append-nil c.written))
        (subst (λ d. Stores enc json d.files c) (sym h) s)
  appended-Stores (e ∷ entries) ds ds' c h s =
      append-Stores ds s (e ∷ entries) (outcome-ok (append enc json ds (e ∷ entries)) ds' h)

  voted-Stores :
      (hs : Option HardState) (ds ds' : DiskStorage memory) (c : Durable)
      → HasVoted (on_disk enc json memory) hs ds ds'
      → Stores enc json ds.files c
      → Stores enc json ds'.files (with_vote hs c)
  voted-Stores none ds ds' c h s = subst (λ d. Stores enc json d.files c) (sym h) s
  voted-Stores (some hs) ds ds' c h s =
      set_hard_state-Stores ds s hs (outcome-ok (set_hard_state enc json ds hs) ds' h)

  module _ {raft : Raft} (codec : Json) where
    -- When HandleReady returns messages to send and no error, the files hold the batch's snapshot,
    -- entries and hard state over what they held before; after that the engine at most takes a
    -- snapshot of its own.
    pub handle_ready-Stores :
        (e : Engine raft (on_disk enc json memory)) (c : Durable)
        {e' : Engine raft (on_disk enc json memory)} {messages : List raft.Message}
        → Stores enc json e.st.files c
        → raft.has_ready e.rn ≡ true
        → handle_ready codec e ≡ ok (e', messages)
        → (ds : DiskStorage memory) × Stores enc json ds.files (
            with_vote
              (batch e).hard_state
              (with_entries (batch e).entries (with_snapshot (batch e).snapshot c)))
          × ((e'.st ≡ ds)
              ⊎ ((voters : ConfState) × (e'.st
                    ≡ (create_outcome memory (
                        create_snapshot enc json ds e'.applied_index voters
                          (snapshot codec e'.sm)
                          e'.cfg.snapshot_trailing)).0)))
    handle_ready-Stores e c {e' = e'} s ready h =
        let (sends, f₁, f₂, f₃, saves, appends, votes, rest) =
          handle_ready-durable codec e {e' = e'} ready h in
        (
          f₃,
          voted-Stores (batch e).hard_state f₂ f₃ _ votes (
              appended-Stores (batch e).entries f₁ f₂ _ appends
                (saved-Stores (batch e).snapshot e.st f₁ c saves s)),
          rest,
        )
