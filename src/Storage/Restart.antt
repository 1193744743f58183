-- ===== src/Storage/Restart.antt =====
-- Open of internal/storage/storage.go after a run of calls that returned no error.
use mathlib.Core.List.{reverse}
use quorum_log.Prelude.{
  ℕ, ◌≡◌, refl, Option, none, some, List, [], ◌++◌, All, true, false, ◌||◌, Bool, string_eq, Except,
  ok, err, ◌>>=◌,
}
use quorum_log.Raftpb.{Entry, ConfState, Snapshot, HardState}
use quorum_log.Storage.{Encoding, wal_lines, drop_covered}
use quorum_log.Storage.Replay.{append_all, Fits, replay-append_all}
use quorum_log.Storage.Files.{Directory, perform, open_append}
use quorum_log.Storage.Disk.{
  wal_name, FileJson, Memory, DiskStorage, kept, to_hard_file, to_snapshot_file, append,
  set_hard_state, save_snapshot, create_snapshot,
}
use quorum_log.Storage.Reopen.{
  Attempt, apply_snapshot, append_replayed, apply_hard_state, open_storage, load_snapshot_file,
  load_hard_state_file, of_snapshot_file, replay_file, index_of, is_there,
}
use quorum_log.Storage.Stored.{Durable, Stores, snapshot_bytes, hard_bytes, if_any}
use quorum_log.Storage.Calls.{
  append-Stores, set_hard_state-Stores, save_snapshot-Stores, create_snapshot-Stores,
}

module _ (enc : Encoding) (json : FileJson) {memory : Memory} where
  -- A call of a method that returns no error, with what it makes durable.
  pub data Call : DiskStorage memory → Durable → DiskStorage memory → Durable → Type 0 where
    appended :
        {ds ds' : DiskStorage memory} {c : Durable} (entries : List Entry)
        → append enc json ds entries ≡ ok ds'
        → Call ds c ds' (record c { written = c.written ++ entries })
    voted :
        {ds ds' : DiskStorage memory} {c : Durable} (hs : HardState)
        → set_hard_state enc json ds hs ≡ ok ds'
        → Call ds c ds' (record c { hard = some hs })
    saved :
        {ds ds' : DiskStorage memory} {c : Durable} (snap : Snapshot)
        → save_snapshot enc json ds snap ≡ ok ds'
        → Call ds c ds' (record c { snap = some snap; written = [] })
    -- The snapshot is the one that the memory storage makes, the entries those it still has.
    created :
        {ds ds' : DiskStorage memory} {c : Durable} (applied : ℕ) (cs : ConfState) (bytes : List ℕ)
        (trailing : ℕ) {snap : Snapshot} {keep : List Entry}
        → (memory.create_snapshot ds.mem applied cs bytes).1 ≡ ok snap
        → kept memory ds'.mem ≡ ok keep
        → create_snapshot enc json ds applied cs bytes trailing ≡ ok ds'
        → Call ds c ds' (record c { snap = some snap; written = keep })

  pub data Calls : DiskStorage memory → Durable → DiskStorage memory → Durable → Type 0 where
    no_calls : {ds : DiskStorage memory} {c : Durable} → Calls ds c ds c
    then_call :
        {ds ds' ds'' : DiskStorage memory} {c c' c'' : Durable}
        → Calls ds c ds' c'
        → Call ds' c' ds'' c''
        → Calls ds c ds'' c''

  call-Stores :
      {ds ds' : DiskStorage memory} {c c' : Durable}
      → Call ds c ds' c'
      → Stores enc json ds.files c
      → Stores enc json ds'.files c'
  call-Stores (appended {ds = ds} entries h) s = append-Stores ds s entries h
  call-Stores (voted {ds = ds} hs h) s = set_hard_state-Stores ds s hs h
  call-Stores (saved {ds = ds} snap h) s = save_snapshot-Stores ds s snap h
  call-Stores (created {ds = ds} applied cs bytes trailing made keeps h) s =
      create_snapshot-Stores ds s applied cs bytes trailing made keeps h

  calls-Stores :
      {ds ds' : DiskStorage memory} {c c' : Durable}
      → Calls ds c ds' c'
      → Stores enc json ds.files c
      → Stores enc json ds'.files c'
  calls-Stores no_calls s = s
  calls-Stores (then_call calls call) s = call-Stores call (calls-Stores calls s)

module _ (memory : Memory) where
  -- The memory storage with what was made durable.
  unfoldable pub rebuild :
      Option Snapshot → List Entry → Option HardState → Attempt memory memory.State
  rebuild snap ents hard = do
    restored ← apply_snapshot memory memory.new snap
    replayed ← append_replayed memory restored (index_of snap) ents
    apply_hard_state memory replayed hard

module _ (enc : Encoding) (json : FileJson) where
  pub load_snapshot-stored :
      (snap : Option Snapshot)
      → load_snapshot_file enc json (if_any (snapshot_bytes enc json) snap) ≡ some snap
  unfolding load_snapshot_file of_snapshot_file
  load_snapshot-stored none = refl
  load_snapshot-stored (some snap) = rw (
    load_snapshot_file,
    json.unmarshal-marshal_snap (to_snapshot_file enc snap),
    of_snapshot_file,
    enc.decode-encode snap.payload,
  )

  pub load_hard_state-stored :
      (hard : Option HardState)
      → load_hard_state_file json (if_any (hard_bytes enc json) hard) ≡ some hard
  unfolding load_hard_state_file
  load_hard_state-stored none = refl
  load_hard_state-stored (some hs) =
      rw (load_hard_state_file, json.unmarshal-marshal_hard (to_hard_file hs))

or_true : (b : Bool) → b || true ≡ true
or_true true = refl
or_true false = refl

>>=-assoc :
    {E A B C : Type 0} (r : Except E A) (f : A → Except E B) (g : B → Except E C)
    → ◌>>=◌ r (λ a. ◌>>=◌ (f a) g) ≡ ◌>>=◌ (◌>>=◌ r f) g
>>=-assoc (ok a) f g = refl
>>=-assoc (err e) f g = refl

>>=-assoc_twice :
    {E A B C D : Type 0} (r : Except E A) (f : A → Except E B) (g : B → Except E C)
    (h : C → Except E D)
    → ◌>>=◌ r (λ a. ◌>>=◌ (f a) (λ b. ◌>>=◌ (g b) h)) ≡ ◌>>=◌ (◌>>=◌ r (λ a. ◌>>=◌ (f a) g)) h
>>=-assoc_twice (ok a) f g h = >>=-assoc (f a) g h
>>=-assoc_twice (err e) f g h = refl

module _ (enc : Encoding) (json : FileJson) (memory : Memory) where
  -- Open with the entries that the log keeps.
  abbrev pub replayed_from : Durable → List Entry
  replayed_from c = drop_covered (index_of c.snap) (reverse (append_all [] c.written))

  replay-stored :
      (c : Durable)
      → All (Fits enc) c.written
      → replay_file enc (some (wal_lines enc c.written)) (index_of c.snap)
        ≡ ok (replayed_from c, true)
  unfolding replay_file
  replay-stored c fit = rw (replay-append_all enc c.written (index_of c.snap) fit) refl

  module _ (files : Directory) (c : Durable) (s : Stores enc json files c)
      (fit : All (Fits enc) c.written) (left partial : ℕ) where
    open-Stores :
        open_storage enc json memory files left partial
        ≡ ◌>>=◌ (rebuild memory c.snap (replayed_from c) c.hard) (λ mem. ok (
          record {
            mem = mem;
            files = perform (open_append wal_name) files;
            left = left;
            partial = partial;
          },
          true,
        ))
    unfolding open_storage rebuild
    open-Stores =
        rw
          (
            s.snap_stored,
            load_snapshot-stored enc json c.snap,
            s.written_stored,
            replay-stored c fit,
            s.hard_stored,
            load_hard_state-stored enc json c.hard,
            or_true (is_there c.snap),
          )
          (>>=-assoc_twice (apply_snapshot memory memory.new c.snap)
            (λ m. append_replayed memory m (index_of c.snap) (replayed_from c))
            (λ m. apply_hard_state memory m c.hard)
            (λ mem. ok (
              record {
                mem = mem;
                files = perform (open_append wal_name) files;
                left = left;
                partial = partial;
              },
              true,
            )))

  pub restart :
      {ds ds' : DiskStorage memory} {c c' : Durable} (left partial : ℕ)
      → Stores enc json ds.files c
      → Calls enc json ds c ds' c'
      → All (Fits enc) c'.written
      → open_storage enc json memory ds'.files left partial
        ≡ ◌>>=◌ (rebuild memory c'.snap (replayed_from c') c'.hard) (λ mem. ok (
          record {
            mem = mem;
            files = perform (open_append wal_name) ds'.files;
            left = left;
            partial = partial;
          },
          true,
        ))
  restart {ds' = ds'} {c' = c'} left partial s calls fit =
      open-Stores ds'.files c' (calls-Stores enc json calls s) fit left partial
