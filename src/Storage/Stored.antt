-- ===== src/Storage/Stored.antt =====
-- What the files of internal/storage/storage.go hold, and the steps that its methods make on them.
use mathlib.Core.List.{append_assoc}
use quorum_log.Prelude.{
  ℕ, zero, suc, ◌≡◌, refl, sym, ap, ◌∙◌, Option, none, some, List, [], ◌∷◌, ◌++◌, string_eq, ok,
  ok-injective, err-ne-ok,
}
use quorum_log.Prelude.GoMap
use quorum_log.Raftpb.{Entry, Snapshot, HardState}
use quorum_log.Storage.{Encoding, wal_lines, to_record}
use quorum_log.Storage.Files.{Directory, FileStep, perform, attempt, atomic_write}
use quorum_log.Storage.Disk.{
  wal_name, hard_state_name, snapshot_name, append_steps, reset_steps, FileJson, Memory,
  DiskStorage, to_hard_file, to_snapshot_file, after_steps, run_steps, remember,
}
use quorum_log.Storage.Reopen.{}

-- What was made durable: the newest snapshot and hard state, and the records of the log.
pub record Durable : Type 0 where
  pub snap : Option Snapshot
  pub written : List Entry
  pub hard : Option HardState

abbrev pub perform_all : List FileStep → Directory → Directory
perform_all [] d = d
perform_all (s ∷ steps) d = perform_all steps (perform s d)

attempt_all :
    (after partial : ℕ) (steps : List FileStep) (d : Directory) {d' : Directory} {left : ℕ}
    → attempt after partial steps d ≡ (d', some left)
    → d' ≡ perform_all steps d
attempt_all after partial [] d h = ap (λ x. x.0) (sym h)
attempt_all zero partial (s ∷ steps) d h = absurd (cc h)
attempt_all (suc n) partial (s ∷ steps) d h = attempt_all n partial steps (perform s d) h

abbrev pub if_any : {A : Type 0} → (A → List ℕ) → Option A → Option (List ℕ)
if_any f none = none
if_any f (some a) = some (f a)

module _ (enc : Encoding) where
  pub wal_lines-append :
      (ents more : List Entry)
      → wal_lines enc (ents ++ more) ≡ wal_lines enc ents ++ wal_lines enc more
  unfolding wal_lines
  wal_lines-append [] more = refl
  wal_lines-append (e ∷ ents) more =
      rw (wal_lines-append ents more) (sym (append_assoc (enc.marshal (to_record enc e)) _ _))

module _ (enc : Encoding) (json : FileJson) where
  abbrev pub snapshot_bytes : Snapshot → List ℕ
  snapshot_bytes snap = json.marshal_snap (to_snapshot_file enc snap)

  abbrev pub hard_bytes : HardState → List ℕ
  hard_bytes hs = json.marshal_hard (to_hard_file hs)

  -- The three files hold it.
  pub record Stores (files : Directory) (d : Durable) : Type 0 where
    pub snap_stored : GoMap.get files snapshot_name ≡ if_any snapshot_bytes d.snap
    pub written_stored : GoMap.get files wal_name ≡ some (wal_lines enc d.written)
    pub hard_stored : GoMap.get files hard_state_name ≡ if_any hard_bytes d.hard

  pub hard_step :
      (d : Directory) (c : Durable) (hs : HardState)
      → Stores d c
      → Stores
          (perform_all (atomic_write hard_state_name (hard_bytes hs)) d)
          (record c { hard = some hs })
  unfolding perform
  hard_step d c hs s = record {
    snap_stored = simp (GoMap.map_laws, s.snap_stored);
    written_stored = simp (GoMap.map_laws, s.written_stored);
    hard_stored = simp (GoMap.map_laws);
  }

  pub snapshot_step :
      (d : Directory) (c : Durable) (snap : Snapshot)
      → Stores d c
      → Stores
          (perform_all (atomic_write snapshot_name (snapshot_bytes snap)) d)
          (record c { snap = some snap })
  unfolding perform
  snapshot_step d c snap s = record {
    snap_stored = simp (GoMap.map_laws);
    written_stored = simp (GoMap.map_laws, s.written_stored);
    hard_stored = simp (GoMap.map_laws, s.hard_stored);
  }

  pub reset_step :
      (d : Directory) (c : Durable) (ents : List Entry)
      → Stores d c
      → Stores (perform_all (reset_steps enc ents) d) (record c { written = ents })
  unfolding perform
  reset_step d c ents s = record {
    snap_stored = simp (GoMap.map_laws, s.snap_stored);
    written_stored = simp (GoMap.map_laws);
    hard_stored = simp (GoMap.map_laws, s.hard_stored);
  }

  pub append_step :
      (d : Directory) (c : Durable) (ents : List Entry)
      → Stores d c
      → Stores (perform_all (append_steps enc ents) d) (record c { written = c.written ++ ents })
  unfolding perform
  append_step d c ents s = record {
    snap_stored = simp (GoMap.map_laws, s.snap_stored);
    written_stored =
        simp (GoMap.map_laws, GoMap.get_or_found d wal_name [] s.written_stored, wal_lines-append);
    hard_stored = simp (GoMap.map_laws, s.hard_stored);
  }

module _ {memory : Memory} where
  after_steps-ok :
      (ds : DiskStorage memory) (r : Directory × Option ℕ) (all : Directory)
      {ds' : DiskStorage memory}
      → ((d' : Directory) (left : ℕ) → r ≡ (d', some left) → d' ≡ all)
      → after_steps ds r ≡ ok ds'
      → (ds'.files ≡ all) × (ds'.mem ≡ ds.mem)
  after_steps-ok ds (d', none) all done h = absurd (err-ne-ok h)
  after_steps-ok ds (d', some left) all done h = (
    sym (ap (λ x. x.files) (ok-injective h)) ∙ done d' left refl,
    sym (ap (λ x. x.mem) (ok-injective h)),
  )

  pub run_steps-ok :
      (ds : DiskStorage memory) (steps : List FileStep) {ds' : DiskStorage memory}
      → run_steps ds steps ≡ ok ds'
      → (ds'.files ≡ perform_all steps ds.files) × (ds'.mem ≡ ds.mem)
  unfolding run_steps
  run_steps-ok ds steps h =
      after_steps-ok ds _ _ (λ d' left e. attempt_all ds.left ds.partial steps ds.files e) h

  pub remember-ok :
      (ds : DiskStorage memory) (r : memory.State × Option memory.Failure)
      {ds' : DiskStorage memory}
      → remember ds r ≡ ok ds'
      → ds'.files ≡ ds.files
  unfolding remember
  remember-ok ds (mem, none) h = sym (ap (λ x. x.files) (ok-injective h))
  remember-ok ds (mem, some e) h = absurd (err-ne-ok h)
