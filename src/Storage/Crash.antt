-- ===== src/Storage/Crash.antt =====
-- What the methods of DiskStorage in internal/storage/storage.go leave in the files when an error or a
-- crash stops them somewhere.
use mathlib.Core.List.{reverse, append-nil}
use quorum_log.Prelude.{
  ℕ, zero, suc, String, ◌≡◌, ◌⊎◌, inl, inr, refl, sym, ap, ◌∙◌, true, false, Option, none, some,
  List, [], ◌∷◌, ◌++◌, take, All, length, ◌==◌, string_eq, ok, err, ◌>>=◌, subst,
}
use quorum_log.Prelude.GoMap
use quorum_log.Raftpb.{Entry, Snapshot, HardState}
use quorum_log.Storage.{Encoding, wal_lines, drop_covered}
use quorum_log.Storage.Replay.{append_all, Fits}
use quorum_log.Storage.Files.{Directory, FileStep, perform, break_off, attempt, atomic_write}
use quorum_log.Storage.Disk.{
  wal_name, hard_state_name, snapshot_name, append_steps, reset_steps, FileJson, Memory,
  DiskStorage, Method, after_steps, run_steps, remember, append, set_hard_state, save_snapshot,
  write_snapshot_file, reset_wal,
}
use quorum_log.Storage.Reopen.{replay_file}
use quorum_log.Storage.Stored.{
  Durable, Stores, snapshot_bytes, hard_bytes, if_any, hard_step, snapshot_step, reset_step,
}
use quorum_log.Storage.Calls.{write_snapshot_file-Stores}
use quorum_log.Storage.Prefix.{Reads-prefix}

module _ (enc : Encoding) (json : FileJson) where
  -- A file beside the three changes nothing.
  Stores-put :
      {d : Directory} {c : Durable} (name : String) (bytes : List ℕ)
      → (name == snapshot_name) ≡ false
      → (name == wal_name) ≡ false
      → (name == hard_state_name) ≡ false
      → Stores enc json d c
      → Stores enc json (GoMap.put d name bytes) c
  Stores-put name bytes p q r s = record {
    snap_stored = simp (GoMap.map_laws, p, s.snap_stored);
    written_stored = simp (GoMap.map_laws, q, s.written_stored);
    hard_stored = simp (GoMap.map_laws, r, s.hard_stored);
  }

  hard_cut :
      (after partial : ℕ) {d : Directory} {c : Durable} (hs : HardState)
      → Stores enc json d c
      → Stores enc json
          (attempt after partial (atomic_write hard_state_name (hard_bytes enc json hs)) d).0
          c
        ⊎ Stores enc json
            (attempt after partial (atomic_write hard_state_name (hard_bytes enc json hs)) d).0
            (record c { hard = some hs })
  unfolding perform break_off
  hard_cut zero partial hs s = inl s
  hard_cut (suc zero) partial hs s =
      inl (Stores-put _ _ refl refl refl (Stores-put _ _ refl refl refl s))
  hard_cut (suc (suc zero)) partial hs s =
      inl (Stores-put _ _ refl refl refl (Stores-put _ _ refl refl refl s))
  hard_cut (suc (suc (suc zero))) partial hs s =
      inl (Stores-put _ _ refl refl refl (Stores-put _ _ refl refl refl s))
  hard_cut (suc (suc (suc (suc n)))) partial hs s = inr (hard_step enc json _ _ hs s)

  snapshot_cut :
      (after partial : ℕ) {d : Directory} {c : Durable} (snap : Snapshot)
      → Stores enc json d c
      → Stores enc json
          (attempt after partial (atomic_write snapshot_name (snapshot_bytes enc json snap)) d).0
          c
        ⊎ Stores enc json
            (attempt after partial (atomic_write snapshot_name (snapshot_bytes enc json snap)) d).0
            (record c { snap = some snap })
  unfolding perform break_off
  snapshot_cut zero partial snap s = inl s
  snapshot_cut (suc zero) partial snap s =
      inl (Stores-put _ _ refl refl refl (Stores-put _ _ refl refl refl s))
  snapshot_cut (suc (suc zero)) partial snap s =
      inl (Stores-put _ _ refl refl refl (Stores-put _ _ refl refl refl s))
  snapshot_cut (suc (suc (suc zero))) partial snap s =
      inl (Stores-put _ _ refl refl refl (Stores-put _ _ refl refl refl s))
  snapshot_cut (suc (suc (suc (suc n)))) partial snap s = inr (snapshot_step enc json _ _ snap s)

  reset_cut :
      (after partial : ℕ) {d : Directory} {c : Durable} (ents : List Entry)
      → Stores enc json d c
      → Stores enc json (attempt after partial (reset_steps enc ents) d).0 c
        ⊎ Stores enc json
            (attempt after partial (reset_steps enc ents) d).0
            (record c { written = ents })
  unfolding perform break_off
  reset_cut zero partial ents s = inl s
  reset_cut (suc zero) partial ents s =
      inl (Stores-put _ _ refl refl refl (Stores-put _ _ refl refl refl s))
  reset_cut (suc (suc zero)) partial ents s =
      inl (Stores-put _ _ refl refl refl (Stores-put _ _ refl refl refl s))
  reset_cut (suc (suc (suc zero))) partial ents s =
      inl (Stores-put _ _ refl refl refl (Stores-put _ _ refl refl refl s))
  reset_cut (suc (suc (suc (suc zero)))) partial {d} {c} ents s = inr (record {
    snap_stored = simp (GoMap.map_laws, s.snap_stored);
    written_stored = simp (GoMap.map_laws);
    hard_stored = simp (GoMap.map_laws, s.hard_stored);
  })
  reset_cut (suc (suc (suc (suc (suc n))))) partial ents s = inr (reset_step enc json _ _ ents s)

module _ {memory : Memory} where
  -- The storage that a method leaves, whether it fails or not.
  abbrev pub left_by : Method memory → DiskStorage memory
  left_by (ok ds) = ds
  left_by (err f) = f.storage

  after_steps-left :
      (ds : DiskStorage memory) (r : Directory × Option ℕ)
      → (left_by (after_steps ds r)).files ≡ r.0
  after_steps-left ds (d, none) = refl
  after_steps-left ds (d, some n) = refl

  run_steps-left :
      (P : Directory → Type 0) (ds : DiskStorage memory) (steps : List FileStep)
      → P (attempt ds.left ds.partial steps ds.files).0
      → P (left_by (run_steps ds steps)).files
  unfolding run_steps
  run_steps-left P ds steps p =
      subst P (sym (after_steps-left ds (attempt ds.left ds.partial steps ds.files))) p

  remember-left :
      (P : Directory → Type 0) (ds : DiskStorage memory) (r : memory.State × Option memory.Failure)
      → P ds.files
      → P (left_by (remember ds r)).files
  unfolding remember
  remember-left P ds (mem, none) p = p
  remember-left P ds (mem, some e) p = p

  bind-left :
      (P : Directory → Type 0) (r : Method memory) (f : DiskStorage memory → Method memory)
      → P (left_by r).files
      → ((w : DiskStorage memory) → r ≡ ok w → P w.files → P (left_by (f w)).files)
      → P (left_by (◌>>=◌ r f)).files
  bind-left P (err e) f p next = p
  bind-left P (ok w) f p next = next w refl p

module _ (enc : Encoding) (json : FileJson) {memory : Memory} (ds : DiskStorage memory)
    {c : Durable} (s : Stores enc json ds.files c) where
  -- However SetHardState ends, the files hold the old hard state or the new one.
  pub set_hard_state_crash :
      (hs : HardState)
      → Stores enc json (left_by (set_hard_state enc json ds hs)).files c
        ⊎ Stores enc json
            (left_by (set_hard_state enc json ds hs)).files
            (record c { hard = some hs })
  unfolding set_hard_state
  set_hard_state_crash hs =
      bind-left P (run_steps ds (atomic_write hard_state_name (hard_bytes enc json hs))) _
        (run_steps-left P ds _ (hard_cut enc json ds.left ds.partial hs s))
        (λ w e p. remember-left P w (memory.set_hard_state w.mem hs) p)
    where
      P : Directory → Type 0
      P d = Stores enc json d c ⊎ Stores enc json d (record c { hard = some hs })

  write_snapshot_file_crash :
      (snap : Snapshot)
      → Stores enc json (left_by (write_snapshot_file enc json ds snap)).files c
        ⊎ Stores enc json
            (left_by (write_snapshot_file enc json ds snap)).files
            (record c { snap = some snap })
  unfolding write_snapshot_file
  write_snapshot_file_crash snap =
      run_steps-left (λ d. Stores enc json d c ⊎ Stores enc json d (record c { snap = some snap }))
        ds _ (snapshot_cut enc json ds.left ds.partial snap s)

  reset_wal_crash :
      (ents : List Entry)
      → Stores enc json (left_by (reset_wal enc json ds ents)).files c
        ⊎ Stores enc json (left_by (reset_wal enc json ds ents)).files (record c { written = ents })
  unfolding reset_wal
  reset_wal_crash ents =
      run_steps-left (λ d. Stores enc json d c ⊎ Stores enc json d (record c { written = ents })) ds
        _ (reset_cut enc json ds.left ds.partial ents s)

module _ (enc : Encoding) (json : FileJson) {memory : Memory} (ds : DiskStorage memory)
    {c : Durable} (s : Stores enc json ds.files c) where
  -- However SaveSnapshot ends, the files hold the old snapshot and log, the new snapshot with the old
  -- log, or the new snapshot with an empty log.
  pub save_snapshot_crash :
      (snap : Snapshot)
      → Stores enc json (left_by (save_snapshot enc json ds snap)).files c
        ⊎ (Stores enc json
              (left_by (save_snapshot enc json ds snap)).files
              (record c { snap = some snap })
            ⊎ Stores enc json
                (left_by (save_snapshot enc json ds snap)).files
                (record c { snap = some snap; written = [] }))
  unfolding save_snapshot
  save_snapshot_crash snap =
      bind-left P (write_snapshot_file enc json ds snap) _
        (not_reset (write_snapshot_file_crash enc json ds s snap))
        (λ w e p.
          bind-left P (reset_wal enc json w []) _
            (inr (reset_wal_crash enc json w (write_snapshot_file-Stores ds s snap e) []))
            (λ r f q. remember-left P r (memory.apply_snapshot r.mem snap) q))
    where
      P : Directory → Type 0
      P d =
          Stores enc json d c
          ⊎ (Stores enc json d (record c { snap = some snap })
              ⊎ Stores enc json d (record c { snap = some snap; written = [] }))

      not_reset :
          {d : Directory}
          → Stores enc json d c ⊎ Stores enc json d (record c { snap = some snap })
          → P d
      not_reset (inl o) = inl o
      not_reset (inr n) = inr (inl n)

take_all {ℓ} : {A : Type ℓ} (xs : List A) → take (length xs) xs ≡ xs
take_all [] = refl
take_all (x ∷ xs) = ap (◌∷◌ x) (take_all xs)

module _ (enc : Encoding) (json : FileJson) (c : Durable) (ents : List Entry) where
  -- The files after some bytes of a call of Append.
  record CutLog (d : Directory) : Type 0 where
    snap_kept : GoMap.get d snapshot_name ≡ if_any (snapshot_bytes enc json) c.snap
    hard_kept : GoMap.get d hard_state_name ≡ if_any (hard_bytes enc json) c.hard
    log_cut :
        (n : ℕ) × (GoMap.get d wal_name
          ≡ some (wal_lines enc c.written ++ take n (wal_lines enc ents)))

  append_cut :
      (after partial : ℕ) {d : Directory}
      → Stores enc json d c
      → CutLog (attempt after partial (append_steps enc ents) d).0
  unfolding perform break_off
  append_cut zero partial s = record {
    snap_kept = simp (GoMap.map_laws, s.snap_stored);
    hard_kept = simp (GoMap.map_laws, s.hard_stored);
    log_cut = (partial, simp (GoMap.map_laws, GoMap.get_or_found _ wal_name [] s.written_stored));
  }
  append_cut (suc zero) partial s = record {
    snap_kept = simp (GoMap.map_laws, s.snap_stored);
    hard_kept = simp (GoMap.map_laws, s.hard_stored);
    log_cut = (
      length (wal_lines enc ents),
      simp (
        GoMap.map_laws,
        GoMap.get_or_found _ wal_name [] s.written_stored,
        take_all (wal_lines enc ents),
      ),
    );
  }
  append_cut (suc (suc n)) partial s = record {
    snap_kept = simp (GoMap.map_laws, s.snap_stored);
    hard_kept = simp (GoMap.map_laws, s.hard_stored);
    log_cut = (
      length (wal_lines enc ents),
      simp (
        GoMap.map_laws,
        GoMap.get_or_found _ wal_name [] s.written_stored,
        take_all (wal_lines enc ents),
      ),
    );
  }

module _ (enc : Encoding) (json : FileJson) {memory : Memory} (ds : DiskStorage memory)
    {c : Durable} (s : Stores enc json ds.files c) where
  append-CutLog :
      (ents : List Entry) → CutLog enc json c ents (left_by (append enc json ds ents)).files
  unfolding append
  append-CutLog [] = record {
    snap_kept = s.snap_stored;
    hard_kept = s.hard_stored;
    log_cut = (0, s.written_stored ∙ ap some (sym (append-nil (wal_lines enc c.written))));
  }
  append-CutLog (e ∷ ents) =
      bind-left (CutLog enc json c (e ∷ ents)) (run_steps ds (append_steps enc (e ∷ ents))) _
        (run_steps-left (CutLog enc json c (e ∷ ents)) ds _
          (append_cut enc json c (e ∷ ents) ds.left ds.partial s))
        (λ w f p. remember-left (CutLog enc json c (e ∷ ents)) w (memory.append w.mem (e ∷ ents)) p)

  -- However Append ends, the snapshot and the hard state are as before, and a restart reads from the
  -- log what was written before and the new entries up to some entry, and nothing else.
  pub append_crash :
      (ents : List Entry) (snap_index : ℕ)
      → All (Fits enc) c.written
      → All (Fits enc) ents
      → (GoMap.get (left_by (append enc json ds ents)).files snapshot_name
          ≡ if_any (snapshot_bytes enc json) c.snap)
        × (GoMap.get (left_by (append enc json ds ents)).files hard_state_name
            ≡ if_any (hard_bytes enc json) c.hard)
        × ((k : ℕ) × (replay_file enc
                (GoMap.get (left_by (append enc json ds ents)).files wal_name)
                snap_index
              ≡ ok (
                drop_covered snap_index (reverse (append_all [] (c.written ++ take k ents))),
                true,
              )))
  unfolding replay_file
  append_crash ents snap_index fit fits =
      let cut = append-CutLog ents in
      let (n, at) = cut.log_cut in
      let (k, reads) = Reads-prefix enc snap_index c.written ents n fit fits in
      (cut.snap_kept, cut.hard_kept, (k, rw (at, reads) refl))
