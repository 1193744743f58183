-- ===== src/Storage/Calls.antt =====
-- What the methods of DiskStorage in internal/storage/storage.go leave in the files when they return
-- no error.
use mathlib.Core.List.{append-nil}
use quorum_log.Prelude.{
  ℕ, ◌-◌, ◌≡◌, sym, ap, Option, some, List, [], ◌∷◌, ◌++◌, true, false, Bool, ltb, leb,
  if◌then◌else◌, string_eq, Except, ok, err, >>=-eq-ok, ok-injective, err-ne-ok, subst,
}
use quorum_log.Raftpb.{Entry, ConfState, Snapshot, HardState}
use quorum_log.Storage.{Encoding}
use quorum_log.Storage.Files.{FileStep, atomic_write}
use quorum_log.Storage.Disk.{
  hard_state_name, append_steps, reset_steps, FileJson, Memory, DiskStorage, kept, run_steps,
  remember, ignore_compacted, append, set_hard_state, save_snapshot, write_snapshot_file, reset_wal,
  compact, rewrite_wal, store_snapshot, create_snapshot,
}
use quorum_log.Storage.Reopen.{}
use quorum_log.Storage.Stored.{
  Durable, Stores, perform_all, hard_bytes, hard_step, snapshot_step, reset_step, append_step,
  run_steps-ok, remember-ok,
}

module _ {enc : Encoding} {json : FileJson} {memory : Memory} where
  run-Stores :
      (ds : DiskStorage memory) (steps : List FileStep) {c : Durable} {ds' : DiskStorage memory}
      → Stores enc json (perform_all steps ds.files) c
      → run_steps ds steps ≡ ok ds'
      → Stores enc json ds'.files c
  run-Stores ds steps {c} after h =
      subst (λ d. Stores enc json d c) (sym (run_steps-ok ds steps h).0) after

  remember-Stores :
      (ds : DiskStorage memory) (r : memory.State × Option memory.Failure) {c : Durable}
      {ds' : DiskStorage memory}
      → Stores enc json ds.files c
      → remember ds r ≡ ok ds'
      → Stores enc json ds'.files c
  remember-Stores ds r {c} s h = subst (λ d. Stores enc json d c) (sym (remember-ok ds r h)) s

  module _ (ds : DiskStorage memory) {ds' : DiskStorage memory} {c : Durable}
      (s : Stores enc json ds.files c) where
    -- A method that returns no error has made its argument durable, and kept the rest.
    pub append-Stores :
        (entries : List Entry)
        → append enc json ds entries ≡ ok ds'
        → Stores enc json ds'.files (record c { written = c.written ++ entries })
    unfolding append
    append-Stores [] h =
        subst (λ d. Stores enc json d (record c { written = c.written ++ [] }))
          (ap (λ x. x.files) (ok-injective h))
          (subst (λ w. Stores enc json ds.files (record c { written = w }))
            (sym (append-nil c.written)) s)
    append-Stores (e ∷ es) h =
        let (w, written, rest) = >>=-eq-ok (run_steps ds (append_steps enc (e ∷ es))) _ h in
        remember-Stores w (memory.append w.mem (e ∷ es))
          (run-Stores ds _ (append_step enc json ds.files c (e ∷ es) s) written) rest

    pub set_hard_state-Stores :
        (hs : HardState)
        → set_hard_state enc json ds hs ≡ ok ds'
        → Stores enc json ds'.files (record c { hard = some hs })
    unfolding set_hard_state
    set_hard_state-Stores hs h =
        let (w, written, rest) =
          >>=-eq-ok (run_steps ds (atomic_write hard_state_name (hard_bytes enc json hs))) _ h in
        remember-Stores w (memory.set_hard_state w.mem hs)
          (run-Stores ds _ (hard_step enc json ds.files c hs s) written) rest

    pub write_snapshot_file-Stores :
        (snap : Snapshot)
        → write_snapshot_file enc json ds snap ≡ ok ds'
        → Stores enc json ds'.files (record c { snap = some snap })
    unfolding write_snapshot_file
    write_snapshot_file-Stores snap h = run-Stores ds _ (snapshot_step enc json ds.files c snap s) h

    pub reset_wal-Stores :
        (ents : List Entry)
        → reset_wal enc json ds ents ≡ ok ds'
        → Stores enc json ds'.files (record c { written = ents })
    unfolding reset_wal
    reset_wal-Stores ents h = run-Stores ds _ (reset_step enc json ds.files c ents s) h

    compact-Stores :
        (applied trailing : ℕ)
        → compact enc json ds applied trailing ≡ ok ds'
        → Stores enc json ds'.files c
    unfolding compact
    compact-Stores applied trailing h =
        if_step (leb (memory.first_index ds.mem) to) (memory.compact ds.mem to) h
      where
        to : ℕ
        to = if ltb trailing applied then applied - trailing else 0

        if_step :
            (b : Bool) (r : memory.State × Option memory.Failure)
            → (if b then remember ds (r.0, ignore_compacted memory r.1) else ok ds) ≡ ok ds'
            → Stores enc json ds'.files c
        if_step true r done = remember-Stores ds (r.0, ignore_compacted memory r.1) s done
        if_step false r done =
            subst (λ d. Stores enc json d c) (ap (λ x. x.files) (ok-injective done)) s

module _ (enc : Encoding) (json : FileJson) {memory : Memory} (ds : DiskStorage memory)
    {ds' : DiskStorage memory} where
  rewrite_wal-mem :
      (ents : Except memory.Failure (List Entry))
      → rewrite_wal enc json ds ents ≡ ok ds'
      → ds'.mem ≡ ds.mem
  unfolding rewrite_wal reset_wal
  rewrite_wal-mem (err e) h = absurd (err-ne-ok h)
  rewrite_wal-mem (ok ents) h = (run_steps-ok ds (reset_steps enc ents) h).1

module _ {enc : Encoding} {json : FileJson} {memory : Memory} (ds : DiskStorage memory)
    {ds' : DiskStorage memory} {c : Durable} (s : Stores enc json ds.files c) where
  pub save_snapshot-Stores :
      (snap : Snapshot)
      → save_snapshot enc json ds snap ≡ ok ds'
      → Stores enc json ds'.files (record c { snap = some snap; written = [] })
  unfolding save_snapshot
  save_snapshot-Stores snap h =
      let (w, written, rest) = >>=-eq-ok (write_snapshot_file enc json ds snap) _ h in
      let (r, reset, last) = >>=-eq-ok (reset_wal enc json w []) _ rest in
      remember-Stores r (memory.apply_snapshot r.mem snap)
        (reset_wal-Stores w (write_snapshot_file-Stores ds s snap written) [] reset) last

  rewrite_wal-Stores :
      (ents : Except memory.Failure (List Entry)) {keep : List Entry}
      → ents ≡ ok keep
      → rewrite_wal enc json ds ents ≡ ok ds'
      → Stores enc json ds'.files (record c { written = keep })
  unfolding rewrite_wal
  rewrite_wal-Stores (err e) kept h = absurd (err-ne-ok h)
  rewrite_wal-Stores (ok ents) kept h =
      reset_wal-Stores ds s _ (subst (λ k. reset_wal enc json ds k ≡ ok ds') (ok-injective kept) h)

module _ {enc : Encoding} {json : FileJson} {memory : Memory} (ds : DiskStorage memory)
    {ds' : DiskStorage memory} {c : Durable} (s : Stores enc json ds.files c) where
  store_snapshot-Stores :
      (applied trailing : ℕ) (r : memory.State × Except memory.Failure Snapshot) {snap : Snapshot}
      {keep : List Entry}
      → r.1 ≡ ok snap
      → kept memory ds'.mem ≡ ok keep
      → store_snapshot enc json ds applied trailing r ≡ ok ds'
      → Stores enc json ds'.files (record c { snap = some snap; written = keep })
  unfolding store_snapshot
  store_snapshot-Stores applied trailing (mem, err e) made keeps h = absurd (err-ne-ok made)
  store_snapshot-Stores applied trailing (mem, ok snap) {keep = keep} made keeps h =
      let (w, written, rest) =
        >>=-eq-ok (write_snapshot_file enc json (record ds { mem = mem }) snap) _ h in
      let (k, compacted, last) = >>=-eq-ok (compact enc json w applied trailing) _ rest in
      subst (λ x. Stores enc json ds'.files (record c { snap = some x; written = keep }))
        (ok-injective made)
        (rewrite_wal-Stores k
          (compact-Stores w (write_snapshot_file-Stores (record ds { mem = mem }) s snap written)
            applied trailing compacted)
          (kept memory k.mem)
          (subst (λ m. kept memory m ≡ ok keep)
            (rewrite_wal-mem enc json k (kept memory k.mem) last) keeps)
          last)

  pub create_snapshot-Stores :
      (applied : ℕ) (cs : ConfState) (bytes : List ℕ) (trailing : ℕ) {snap : Snapshot}
      {keep : List Entry}
      → (memory.create_snapshot ds.mem applied cs bytes).1 ≡ ok snap
      → kept memory ds'.mem ≡ ok keep
      → create_snapshot enc json ds applied cs bytes trailing ≡ ok ds'
      → Stores enc json ds'.files (record c { snap = some snap; written = keep })
  unfolding create_snapshot
  create_snapshot-Stores applied cs bytes trailing made keeps h =
      store_snapshot-Stores applied trailing (memory.create_snapshot ds.mem applied cs bytes) made
        keeps h
