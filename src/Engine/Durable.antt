-- ===== src/Engine/Durable.antt =====
-- The order of the writes in HandleReady of internal/engine/engine.go.
use quorum_log.Prelude.{
  ℕ, ◌≡◌, refl, sym, ap, ◌∙◌, true, Option, none, some, List, [], ◌∷◌, ◌++◌, arith, ok, inl, inr,
  Bool-cases, ltb, ◌||◌, ◌==◌, nat_eq, ◌⊎◌, >>=-eq-ok,
}
use quorum_log.Sm.Persist.{Json, snapshot}
use quorum_log.Raftpb.{ConfState, Entry, Snapshot, HardState}
use quorum_log.Engine.Interfaces.{ReadState, Raft, Disk, CreateError, out_of_date, create_failed}
use quorum_log.Engine.{Engine, reply, confirm, release, stored, sub_uint64}
use quorum_log.Engine.Replica.{flush_reads-sm}
use quorum_log.Engine.Reads.{applied-flush_reads}
use quorum_log.Engine.Handled.{taken, batch, advanced, Handled, handled}
use quorum_log.Engine.Batch.{
  install, append_entries, set_hard_state, track, apply_normal, tell, announce, reconfigure,
  apply_change, apply_entry, apply_entries, created, maybe_snapshot, flush, flush_reads,
  handle_ready,
}

module _ (disk : Disk) where
  -- Each write that a batch asks for has succeeded.
  abbrev pub HasSaved : Option Snapshot → disk.Files → disk.Files → Type 0
  HasSaved none f f' = f' ≡ f
  HasSaved (some snap) f f' = disk.save_snapshot f snap ≡ (f', none)

  abbrev pub HasAppended : List Entry → disk.Files → disk.Files → Type 0
  HasAppended [] f f' = f' ≡ f
  HasAppended (x ∷ xs) f f' = disk.append f (x ∷ xs) ≡ (f', none)

  abbrev pub HasVoted : Option HardState → disk.Files → disk.Files → Type 0
  HasVoted none f f' = f' ≡ f
  HasVoted (some hs) f f' = disk.set_hard_state f hs ≡ (f', none)

module _ {raft : Raft} {disk : Disk} (json : Json) where
  stored-st :
      (e : Engine raft disk) (r : disk.Files × Option disk.Failure) {e' : Engine raft disk}
      → stored e r ≡ ok e'
      → r ≡ (e'.st, none)
  unfolding stored
  stored-st e (files, none) h = ap (λ f. (f, none)) (ground (arith, h))
  stored-st e (files, some failure) h = cc

  install-HasSaved :
      (e : Engine raft disk) (snap : Option Snapshot) {e' : Engine raft disk}
      → install json e snap ≡ ok e'
      → HasSaved disk snap e.st e'.st
  unfolding install
  install-HasSaved e none h = ground arith
  install-HasSaved e (some snap) {e'} h =
      let (saved, s, rest) = >>=-eq-ok (stored e (disk.save_snapshot e.st snap)) _ h in
      stored-st e (disk.save_snapshot e.st snap) s ∙ ap (λ f. (f, none)) (ground (arith, rest))

  append-HasAppended :
      (e : Engine raft disk) (entries : List Entry) {e' : Engine raft disk}
      → append_entries e entries ≡ ok e'
      → HasAppended disk entries e.st e'.st
  unfolding append_entries
  append-HasAppended e [] h = ground arith
  append-HasAppended e (x ∷ xs) h = stored-st e (disk.append e.st (x ∷ xs)) h

  vote-HasVoted :
      (e : Engine raft disk) (hs : Option HardState) {e' : Engine raft disk}
      → set_hard_state e hs ≡ ok e'
      → HasVoted disk hs e.st e'.st
  unfolding set_hard_state
  vote-HasVoted e none h = ground arith
  vote-HasVoted e (some hs) h = stored-st e (disk.set_hard_state e.st hs) h

  track-st :
      (e : Engine raft disk) (lead : Option ℕ) (reads : List ReadState)
      → (track e lead reads).st ≡ e.st
  unfolding track
  track-st e lead reads = ground arith

  apply-st :
      (e : Engine raft disk) (entry : Entry) {e' : Engine raft disk}
      → apply_entry json e entry ≡ ok e'
      → e'.st ≡ e.st
  unfolding apply_entry apply_normal apply_change announce reconfigure tell confirm reply
  apply-st e entry h = ground arith

  apply_all-st :
      (e : Engine raft disk) (entries : List Entry) {e' : Engine raft disk}
      → apply_entries json e entries ≡ ok e'
      → e'.st ≡ e.st
  unfolding apply_entries
  apply_all-st e [] h = ground arith
  apply_all-st e (entry ∷ entries) {e'} h =
      let (one, first, rest) = >>=-eq-ok (apply_entry json e entry) _ h in
      apply_all-st one entries rest ∙ apply-st e entry first

  flush-st :
      (e : Engine raft disk) (keep pending : List ReadState) → (flush e keep pending).0.st ≡ e.st
  unfolding flush release
  flush-st e keep [] = refl
  flush-st e keep (rs ∷ pending) = ground (
    arith,
    flush-st (release e rs.request_ctx) keep pending,
    flush-st e (keep ++ rs ∷ []) pending,
  )

  flush_reads-st : (e : Engine raft disk) → (flush_reads e).st ≡ e.st
  unfolding flush_reads
  flush_reads-st e = flush-st e [] e.pending_read

  flush-cfg :
      (e : Engine raft disk) (keep pending : List ReadState) → (flush e keep pending).0.cfg ≡ e.cfg
  unfolding flush release
  flush-cfg e keep [] = refl
  flush-cfg e keep (rs ∷ pending) = ground (
    arith,
    flush-cfg (release e rs.request_ctx) keep pending,
    flush-cfg e (keep ++ rs ∷ []) pending,
  )

  flush_reads-cfg : (e : Engine raft disk) → (flush_reads e).cfg ≡ e.cfg
  unfolding flush_reads
  flush_reads-cfg e = flush-cfg e [] e.pending_read

  -- The engine has at most added a snapshot of its own state to these files.
  abbrev IsSettled : disk.Files → Engine raft disk → Type 0
  IsSettled f e =
      (e.st ≡ f)
      ⊎ ((voters : ConfState) × (e.st
            ≡ (disk.create_snapshot f e.applied_index voters (snapshot json e.sm)
                e.cfg.snapshot_trailing).0))

  created-IsSettled :
      (e : Engine raft disk) (r : disk.Files × Option (CreateError disk.Failure))
      {e' : Engine raft disk}
      → created e r ≡ ok e'
      → (e'.st ≡ r.0) × (e'.sm ≡ e.sm) × (e'.applied_index ≡ e.applied_index) × (e'.cfg ≡ e.cfg)
  unfolding created
  created-IsSettled e (files, none) h = ground arith
  created-IsSettled e (files, some out_of_date) h = ground arith
  created-IsSettled e (files, some (create_failed failure)) h = absurd (cc h)

  snapshot-IsSettled :
      (e : Engine raft disk) {e' : Engine raft disk}
      → maybe_snapshot json e ≡ ok e'
      → IsSettled e.st e'
  unfolding maybe_snapshot
  snapshot-IsSettled e {e'} h =
      elim (Bool-cases (
        e.cfg.snapshot_threshold == 0
        || ltb (sub_uint64 e.applied_index e.snap_index) e.cfg.snapshot_threshold)) [
          | inl small ↦ inl (ground (arith, h, small))
          | inr big ↦
              let made =
                disk.create_snapshot e.st e.applied_index e.conf_state (snapshot json e.sm)
                  e.cfg.snapshot_trailing in
              let (files, s, a, c) = created-IsSettled e made {e' = e'} (ground (arith, h, big)) in
              inr (e.conf_state, rw (s, a, c) files)
        ]

  flushed-IsSettled :
      (e : Engine raft disk) (f : disk.Files) → IsSettled f e → IsSettled f (flush_reads e)
  flushed-IsSettled e f settled =
      rw (flush_reads-st e, flush_reads-sm json e, applied-flush_reads json e, flush_reads-cfg e)
        settled

  applied_st :
      (e : Engine raft disk) {e' : Engine raft disk} {messages : List raft.Message}
      (done : Handled json e e' messages)
      → done.applied.st ≡ done.stages.voted.st
  applied_st e done =
      apply_all-st _ (batch e).committed_entries done.stages.applies
      ∙ track-st done.stages.voted (batch e).soft_state (batch e).read_states

  -- When HandleReady returns messages to send and no error, the writes that the batch asks for have
  -- all succeeded before, in the order snapshot, entries, hard state; after them comes at most the
  -- snapshot that the engine takes of its own state.
  pub handle_ready-durable :
      (e : Engine raft disk) {e' : Engine raft disk} {messages : List raft.Message}
      → raft.has_ready e.rn ≡ true
      → handle_ready json e ≡ ok (e', messages)
      → (messages ≡ (batch e).messages)
        × (f₁ f₂ f₃ : disk.Files) × HasSaved disk (batch e).snapshot e.st f₁
        × HasAppended disk (batch e).entries f₁ f₂
        × HasVoted disk (batch e).hard_state f₂ f₃
        × ((e'.st ≡ f₃)
            ⊎ ((voters : ConfState) × (e'.st
                  ≡ (disk.create_snapshot f₃ e'.applied_index voters
                      (snapshot json e'.sm)
                      e'.cfg.snapshot_trailing).0)))
  handle_ready-durable e {e'} ready h =
      let done = handled json e ready h in
      let stages = done.stages in
      (
        done.sends,
        stages.installed.st,
        stages.appended.st,
        stages.voted.st,
        install-HasSaved (taken e) (batch e).snapshot stages.installs,
        append-HasAppended stages.installed (batch e).entries stages.appends,
        vote-HasVoted stages.appended (batch e).hard_state stages.votes,
        rw (done.flushed, sym (applied_st e done))
            (flushed-IsSettled done.settled done.applied.st
              (snapshot-IsSettled (advanced done.applied (batch e)) done.settles)),
      )
