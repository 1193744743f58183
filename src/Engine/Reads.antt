-- ===== src/Engine/Reads.antt =====
-- The read barriers of internal/engine/engine.go: ReadIndex's waiters and flushReads.
use mathlib.Core.List.{append_assoc, append-nil}
use quorum_log.Prelude.{
  ℕ, String, ◌≡◌, refl, sym, ap, ◌∙◌, Bool, true, false, not, ◌||◌, Option, none, List, [], ◌∷◌,
  ◌++◌, arith, select, leb, if◌then◌else◌, ◌==◌, string_eq, ok, >>=-eq-ok, Bool-cases, Option-cases,
  inl, inr,
}
use quorum_log.Prelude.GoMap
use quorum_log.Prelude.GoMap.{GoMap}
use quorum_log.Sm.Persist.{Json}
use quorum_log.Raftpb.{Entry, Snapshot, HardState}
use quorum_log.Engine.Interfaces.{ReadState, Raft, Disk}
use quorum_log.Engine.{Engine, reply, confirm, release, stored}
use quorum_log.Engine.Handled.{taken, batch, advanced, Handled, handled}
use quorum_log.Engine.Batch.{
  install, append_entries, set_hard_state, track, apply_normal, tell, announce, reconfigure,
  apply_change, apply_entry, apply_entries, created, maybe_snapshot, flush, flush_reads,
  handle_ready,
}

-- A read that the applied index has reached.
abbrev pub is_due : ℕ → ReadState → Bool
is_due applied rs = leb rs.index applied

unfoldable pub names : String → List ReadState → Bool
names rctx [] = false
names rctx (rs ∷ reads) = rs.request_ctx == rctx || names rctx reads

absent_at :
    (m : GoMap String ℕ) (r rctx : String)
    → GoMap.get m r ≡ none
    → GoMap.get m rctx ≡ (if r == rctx then none else GoMap.get m rctx)
absent_at m r rctx absent = elim (Bool-cases (r == rctx)) [
  | inl same ↦ rw same (ap (GoMap.get m) (sym ((string_eq.beq_iff r rctx).0 same)) ∙ absent)
  | inr other ↦ rw other refl
]

none_or {ℓ} :
    {A : Type ℓ} (a b : Bool) (x : Option A)
    → (if b then none else (if a then none else x)) ≡ (if a || b then none else x)
none_or a b x = ground arith

module _ {raft : Raft} {disk : Disk} where
  -- Neither the waiters of the reads nor the read states change.
  abbrev KeepsReads : Engine raft disk → Engine raft disk → Type 0
  KeepsReads e e' = (e'.read_waiters ≡ e.read_waiters) × (e'.pending_read ≡ e.pending_read)

  KeepsReads-trans : (a b d : Engine raft disk) → KeepsReads a b → KeepsReads b d → KeepsReads a d
  KeepsReads-trans a b d (x, y) (x', y') = (x' ∙ x, y' ∙ y)

  get-release :
      (e : Engine raft disk) (r rctx : String)
      → GoMap.get (release e r).read_waiters rctx
        ≡ (if r == rctx then none else GoMap.get e.read_waiters rctx)
  unfolding release
  get-release e r rctx = elim (Option-cases (GoMap.get e.read_waiters r)) [
    | inl absent ↦ rw (absent, release) (absent_at e.read_waiters r rctx absent)
    | inr (cb, found) ↦ rw (found, release) (GoMap.get-delete e.read_waiters r rctx)
  ]

  applied-release :
      (e : Engine raft disk) (r : String) → (release e r).applied_index ≡ e.applied_index
  unfolding release
  applied-release e r = ground arith

  applied-flush :
      (e : Engine raft disk) (keep pending : List ReadState)
      → (flush e keep pending).0.applied_index ≡ e.applied_index
  unfolding flush
  applied-flush e keep [] = refl
  applied-flush e keep (rs ∷ pending) = ground (
    arith,
    applied-release e rs.request_ctx,
    applied-flush (release e rs.request_ctx) keep pending,
    applied-flush e (keep ++ rs ∷ []) pending,
  )

  keep-flush :
      (e : Engine raft disk) (keep pending : List ReadState)
      → (flush e keep pending).1 ≡ keep ++ select (λ rs. not (is_due e.applied_index rs)) pending
  unfolding flush select
  keep-flush e keep [] = sym (append-nil keep)
  keep-flush e keep (rs ∷ pending) = elim (Bool-cases (leb rs.index e.applied_index)) [
    | inl due ↦
        rw (due, flush, select)
          (rw (keep-flush (release e rs.request_ctx) keep pending, applied-release e rs.request_ctx)
            refl)
    | inr late ↦
        rw (late, flush, select)
          (keep-flush e (keep ++ rs ∷ []) pending ∙ append_assoc keep (rs ∷ []) _)
  ]

  waiters-flush :
      (e : Engine raft disk) (keep pending : List ReadState) (rctx : String)
      → GoMap.get (flush e keep pending).0.read_waiters rctx ≡ (
          if names rctx (select (is_due e.applied_index) pending)
          then none
          else GoMap.get e.read_waiters rctx)
  unfolding flush select names
  waiters-flush e keep [] rctx = refl
  waiters-flush e keep (rs ∷ pending) rctx = elim (Bool-cases (leb rs.index e.applied_index)) [
    | inl due ↦
        rw (due, flush, select)
          (waiters-flush (release e rs.request_ctx) keep pending rctx
            ∙ rw (applied-release e rs.request_ctx, get-release e rs.request_ctx rctx)
                (none_or (rs.request_ctx == rctx) _ _))
    | inr late ↦ rw (late, flush, select) (waiters-flush e (keep ++ rs ∷ []) pending rctx)
  ]

module _ {raft : Raft} {disk : Disk} (json : Json) where
  install_keeps :
      (e : Engine raft disk) (snap : Option Snapshot) {e' : Engine raft disk}
      → install json e snap ≡ ok e'
      → KeepsReads e e'
  unfolding install stored
  install_keeps e snap h = ground arith

  append_keeps :
      (e : Engine raft disk) (entries : List Entry) {e' : Engine raft disk}
      → append_entries e entries ≡ ok e'
      → KeepsReads e e'
  unfolding append_entries stored
  append_keeps e entries h = ground arith

  vote_keeps :
      (e : Engine raft disk) (hs : Option HardState) {e' : Engine raft disk}
      → set_hard_state e hs ≡ ok e'
      → KeepsReads e e'
  unfolding set_hard_state stored
  vote_keeps e hs h = ground arith

  apply_keeps :
      (e : Engine raft disk) (entry : Entry) {e' : Engine raft disk}
      → apply_entry json e entry ≡ ok e'
      → KeepsReads e e'
  unfolding apply_entry apply_normal apply_change announce reconfigure tell confirm reply
  apply_keeps e entry h = ground arith

  apply_all_keeps :
      (e : Engine raft disk) (entries : List Entry) {e' : Engine raft disk}
      → apply_entries json e entries ≡ ok e'
      → KeepsReads e e'
  unfolding apply_entries
  apply_all_keeps e [] h = ground arith
  apply_all_keeps e (entry ∷ entries) {e'} h =
      let (one, first, rest) = >>=-eq-ok (apply_entry json e entry) _ h in
      KeepsReads-trans e one e' (apply_keeps e entry first) (apply_all_keeps one entries rest)

  snapshot_keeps :
      (e : Engine raft disk) {e' : Engine raft disk}
      → maybe_snapshot json e ≡ ok e'
      → KeepsReads e e'
  unfolding maybe_snapshot created
  snapshot_keeps e h = ground arith

  track_reads :
      (e : Engine raft disk) (lead : Option ℕ) (reads : List ReadState)
      → ((track e lead reads).read_waiters ≡ e.read_waiters)
        × ((track e lead reads).pending_read ≡ e.pending_read ++ reads)
  unfolding track
  track_reads e lead reads = ground arith

  settled_reads :
      (e : Engine raft disk) {e' : Engine raft disk} {messages : List raft.Message}
      (done : Handled json e e' messages)
      → (done.settled.read_waiters ≡ e.read_waiters)
        × (done.settled.pending_read ≡ e.pending_read ++ (batch e).read_states)
  settled_reads e done =
      let stages = done.stages in
      let (w₁, p₁) = install_keeps (taken e) (batch e).snapshot stages.installs in
      let (w₂, p₂) = append_keeps stages.installed (batch e).entries stages.appends in
      let (w₃, p₃) = vote_keeps stages.appended (batch e).hard_state stages.votes in
      let (w₄, p₄) = track_reads stages.voted (batch e).soft_state (batch e).read_states in
      let (w₅, p₅) = apply_all_keeps _ (batch e).committed_entries stages.applies in
      let (w₆, p₆) = snapshot_keeps (advanced done.applied (batch e)) done.settles in
      (
        w₆ ∙ w₅ ∙ w₄ ∙ w₃ ∙ w₂ ∙ w₁,
        p₆ ∙ p₅ ∙ p₄ ∙ ap (λ p. p ++ (batch e).read_states) (p₃ ∙ p₂ ∙ p₁),
      )

  pub applied-flush_reads : (e : Engine raft disk) → (flush_reads e).applied_index ≡ e.applied_index
  unfolding flush_reads
  applied-flush_reads e = applied-flush e [] e.pending_read

  -- After a HandleReady that handles a batch without an error, the read states that are kept are
  -- those, old or of the batch, whose index is above the applied index; and of the callbacks that
  -- wait for a read exactly those are gone that a read state with an index up to the applied one
  -- names.
  pub handle_ready-reads :
      (e : Engine raft disk) {e' : Engine raft disk} {messages : List raft.Message}
      → raft.has_ready e.rn ≡ true
      → handle_ready json e ≡ ok (e', messages)
      → (e'.pending_read
          ≡ select
              (λ rs. not (is_due e'.applied_index rs))
              (e.pending_read ++ (batch e).read_states))
        × ((rctx : String)
            → GoMap.get e'.read_waiters rctx ≡ (
                if names rctx
                  (select (is_due e'.applied_index) (e.pending_read ++ (batch e).read_states))
                then none
                else GoMap.get e.read_waiters rctx))
  unfolding flush_reads
  handle_ready-reads e ready h =
      let done = handled json e ready h in
      let (waiters, pending) = settled_reads e done in
      rw (done.flushed) (
        rw (applied-flush_reads done.settled, sym pending)
            (keep-flush done.settled [] done.settled.pending_read),
        λ rctx.
            rw (applied-flush_reads done.settled, sym pending, sym waiters)
              (waiters-flush done.settled [] done.settled.pending_read rctx),
      )
