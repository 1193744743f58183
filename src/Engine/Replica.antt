-- ===== src/Engine/Replica.antt =====
-- The state machine of internal/engine/engine.go and the commands of the committed log.
use quorum_log.Prelude.{
  ℕ, String, ◌≡◌, refl, sym, ap, subst, ◌∙◌, true, Option, none, some, List, [], ◌∷◌, ◌++◌, arith,
  if◌then◌else◌, ◌==◌, nat_eq, ok, >>=-eq-ok, Bool-cases, inl, inr,
}
use mathlib.Core.List.{append_assoc}
use quorum_log.Sm.{Sm, Op, Result, run, init, apply}
use quorum_log.Sm.Persist.{
  Json, IsSame, IsSame-trans, run-IsSame, restore-IsSame, snapshot, restore, decode_op,
}
use quorum_log.Raftpb.{Entry, Snapshot, HardState, entry_normal, entry_conf_change}
use quorum_log.Engine.Interfaces.{ReadState, Ready, Raft, Disk}
use quorum_log.Engine.{Engine, reply, confirm, release, stored}
use quorum_log.Engine.Handled.{taken, batch, advanced, Batched, Handled, handled}
use quorum_log.Engine.Batch.{
  install, append_entries, set_hard_state, track, apply_normal, tell, announce, reconfigure,
  apply_change, apply_entry, apply_entries, created, maybe_snapshot, flush, flush_reads,
  handle_ready,
}

-- The command of an entry: none in the entry of a new leader or of a membership change.
unfoldable pub command : Json → Entry → List Op
command json entry =
    if entry.kind == entry_normal
    then elim (decode_op json entry.payload) [
      | none ↦ []
      | some op ↦ elim entry.payload [ [] ↦ [] | _ ∷ _ ↦ op ∷ [] ]
    ]
    else []

unfoldable pub commands : Json → List Entry → List Op
commands json [] = []
commands json (entry ∷ log) = command json entry ++ commands json log

run-append : (s : Sm) (ops more : List Op) → run s (ops ++ more) ≡ run (run s ops) more
unfolding run
run-append s [] more = refl
run-append s (op ∷ ops) more = run-append (apply s op).0 ops more

module _ {raft : Raft} {disk : Disk} (json : Json) where
  reply-sm : (e : Engine raft disk) (key : String) (res : Result) → (reply e key res).sm ≡ e.sm
  unfolding reply
  reply-sm e key res = ground arith

  stored-sm :
      (e : Engine raft disk) (r : disk.Files × Option disk.Failure) {e' : Engine raft disk}
      → stored e r ≡ ok e'
      → e'.sm ≡ e.sm
  unfolding stored
  stored-sm e r h = ground arith

  install-sm :
      (e : Engine raft disk) (snap : Snapshot) {e' : Engine raft disk}
      → install json e (some snap) ≡ ok e'
      → restore json snap.payload ≡ some e'.sm
  unfolding install
  install-sm e snap h = ground arith

  install-none-sm :
      (e : Engine raft disk) {e' : Engine raft disk} → install json e none ≡ ok e' → e'.sm ≡ e.sm
  unfolding install
  install-none-sm e h = ground arith

  append_entries-sm :
      (e : Engine raft disk) (entries : List Entry) {e' : Engine raft disk}
      → append_entries e entries ≡ ok e'
      → e'.sm ≡ e.sm
  unfolding append_entries stored
  append_entries-sm e entries h = ground arith

  set_hard_state-sm :
      (e : Engine raft disk) (hs : Option HardState) {e' : Engine raft disk}
      → set_hard_state e hs ≡ ok e'
      → e'.sm ≡ e.sm
  unfolding set_hard_state stored
  set_hard_state-sm e hs h = ground arith

  apply_normal-sm :
      (e : Engine raft disk) (entry : Entry) {e' : Engine raft disk}
      → entry.kind ≡ entry_normal
      → apply_normal json e entry ≡ ok e'
      → e'.sm ≡ run e.sm (command json entry)
  unfolding apply_normal command run
  apply_normal-sm e entry k h = grind (arith, reply-sm)

  apply_change-sm :
      (e : Engine raft disk) (entry : Entry) {e' : Engine raft disk}
      → apply_change e entry ≡ ok e'
      → e'.sm ≡ e.sm
  unfolding apply_change announce reconfigure tell confirm
  apply_change-sm e entry h = ground arith

  apply_entry-sm :
      (e : Engine raft disk) (entry : Entry) {e' : Engine raft disk}
      → apply_entry json e entry ≡ ok e'
      → e'.sm ≡ run e.sm (command json entry)
  unfolding apply_entry command run
  apply_entry-sm e entry {e'} h = elim (Bool-cases (entry.kind == entry_normal)) [
    | inl k ↦
        apply_normal-sm e entry {e' = e'} ((nat_eq.beq_iff entry.kind 0).0 k) (ground (arith, h, k))
    | inr k ↦ elim (Bool-cases (entry.kind == entry_conf_change)) [
      | inl k' ↦ rw k (apply_change-sm e entry {e' = e'} (ground (arith, h, k, k')))
      | inr k' ↦ ground (arith, h, k, k')
    ]
  ]

  apply_entries-sm :
      (e : Engine raft disk) (entries : List Entry) {e' : Engine raft disk}
      → apply_entries json e entries ≡ ok e'
      → e'.sm ≡ run e.sm (commands json entries)
  unfolding apply_entries commands run
  apply_entries-sm e [] h = ground arith
  apply_entries-sm e (entry ∷ entries) h =
      let (one, first, rest) = >>=-eq-ok (apply_entry json e entry) _ h in
      apply_entries-sm one entries rest
      ∙ (ap (λ s. run s (commands json entries)) (apply_entry-sm e entry first)
          ∙ sym (run-append e.sm (command json entry) (commands json entries)))

  track-sm :
      (e : Engine raft disk) (lead : Option ℕ) (reads : List ReadState)
      → (track e lead reads).sm ≡ e.sm
  unfolding track
  track-sm e lead reads = ground arith

  release-sm : (e : Engine raft disk) (rctx : String) → (release e rctx).sm ≡ e.sm
  unfolding release
  release-sm e rctx = ground arith

  flush-sm :
      (e : Engine raft disk) (keep pending : List ReadState) → (flush e keep pending).0.sm ≡ e.sm
  unfolding flush
  flush-sm e keep [] = refl
  flush-sm e keep (rs ∷ pending) = ground (
    arith,
    release-sm e rs.request_ctx,
    flush-sm (release e rs.request_ctx) keep pending,
    flush-sm e (keep ++ rs ∷ []) pending,
  )

  pub flush_reads-sm : (e : Engine raft disk) → (flush_reads e).sm ≡ e.sm
  unfolding flush_reads
  flush_reads-sm e = flush-sm e [] e.pending_read

  maybe_snapshot-sm :
      (e : Engine raft disk) {e' : Engine raft disk} → maybe_snapshot json e ≡ ok e' → e'.sm ≡ e.sm
  unfolding maybe_snapshot created
  maybe_snapshot-sm e h = ground arith

-- The log that a batch continues: the engine's own one, or that of an installed snapshot, which
-- some replica of it took.
abbrev pub Continues : Json → Option Snapshot → List Entry → List Entry → Type 0
Continues json none log base = base ≡ log
Continues json (some snap) log base =
    (s : Sm) × (snap.payload ≡ snapshot json s) × IsSame s (run init (commands json base))

commands-append :
    (json : Json) (log more : List Entry)
    → commands json (log ++ more) ≡ commands json log ++ commands json more
unfolding commands
commands-append json [] more = refl
commands-append json (entry ∷ log) more =
    rw (commands-append json log more)
      (sym (append_assoc (command json entry) (commands json log) (commands json more)))

module _ {raft : Raft} {disk : Disk} where
  -- The engine's state machine answers like one that applied the commands of the log.
  abbrev pub IsReplica : Json → Engine raft disk → List Entry → Type 0
  IsReplica json e log = IsSame e.sm (run init (commands json log))

module _ {raft : Raft} {disk : Disk} (json : Json) where
  install-IsReplica :
      (e : Engine raft disk) (snap : Option Snapshot) (log base : List Entry)
      {e' : Engine raft disk}
      → IsReplica json e log
      → Continues json snap log base
      → install json e snap ≡ ok e'
      → IsReplica json e' base
  install-IsReplica e none log base {e'} r c h =
      subst (λ s. IsSame s (run init (commands json base))) (sym (install-none-sm json e h))
        (subst (λ l. IsSame e.sm (run init (commands json l))) (sym c) r)
  install-IsReplica e (some snap) log base {e'} r (s, taken_of, same) h =
      IsSame-trans e'.sm s (run init (commands json base))
        (restore-IsSame json s e'.sm (cc (taken_of, install-sm json e snap h))) same

  Batched-sm :
      (e : Engine raft disk) (rd : Ready raft.Message) {e' : Engine raft disk}
      (stages : Batched json e rd e')
      → e'.sm ≡ run stages.installed.sm (commands json rd.committed_entries)
  Batched-sm e rd stages =
      apply_entries-sm json (track stages.voted rd.soft_state rd.read_states) rd.committed_entries
        stages.applies
      ∙ ap (λ s. run s (commands json rd.committed_entries))
          (track-sm json stages.voted rd.soft_state rd.read_states
            ∙ (set_hard_state-sm json stages.appended rd.hard_state stages.votes
                ∙ append_entries-sm json stages.installed rd.entries stages.appends))

  Handled-sm :
      (e : Engine raft disk) {e' : Engine raft disk} {messages : List raft.Message}
      (done : Handled json e e' messages)
      → e'.sm ≡ run done.stages.installed.sm (commands json (batch e).committed_entries)
  Handled-sm e done =
      ap (λ x. x.sm) done.flushed
      ∙ (flush_reads-sm json done.settled
          ∙ (maybe_snapshot-sm json (advanced done.applied (batch e)) done.settles
              ∙ Batched-sm (taken e) (batch e) done.stages))

  -- When HandleReady handles a batch and returns no error, the state machine of the node answers
  -- every command and read like one that applied, from the start, the commands of the log that the
  -- batch continues and then those of the batch's committed entries. That log is the node's own or
  -- that of the snapshot in the batch.
  pub handle_ready-IsReplica :
      (e : Engine raft disk) (log base : List Entry) {e' : Engine raft disk}
      {messages : List raft.Message}
      → raft.has_ready e.rn ≡ true
      → handle_ready json e ≡ ok (e', messages)
      → IsReplica json e log
      → Continues json (batch e).snapshot log base
      → IsReplica json e' (base ++ (batch e).committed_entries)
  handle_ready-IsReplica e log base {e'} {messages} ready h r c =
      let done = handled json e ready h in
      let stages = done.stages in
      let start = install-IsReplica (taken e) (batch e).snapshot log base r c stages.installs in
      subst (λ s. IsSame s (run init (commands json (base ++ (batch e).committed_entries))))
        (sym (Handled-sm e done))
        (rw
          (
            commands-append json base (batch e).committed_entries,
            run-append init (commands json base) (commands json (batch e).committed_entries),
          )
          (run-IsSame (commands json (batch e).committed_entries) stages.installed.sm
            (run init (commands json base)) start))
