-- ===== src/Engine/Waiters.antt =====
-- The callbacks of internal/engine/engine.go over a whole HandleReady.
use quorum_log.Prelude.{
  ℕ, true, ◌≡◌, refl, sym, subst, Option, List, [], ◌∷◌, arith, ◌==◌, nat_eq, string_eq, ok,
  >>=-eq-ok, Bool-cases, Option-cases, inl, inr,
}
use quorum_log.Sm.{Op, apply}
use quorum_log.Sm.Persist.{Json, decode_op}
use quorum_log.Raftpb.{Entry, entry_normal, entry_conf_change, Snapshot, HardState, ConfChange}
use quorum_log.Engine.Interfaces.{ReadState, Raft, Disk}
use quorum_log.Engine.{Engine, prop_key, reply, stored}
use quorum_log.Engine.Handled.{taken, batch, advanced, handled}
use quorum_log.Engine.Batch.{
  install, append_entries, set_hard_state, track, apply_normal, announce, reconfigure, apply_change,
  apply_entry, apply_entries, created, maybe_snapshot, handle_ready,
}
use quorum_log.Engine.Balance.{
  AreMaps, stands, Balanced, Balanced-trans, reply-Balanced, Untouched-Balanced, announce-Balanced,
  flush_reads-Balanced,
}

module _ {raft : Raft} {disk : Disk} (json : Json) where
  install-Balanced :
      (e : Engine raft disk) (snap : Option Snapshot) {e' : Engine raft disk}
      → install json e snap ≡ ok e'
      → Balanced e e'
  unfolding install stored
  install-Balanced e snap {e'} h = Untouched-Balanced e e' (ground arith)

  append-Balanced :
      (e : Engine raft disk) (entries : List Entry) {e' : Engine raft disk}
      → append_entries e entries ≡ ok e'
      → Balanced e e'
  unfolding append_entries stored
  append-Balanced e entries {e'} h = Untouched-Balanced e e' (ground arith)

  vote-Balanced :
      (e : Engine raft disk) (hs : Option HardState) {e' : Engine raft disk}
      → set_hard_state e hs ≡ ok e'
      → Balanced e e'
  unfolding set_hard_state stored
  vote-Balanced e hs {e'} h = Untouched-Balanced e e' (ground arith)

  track-Balanced :
      (e : Engine raft disk) (lead : Option ℕ) (reads : List ReadState)
      → Balanced e (track e lead reads)
  unfolding track
  track-Balanced e lead reads = Untouched-Balanced e (track e lead reads) (ground arith)

  snapshot-Balanced :
      (e : Engine raft disk) {e' : Engine raft disk} → maybe_snapshot json e ≡ ok e' → Balanced e e'
  unfolding maybe_snapshot created
  snapshot-Balanced e {e'} h = Untouched-Balanced e e' (ground arith)

  executed-Balanced :
      (e : Engine raft disk) (index : ℕ) (op : Op)
      → Balanced e (
          reply
            (record e { sm = (apply e.sm op).0; applied_index = index })
            (prop_key op.client_id op.req_id)
            (apply e.sm op).1)
  executed-Balanced e index op =
      let e₁ : Engine raft disk = record e { sm = (apply e.sm op).0; applied_index = index } in
      Balanced-trans e e₁ _ (Untouched-Balanced e e₁ (refl, refl, refl, refl))
        (reply-Balanced e₁ (prop_key op.client_id op.req_id) (apply e.sm op).1)

  payload-Balanced :
      (e : Engine raft disk) (entry : Entry) (payload : List ℕ) {e' : Engine raft disk}
      → entry.payload ≡ payload
      → apply_normal json e entry ≡ ok e'
      → Balanced e e'
  unfolding apply_normal
  payload-Balanced e entry [] {e'} p h = Untouched-Balanced e e' (ground arith)
  payload-Balanced e entry (b ∷ bytes) {e'} p h =
      elim (Option-cases (decode_op json entry.payload)) [
        | inl bad ↦ absurd (ground (arith, h, p, bad))
        | inr (op, found) ↦
            subst (Balanced e) (ground (arith, h, p, found)) (executed-Balanced e entry.index op)
      ]

  reconfigure-Balanced :
      (e : Engine raft disk) (change : ConfChange) (index : ℕ)
      → Balanced e (reconfigure e change index)
  unfolding reconfigure
  reconfigure-Balanced e change index = Untouched-Balanced e _ (refl, refl, refl, refl)

  change-Balanced :
      (e : Engine raft disk) (entry : Entry) {e' : Engine raft disk}
      → apply_change e entry ≡ ok e'
      → Balanced e e'
  unfolding apply_change
  change-Balanced e entry {e'} h = elim (Option-cases (raft.unmarshal_conf_change entry.payload)) [
    | inl bad ↦ absurd (ground (arith, h, bad))
    | inr (change, found) ↦
        let e₁ : Engine raft disk = reconfigure e change entry.index in
        subst (Balanced e) {x = announce e₁ change} (ground (arith, h, found)) (
          Balanced-trans e e₁ (announce e₁ change) (reconfigure-Balanced e change entry.index)
            (announce-Balanced e₁ change))
  ]

  entry-Balanced :
      (e : Engine raft disk) (entry : Entry) {e' : Engine raft disk}
      → apply_entry json e entry ≡ ok e'
      → Balanced e e'
  unfolding apply_entry
  entry-Balanced e entry {e'} h = elim (Bool-cases (entry.kind == entry_normal)) [
    | inl k ↦ payload-Balanced e entry entry.payload {e' = e'} refl (ground (arith, h, k))
    | inr k ↦ elim (Bool-cases (entry.kind == entry_conf_change)) [
      | inl k' ↦ change-Balanced e entry {e' = e'} (ground (arith, h, k, k'))
      | inr k' ↦ Untouched-Balanced e e' (ground (arith, h, k, k'))
    ]
  ]

  entries-Balanced :
      (e : Engine raft disk) (entries : List Entry) {e' : Engine raft disk}
      → apply_entries json e entries ≡ ok e'
      → Balanced e e'
  unfolding apply_entries
  entries-Balanced e [] {e'} h = Untouched-Balanced e e' (ground arith)
  entries-Balanced e (entry ∷ entries) {e'} h =
      let (one, first, rest) = >>=-eq-ok (apply_entry json e entry) _ h in
      Balanced-trans e one e' (entry-Balanced e entry first) (entries-Balanced one entries rest)

  -- A HandleReady that handles a batch without an error neither loses a callback nor calls one
  -- twice: each is as often among those that wait for a proposal, a membership change or a read and
  -- those that were called as before.
  pub handle_ready-Balanced :
      (e : Engine raft disk) {e' : Engine raft disk} {messages : List raft.Message}
      → raft.has_ready e.rn ≡ true
      → handle_ready json e ≡ ok (e', messages)
      → AreMaps e
      → AreMaps e' × ((cb : ℕ) → stands cb e' ≡ stands cb e)
  handle_ready-Balanced e {e'} ready h =
      let done = handled json e ready h in
      let stages = done.stages in
      let tracked = track stages.voted (batch e).soft_state (batch e).read_states in
      subst (Balanced e) (sym done.flushed) (
        Balanced-trans e (taken e) _ (Untouched-Balanced e (taken e) (refl, refl, refl, refl)) (
          Balanced-trans (taken e) stages.installed _
            (install-Balanced (taken e) (batch e).snapshot stages.installs)
            (Balanced-trans stages.installed stages.appended _
              (append-Balanced stages.installed (batch e).entries stages.appends)
              (Balanced-trans stages.appended stages.voted _
                (vote-Balanced stages.appended (batch e).hard_state stages.votes)
                (Balanced-trans stages.voted tracked _
                  (track-Balanced stages.voted (batch e).soft_state (batch e).read_states)
                  (Balanced-trans tracked done.applied _
                    (entries-Balanced tracked (batch e).committed_entries stages.applies)
                    (Balanced-trans done.applied (advanced done.applied (batch e)) _
                      (Untouched-Balanced done.applied _ (refl, refl, refl, refl))
                      (Balanced-trans (advanced done.applied (batch e)) done.settled _
                        (snapshot-Balanced (advanced done.applied (batch e)) done.settles)
                        (flush_reads-Balanced done.settled)))))))))
