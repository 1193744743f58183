-- ===== src/Engine/Batch.antt =====
-- HandleReady of internal/engine/engine.go.
use quorum_log.Prelude.{
  ℕ, not, ◌&&◌, ◌||◌, Option, none, some, List, [], ◌∷◌, ◌++◌, ltb, leb, if◌then◌else◌, ◌==◌,
  nat_eq, string_eq, Except, ok, ◌>>=◌,
}
use quorum_log.Sm.{apply}
use quorum_log.Sm.Persist.{Json, decode_op, snapshot, restore}
use quorum_log.Raftpb.{
  Entry, Snapshot, HardState, ConfChange, entry_normal, entry_conf_change, conf_change_remove_node,
}
use quorum_log.Engine.Interfaces.{
  ReadState, Ready, Raft, Disk, CreateError, out_of_date, create_failed,
}
use quorum_log.Engine.{
  Engine, Failed, Step, fail, storage_failed, restore_failed, bad_entry, bad_conf_change, told,
  prop_key, sub_uint64, reply, confirm, release, stored,
}

module _ {raft : Raft} {disk : Disk} where
  -- The installation of an incoming snapshot.
  unfoldable pub install : Json → Engine raft disk → Option Snapshot → Step raft disk
  install json e none = ok e
  install json e (some snap) = do
    saved ← stored e (disk.save_snapshot e.st snap)
    elim (restore json snap.payload) [
      | none ↦ fail restore_failed saved
      | some s ↦ ok (record saved {
        sm = s;
        applied_index = snap.index;
        snap_index = snap.index;
        conf_state = snap.conf_state;
      })
    ]

  unfoldable pub append_entries : Engine raft disk → List Entry → Step raft disk
  append_entries e [] = ok e
  append_entries e (x ∷ xs) = stored e (disk.append e.st (x ∷ xs))

  unfoldable pub set_hard_state : Engine raft disk → Option HardState → Step raft disk
  set_hard_state e none = ok e
  set_hard_state e (some hs) = stored e (disk.set_hard_state e.st hs)

  unfoldable pub track : Engine raft disk → Option ℕ → List ReadState → Engine raft disk
  track e none reads = record e { pending_read = e.pending_read ++ reads }
  track e (some lead) reads = record e { lead = lead; pending_read = e.pending_read ++ reads }

  -- The case `EntryNormal` of applyEntry.
  unfoldable pub apply_normal : Json → Engine raft disk → Entry → Step raft disk
  apply_normal json e entry = elim entry.payload [
    | [] ↦ ok (record e { applied_index = entry.index })
    | _ ∷ _ ↦ elim (decode_op json entry.payload) [
      | none ↦ fail (bad_entry entry.index) e
      | some op ↦
          let (s, res) = apply e.sm op in
          ok (
            reply (record e { sm = s; applied_index = entry.index })
              (prop_key op.client_id op.req_id) res)
    ]
  ]

  -- The call of OnConfChange, if it is set.
  unfoldable pub tell : Engine raft disk → ConfChange → Engine raft disk
  tell e change = if e.cfg.on_conf_change then record e { calls = told change ∷ e.calls } else e

  -- What follows the update of the fields in the case `EntryConfChange` of applyEntry.
  unfoldable pub announce : Engine raft disk → ConfChange → Engine raft disk
  unfolding tell
  announce e change = tell (confirm e change.id) change

  -- ApplyConfChange and the update of the fields.
  unfoldable pub reconfigure : Engine raft disk → ConfChange → ℕ → Engine raft disk
  reconfigure e change index =
      let (node, voters) = raft.apply_conf_change e.rn change in
      record e {
        rn = node;
        conf_state = voters;
        applied_index = index;
        removed =
            e.removed || (change.kind == conf_change_remove_node && change.node_id == e.cfg.id);
      }

  -- The case `EntryConfChange` of applyEntry.
  unfoldable pub apply_change : Engine raft disk → Entry → Step raft disk
  unfolding reconfigure
  apply_change e entry = elim (raft.unmarshal_conf_change entry.payload) [
    | none ↦ fail bad_conf_change e
    | some change ↦ ok (announce (reconfigure e change entry.index) change)
  ]

  -- applyEntry
  unfoldable pub apply_entry : Json → Engine raft disk → Entry → Step raft disk
  apply_entry json e entry =
      if entry.kind == entry_normal
      then apply_normal json e entry
      else if entry.kind == entry_conf_change
      then apply_change e entry
      else ok (record e { applied_index = entry.index })

  unfoldable pub apply_entries : Json → Engine raft disk → List Entry → Step raft disk
  apply_entries json e [] = ok e
  apply_entries json e (entry ∷ entries) = do
    e' ← apply_entry json e entry
    apply_entries json e' entries

  -- What maybeSnapshot does with the outcome of CreateSnapshot.
  unfoldable pub created :
      Engine raft disk → disk.Files × Option (CreateError disk.Failure) → Step raft disk
  created e (files, none) = ok (record e { st = files; snap_index = e.applied_index })
  created e (files, some out_of_date) = ok (record e { st = files })
  created e (files, some (create_failed failure)) =
      fail (storage_failed failure) (record e { st = files })

  -- maybeSnapshot
  unfoldable pub maybe_snapshot : Json → Engine raft disk → Step raft disk
  maybe_snapshot json e =
      if e.cfg.snapshot_threshold == 0
        || ltb (sub_uint64 e.applied_index e.snap_index) e.cfg.snapshot_threshold
      then ok e
      else created e (
          disk.create_snapshot e.st e.applied_index e.conf_state (snapshot json e.sm)
            e.cfg.snapshot_trailing)

  -- The loop of flushReads: the engine, and the read states that are kept.
  unfoldable pub flush :
      Engine raft disk → List ReadState → List ReadState → Engine raft disk × List ReadState
  flush e keep [] = (e, keep)
  flush e keep (rs ∷ pending) =
      if leb rs.index e.applied_index
      then flush (release e rs.request_ctx) keep pending
      else flush e (keep ++ rs ∷ []) pending

  -- flushReads
  unfoldable pub flush_reads : Engine raft disk → Engine raft disk
  flush_reads e = let (e', keep) = flush e [] e.pending_read in record e' { pending_read = keep }

  -- HandleReady up to the first call of Advance.
  unfoldable pub handle_batch : Json → Engine raft disk → Ready raft.Message → Step raft disk
  handle_batch json e rd = do
    installed ← install json e rd.snapshot
    appended ← append_entries installed rd.entries
    voted ← set_hard_state appended rd.hard_state
    apply_entries json (track voted rd.soft_state rd.read_states) rd.committed_entries

  -- HandleReady from the batch on: the engine, and the messages to send.
  unfoldable pub process :
      Json
      → Engine raft disk
      → Ready raft.Message
      → Except (Failed raft disk) (Engine raft disk × List raft.Message)
  process json e rd = do
    applied ← handle_batch json e rd
    settled ← maybe_snapshot json (record applied { rn = raft.advance applied.rn rd })
    ok (flush_reads settled, rd.messages)

  -- HandleReady
  unfoldable pub handle_ready :
      Json → Engine raft disk → Except (Failed raft disk) (Engine raft disk × List raft.Message)
  handle_ready json e =
      if not (raft.has_ready e.rn)
      then ok (e, [])
      else process json (record e { rn = (raft.ready e.rn).0 }) (raft.ready e.rn).1
