-- ===== src/Storage.antt =====
-- internal/storage/storage.go: the write-ahead log `wal.log`. A file is a list of bytes.
mod Lines
pub mod Files
pub mod Disk
pub mod Reopen
pub mod Stored
pub mod Calls
pub mod Restart
pub mod Prefix
pub mod Crash
pub mod Replay
pub mod Torn
pub mod Order
mod Tests
pub mod Toy
pub mod DiskToy
mod DiskTests
unfoldable pub use Lines.{scan_lines, drop_cr, within}
pub use Lines.{Line}
use mathlib.Core.List.{reverse}
use quorum_log.Raftpb.{Entry}
use quorum_log.Prelude.{
  ℕ, ◌+◌, ◌^◌, ◌≤◌, ◌≡◌, ◌≢◌, Bool, true, false, Option, none, some, List, [], ◌∷◌, ◌++◌, map, leb,
  All, if◌then◌else◌, Except, ok, err,
}

-- walRecord, one line of JSON
pub record WalRecord : Type 0 where
  pub index : ℕ
  pub term : ℕ
  pub kind : ℕ
  pub payload : List ℕ

-- encoding/json on a `walRecord` and encoding/base64 on its payload (the source's `Data`). What is relied on: both read
-- back what they wrote; an encoded record is one object with no control characters; an object
-- that is cut off is not read, nor one that a second object follows inside it.
pub record Encoding : Type 0 where
  pub marshal : WalRecord → List ℕ
  pub unmarshal : List ℕ → Option WalRecord
  pub encode_to_string : List ℕ → List ℕ
  pub decode_string : List ℕ → Option (List ℕ)
  pub unmarshal-marshal : (r : WalRecord) → unmarshal (marshal r) ≡ some r
  pub decode-encode : (bs : List ℕ) → decode_string (encode_to_string bs) ≡ some bs
  pub marshal_opens : (r : WalRecord) → (rest : List ℕ) × (marshal r ≡ 123 ∷ rest)
  pub marshal_printable : (r : WalRecord) → All (λ c. 32 ≤ c) (marshal r)
  pub unmarshal_cut :
      (r : WalRecord) (p q : List ℕ) → p ++ q ≡ marshal r → q ≢ [] → unmarshal p ≡ none
  pub unmarshal_glued :
      (r r' : WalRecord) (p q : List ℕ)
      → p ++ q ≡ marshal r
      → p ≢ []
      → q ≢ []
      → unmarshal (p ++ marshal r') ≡ none

pub data StorageError : Type 0 where
  corrupt_record bad_base64 line_too_long missing_snapshot : StorageError

-- The most that `sc.Buffer` lets a line and its newline have.
abbrev pub max_token : ℕ
max_token = 2 ^ 26

-- `for len(ents) > 0 && ents[len(ents)-1].Index >= e.Index { ents = ents[:len(ents)-1] }`, on the
-- entries read so far with the last one first.
unfoldable pub drop_from : ℕ → List Entry → List Entry
drop_from index [] = []
drop_from index (e ∷ ents) = if leb index e.index then drop_from index ents else e ∷ ents

unfoldable pub append_entry : List Entry → Entry → List Entry
append_entry ents e = e ∷ drop_from e.index ents

-- `for len(ents) > 0 && ents[0].Index <= snapIndex { ents = ents[1:] }`
unfoldable pub drop_covered : ℕ → List Entry → List Entry
drop_covered snap_index [] = []
drop_covered snap_index (e ∷ ents) =
    if leb e.index snap_index then drop_covered snap_index ents else e ∷ ents

-- What follows the scan loop, with the entries in the order of the file again.
unfoldable pub finish_replay :
    ℕ → Except StorageError (List Entry) → Except StorageError (List Entry)
finish_replay snap_index (err e) = err e
finish_replay snap_index (ok ents) = ok (drop_covered snap_index (reverse ents))

module _ (enc : Encoding) where
  -- the literal `walRecord{…}` of Append and resetWAL
  abbrev pub to_record : Entry → WalRecord
  to_record e = record {
    index = e.index;
    term = e.term;
    kind = e.kind;
    payload = enc.encode_to_string e.payload;
  }

  -- what `enc.Encode(&rec)` writes in the loop of Append and of resetWAL
  unfoldable pub wal_lines : List Entry → List ℕ
  wal_lines [] = []
  wal_lines (e ∷ ents) = enc.marshal (to_record e) ++ (10 ∷ wal_lines ents)

  -- After a line that is not JSON: the end of the file, or corruption.
  unfoldable pub torn_line : Bool → List Entry → List Line → Except StorageError (List Entry)
  torn_line too_long ents [] = if too_long then err line_too_long else ok ents
  torn_line too_long ents (_ ∷ _) = err corrupt_record

  -- The scan loop of replayWAL; `too_long` says that the scanner stops with an error.
  unfoldable pub replay_lines : Bool → List Entry → List Line → Except StorageError (List Entry)
  replay_lines too_long ents [] = if too_long then err line_too_long else ok ents
  replay_lines too_long ents ([] ∷ lines) = replay_lines too_long ents lines
  replay_lines too_long ents ((c ∷ cs) ∷ lines) = elim (enc.unmarshal (c ∷ cs)) [
    | none ↦ torn_line too_long ents lines
    | some r ↦ elim (enc.decode_string r.payload) [
      | none ↦ err bad_base64
      | some bytes ↦
          replay_lines too_long
            (append_entry ents
              (record { index = r.index; term = r.term; kind = r.kind; payload = bytes }))
            lines
    ]
  ]

  -- replayWAL on the contents of the file
  unfoldable pub replay_wal : List ℕ → ℕ → Except StorageError (List Entry)
  unfolding finish_replay
  replay_wal file snap_index =
      let (lines, too_long) = within max_token (scan_lines file) in
      finish_replay snap_index (replay_lines too_long [] (map drop_cr lines))
