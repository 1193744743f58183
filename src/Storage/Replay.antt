-- ===== src/Storage/Replay.antt =====
-- What a restart reads from the write-ahead log of internal/storage/storage.go.
use mathlib.Core.List.{reverse, append_assoc, append-nil, map-append}
use quorum_log.Prelude.{
  ℕ, ◌<◌, ◌≡◌, Bool, some, List, [], ◌∷◌, ◌++◌, map, All, length, ok, refl, sym, ap, ◌∙◌, arith,
}
use quorum_log.Storage.Lines.{scan_lines_line, drop_cr_printable}
use quorum_log.Raftpb.{Entry}
use quorum_log.Storage.{
  Encoding, Line, scan_lines, drop_cr, within, max_token, append_entry, drop_covered, to_record,
  wal_lines, replay_lines, replay_wal, finish_replay,
}

-- Appending entry after entry, each over what it conflicts with; the last one first.
abbrev pub append_all : List Entry → List Entry → List Entry
append_all ents [] = ents
append_all ents (e ∷ es) = append_all (append_entry ents e) es

module _ (enc : Encoding) where
  abbrev pub line : Entry → Line
  line e = enc.marshal (to_record enc e)

  -- The scanner's buffer holds the line and its newline.
  abbrev pub Fits : Entry → Type 0
  Fits e = length (enc.marshal (to_record enc e)) < max_token

  pub scan_wal :
      (ents : List Entry) (tail : List ℕ)
      → scan_lines (wal_lines enc ents ++ tail) ≡ map line ents ++ scan_lines tail
  unfolding wal_lines
  scan_wal [] tail = refl
  scan_wal (e ∷ ents) tail =
      ap scan_lines (append_assoc (line e) _ tail)
      ∙ scan_lines_line (line e) _ (enc.marshal_printable (to_record enc e))
      ∙ ap (◌∷◌ (line e)) (scan_wal ents tail)

  within_wal :
      (ents : List Entry) (lines : List Line)
      → All Fits ents
      → within max_token (map line ents ++ lines)
        ≡ (map line ents ++ (within max_token lines).0, (within max_token lines).1)
  unfolding within
  within_wal [] lines h = refl
  within_wal (e ∷ ents) lines h = rw (within_wal ents lines h.1) (ground (arith, h.0))

  drop_cr_wal : (ents : List Entry) → map drop_cr (map line ents) ≡ map line ents
  drop_cr_wal [] = refl
  drop_cr_wal (e ∷ ents) =
      rw (drop_cr_printable (line e) (enc.marshal_printable (to_record enc e)), drop_cr_wal ents)

  replay_record :
      (t : Bool) (acc : List Entry) (l : Line) (lines : List Line) (e : Entry) (rest : List ℕ)
      → l ≡ 123 ∷ rest
      → enc.unmarshal l ≡ some (to_record enc e)
      → replay_lines enc t acc (l ∷ lines) ≡ replay_lines enc t (append_entry acc e) lines
  unfolding replay_lines
  replay_record t acc [] lines e rest opens read = absurd (cc)
  replay_record t acc (c ∷ cs) lines e rest opens read =
      ground (arith, read, enc.decode-encode e.payload)

  replay_entries :
      (t : Bool) (acc ents : List Entry) (lines : List Line)
      → replay_lines enc t acc (map line ents ++ lines)
        ≡ replay_lines enc t (append_all acc ents) lines
  replay_entries t acc [] lines = refl
  replay_entries t acc (e ∷ ents) lines =
      replay_record t acc (line e) _ e _ (enc.marshal_opens (to_record enc e)).1
        (enc.unmarshal-marshal (to_record enc e))
      ∙ replay_entries t (append_entry acc e) ents lines

  -- The file after entries `ents` have been written: the records are read back, and the loop goes
  -- on with what follows them.
  pub replay_then :
      (ents : List Entry) (tail : List ℕ) (snap_index : ℕ)
      → All Fits ents
      → replay_wal enc (wal_lines enc ents ++ tail) snap_index
        ≡ finish_replay snap_index (
            replay_lines enc
              (within max_token (scan_lines tail)).1
              (append_all [] ents)
              (map drop_cr (within max_token (scan_lines tail)).0))
  unfolding replay_wal
  replay_then ents tail snap_index h = rw (scan_wal ents tail) (
      rw (within_wal ents (scan_lines tail) h) (
        ap (finish_replay snap_index) (
          ap (replay_lines enc (within max_token (scan_lines tail)).1 []) (
            map-append drop_cr (map line ents) _
            ∙ ap (λ l. l ++ map drop_cr (within max_token (scan_lines tail)).0) (drop_cr_wal ents))
          ∙ replay_entries _ [] ents _)))

  -- A log of whole records.
  pub replay-append_all :
      (ents : List Entry) (snap_index : ℕ)
      → All Fits ents
      → replay_wal enc (wal_lines enc ents) snap_index
        ≡ ok (drop_covered snap_index (reverse (append_all [] ents)))
  unfolding finish_replay replay_lines within scan_lines
  replay-append_all ents snap_index fit =
      ap (λ file. replay_wal enc file snap_index) (sym (append-nil (wal_lines enc ents)))
      ∙ replay_then ents [] snap_index fit
