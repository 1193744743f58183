-- ===== src/Storage/Torn.antt =====
-- Torn lines in the write-ahead log of internal/storage/storage.go: what a crash in the middle of an
-- append leaves, and what the next appends make of it.
use mathlib.Core.List.{reverse, append_assoc, append-nil}
use mathlib.Core.Path.{subst}
use quorum_log.Prelude.{
  ℕ, ◌<◌, ◌≡◌, ◌≢◌, Bool, none, List, [], ◌∷◌, ◌++◌, map, All, length, length-append, ok, err, refl,
  sym, ap, ◌∙◌, arith,
}
use quorum_log.Storage.Lines.{
  IsPrintable, scan_lines_line, scan_lines_last, drop_cr_printable, within_cons, IsPrintable-append,
  IsPrintable-prefix,
}
use quorum_log.Raftpb.{Entry}
use quorum_log.Storage.{
  Encoding, corrupt_record, Line, scan_lines, drop_cr, within, max_token, drop_covered, to_record,
  wal_lines, torn_line, replay_lines, replay_wal, finish_replay,
}
use quorum_log.Storage.Replay.{append_all, line, Fits, replay_then, replay-append_all}

append_nil_left : (p q : List ℕ) → p ++ q ≡ [] → p ≡ []
append_nil_left [] q e = refl
append_nil_left (c ∷ p) q e = absurd (cc)

module _ (enc : Encoding) where
  bad_line :
      (t : Bool) (acc : List Entry) (l : Line) (lines : List Line)
      → IsPrintable l
      → l ≢ []
      → enc.unmarshal l ≡ none
      → replay_lines enc t acc (map drop_cr (l ∷ lines)) ≡ torn_line enc t acc (map drop_cr lines)
  unfolding replay_lines
  bad_line t acc [] lines p full bad = absurd (full refl)
  bad_line t acc (c ∷ cs) lines p full bad = rw (drop_cr_printable (c ∷ cs) p) (ground (arith, bad))

  module _ (ents : List Entry) (snap_index : ℕ) (fit : All (Fits enc) ents) where
    module _ (l : Line) (printable : IsPrintable l) (full : l ≢ []) (short : length l < max_token)
        (bad : enc.unmarshal l ≡ none) where
      bad_then :
          (tail : List ℕ) (lines : List Line)
          → scan_lines tail ≡ l ∷ lines
          → replay_wal enc (wal_lines enc ents ++ tail) snap_index
            ≡ finish_replay snap_index (
                torn_line enc
                  (within max_token lines).1
                  (append_all [] ents)
                  (map drop_cr (within max_token lines).0))
      bad_then tail lines scanned =
          replay_then enc ents tail snap_index fit
          ∙ rw scanned (
              rw (within_cons max_token l lines short)
                (ap (finish_replay snap_index) (bad_line _ _ l _ printable full bad)))

      -- A line that is not JSON ends the log if it is the last one.
      bad_last :
          (tail : List ℕ)
          → scan_lines tail ≡ l ∷ []
          → replay_wal enc (wal_lines enc ents ++ tail) snap_index
            ≡ ok (drop_covered snap_index (reverse (append_all [] ents)))
      unfolding finish_replay torn_line within
      bad_last tail scanned = bad_then tail [] scanned

      -- Before another line it makes the log corrupt.
      bad_followed :
          (tail : List ℕ) (l' : Line) (lines : List Line)
          → scan_lines tail ≡ l ∷ l' ∷ lines
          → length l' < max_token
          → replay_wal enc (wal_lines enc ents ++ tail) snap_index ≡ err corrupt_record
      unfolding finish_replay torn_line
      bad_followed tail l' lines scanned short' =
          bad_then tail (l' ∷ lines) scanned ∙ rw (within_cons max_token l' lines short')

    scan_next :
        (next : Entry) (more : List Entry)
        → scan_lines (wal_lines enc (next ∷ more)) ≡ line enc next ∷ scan_lines (wal_lines enc more)
    unfolding wal_lines
    scan_next next more =
        scan_lines_line (line enc next) (wal_lines enc more)
          (enc.marshal_printable (to_record enc next))

    torn_tail :
        (p : List ℕ)
        → IsPrintable p
        → length p < max_token
        → enc.unmarshal p ≡ none
        → replay_wal enc (wal_lines enc ents ++ p) snap_index
          ≡ replay_wal enc (wal_lines enc ents) snap_index
    torn_tail [] printable short bad =
        ap (λ file. replay_wal enc file snap_index) (append-nil (wal_lines enc ents))
    torn_tail (c ∷ cs) printable short bad =
        bad_last (c ∷ cs) printable (λ e. cc) short bad (c ∷ cs) (scan_lines_last c cs printable)
        ∙ sym (replay-append_all enc ents snap_index fit)

    module _ (torn : Entry) (p q : List ℕ) (cut : p ++ q ≡ enc.marshal (to_record enc torn))
        (left : q ≢ []) where
      cut-IsPrintable : IsPrintable p
      cut-IsPrintable =
          IsPrintable-prefix p q
            (subst IsPrintable (sym cut) (enc.marshal_printable (to_record enc torn)))

      -- A crash in the middle of the write of `torn`, when the bytes `p` of it are in the file, loses
      -- no entry that was written before.
      pub replay_torn :
          Fits enc torn
          → replay_wal enc (wal_lines enc ents ++ p) snap_index
            ≡ replay_wal enc (wal_lines enc ents) snap_index
      replay_torn short =
          torn_tail p cut-IsPrintable (omega (arith, ap length cut, length-append {0} p q))
            (enc.unmarshal_cut (to_record enc torn) p q cut left)

      module _ (begun : p ≢ []) (new : Entry)
          (fits : length (p ++ enc.marshal (to_record enc new)) < max_token) where
        glued : Line
        glued = p ++ line enc new

        glued-IsPrintable : IsPrintable glued
        unfolding glued
        glued-IsPrintable =
            IsPrintable-append p (line enc new) cut-IsPrintable
              (enc.marshal_printable (to_record enc new))

        glued_full : glued ≢ []
        unfolding glued
        glued_full e = begun (append_nil_left p (line enc new) e)

        scan_glued :
            (more : List Entry)
            → scan_lines (p ++ wal_lines enc (new ∷ more)) ≡ glued ∷ scan_lines (wal_lines enc more)
        unfolding wal_lines glued
        scan_glued more =
            ap scan_lines (sym (append_assoc p (line enc new) _))
            ∙ scan_lines_line glued (wal_lines enc more) glued-IsPrintable

        -- The next entry appended behind such a torn record is lost by the next restart, although
        -- it was written and synced.
        pub replay_append_after_torn :
            replay_wal enc (wal_lines enc ents ++ (p ++ wal_lines enc (new ∷ []))) snap_index
            ≡ replay_wal enc (wal_lines enc ents) snap_index
        unfolding glued wal_lines scan_lines
        replay_append_after_torn =
            bad_last glued glued-IsPrintable glued_full fits
              (enc.unmarshal_glued (to_record enc torn) (to_record enc new) p q cut begun left)
              (p ++ wal_lines enc (new ∷ [])) (scan_glued [])
            ∙ sym (replay-append_all enc ents snap_index fit)

        -- With one entry more the log is refused, so that the node does not start.
        pub replay_append_twice_after_torn :
            (next : Entry) (more : List Entry)
            → Fits enc next
            → replay_wal enc
                (wal_lines enc ents ++ (p ++ wal_lines enc (new ∷ next ∷ more)))
                snap_index
              ≡ err corrupt_record
        unfolding glued
        replay_append_twice_after_torn next more short =
            bad_followed glued glued-IsPrintable glued_full fits
              (enc.unmarshal_glued (to_record enc torn) (to_record enc new) p q cut begun left)
              (p ++ wal_lines enc (new ∷ next ∷ more)) (line enc next)
              (scan_lines (wal_lines enc more))
              (scan_glued (next ∷ more) ∙ ap (◌∷◌ glued) (scan_next next more)) short
