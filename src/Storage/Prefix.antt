-- ===== src/Storage/Prefix.antt =====
-- What replayWAL of internal/storage/storage.go makes of a log when a crash has cut a call of Append
-- short.
use mathlib.Core.List.{reverse, append_assoc, append-nil}
use quorum_log.Prelude.{
  ℕ, zero, suc, ◌≡◌, ◌≢◌, refl, sym, ap, ◌∙◌, List, [], ◌∷◌, ◌++◌, map, take, All, All-append,
  subst, ok,
}
use quorum_log.Storage.{Encoding, Line, wal_lines, to_record, drop_covered, replay_wal, scan_lines}
use quorum_log.Storage.Lines.{IsPrintable, scan_lines_last, scan_lines_line}
use quorum_log.Storage.Replay.{append_all, line, Fits, scan_wal, replay-append_all}
use quorum_log.Storage.Torn.{replay_torn}
use quorum_log.Storage.Stored.{wal_lines-append}
use quorum_log.Raftpb.{Entry}

-- The bytes of a record and its newline that are written: some of the record, the record without
-- its newline, or both and some of what follows.
data Taken (m rest : List ℕ) (bytes : List ℕ) : Type 0 where
  inside : (p q : List ℕ) → bytes ≡ p → p ++ q ≡ m → q ≢ [] → Taken m rest bytes
  unended : bytes ≡ m → Taken m rest bytes
  beyond : (n : ℕ) → bytes ≡ m ++ (10 ∷ take n rest) → Taken m rest bytes

taken-cons :
    (b : ℕ) (m rest : List ℕ) {bytes : List ℕ} → Taken m rest bytes → Taken (b ∷ m) rest (b ∷ bytes)
taken-cons b m rest (inside p q e f g) = inside (b ∷ p) q (ap (◌∷◌ b) e) (ap (◌∷◌ b) f) g
taken-cons b m rest (unended e) = unended (ap (◌∷◌ b) e)
taken-cons b m rest (beyond n e) = beyond n (ap (◌∷◌ b) e)

taken : (n : ℕ) (m rest : List ℕ) → Taken m rest (take n (m ++ (10 ∷ rest)))
taken zero [] rest = unended refl
taken (suc n) [] rest = beyond n refl
taken zero (b ∷ m) rest = inside [] (b ∷ m) refl refl (λ e. cc)
taken (suc n) (b ∷ m) rest = taken-cons b m rest (taken n m rest)

take_nil {ℓ} : {A : Type ℓ} (n : ℕ) → take {A = A} n [] ≡ []
take_nil zero = refl
take_nil (suc n) = refl

module _ (enc : Encoding) (snap_index : ℕ) where
  abbrev Reads : List ℕ → List Entry → Type 0
  Reads bytes ents =
      replay_wal enc bytes snap_index ≡ ok (drop_covered snap_index (reverse (append_all [] ents)))

  same_lines :
      (f g : List ℕ)
      → scan_lines f ≡ scan_lines g
      → replay_wal enc f snap_index ≡ replay_wal enc g snap_index
  unfolding replay_wal
  same_lines f g e = rw e refl

  scan_whole : (m : Line) → IsPrintable m → m ≢ [] → scan_lines m ≡ m ∷ []
  scan_whole [] p full = absurd (full refl)
  scan_whole (c ∷ cs) p full = scan_lines_last c cs p

  scan_unended : (e : Entry) → scan_lines (line enc e) ≡ scan_lines (wal_lines enc (e ∷ []))
  unfolding wal_lines scan_lines
  scan_unended e =
      scan_whole (line enc e) (enc.marshal_printable (to_record enc e))
        (λ empty. cc (enc.marshal_opens (to_record enc e)).1)
      ∙ sym (scan_lines_line (line enc e) [] (enc.marshal_printable (to_record enc e)))

  -- A record without its newline is read too.
  Reads-unended :
      (written : List Entry) (e : Entry)
      → All (Fits enc) (written ++ e ∷ [])
      → Reads (wal_lines enc written ++ line enc e) (written ++ e ∷ [])
  Reads-unended written e fit =
      same_lines _ _ (
        scan_wal enc written (line enc e)
        ∙ ap (λ l. map (line enc) written ++ l) (scan_unended e)
        ∙ sym (scan_wal enc written (wal_lines enc (e ∷ [])))
        ∙ ap scan_lines (sym (wal_lines-append enc written (e ∷ []))))
      ∙ replay-append_all enc (written ++ e ∷ []) snap_index fit

  same_bytes :
      (ws : List Entry) (x : Entry) (t bs : List ℕ)
      → bs ≡ line enc x ++ (10 ∷ t)
      → wal_lines enc ws ++ bs ≡ wal_lines enc (ws ++ x ∷ []) ++ t
  unfolding wal_lines
  same_bytes ws x t bs h =
      rw (h, wal_lines-append enc ws (x ∷ []))
        (sym (
          append_assoc (wal_lines enc ws) _ t
          ∙ ap (λ l. wal_lines enc ws ++ l) (append_assoc (line enc x) (10 ∷ []) t)))

  -- The log after a cut in the record of `e`, given what is read after a cut behind it.
  Reads-cut :
      (written : List Entry) (e : Entry) (ents : List Entry) (bytes : List ℕ)
      → All (Fits enc) written
      → Fits enc e
      → ((n : ℕ)
          → (k : ℕ) × Reads
              (wal_lines enc (written ++ e ∷ []) ++ take n (wal_lines enc ents))
              ((written ++ e ∷ []) ++ take k ents))
      → Taken (line enc e) (wal_lines enc ents) bytes
      → (k : ℕ) × Reads (wal_lines enc written ++ bytes) (written ++ take k (e ∷ ents))
  Reads-cut written e ents bytes fit short behind (inside p q eq cut left) = (
    0,
    subst (λ b. Reads (wal_lines enc written ++ b) (written ++ [])) (sym eq)
        (replay_torn enc written snap_index fit e p q cut left short
          ∙ replay-append_all enc written snap_index fit
          ∙ ap (λ w. ok (drop_covered snap_index (reverse (append_all [] w))))
              (sym (append-nil written))),
  )
  Reads-cut written e ents bytes fit short behind (unended eq) = (
    1,
    subst (λ b. Reads (wal_lines enc written ++ b) (written ++ e ∷ [])) (sym eq)
        (Reads-unended written e (All-append (Fits enc) written (e ∷ []) fit (short, tt))),
  )
  Reads-cut written e ents bytes fit short behind (beyond n eq) =
      let (k, r) = behind n in
      (
        suc k,
        subst (λ w. Reads (wal_lines enc written ++ bytes) w)
            (append_assoc written (e ∷ []) (take k ents))
            (ap (λ f. replay_wal enc f snap_index)
                (same_bytes written e (take n (wal_lines enc ents)) bytes eq)
              ∙ r),
      )

  -- After a cut somewhere in the bytes of a call, a restart reads what was written before, and the
  -- entries of the call up to some entry.
  pub Reads-prefix :
      (written ents : List Entry) (n : ℕ)
      → All (Fits enc) written
      → All (Fits enc) ents
      → (k : ℕ) × Reads
          (wal_lines enc written ++ take n (wal_lines enc ents))
          (written ++ take k ents)
  unfolding wal_lines
  Reads-prefix written [] n fit fits = (
    0,
    ap (λ b. replay_wal enc (wal_lines enc written ++ b) snap_index) (take_nil n)
        ∙ ap (λ f. replay_wal enc f snap_index) (append-nil (wal_lines enc written))
        ∙ replay-append_all enc written snap_index fit
        ∙ ap (λ w. ok (drop_covered snap_index (reverse (append_all [] w))))
            (sym (append-nil written)),
  )
  Reads-prefix written (e ∷ ents) n fit fits =
      Reads-cut written e ents _ fit fits.0
        (λ m.
          Reads-prefix (written ++ e ∷ []) ents m
            (All-append (Fits enc) written (e ∷ []) fit (fits.0, tt)) fits.1)
        (taken n (line enc e) (wal_lines enc ents))
