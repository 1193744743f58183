-- ===== src/Storage/Order.antt =====
-- Truncation in the replay of internal/storage/storage.go: which records survive, and their order.
use mathlib.Core.List.{reverse, append_assoc, append-nil, reverse-cons, reverse-reverse}
use mathlib.Core.Path.{subst}
use quorum_log.Prelude.{
  ℕ, ◌<◌, ◌≡◌, Bool, true, ◌&&◌, List, [], ◌∷◌, ◌++◌, leb, ltb, All, if◌then◌else◌, Except, ok, err,
  refl, sym, ap, ◌∙◌, arith, select, All-select, Bool-cases, inl, inr, All-append, Option-cases,
  ok-injective, err-ne-ok, All-weaken, All-select-true, select-select,
}
use quorum_log.Raftpb.{Entry}
use quorum_log.Storage.{
  Encoding, append_entry, drop_from, drop_covered, torn_line, replay_lines, replay_wal,
  finish_replay, wal_lines, Line, WalRecord, StorageError,
}
use quorum_log.Storage.Replay.{append_all, Fits, replay-append_all}

-- No record of the list has an index at or below `e`'s.
unfoldable pub untouched : List Entry → Entry → Bool
untouched [] e = true
untouched (x ∷ xs) e = ltb e.index x.index && untouched xs e

-- The records that no later record truncates.
unfoldable pub survivors : List Entry → List Entry
survivors [] = []
survivors (e ∷ ents) = let rest = survivors ents in if untouched ents e then e ∷ rest else rest

-- Indices fall from the front to the back, as in the entries read so far.
abbrev pub IsFalling : List Entry → Type 0
IsFalling [] = Unit
IsFalling (e ∷ ents) = All (λ x. x.index < e.index) ents × IsFalling ents

abbrev pub IsRising : List Entry → Type 0
IsRising [] = Unit
IsRising (e ∷ ents) = All (λ x. e.index < x.index) ents × IsRising ents

below : ℕ → List Entry → List Entry
below i = select (λ x. ltb x.index i)

below_all : (i : ℕ) (ents : List Entry) → All (λ x. x.index < i) ents → below i ents ≡ ents
unfolding below select
below_all i [] h = refl
below_all i (x ∷ ents) h = rw (below_all i ents h.1) (ground (arith, h.0))

drop_from-below : (i : ℕ) (ents : List Entry) → IsFalling ents → drop_from i ents ≡ below i ents
unfolding drop_from below select
drop_from-below i [] h = refl
drop_from-below i (x ∷ ents) h = elim (Bool-cases (leb i x.index)) [
  | inl e ↦ rw e (ground (arith, e, drop_from-below i ents h.1))
  | inr e ↦ rw e (
      ground (
        arith,
        e,
        below_all i ents (
            All-weaken (λ y. y.index < x.index) (λ y. y.index < i) ents (λ y lt. ground arith) h.0),
      ))
]

IsFalling-select :
    (p : Entry → Bool) (ents : List Entry) → IsFalling ents → IsFalling (select p ents)
unfolding select
IsFalling-select p [] h = tt
IsFalling-select p (e ∷ ents) h = elim (Bool-cases (p e)) [
  | inl t ↦ rw t (All-select (λ x. x.index < e.index) p ents h.0, IsFalling-select p ents h.1)
  | inr t ↦ rw t (IsFalling-select p ents h.1)
]

IsFalling-append_entry :
    (ents : List Entry) (e : Entry) → IsFalling ents → IsFalling (append_entry ents e)
unfolding append_entry below
IsFalling-append_entry ents e h = rw (drop_from-below e.index ents h) (
  All-weaken (λ x. ltb x.index e.index ≡ true) (λ x. x.index < e.index) _ (λ x t. ground (arith, t))
      (All-select-true _ ents),
  IsFalling-select _ ents h,
)

select-untouched_nil : (ents : List Entry) → select (untouched []) ents ≡ ents
unfolding select untouched
select-untouched_nil [] = refl
select-untouched_nil (e ∷ ents) = ap (◌∷◌ e) (select-untouched_nil ents)

select-append_entry :
    (acc ents : List Entry) (e : Entry)
    → IsFalling acc
    → select (untouched ents) (drop_from e.index acc) ≡ select (untouched (e ∷ ents)) acc
unfolding untouched below
select-append_entry acc ents e h =
    ap (select (untouched ents)) (drop_from-below e.index acc h)
    ∙ select-select (untouched ents) (λ x. ltb x.index e.index) acc

survivors_step :
    (acc ents : List Entry) (e : Entry)
    → select (untouched ents) (drop_from e.index acc) ≡ select (untouched (e ∷ ents)) acc
    → reverse (survivors ents) ++ select (untouched ents) (append_entry acc e)
      ≡ reverse (survivors (e ∷ ents)) ++ select (untouched (e ∷ ents)) acc
unfolding survivors append_entry select
survivors_step acc ents e same = elim (Bool-cases (untouched ents e)) [
  | inl t ↦ rw t (
      ap (λ l. reverse (survivors ents) ++ (e ∷ l)) same
      ∙ sym (append_assoc (reverse (survivors ents)) (e ∷ []) _)
      ∙ ap (λ l. l ++ select (untouched (e ∷ ents)) acc) (sym (reverse-cons e (survivors ents))))
  | inr t ↦ rw t (ap (λ l. reverse (survivors ents) ++ l) same)
]

-- The entries read so far, after more records.
append_all-survivors :
    (acc ents : List Entry)
    → IsFalling acc
    → append_all acc ents ≡ reverse (survivors ents) ++ select (untouched ents) acc
append_all-survivors acc [] h = unfold survivors in sym (select-untouched_nil acc)
append_all-survivors acc (e ∷ ents) h =
    append_all-survivors (append_entry acc e) ents (IsFalling-append_entry acc e h)
    ∙ survivors_step acc ents e (select-append_entry acc ents e h)

-- The entries in the order of the file.
pub reverse-append_all : (ents : List Entry) → reverse (append_all [] ents) ≡ survivors ents
unfolding select
reverse-append_all ents =
    ap reverse (append_all-survivors [] ents tt ∙ append-nil _) ∙ reverse-reverse (survivors ents)

All-reverse {κ} : (P : Entry → Type κ) (ents : List Entry) → All P ents → All P (reverse ents)
All-reverse P [] h = h
All-reverse P (e ∷ ents) h =
    rw reverse-cons (All-append P (reverse ents) (e ∷ []) (All-reverse P ents h.1) (h.0, tt))

IsRising-snoc :
    (ents : List Entry) (e : Entry)
    → IsRising ents
    → All (λ x. x.index < e.index) ents
    → IsRising (ents ++ e ∷ [])
IsRising-snoc [] e r h = (tt, tt)
IsRising-snoc (x ∷ ents) e r h =
    (All-append (λ y. x.index < y.index) ents (e ∷ []) r.0 (h.0, tt), IsRising-snoc ents e r.1 h.1)

IsRising-reverse : (ents : List Entry) → IsFalling ents → IsRising (reverse ents)
IsRising-reverse [] h = tt
IsRising-reverse (e ∷ ents) h = rw reverse-cons (
    IsRising-snoc (reverse ents) e (IsRising-reverse ents h.1)
      (All-reverse (λ x. x.index < e.index) ents h.0))

drop_covered-IsRising :
    (snap_index : ℕ) (ents : List Entry)
    → IsRising ents
    → IsRising (drop_covered snap_index ents)
      × All (λ e. snap_index < e.index) (drop_covered snap_index ents)
unfolding drop_covered
drop_covered-IsRising snap_index [] r = (tt, tt)
drop_covered-IsRising snap_index (e ∷ ents) r = elim (Bool-cases (leb e.index snap_index)) [
  | inl t ↦ rw t (drop_covered-IsRising snap_index ents r.1)
  | inr t ↦
      let above : snap_index < e.index = ground (arith, t) in
      rw t (
        r,
        (
          above,
          All-weaken (λ x. e.index < x.index) (λ x. snap_index < x.index) ents (λ x lt. omega arith)
              r.0,
        ),
      )
]

abbrev entry_of : WalRecord → List ℕ → Entry
entry_of r bytes = record { index = r.index; term = r.term; kind = r.kind; payload = bytes }

finished :
    (snap_index : ℕ) (res : Except StorageError (List Entry)) {ents : List Entry}
    → ((read : List Entry) → res ≡ ok read → IsFalling read)
    → finish_replay snap_index res ≡ ok ents
    → IsRising ents × All (λ e. snap_index < e.index) ents
unfolding finish_replay
finished snap_index (err x) falling e = absurd (err-ne-ok e)
finished snap_index (ok read) falling e =
    subst (λ ents. IsRising ents × All (λ e. snap_index < e.index) ents) (ok-injective e)
      (drop_covered-IsRising snap_index (reverse read) (IsRising-reverse read (falling read refl)))

module _ (enc : Encoding) where
  torn_line_ok :
      (too_long : Bool) (acc : List Entry) (lines : List Line) {ents : List Entry}
      → torn_line enc too_long acc lines ≡ ok ents
      → acc ≡ ents
  unfolding torn_line
  torn_line_ok too_long acc [] e = ground (arith, e)
  torn_line_ok too_long acc (l ∷ lines) e = absurd (cc e)

  replay_lines-IsFalling :
      (too_long : Bool) (acc : List Entry) (lines : List Line) {ents : List Entry}
      → IsFalling acc
      → replay_lines enc too_long acc lines ≡ ok ents
      → IsFalling ents
  unfolding replay_lines torn_line
  replay_lines-IsFalling too_long acc [] h e = subst IsFalling (ground (arith, e)) h
  replay_lines-IsFalling too_long acc ([] ∷ lines) h e =
      replay_lines-IsFalling too_long acc lines h e
  replay_lines-IsFalling too_long acc ((c ∷ cs) ∷ lines) h e =
      elim (Option-cases (enc.unmarshal (c ∷ cs))) [
        | inl bad ↦
            subst IsFalling (torn_line_ok too_long acc lines (rw (bad, replay_lines) at e)) h
        | inr (r, read) ↦ elim (Option-cases (enc.decode_string r.payload)) [
          | inl bad ↦ absurd (ground (arith, read, bad, e))
          | inr (bytes, decoded) ↦
              replay_lines-IsFalling too_long (append_entry acc (entry_of r bytes)) lines
                (IsFalling-append_entry acc _ h) (ground (arith, read, decoded, e))
        ]
      ]

  -- Whatever the file holds, the entries of a successful replay have rising indices, all of them
  -- above the snapshot's.
  pub replay_wal-IsRising :
      (file : List ℕ) (snap_index : ℕ) {ents : List Entry}
      → replay_wal enc file snap_index ≡ ok ents
      → IsRising ents × All (λ e. snap_index < e.index) ents
  unfolding replay_wal
  replay_wal-IsRising file snap_index e =
      finished snap_index _ (λ ents f. replay_lines-IsFalling _ [] _ tt f) e

above_all :
    (i m : ℕ) (ents : List Entry)
    → All (λ x. m < x.index) ents
    → i < m
    → select (λ e. ltb i e.index) ents ≡ ents
unfolding select
above_all i m [] h lt = refl
above_all i m (x ∷ ents) h lt = ground (arith, above_all i m ents h.1 lt, h.0, lt)

drop_covered-above :
    (i : ℕ) (ents : List Entry)
    → IsRising ents
    → drop_covered i ents ≡ select (λ e. ltb i e.index) ents
unfolding drop_covered select
drop_covered-above i [] r = refl
drop_covered-above i (e ∷ ents) r = elim (Bool-cases (leb e.index i)) [
  | inl t ↦ ground (arith, t, drop_covered-above i ents r.1)
  | inr t ↦ ground (arith, t, above_all i e.index ents r.0)
]

append_all-IsFalling : (acc ents : List Entry) → IsFalling acc → IsFalling (append_all acc ents)
append_all-IsFalling acc [] h = h
append_all-IsFalling acc (e ∷ ents) h =
    append_all-IsFalling (append_entry acc e) ents (IsFalling-append_entry acc e h)

survivors-IsRising : (ents : List Entry) → IsRising (survivors ents)
survivors-IsRising ents =
    subst IsRising (reverse-append_all ents)
      (IsRising-reverse (append_all [] ents) (append_all-IsFalling [] ents tt))

-- A log of whole records that fit the reader's buffer is read back as exactly those of its entries
-- that no later entry of the file has an index up to, and whose own index is above the snapshot's, in
-- the order of the file.
pub replay-wal_lines :
    (enc : Encoding) (ents : List Entry) (snap_index : ℕ)
    → All (Fits enc) ents
    → replay_wal enc (wal_lines enc ents) snap_index
      ≡ ok (select (λ e. ltb snap_index e.index) (survivors ents))
replay-wal_lines enc ents snap_index fit =
    replay-append_all enc ents snap_index fit
    ∙ ap (λ l. ok (drop_covered snap_index l)) (reverse-append_all ents)
    ∙ ap ok (drop_covered-above snap_index (survivors ents) (survivors-IsRising ents))
