-- ===== src/Check/Http/Intervals.antt =====
-- The intervals of the operations that internal/check/http_history.go makes.
use Prim.Native.Nat.{max}
use quorum_log.Check.Http.Inversion.{Scanned, pending, scan_event_ok}
use mathlib.Core.Path.{subst}
use native.Mathlib.Bridge.{le_prop}
use native.Mathlib.Nat.{ℕ_set}
use quorum_log.Prelude.{
  ℕ, ◌+◌, ◌≤◌, ◌≡◌, String, true, some, List, [], ◌∷◌, map, ltb_ℤ, All, All-map, All-append,
  All-perm, arith, ◌==◌, sort_by-perm, string_eq, sort_by, ok, >>=-eq-ok, ok-injective, refl, sym,
  Bool-cases, inl, inr,
}
use quorum_log.Prelude.GoMap
use quorum_log.Prelude.GoMap.{GoMap}
use quorum_log.Check.{Operation}
use quorum_log.Check.Http.{
  Event, Pending, Scan, start, is_supported, scan_event, scan, close, settle, finish, http_history,
}

-- What the verdict needs of an operation: it was called by the end of the observations, its kind is
-- one of the model's, and it is open past the end if its outcome is unknown.
pub record IsObserved (end : ℕ) (op : Operation) : Type 0 where
  pub called : op.call ≤ end
  pub kind : is_supported op.input.op ≡ true
  pub open_until : op.output.unknown ≡ true → op.return ≡ end + 1

-- The same before the last loop, for a recorded operation and for one that is open.
record IsRecorded (end : ℕ) (op : Operation) : Type 0 where
  called : op.call ≤ end
  kind : is_supported op.input.op ≡ true

record IsOpen (end : ℕ) (p : Pending) : Type 0 where
  called : p.call ≤ end
  kind : is_supported p.input.op ≡ true

record ScanOk (s : Scan) : Type 0 where
  is_map : GoMap.IsMap s.opened
  recorded : All (IsRecorded s.end) s.operations
  opened : (id : String) (p : Pending) → GoMap.get s.opened id ≡ some p → IsOpen s.end p

later-IsRecorded :
    (e f : ℕ) (ops : List Operation) → e ≤ f → All (IsRecorded e) ops → All (IsRecorded f) ops
later-IsRecorded e f [] le h = tt
later-IsRecorded e f (op ∷ ops) le h = (
  record { called = omega (arith, h.0.called); kind = h.0.kind },
  later-IsRecorded e f ops le h.1,
)

ScanOk-later : (s : Scan) (at : ℕ) → ScanOk s → ScanOk (record s { end = max s.end at })
ScanOk-later s at h = record {
  is_map = h.is_map;
  recorded = later-IsRecorded s.end (max s.end at) s.operations (omega arith) h.recorded;
  opened = λ id p found. record {
    called = omega (arith, (h.opened id p found).called);
    kind = (h.opened id p found).kind;
  };
}

ScanOk-event : (s : Scan) (event : Event) {t : Scan} → ScanOk s → Scanned s event t → ScanOk t
ScanOk-event s event h (Scanned.invoked at input valid given kind fresh same) =
    subst ScanOk (sym same) (record {
      is_map = GoMap.IsMap-put s.opened event.id _ h.is_map;
      recorded = (ScanOk-later s at h).recorded;
      opened = λ id p. rw GoMap.get-put (λ found. elim (Bool-cases (event.id == id)) [
        | inl e ↦
            let same_pending : pending event at input ≡ p = ground (arith, e, found) in
            subst (IsOpen (max s.end at)) same_pending
              (record { called = omega arith; kind = kind })
        | inr e ↦ (ScanOk-later s at h).opened id p (ground (arith, e, found))
      ]);
    })
ScanOk-event s event h (Scanned.responded at p out valid missing given found same) =
    subst ScanOk (sym same) (record {
      is_map = GoMap.IsMap-delete s.opened event.id h.is_map;
      recorded =
          All-append (IsRecorded (max s.end at)) s.operations _ (ScanOk-later s at h).recorded (
            record {
              called = ((ScanOk-later s at h).opened event.id p found).called;
              kind = ((ScanOk-later s at h).opened event.id p found).kind;
            },
            tt,
          );
      opened = λ id q. rw GoMap.get-delete (λ f. elim (Bool-cases (event.id == id)) [
        | inl e ↦ absurd (ground (arith, e, f))
        | inr e ↦ (ScanOk-later s at h).opened id q (ground (arith, e, f))
      ]);
    })

ScanOk-scan :
    (s : Scan) (events : List Event) {t : Scan} → ScanOk s → scan s events ≡ ok t → ScanOk t
unfolding scan
ScanOk-scan s [] h e = subst ScanOk (ground (arith, e)) h
ScanOk-scan s (event ∷ events) h e =
    let (s', first, rest) = >>=-eq-ok (scan_event s event) (λ x. scan x events) e in
    ScanOk-scan s' events (ScanOk-event s event h (scan_event_ok s event first)) rest

ScanOk-start : ScanOk start
ScanOk-start = record {
  is_map = tt;
  recorded = tt;
  opened = λ id p found. absurd (cc (found, GoMap.get-empty {V = Pending} id));
}

-- the last loop
settled : (end : ℕ) (op : Operation) → IsRecorded end op → IsObserved end (settle end op)
unfolding settle
settled end op h = elim (Bool-cases op.output.unknown) [
  | inl e ↦ rw e (record { called = h.called; kind = h.kind; open_until = λ _. refl })
  | inr e ↦ rw e (record { called = h.called; kind = h.kind; open_until = λ u. absurd (cc u) })
]

all_settled :
    (end : ℕ) (ops : List Operation)
    → All (IsRecorded end) ops
    → All (IsObserved end) (map (settle end) ops)
all_settled end [] h = tt
all_settled end (op ∷ ops) h = (settled end op h.0, all_settled end ops h.1)

closed_recorded :
    (s : Scan) → ScanOk s → All (IsRecorded s.end) (map (λ e. close s.end e.1) s.opened.entries)
closed_recorded s h =
    All-map (IsRecorded s.end) (λ e. close s.end e.1) s.opened.entries
      (GoMap.All-entries {P = λ id p. IsRecorded s.end (close s.end p)} s.opened h.is_map
        (λ id p found. record {
          called = (h.opened id p found).called;
          kind = (h.opened id p found).kind;
        }))

IsObserved-prop : (end : ℕ) (op : Operation) → IsProp (IsObserved end op)
IsObserved-prop end op = hlevel (le_prop, ℕ_set)

finished : (s : Scan) → ScanOk s → All (IsObserved s.end) (finish s)
unfolding finish
finished s good = All-perm (IsObserved s.end) (IsObserved-prop s.end) (sort_by-perm _ _) (
    all_settled s.end _
      (All-append (IsRecorded s.end) s.operations _ good.recorded (closed_recorded s good)))

-- A history that is not refused has an end, by which every operation was called; an operation of
-- unknown outcome is open past it, and the kinds are those of the model.
pub http_history-IsObserved :
    (events : List Event) {h : List Operation}
    → http_history events ≡ ok h
    → (end : ℕ) × All (IsObserved end) h
unfolding http_history
http_history-IsObserved events e =
    let (s, scanned, same) = >>=-eq-ok (scan start (sort_by (λ a b. ltb_ℤ a.at b.at) events)) _ e in
    let good = ScanOk-scan start _ ScanOk-start scanned in
    (s.end, subst (All (IsObserved s.end)) (ok-injective same) (finished s good))
