-- ===== src/Check/Http/Attempts.antt =====
-- How many operations HTTPHistory of internal/check/http_history.go makes.
use quorum_log.Prelude.{
  ℕ, suc, ◌+◌, String, ◌≡◌, refl, sym, ap, subst, ◌∙◌, Bool, true, false, Option, none, some, List,
  [], ◌∷◌, ◌++◌, map, length, length-append, length-map, insert_by, sort_by, ltb_ℤ, arith,
  string_eq, ok, >>=-eq-ok, ok-injective, Bool-cases, inl, inr,
}
use quorum_log.Prelude.GoMap
use quorum_log.Check.{Operation, KvInput}
use quorum_log.Check.Http.{
  Event, Scan, start, scan_event, scan, close, settle, finish, http_history,
}
use quorum_log.Check.Http.Inversion.{Scanned, scan_event_ok, pending, completed}

-- Whether an event is an invocation: 1 or 0.
abbrev starts : Option KvInput → ℕ
starts none = 0
starts (some _) = 1

unfoldable pub attempts : List Event → ℕ
attempts [] = 0
attempts (event ∷ events) = starts event.input + attempts events

module _ {ℓ} {A : Type ℓ} where
  length-insert_by :
      (less : A → A → Bool) (x : A) (xs : List A) → length (insert_by less x xs) ≡ suc (length xs)
  unfolding insert_by
  length-insert_by less x [] = refl
  length-insert_by less x (y ∷ ys) = ground (arith, length-insert_by less x ys)

  length-sort_by : (less : A → A → Bool) (xs : List A) → length (sort_by less xs) ≡ length xs
  unfolding sort_by
  length-sort_by less [] = refl
  length-sort_by less (x ∷ xs) =
      length-insert_by less x (sort_by less xs) ∙ ap suc (length-sort_by less xs)

attempts-insert_by :
    (less : Event → Event → Bool) (x : Event) (xs : List Event)
    → attempts (insert_by less x xs) ≡ starts x.input + attempts xs
unfolding insert_by attempts
attempts-insert_by less x [] = refl
attempts-insert_by less x (y ∷ ys) = elim (Bool-cases (less y x)) [
  | inl e ↦ rw (e, insert_by, attempts) (omega (arith, attempts-insert_by less x ys))
  | inr e ↦ rw (e, insert_by, attempts) refl
]

attempts-sort_by :
    (less : Event → Event → Bool) (xs : List Event) → attempts (sort_by less xs) ≡ attempts xs
unfolding sort_by attempts
attempts-sort_by less [] = refl
attempts-sort_by less (x ∷ xs) =
    attempts-insert_by less x (sort_by less xs)
    ∙ ap (λ n. starts x.input + n) (attempts-sort_by less xs)

-- The operations, open and recorded, are `n`, and each open one has been seen.
record Counted (n : ℕ) (s : Scan) : Type 0 where
  is_map : GoMap.IsMap s.opened
  unseen : (id : String) → GoMap.get_or s.seen id false ≡ false → GoMap.get s.opened id ≡ none
  counted : GoMap.size s.opened + length s.operations ≡ n

Counted-event :
    (n : ℕ) (s : Scan) (event : Event) {t : Scan}
    → Counted n s
    → Scanned s event t
    → Counted (starts event.input + n) t
Counted-event n s event h (Scanned.invoked at input valid given kind fresh same) =
    subst (Counted (starts event.input + n)) (sym same) (record {
      is_map = GoMap.IsMap-put s.opened event.id _ h.is_map;
      unseen = λ id. ground (
        arith,
        GoMap.get_or-put s.seen event.id id true false,
        GoMap.get-put s.opened event.id id (pending event at input),
        h.unseen id,
      );
      counted = rw given (
          omega (
            arith,
            h.counted,
            GoMap.size-put_new s.opened event.id (pending event at input) (h.unseen event.id fresh),
          ));
    })
Counted-event n s event h (Scanned.responded at p out valid missing given found same) =
    subst (Counted (starts event.input + n)) (sym same) (record {
      is_map = GoMap.IsMap-delete s.opened event.id h.is_map;
      unseen = λ id. ground (arith, GoMap.get-delete s.opened event.id id, h.unseen id);
      counted = rw missing (
          omega (
            arith,
            h.counted,
            GoMap.size-delete s.opened event.id p h.is_map found,
            length-append s.operations (completed p out at ∷ []),
          ));
    })

Counted-scan :
    (events : List Event) (n : ℕ) (s : Scan) {t : Scan}
    → Counted n s
    → scan s events ≡ ok t
    → Counted (attempts events + n) t
unfolding scan attempts
Counted-scan [] n s h e =
    subst (Counted (0 + n)) (ok-injective e) (subst (λ m. Counted m s) (omega arith) h)
Counted-scan (event ∷ events) n s {t} h e =
    let (s', first, rest) = >>=-eq-ok (scan_event s event) (λ x. scan x events) e in
    subst (λ m. Counted m t) (omega arith)
      (Counted-scan events (starts event.input + n) s'
        (Counted-event n s event h (scan_event_ok s event first)) rest)

Counted-start : Counted 0 start
Counted-start = record { is_map = tt; unseen = λ id _. GoMap.get-empty id; counted = refl }

length-finish : (s : Scan) → length (finish s) ≡ GoMap.size s.opened + length s.operations
unfolding finish
length-finish s =
    let closed = map (λ e. close s.end e.1) s.opened.entries in
    length-sort_by _ _
    ∙ length-map (settle s.end) (s.operations ++ closed)
    ∙ omega (
      arith,
      length-append s.operations closed,
      length-map (λ e. close s.end e.1) s.opened.entries,
    )

-- A history that is not refused has exactly one operation for every invocation, answered or not.
pub length-http_history :
    (events : List Event) {h : List Operation}
    → http_history events ≡ ok h
    → length h ≡ attempts events
unfolding http_history
length-http_history events e =
    let sorted = sort_by (λ a b. ltb_ℤ a.at b.at) events in
    let (s, scanned, same) = >>=-eq-ok (scan start sorted) _ e in
    let counts = Counted-scan sorted 0 start Counted-start scanned in
    ap length (sym (ok-injective same))
    ∙ omega
        (arith, length-finish s, counts.counted, attempts-sort_by (λ a b. ltb_ℤ a.at b.at) events)
