-- ===== src/Check/Recorder/Histories.antt =====
-- The histories of the Recorder of internal/check/check.go.
use quorum_log.Prelude.{
  ℕ, ◌+◌, ◌≤◌, ◌≡◌, refl, ap, ◌∙◌, ℤ, none, List, [], ◌∷◌, length, length-append, length-map, All,
  All-append, All-weaken, All-map, arith, nat_eq, Option-cases, inl, inr,
}
use native.Mathlib.Nat.{le_trans}
use quorum_log.Prelude.GoMap
use quorum_log.Prelude.GoMap.{
  GoMap, IsMap, IsMap-put, IsMap-delete, size-put_new, size-delete, All-put, All-delete, All-get,
}
use quorum_log.Check.{KvInput, KvOutput, Operation}
use quorum_log.Check.Recorder.{
  Started, Recorder, new_recorder, invoke, closed, return_, abandoned, history, Recording, invoked,
  returned, record_all, invocations,
}

-- Every handle that was given out stands for one operation, open or done.
record IsSound (r : Recorder) : Type 0 where
  keyed : IsMap r.ops
  given : (id : ℕ) → r.next ≤ id → GoMap.get r.ops id ≡ none
  counted : GoMap.size r.ops + length r.done ≡ r.next

get-put_later :
    (m : GoMap ℕ Started) (next id : ℕ) (op : Started)
    → ((j : ℕ) → next ≤ j → GoMap.get m j ≡ none)
    → next + 1 ≤ id
    → GoMap.get (GoMap.put m next op) id ≡ none
get-put_later m next id op h le =
    ground (arith, GoMap.get-put m next id op, h id (omega (arith, le)), nat_eq.beq_iff next id)

invoke-IsSound :
    (r : Recorder) (client_id : ℤ) (input : KvInput) (now : ℕ)
    → IsSound r
    → IsSound (invoke r client_id input now).0
unfolding invoke
invoke-IsSound r client_id input now s = record {
  keyed = IsMap-put r.ops r.next _ s.keyed;
  given = λ id le. get-put_later r.ops r.next id _ s.given le;
  counted = omega (
    arith,
    s.counted,
    size-put_new r.ops r.next (record { client_id = client_id; input = input; call = now })
        (s.given r.next (omega arith)),
  );
}

return_-IsSound :
    (r : Recorder) (id : ℕ) (output : KvOutput) (now : ℕ)
    → IsSound r
    → IsSound (return_ r id output now)
unfolding return_
return_-IsSound r id output now s = elim (Option-cases (GoMap.get r.ops id)) [
  | inl absent ↦ rw (absent, return_) s
  | inr (op, found) ↦
      rw (found, return_)
        (record {
          keyed = IsMap-delete r.ops id s.keyed;
          given = λ j le. ground (arith, GoMap.get-delete r.ops id j, s.given j le);
          counted = omega (
            arith,
            s.counted,
            size-delete r.ops id op s.keyed found,
            length-append r.done (closed op output now ∷ []),
          );
        })
]

record_all-IsSound :
    (calls : List Recording) (r : Recorder) → IsSound r → IsSound (record_all r calls)
unfolding record_all
record_all-IsSound [] r s = s
record_all-IsSound (invoked client_id input now ∷ calls) r s =
    record_all-IsSound calls (invoke r client_id input now).0
      (invoke-IsSound r client_id input now s)
record_all-IsSound (returned id output now ∷ calls) r s =
    record_all-IsSound calls (return_ r id output now) (return_-IsSound r id output now s)

next-return_ :
    (r : Recorder) (id : ℕ) (output : KvOutput) (now : ℕ) → (return_ r id output now).next ≡ r.next
unfolding return_
next-return_ r id output now = ground arith

new_recorder-IsSound : IsSound new_recorder
new_recorder-IsSound = record { keyed = tt; given = λ id le. GoMap.get-empty id; counted = refl }

next-record_all :
    (calls : List Recording) (r : Recorder) → (record_all r calls).next ≡ r.next + invocations calls
unfolding record_all invocations invoke return_
next-record_all [] r = omega arith
next-record_all (invoked client_id input now ∷ calls) r =
    omega (arith, next-record_all calls (invoke r client_id input now).0)
next-record_all (returned id output now ∷ calls) r =
    next-record_all calls (return_ r id output now)
    ∙ ap (λ n. n + invocations calls) (next-return_ r id output now)

length-history :
    (r : Recorder) (now : ℕ) → length (history r now) ≡ length r.done + GoMap.size r.ops
unfolding history
length-history r now =
    length-append r.done _ ∙ ap (λ n. length r.done + n) (length-map _ r.ops.entries)

-- The history has exactly one operation for every call of Invoke, returned or not.
pub history_complete :
    (calls : List Recording) (now : ℕ)
    → length (history (record_all new_recorder calls) now) ≡ invocations calls
history_complete calls now =
    let s = record_all-IsSound calls new_recorder new_recorder-IsSound in
    omega (
      arith,
      s.counted,
      next-record_all calls new_recorder,
      length-history (record_all new_recorder calls) now,
    )

-- The calls come at the times of a clock that does not go back, between two times.
abbrev pub Clocked : ℕ → List Recording → ℕ → Type 0
Clocked start [] end = start ≤ end
Clocked start (invoked _ _ now ∷ calls) end = (start ≤ now) × Clocked now calls end
Clocked start (returned _ _ now ∷ calls) end = (start ≤ now) × Clocked now calls end

-- An operation has been called by a time.
abbrev IsCalled : ℕ → ℕ × Started → Type 0
IsCalled now (_, op) = op.call ≤ now

-- An operation returned after its call, by a time.
abbrev pub IsTimely : ℕ → Operation → Type 0
IsTimely now op = (op.call ≤ op.return) × (op.return ≤ now)

record IsUpTo (now : ℕ) (r : Recorder) : Type 0 where
  opened : All (IsCalled now) r.ops.entries
  finished : All (IsTimely now) r.done

later : (start now : ℕ) (r : Recorder) → start ≤ now → IsUpTo start r → IsUpTo now r
later start now r le u = record {
  opened = All-weaken (IsCalled start) (IsCalled now) r.ops.entries (λ x c. le_trans c le) u.opened;
  finished =
      All-weaken (IsTimely start) (IsTimely now) r.done (λ op t. (t.0, le_trans t.1 le)) u.finished;
}

invoke-IsUpTo :
    (r : Recorder) (client_id : ℤ) (input : KvInput) (now : ℕ)
    → IsUpTo now r
    → IsUpTo now (invoke r client_id input now).0
unfolding invoke
invoke-IsUpTo r client_id input now u = record {
  opened = All-put (IsCalled now) r.ops r.next _ (omega arith) u.opened;
  finished = u.finished;
}

return_-IsUpTo :
    (r : Recorder) (id : ℕ) (output : KvOutput) (now : ℕ)
    → IsUpTo now r
    → IsUpTo now (return_ r id output now)
unfolding return_
return_-IsUpTo r id output now u = elim (Option-cases (GoMap.get r.ops id)) [
  | inl absent ↦ rw (absent, return_) u
  | inr (op, found) ↦
      rw (found, return_)
        (record {
          opened = All-delete (IsCalled now) r.ops id u.opened;
          finished =
              All-append (IsTimely now) r.done (closed op output now ∷ []) u.finished
                ((All-get (λ x. x.call ≤ now) r.ops id u.opened found, omega arith), tt);
        })
]

record_all-IsUpTo :
    (calls : List Recording) (r : Recorder) (start end : ℕ)
    → Clocked start calls end
    → IsUpTo start r
    → IsUpTo end (record_all r calls)
unfolding record_all
record_all-IsUpTo [] r start end c u = later start end r c u
record_all-IsUpTo (invoked client_id input now ∷ calls) r start end c u =
    record_all-IsUpTo calls (invoke r client_id input now).0 now end c.1
      (invoke-IsUpTo r client_id input now (later start now r c.0 u))
record_all-IsUpTo (returned id output now ∷ calls) r start end c u =
    record_all-IsUpTo calls (return_ r id output now) now end c.1
      (return_-IsUpTo r id output now (later start now r c.0 u))

-- With a clock that does not go back every operation of the history returns at or after its call,
-- and none later than just after the end, when those that never returned are closed.
pub history-IsTimely :
    (calls : List Recording) (start now : ℕ)
    → Clocked start calls now
    → All (IsTimely (now + 1)) (history (record_all new_recorder calls) now)
unfolding history
history-IsTimely calls start now c =
    let r = record_all new_recorder calls in
    let u =
      record_all-IsUpTo calls new_recorder start now c (record { opened = tt; finished = tt }) in
    All-append (IsTimely (now + 1)) r.done _
      (All-weaken (IsTimely now) (IsTimely (now + 1)) r.done
        (λ op t. (t.0, le_trans t.1 (omega arith))) u.finished)
      (All-map (IsTimely (now + 1)) (abandoned now) r.ops.entries (
        All-weaken (IsCalled now) (λ x. IsTimely (now + 1) (abandoned now x)) r.ops.entries
          (λ x called. (le_trans called (omega arith), omega arith)) u.opened))
