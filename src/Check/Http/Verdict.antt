-- ===== src/Check/Http/Verdict.antt =====
-- CheckHTTPHistoryWithin of internal/check/http_history.go. The time that the first search took is
-- an argument; a duration is a number of nanoseconds, with 0 for those that are not positive.
use quorum_log.Prelude.{
  ℕ, ◌-◌, ◌/◌, ◌≤◌, ◌≡◌, Bool, true, false, not, ◌&&◌, List, [], ◌∷◌, length, ltb, select, All,
  select-All, All-weaken, All-select, arith, if◌then◌else◌, ◌==◌, nat_eq, string_eq, Except, ok,
  ◌>>=◌, >>=-eq-ok, ok-injective, inl, inr, ◌⊎◌, ◌≢◌,
}
use quorum_log.Check.{Operation, KvState, step}
use quorum_log.Check.Linearizable.{CheckResult, Porcupine}
use quorum_log.Check.Parts.{kv_model, IsLinearizable, partition-IsLinearizable}
use quorum_log.Check.Complete.{MayEnd, IsLinearizable-complete, IsLinearizable-select, IsNoop}
use quorum_log.Check.Http.{Event, HistoryError, is_supported, http_history}
use quorum_log.Check.Http.Intervals.{IsObserved, http_history-IsObserved}

-- `op.Input.Op == "get" && op.Output.Unknown`
unfoldable pub is_unknown_read : Operation → Bool
is_unknown_read op = op.input.op == "get" && op.output.unknown

abbrev pub constraints : List Operation → List Operation
constraints = select (λ op. not (is_unknown_read op))

abbrev pub acknowledged : List Operation → List Operation
acknowledged = select (λ op. not op.output.unknown)

-- The two searches.
unfoldable pub search_within : Porcupine → List Operation → ℕ → ℕ → CheckResult
search_within p constrained timeout elapsed =
    if ltb (length (acknowledged constrained)) (length constrained)
    then (if timeout / 4 == 0
        then CheckResult.unknown
        else elim (p.check_operations kv_model (acknowledged constrained) (timeout / 4)) [
          | CheckResult.ok ↦ CheckResult.ok
          | _ ↦
              if timeout - elapsed == 0
              then CheckResult.unknown
              else p.check_operations kv_model constrained (timeout - elapsed)
        ])
    else p.check_operations kv_model constrained timeout

-- CheckHTTPHistoryWithin
unfoldable pub check_http_history_within :
    Porcupine → List Event → ℕ → ℕ → Except HistoryError CheckResult
check_http_history_within p events timeout elapsed = do
  history ← http_history events
  ok (
      if timeout == 0
      then CheckResult.unknown
      else search_within p (constraints history) timeout elapsed)

-- CheckHTTPHistory
abbrev pub check_http_history : Porcupine → List Event → ℕ → Except HistoryError CheckResult
check_http_history p events elapsed = check_http_history_within p events 30_000_000_000 elapsed

unknown_accepted :
    (op : Operation) (st : KvState)
    → is_supported op.input.op ≡ true
    → op.output.unknown ≡ true
    → (step st op.input op.output).0 ≡ true
unfolding step is_supported
unknown_accepted op st kind u = ground arith

unknown-MayEnd :
    (end : ℕ) (op : Operation) → IsObserved end op → op.output.unknown ≡ true → MayEnd end op
unknown-MayEnd end op h u = record {
  open_until = omega (arith, h.open_until u);
  accepted = λ st. unknown_accepted op st h.kind u;
}

unknown_get-noop :
    (op : Operation) (st : KvState)
    → op.input.op ≡ "get"
    → op.output.unknown ≡ true
    → (step st op.input op.output).1 ≡ st
unfolding step
unknown_get-noop op st g u = rw (g, u)

unknown_read-IsNoop : (op : Operation) → not (is_unknown_read op) ≡ false → IsNoop op
unfolding is_unknown_read
unknown_read-IsNoop op e st =
    unknown_get-noop op st ((string_eq.beq_iff op.input.op "get").0 (ground (arith, e)))
      (ground (arith, e))

noops : (h : List Operation) → All (λ op. not (is_unknown_read op) ≡ false → IsNoop op) h
noops [] = tt
noops (op ∷ h) = (unknown_read-IsNoop op, noops h)

module _ (end : ℕ) (h : List Operation) (observed : All (IsObserved end) h) where
  complete_constraints : IsLinearizable (constraints h) → IsLinearizable h
  unfolding is_unknown_read
  complete_constraints =
      IsLinearizable-complete end (λ op. not (is_unknown_read op)) h
        (All-weaken (IsObserved end) (λ op. op.call ≤ end) h (λ op o. o.called) observed)
        (select-All (IsObserved end) (MayEnd end) _ h
          (λ op o e. unknown-MayEnd end op o (ground (arith, e))) observed)

  complete_acknowledged : IsLinearizable (acknowledged (constraints h)) → IsLinearizable h
  complete_acknowledged lin = complete_constraints (
      IsLinearizable-complete end (λ op. not op.output.unknown) (constraints h)
        (All-weaken (IsObserved end) (λ op. op.call ≤ end) (constraints h) (λ op o. o.called) kept)
        (select-All (IsObserved end) (MayEnd end) _ (constraints h)
          (λ op o e. unknown-MayEnd end op o (ground (arith, e))) kept)
        lin)
    where
      kept : All (IsObserved end) (constraints h)
      kept = All-select (IsObserved end) _ h observed

module _ (p : Porcupine) where
  sound_ok :
      (h : List Operation) (timeout : ℕ)
      → p.check_operations kv_model h timeout ≡ CheckResult.ok
      → IsLinearizable h
  sound_ok h timeout e = (partition-IsLinearizable h).0 (p.ok_sound kv_model h timeout e)

  sound_illegal :
      (h : List Operation) (timeout : ℕ)
      → p.check_operations kv_model h timeout ≡ CheckResult.illegal
      → ¬ IsLinearizable h
  sound_illegal h timeout e lin =
      p.illegal_sound kv_model h timeout e ((partition-IsLinearizable h).1 lin)

  search_ok :
      (c : List Operation) (timeout elapsed : ℕ)
      → search_within p c timeout elapsed ≡ CheckResult.ok
      → (p.check_operations kv_model (acknowledged c) (timeout / 4) ≡ CheckResult.ok)
        ⊎ ((p.check_operations kv_model c timeout ≡ CheckResult.ok)
            ⊎ (p.check_operations kv_model c (timeout - elapsed) ≡ CheckResult.ok))
  unfolding search_within
  search_ok c timeout elapsed e = ground arith

  search_illegal :
      (c : List Operation) (timeout elapsed : ℕ)
      → search_within p c timeout elapsed ≡ CheckResult.illegal
      → (p.check_operations kv_model c timeout ≡ CheckResult.illegal)
        ⊎ (p.check_operations kv_model c (timeout - elapsed) ≡ CheckResult.illegal)
  unfolding search_within
  search_illegal c timeout elapsed e = ground arith

  not_searched :
      (b : Bool) (r v : CheckResult)
      → (if b then CheckResult.unknown else r) ≡ v
      → v ≢ CheckResult.unknown
      → r ≡ v
  not_searched b r v e d = ground arith

  searched :
      (events : List Event) (timeout elapsed : ℕ) (v : CheckResult)
      → check_http_history_within p events timeout elapsed ≡ ok v
      → v ≢ CheckResult.unknown
      → (h : List Operation) × (http_history events ≡ ok h)
        × (search_within p (constraints h) timeout elapsed ≡ v)
  unfolding check_http_history_within
  searched events timeout elapsed v e d =
      let (h, made, same) = >>=-eq-ok (http_history events) _ e in
      (h, made, not_searched (timeout == 0) _ v (ok-injective same) d)

  -- A positive verdict is about the whole history: also when the search saw only the acknowledged
  -- operations, or all but the reads of unknown outcome, every operation has a place.
  pub verdict_ok :
      (events : List Event) (timeout elapsed : ℕ)
      → check_http_history_within p events timeout elapsed ≡ ok CheckResult.ok
      → (h : List Operation) × (http_history events ≡ ok h) × IsLinearizable h
  verdict_ok events timeout elapsed e =
      let (h, made, found) = searched events timeout elapsed CheckResult.ok e (λ q. cc) in
      let (end, observed) = http_history-IsObserved events made in
      (
        h,
        made,
        elim (search_ok (constraints h) timeout elapsed found) [
          | inl fast ↦ complete_acknowledged end h observed (sound_ok _ _ fast)
          | inr (inl full) ↦ complete_constraints end h observed (sound_ok _ _ full)
          | inr (inr full) ↦ complete_constraints end h observed (sound_ok _ _ full)
        ],
      )

  -- A negative verdict is never due to the operations that were left out.
  pub verdict_illegal :
      (events : List Event) (timeout elapsed : ℕ)
      → check_http_history_within p events timeout elapsed ≡ ok CheckResult.illegal
      → (h : List Operation) × (http_history events ≡ ok h) × (¬ IsLinearizable h)
  verdict_illegal events timeout elapsed e =
      let (h, made, found) = searched events timeout elapsed CheckResult.illegal e (λ q. cc) in
      (
        h,
        made,
        λ lin.
            let kept = IsLinearizable-select (λ op. not (is_unknown_read op)) h (noops h) lin in
            elim (search_illegal (constraints h) timeout elapsed found) [
              | inl full ↦ sound_illegal _ _ full kept
              | inr full ↦ sound_illegal _ _ full kept
            ],
      )
