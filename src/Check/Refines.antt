-- ===== src/Check/Refines.antt =====
-- The state machine of internal/sm/sm.go as the sequential model of internal/check/check.go sees it.
use quorum_log.Prelude.{
  ℕ, ◌+◌, pos, ◌≤◌, All, select, ◌||◌, String, ◌≡◌, ◌≢◌, Bool, true, false, Option, none, some,
  List, [], ◌∷◌, arith, if◌then◌else◌, ◌==◌, string_eq, Bool-cases, Option-cases, inl, inr,
  beq_of_ne, beq_refl, refl, sym, ◌∙◌, ◌&&◌,
}
use mathlib.Core.Bool.{xor}
use mathlib.Core.Path.{subst}
use Prim.Native.String.{◌++◌ as concat}
use quorum_log.Prelude.GoMap
use quorum_log.Prelude.GoMap.{GoMap}
use quorum_log.Check.Linearizable.{Legal, RealTime, Linearizable}
use quorum_log.Check.Parts.{on_key, IsLinearizable}
use quorum_log.Check.Complete.{RealTime-select}
use mathlib.Core.List.Perm
use quorum_log.Sm.{
  init as fresh, get, Sm, Op, Result, cached, execute, apply, op_put, op_append, op_delete,
}
use quorum_log.Sm.Dedup.{is_fresh, Tracks, Tracks-duplicate, Tracks-new, Tracks-init}
use quorum_log.Sm.ExactlyOnce.{apply_new, apply_duplicate}
use quorum_log.Check.{Operation, KvInput, KvOutput, KvState, init, step}

-- What the model sees of a store: one key. A missing key is the zero value of Go's `kvState`.
abbrev pub seen : Option String → KvState
seen none = init
seen (some v) = record { val = v; found = true }

unfoldable pub view : GoMap String String → String → KvState
view kv key = seen (GoMap.get kv key)

-- The invocation that a command is recorded as, and the response to a read.
abbrev pub invocation : Op → KvInput
invocation op = record { op = op.kind; key = op.key; val = op.val }

abbrev pub read_of : String → KvInput
read_of key = record { op = "get"; key = key; val = "" }

abbrev pub answer : Option String → KvOutput
answer none = record { val = ""; found = false; unknown = false }
answer (some v) = record { val = v; found = true; unknown = false }

view-put :
    (kv : GoMap String String) (k j v : String)
    → view (GoMap.put kv k v) j ≡ (if k == j then record { val = v; found = true } else view kv j)
unfolding view
view-put kv k j v = rw (view, GoMap.get-put) (ground arith)

view-delete :
    (kv : GoMap String String) (k j : String)
    → view (GoMap.delete kv k) j ≡ (if k == j then init else view kv j)
unfolding view
view-delete kv k j = rw (view, GoMap.get-delete) (ground arith)

-- The value that an append reads.
view-get_or : (kv : GoMap String String) (k : String) → (view kv k).val ≡ GoMap.get_or kv k ""
unfolding view GoMap.get_or
view-get_or kv k = ground arith

execute_other :
    (kv : GoMap String String) (op : Op) (key : String)
    → op.key ≢ key
    → view (execute kv op).0 key ≡ view kv key
unfolding execute
execute_other kv op key other = ground (
  arith,
  beq_of_ne other,
  view-put kv op.key key op.val,
  view-delete kv op.key key,
  view-put kv op.key key (concat (GoMap.get_or kv op.key "") op.val),
)

-- A command does to its own key what the model's step does, whatever output was recorded.
execute_key :
    (kv : GoMap String String) (op : Op) (out : KvOutput)
    → view (execute kv op).0 op.key ≡ (step (view kv op.key) (invocation op) out).1
unfolding execute step
execute_key kv op out = ground (
  arith,
  beq_refl op.key,
  view-get_or kv op.key,
  view-put kv op.key op.key op.val,
  view-delete kv op.key op.key,
  view-put kv op.key op.key (concat (GoMap.get_or kv op.key "") op.val),
)

unfoldable pub is_command : String → Bool
is_command kind = kind == op_put || (kind == op_append || kind == op_delete)

-- What a client may ask of one state machine: a command, or a read of its local state.
pub data Call : Type 0 where
  write : Op → Call
  read : String → Call

abbrev pub IsCommand : Call → Type 0
IsCommand (write op) = is_command op.kind ≡ true
IsCommand (read key) = Unit

abbrev pub recorded : ℕ → KvInput → KvOutput → Operation
recorded n in_ out = record { client_id = pos 0; input = in_; call = n; output = out; return = n }

-- What the first put, append or delete of a request is to return in a state of its key.
unfoldable pub is_told : KvState → KvInput → KvOutput → Bool
is_told st in_ out =
    if in_.op == op_put
    then out.found && out.val == in_.val
    else if in_.op == op_append
    then out.found && out.val == concat st.val in_.val
    else if in_.op == op_delete
    then out.found && out.val == ""
    else true

-- The model with the results of the writes, which KVModel.Step does not look at.
unfoldable pub exact : KvState → KvInput → KvOutput → Bool × KvState
unfolding is_told
exact st in_ out = (is_told st in_ out && (step st in_ out).0, (step st in_ out).1)

-- The calls made one after the other, after the commands `earlier`, as a history: the n-th takes the
-- instant n. Of the requests of a client, only those with a number greater than all its earlier ones
-- are recorded.
unfoldable pub trace : ℕ → List Op → Sm → List Call → List Operation
trace n earlier s [] = []
trace n earlier s (read key ∷ calls) =
    recorded n (read_of key) (answer (get s key)) ∷ trace (n + 1) earlier s calls
trace n earlier s (write op ∷ calls) =
    let (s', res) = apply s op in
    let rest = trace (n + 1) (op ∷ earlier) s' calls in
    if is_fresh earlier op
    then recorded n (invocation op) (record { val = res.val; found = res.ok; unknown = false })
      ∷ rest
    else rest

answer_accepted :
    (o : Option String) (key : String) → step (seen o) (read_of key) (answer o) ≡ (true, seen o)
unfolding step xor
answer_accepted none key = refl
answer_accepted (some v) key = rw (beq_refl v)

read_step :
    (s : Sm) (k key : String)
    → k ≡ key
    → exact (view s.kv key) (read_of k) (answer (get s k)) ≡ (true, view s.kv key)
unfolding view exact is_told
read_step s k key same = rw (same, answer_accepted (GoMap.get s.kv key) key) refl

-- A command returns what the model expects of it.
write_accepted :
    (kv : GoMap String String) (op : Op)
    → is_command op.kind ≡ true
    → (exact
        (view kv op.key)
        (invocation op)
        (record { val = (execute kv op).1.val; found = (execute kv op).1.ok; unknown = false })).0
      ≡ true
unfolding exact is_told step execute is_command
write_accepted kv op h = elim (Bool-cases (op.kind == op_put)) [
  | inl p ↦ rw (p, beq_refl op.val) refl
  | inr p ↦ elim (Bool-cases (op.kind == op_append)) [
    | inl a ↦
        rw (p, a, view-get_or kv op.key, beq_refl (concat (GoMap.get_or kv op.key "") op.val)) refl
    | inr a ↦ elim (Bool-cases (op.kind == op_delete)) [
      | inl d ↦ rw (p, a, d) refl
      | inr d ↦ ground (arith, h, p, a, d)
    ]
  ]
]

module _ (s : Sm) (op : Op) (new : cached s op ≡ none) where
  write_step :
      (key : String) (out : KvOutput)
      → op.key ≡ key
      → view (apply s op).0.kv key ≡ (step (view s.kv key) (invocation op) out).1
  write_step key out same = rw (apply_new s op new) (
      subst (λ k. view (execute s.kv op).0 k ≡ (step (view s.kv k) (invocation op) out).1) same
        (execute_key s.kv op out))

  write_elsewhere : (key : String) → op.key ≢ key → view (apply s op).0.kv key ≡ view s.kv key
  write_elsewhere key other = rw (apply_new s op new) (execute_other s.kv op key other)

  write_result :
      (key : String)
      → op.key ≡ key
      → is_command op.kind ≡ true
      → (exact
          (view s.kv key)
          (invocation op)
          (record { val = (apply s op).1.val; found = (apply s op).1.ok; unknown = false })).0
        ≡ true
  write_result key same h = rw (apply_new s op new) (
      subst
        (λ k.
          (exact (view s.kv k) (invocation op) (record {
            val = (execute s.kv op).1.val;
            found = (execute s.kv op).1.ok;
            unknown = false;
          })).0
          ≡ true)
        same (write_accepted s.kv op h))

exact_state : (st : KvState) (i : KvInput) (o : KvOutput) → (exact st i o).1 ≡ (step st i o).1
unfolding exact
exact_state st i o = refl

Legal-trace :
    (key : String) (n : ℕ) (earlier : List Op) (s : Sm) (calls : List Call)
    → Tracks s earlier
    → All IsCommand calls
    → Legal exact (view s.kv key) (on_key key (trace n earlier s calls))
unfolding trace select
Legal-trace key n earlier s [] t h = tt
Legal-trace key n earlier s (read k ∷ calls) t h = elim (Bool-cases (k == key)) [
  | inl e ↦ rw e (
      rw (read_step s k key ((string_eq.beq_iff k key).0 e))
        (refl, Legal-trace key (n + 1) earlier s calls t h.1))
  | inr e ↦ rw e (Legal-trace key (n + 1) earlier s calls t h.1)
]
Legal-trace key n earlier s (write op ∷ calls) t h = elim (Option-cases (cached s op)) [
  | inr (r, d) ↦
      let stale : is_fresh earlier op ≡ false = sym (t op) ∙ rw d refl in
      rw stale (
        rw (apply_duplicate s op d)
          (Legal-trace key (n + 1) (op ∷ earlier) s calls (Tracks-duplicate s earlier t op d) h.1))
  | inl d ↦
      let new : is_fresh earlier op ≡ true = sym (t op) ∙ rw d refl in
      let tracks : Tracks (apply s op).0 (op ∷ earlier) =
        subst (λ (x : Sm × Result). Tracks x.0 (op ∷ earlier)) (sym (apply_new s op d))
          (Tracks-new s earlier t op d) in
      let rest = Legal-trace key (n + 1) (op ∷ earlier) (apply s op).0 calls tracks h.1 in
      rw new (elim (Bool-cases (op.key == key)) [
        | inl e ↦
            let same : op.key ≡ key = (string_eq.beq_iff op.key key).0 e in
            rw e (
              write_result s op d key same h.0,
              subst
                  (λ st.
                    Legal exact st (on_key key (trace (n + 1) (op ∷ earlier) (apply s op).0 calls)))
                  (write_step s op d key _ same
                    ∙ sym (exact_state (view s.kv key) (invocation op) _))
                  rest,
            )
        | inr e ↦ rw e (
            subst
              (λ st.
                Legal exact st (on_key key (trace (n + 1) (op ∷ earlier) (apply s op).0 calls)))
              (write_elsewhere s op d key (λ p. cc (e, (string_eq.beq_iff op.key key).1 p))) rest)
      ])
]

trace_later :
    (m n : ℕ) (earlier : List Op) (s : Sm) (calls : List Call)
    → m ≤ n
    → All (λ b. m ≤ b.return) (trace n earlier s calls)
unfolding trace
trace_later m n earlier s [] le = tt
trace_later m n earlier s (read k ∷ calls) le =
    (le, trace_later m (n + 1) earlier s calls (omega arith))
trace_later m n earlier s (write op ∷ calls) le = elim (Bool-cases (is_fresh earlier op)) [
  | inr d ↦ rw d (trace_later m (n + 1) (op ∷ earlier) (apply s op).0 calls (omega arith))
  | inl d ↦ rw d (le, trace_later m (n + 1) (op ∷ earlier) (apply s op).0 calls (omega arith))
]

RealTime-trace :
    (n : ℕ) (earlier : List Op) (s : Sm) (calls : List Call) → RealTime (trace n earlier s calls)
unfolding trace
RealTime-trace n earlier s [] = tt
RealTime-trace n earlier s (read k ∷ calls) =
    (trace_later n (n + 1) earlier s calls (omega arith), RealTime-trace (n + 1) earlier s calls)
RealTime-trace n earlier s (write op ∷ calls) = elim (Bool-cases (is_fresh earlier op)) [
  | inr d ↦ rw d (RealTime-trace (n + 1) (op ∷ earlier) (apply s op).0 calls)
  | inl d ↦ rw d (
    trace_later n (n + 1) (op ∷ earlier) (apply s op).0 calls (omega arith),
    RealTime-trace (n + 1) (op ∷ earlier) (apply s op).0 calls,
  )
]

Legal-exact : (st : KvState) (ops : List Operation) → Legal exact st ops → Legal step st ops
unfolding exact
Legal-exact st [] h = tt
Legal-exact st (op ∷ ops) h =
    (ground (arith, h.0), Legal-exact (step st op.input op.output).1 ops h.1)

trace-exact :
    (calls : List Call)
    → All IsCommand calls
    → (key : String) → Linearizable exact init (on_key key (trace 0 [] fresh calls))
unfolding view
trace-exact calls h key = (
  on_key key (trace 0 [] fresh calls),
  Perm.refl _,
  RealTime-select (λ op. op.input.key == key) (trace 0 [] fresh calls)
      (RealTime-trace 0 [] fresh calls),
  subst (λ st. Legal exact st (on_key key (trace 0 [] fresh calls))) (rw (view, GoMap.get-empty))
      (Legal-trace key 0 [] fresh calls Tracks-init h),
)

-- Puts, appends, deletes and reads that one fresh state machine serves one after the other, recorded
-- without the requests of a named client whose number is not greater than all its earlier ones, are a
-- history that the model accepts; and so does the model that also looks at the result that Apply
-- returned to each recorded write: the written value, the value with the appended text, or nothing.
pub trace-IsLinearizable :
    (calls : List Call)
    → All IsCommand calls
    → IsLinearizable (trace 0 [] fresh calls)
      × ((key : String) → Linearizable exact init (on_key key (trace 0 [] fresh calls)))
trace-IsLinearizable calls h = (
  λ key.
      let (order, same, timed, legal) = trace-exact calls h key in
      (order, same, timed, Legal-exact init order legal),
  trace-exact calls h,
)
