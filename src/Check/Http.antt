-- ===== src/Check/Http.antt =====
-- internal/check/http_history.go: client-side observations become a history, or are refused.
-- An event's time is a signed 64-bit number; once it has passed the checks it is a number.
mod Inversion
mod Intervals
pub mod Verdict
pub mod Attempts
use Prim.Native.Nat.{max}
use quorum_log.Prelude.{
  ℕ, ◌+◌, ◌-◌, ◌^◌, ℤ, pos, negsuc, ltb_ℤ, int_eq, String, Bool, true, false, not, ◌||◌, Option,
  none, some, List, [], ◌∷◌, ◌++◌, map, ltb, if◌then◌else◌, ◌==◌, nat_eq, string_eq, sort_by,
  Except, ok, err, ◌>>=◌,
}
use quorum_log.Prelude.GoMap
use quorum_log.Prelude.GoMap.{GoMap}
use quorum_log.Sm.{op_put, op_append, op_delete}
use quorum_log.Check.{KvInput, KvOutput, Operation}

-- HTTPEvent
pub record Event : Type 0 where
  pub id : String
  pub client_id : ℤ
  pub at : ℤ
  pub input : Option KvInput
  pub output : Option KvOutput

-- The errors, with the operation id that each names.
pub data HistoryError : Type 0 where
  empty_id : HistoryError
  invalid_timestamp both_sides unsupported incomplete duplicate : String → HistoryError
  neither_side no_invocation client_differs : String → HistoryError

pub record Pending : Type 0 where
  pub client : ℤ
  pub input : KvInput
  pub call : ℕ

-- The variables of the loop: `open` is `opened` here.
pub record Scan : Type 0 where
  pub opened : GoMap String Pending
  pub seen : GoMap String Bool
  pub operations : List Operation
  pub end : ℕ

abbrev pub start : Scan
start = record { opened = GoMap.empty; seen = GoMap.empty; operations = []; end = 0 }

-- math.MaxInt64
abbrev pub max_int64 : ℕ
max_int64 = 2 ^ 63 - 1

-- `event.At < 0 || event.At == math.MaxInt64`
unfoldable pub valid_at : ℤ → Option ℕ
valid_at (pos n) = if n == max_int64 then none else some n
valid_at (negsuc n) = none

-- the `switch event.Input.Op`
unfoldable pub is_supported : String → Bool
is_supported op = op == "get" || (op == op_put || (op == op_append || op == op_delete))

unfoldable pub scan_invocation : Scan → Event → ℕ → KvInput → Except HistoryError Scan
scan_invocation s event at input = elim event.output [
  | some _ ↦ err (both_sides event.id)
  | none ↦
      if not (is_supported input.op)
      then err (unsupported event.id)
      else if input.key == "" || input.op == ""
      then err (incomplete event.id)
      else if GoMap.get_or s.seen event.id false
      then err (duplicate event.id)
      else ok (record s {
        seen = GoMap.put s.seen event.id true;
        opened =
            GoMap.put s.opened event.id
              (record { client = event.client_id; input = input; call = at });
      })
]

unfoldable pub scan_response : Scan → Event → ℕ → Except HistoryError Scan
scan_response s event at = elim event.output [
  | none ↦ err (neither_side event.id)
  | some out ↦ elim (GoMap.get s.opened event.id) [
    | none ↦ err (no_invocation event.id)
    | some p ↦
        if not (event.client_id == p.client)
        then err (client_differs event.id)
        else ok (record s {
          opened = GoMap.delete s.opened event.id;
          operations =
              s.operations
              ++ record {
                client_id = p.client;
                input = p.input;
                call = p.call;
                output = out;
                return = at;
              }
                ∷ [];
        })
  ]
]

-- The loop's body.
unfoldable pub scan_event : Scan → Event → Except HistoryError Scan
scan_event s event = elim (valid_at event.at) [
  | none ↦ err (invalid_timestamp event.id)
  | some at ↦
      if event.id == ""
      then err empty_id
      else (let s' = record s { end = max s.end at } in
          elim event.input [
            | some input ↦ scan_invocation s' event at input
            | none ↦ scan_response s' event at
          ])
]

unfoldable pub scan : Scan → List Event → Except HistoryError Scan
scan s [] = ok s
scan s (event ∷ events) = do s' ← scan_event s event; scan s' events

-- An operation that is still open is closed with an unknown outcome.
abbrev pub close : ℕ → Pending → Operation
close end p = record {
  client_id = p.client;
  input = p.input;
  call = p.call;
  output = record { val = ""; found = false; unknown = true };
  return = end + 1;
}

-- An unknown outcome keeps the interval of the operation open.
unfoldable pub settle : ℕ → Operation → Operation
settle end op = if op.output.unknown then record op { return = end + 1 } else op

-- What follows the loop: closing, settling and the last sort.
unfoldable pub finish : Scan → List Operation
finish s =
    let closed = map (λ e. close s.end e.1) s.opened.entries in
    sort_by (λ a b. ltb a.call b.call) (map (settle s.end) (s.operations ++ closed))

-- HTTPHistory
unfoldable pub http_history : List Event → Except HistoryError (List Operation)
http_history events = do s ← scan start (sort_by (λ a b. ltb_ℤ a.at b.at) events); ok (finish s)
