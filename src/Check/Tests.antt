-- ===== src/Check/Tests.antt =====
-- The checker's model and the HTTP histories of internal/check on concrete observations.

use quorum_log.Prelude.{
  ℕ, ◌≡◌, pos, String, Bool, true, false, none, some, List, [], ◌∷◌, All, refl, ok, lookup, without,
  string_eq, select, sort_by, insert_by, ◌↔◌, int_eq,
}
use mathlib.Core.Bool.{xor}
use quorum_log.Prelude.GoMap
use quorum_log.Sm
use quorum_log.Sm.{Op}
use quorum_log.Check.Http.{
  Event, valid_at, is_supported, scan_invocation, scan_response, scan_event, scan, settle, finish,
  http_history,
}
use quorum_log.Check.Http.Verdict.{
  is_unknown_read, search_within, check_http_history_within, verdict_ok, verdict_illegal,
}
use quorum_log.Check.Refines.{Call, is_command, exact, trace, trace-IsLinearizable}
use quorum_log.Check.{Operation, step, add_to_part, group, partition, init}
use quorum_log.Check.Linearizable.{Linearizable, CheckResult}
use quorum_log.Check.Parts.{IsLinearizable, on_key, partition-IsLinearizable}
use quorum_log.Check.Greedy.{greedy, in_order, refuted, legal, real_time, all_returned}

program : Unit {0}
unfolding greedy in_order refuted legal real_time all_returned step add_to_part group partition
    valid_at is_supported scan_invocation scan_response scan_event scan settle finish http_history
    is_unknown_read search_within check_http_history_within select sort_by insert_by GoMap.get
    GoMap.put GoMap.delete GoMap.get_or lookup without xor
program = tt

abbrev invoke : String → ℕ → String → String → String → Event
invoke id at op key val = record {
  id = id;
  client_id = pos 1;
  at = pos at;
  input = some (record { op = op; key = key; val = val });
  output = none;
}

abbrev respond : String → ℕ → String → Bool → Bool → Event
respond id at val found unknown = record {
  id = id;
  client_id = pos 1;
  at = pos at;
  input = none;
  output = some (record { val = val; found = found; unknown = unknown });
}

-- A write and a read that saw it, a write whose response is unknown, and a read with no response.
abbrev events : List Event
events =
    respond "r1" 4 "x" true false
    ∷ invoke "w1" 1 "put" "k" "x"
    ∷ respond "w1" 2 "x" true false
    ∷ invoke "r1" 3 "get" "k" ""
    ∷ invoke "w2" 5 "put" "k" "y"
    ∷ respond "w2" 7 "" false true
    ∷ invoke "r2" 6 "get" "k" ""
    ∷ []

-- A read of a value that nobody wrote.
abbrev phantom : List Event
phantom = invoke "r1" 1 "get" "k" "" ∷ respond "r1" 2 "x" true false ∷ []

accepted_events : check_http_history_within greedy events 1000 10 ≡ ok CheckResult.ok
unfolding program
accepted_events = refl

refused_phantom : check_http_history_within greedy phantom 1000 10 ≡ ok CheckResult.illegal
unfolding program
refused_phantom = refl

verdict_ok_example : (h : List Operation) × (http_history events ≡ ok h) × IsLinearizable h
verdict_ok_example = verdict_ok greedy events 1000 10 accepted_events

verdict_illegal_example :
    (h : List Operation) × (http_history phantom ≡ ok h) × (¬ IsLinearizable h)
verdict_illegal_example = verdict_illegal greedy phantom 1000 10 refused_phantom

abbrev observed_phantom : Operation
observed_phantom = record {
  client_id = pos 1;
  input = record { op = "get"; key = "k"; val = "" };
  call = 1;
  output = record { val = "x"; found = true; unknown = false };
  return = 2;
}

made_phantom : http_history phantom ≡ ok (observed_phantom ∷ [])
unfolding program
made_phantom = refl

partition-IsLinearizable_example :
    All (Linearizable step init) (partition (observed_phantom ∷ []))
    ↔ IsLinearizable (observed_phantom ∷ [])
partition-IsLinearizable_example = partition-IsLinearizable (observed_phantom ∷ [])

abbrev command : String → ℕ → Op
command kind n = record { kind = kind; key = "k"; val = "x"; client_id = "a"; req_id = n }

abbrev calls : List Call
calls =
    Call.write (command "append" 1)
    ∷ Call.read "k"
    ∷ Call.write (command "append" 1)
    ∷ Call.write (command "delete" 2)
    ∷ Call.read "k"
    ∷ []

trace-IsLinearizable_example :
    IsLinearizable (trace 0 [] Sm.init calls)
    × ((key : String) → Linearizable exact init (on_key key (trace 0 [] Sm.init calls)))
unfolding is_command
trace-IsLinearizable_example = trace-IsLinearizable calls (refl, (tt, (refl, (refl, (tt, tt)))))
