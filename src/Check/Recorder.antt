-- ===== src/Check/Recorder.antt =====
-- The Recorder of internal/check/check.go. What its clock says at a call is an argument.
pub mod Histories
mod Tests
use quorum_log.Prelude.{
  ℕ, zero, ◌+◌, ◌≤◌, ◌<◌, ◌≡◌, refl, ap, ◌∙◌, ℤ, true, false, Option, none, some, List, [], ◌∷◌,
  ◌++◌, map, length, length-append, All, All-append, All-weaken, All-map, arith, nat_eq, ◌==◌,
  Option-cases, Bool-cases, inl, inr,
}
use native.Mathlib.Nat.{le_trans}
use quorum_log.Prelude.GoMap
use quorum_log.Prelude.GoMap.{
  GoMap, IsMap, IsMap-put, IsMap-delete, size-put_new, size-delete, All-put, All-delete, All-get,
}
use quorum_log.Check.{KvInput, KvOutput, Operation}

-- An operation that has not returned.
pub record Started : Type 0 where
  pub client_id : ℤ
  pub input : KvInput
  pub call : ℕ

pub record Recorder : Type 0 where
  pub next : ℕ
  pub ops : GoMap ℕ Started
  pub done : List Operation

-- NewRecorder
abbrev pub new_recorder : Recorder
new_recorder = record { next = 0; ops = GoMap.empty; done = [] }

-- Invoke: the recorder and the handle.
unfoldable pub invoke : Recorder → ℤ → KvInput → ℕ → Recorder × ℕ
invoke r client_id input now = (
  record r {
    next = r.next + 1;
    ops = GoMap.put r.ops r.next (record { client_id = client_id; input = input; call = now });
  },
  r.next,
)

-- An operation with its outcome and its return time.
abbrev pub closed : Started → KvOutput → ℕ → Operation
closed op output now = record {
  client_id = op.client_id;
  input = op.input;
  call = op.call;
  output = output;
  return = now;
}

-- Return
unfoldable pub return_ : Recorder → ℕ → KvOutput → ℕ → Recorder
return_ r id output now = elim (GoMap.get r.ops id) [
  | none ↦ r
  | some op ↦ record r { ops = GoMap.delete r.ops id; done = r.done ++ closed op output now ∷ [] }
]

-- An operation that never returned, at the end of the history.
abbrev pub abandoned : ℕ → ℕ × Started → Operation
abandoned now (_, op) = closed op (record { val = ""; found = false; unknown = true }) (now + 1)

-- History
unfoldable pub history : Recorder → ℕ → List Operation
history r now = r.done ++ map (abandoned now) r.ops.entries

-- A call of the recorder, with the time of the clock.
pub data Recording : Type 0 where
  invoked : ℤ → KvInput → ℕ → Recording
  returned : ℕ → KvOutput → ℕ → Recording

unfoldable pub record_all : Recorder → List Recording → Recorder
record_all r [] = r
record_all r (invoked client_id input now ∷ calls) =
    record_all (invoke r client_id input now).0 calls
record_all r (returned id output now ∷ calls) = record_all (return_ r id output now) calls

unfoldable pub invocations : List Recording → ℕ
invocations [] = 0
invocations (invoked _ _ _ ∷ calls) = invocations calls + 1
invocations (returned _ _ _ ∷ calls) = invocations calls
