-- ===== src/Check.antt =====
-- internal/check/check.go: the sequential key-value model that histories are checked against.
pub mod Linearizable
pub mod Parts
pub mod Complete
pub mod Http
pub mod Refines
pub mod Recorder
pub mod Greedy
mod Tests
use Prim.Native.String.{◌++◌ as concat}
use quorum_log.Prelude.{
  ℕ, ℤ, String, Bool, true, false, List, [], ◌∷◌, ◌++◌, map, ◌&&◌, if◌then◌else◌, ◌==◌, string_eq,
}
use mathlib.Core.Bool.{xor, not}
use quorum_log.Prelude.GoMap
use quorum_log.Prelude.GoMap.{GoMap}
use quorum_log.Sm.{op_put, op_append, op_delete}

-- KVInput
pub record KvInput : Type 0 where
  pub op : String
  pub key : String
  pub val : String

-- KVOutput
pub record KvOutput : Type 0 where
  pub val : String
  pub found : Bool
  pub unknown : Bool

-- porcupine.Operation, as this code fills it. Times are those of a clock that starts at zero.
pub record Operation : Type 0 where
  pub client_id : ℤ
  pub input : KvInput
  pub call : ℕ
  pub output : KvOutput
  pub return : ℕ

pub record KvState : Type 0 where
  pub val : String
  pub found : Bool

-- KVModel.Init
abbrev pub init : KvState
init = record { val = ""; found = false }

-- `==` on Go's booleans
abbrev pub same_bool : Bool → Bool → Bool
same_bool a b = not (xor a b)

-- KVModel.Step
unfoldable pub step : KvState → KvInput → KvOutput → Bool × KvState
step st in_ out =
    if in_.op == op_put
    then (true, record { val = in_.val; found = true })
    else if in_.op == op_append
    then (true, record { val = concat st.val in_.val; found = true })
    else if in_.op == op_delete
    then (true, init)
    else if in_.op == "get"
    then (if out.unknown
        then (true, st)
        else (same_bool out.found st.found && out.val == st.val, st))
    else (false, st)

-- The loop body of KVModel.Partition.
unfoldable pub add_to_part :
    GoMap String (List Operation) → Operation → GoMap String (List Operation)
add_to_part m op = GoMap.put m op.input.key (GoMap.get_or m op.input.key [] ++ op ∷ [])

unfoldable pub group :
    GoMap String (List Operation) → List Operation → GoMap String (List Operation)
group m [] = m
group m (op ∷ ops) = group (add_to_part m op) ops

-- KVModel.Partition
unfoldable pub partition : List Operation → List (List Operation)
partition history = map (λ e. e.1) (group GoMap.empty history).entries
