-- ===== src/Sm.antt =====
-- internal/sm/sm.go: the replicated key-value state machine with client sessions.
pub mod ExactlyOnce
pub mod Dedup
pub mod Persist
pub mod Digest
pub mod Toy
mod Tests
use quorum_log.Prelude.{
  ℕ, String, Bool, true, false, Option, none, some, List, [], ◌∷◌, leb, if◌then◌else◌, ◌==◌,
  string_eq,
}
use quorum_log.Prelude.GoMap
use quorum_log.Prelude.GoMap.{GoMap}
use Prim.Native.String.{◌++◌ as concat}

-- OpPut, OpAppend, OpDelete
abbrev pub op_put : String
op_put = "put"

abbrev pub op_append : String
op_append = "append"

abbrev pub op_delete : String
op_delete = "delete"

pub record Op : Type 0 where
  pub kind : String
  pub key : String
  pub val : String
  pub client_id : String
  pub req_id : ℕ

pub record Result : Type 0 where
  pub val : String
  pub ok : Bool

pub record Session : Type 0 where
  pub last_req : ℕ
  pub last_res : Result

pub record Sm : Type 0 where
  pub kv : GoMap String String
  pub sessions : GoMap String Session

-- New
abbrev pub init : Sm
init = record { kv = GoMap.empty; sessions = GoMap.empty }

-- The duplicate test at the top of `Apply`: the cached result, if the request is a duplicate.
unfoldable pub cached : Sm → Op → Option Result
cached s op = if op.client_id == "" then none else elim (GoMap.get s.sessions op.client_id) [
  | none ↦ none
  | some sess ↦ if leb op.req_id sess.last_req then some sess.last_res else none
]

-- The `switch op.Type` of `Apply`.
unfoldable pub execute : GoMap String String → Op → GoMap String String × Result
execute kv op =
    if op.kind == op_put
    then (GoMap.put kv op.key op.val, record { val = op.val; ok = true })
    else if op.kind == op_append
    then (let v = concat (GoMap.get_or kv op.key "") op.val in
        (GoMap.put kv op.key v, record { val = v; ok = true }))
    else if op.kind == op_delete
    then (GoMap.delete kv op.key, record { val = ""; ok = true })
    else (kv, record { val = ""; ok = false })

-- The session update at the end of `Apply`.
unfoldable pub remember : GoMap String Session → Op → Result → GoMap String Session
remember sessions op res =
    if op.client_id == ""
    then sessions
    else GoMap.put sessions op.client_id (record { last_req = op.req_id; last_res = res })

unfoldable pub apply : Sm → Op → Sm × Result
apply s op = elim (cached s op) [
  | some res ↦ (s, res)
  | none ↦
      let (kv, res) = execute s.kv op in
      (record { kv = kv; sessions = remember s.sessions op res }, res)
]

-- Get
abbrev pub get : Sm → String → Option String
get s key = GoMap.get s.kv key

-- Len
abbrev pub len : Sm → ℕ
len s = GoMap.size s.kv

-- A log of commands, applied in order from a state.
unfoldable pub run : Sm → List Op → Sm
run s [] = s
run s (op ∷ ops) = run (apply s op).0 ops
