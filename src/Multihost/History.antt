-- ===== src/Multihost/History.antt =====
-- internal/multihost/history.go: the operations that the driver records, the history of a run, and the
-- writes that were acknowledged. What the clock of the driver says is an argument.
use quorum_log.Prelude.{
  ℕ, zero, suc, ◌+◌, ◌%◌, ℤ, String, Bool, true, false, not, Option, none, some, List, [], ◌∷◌,
  ◌++◌, map, length, sort_by, ltb, leb, if◌then◌else◌, ◌==◌, nat_eq, string_eq,
}
use quorum_log.Prelude.GoMap
use quorum_log.Prelude.GoMap.{GoMap}
use quorum_log.Sm.{op_put}
use quorum_log.Check.{KvOutput, Operation}

abbrev pub status_ok : String
status_ok = "ok"

abbrev pub status_indeterminate : String
status_indeterminate = "indeterminate"

abbrev pub phase_traffic : String
phase_traffic = "traffic"

abbrev pub phase_verify : String
phase_verify = "post-restart-verify"

-- OpRecord
pub record OpRecord : Type 0 where
  pub index : ℕ
  pub client_id : ℤ
  pub client_session : String
  pub req_id : ℕ
  pub op : String
  pub key : String
  pub value : String
  pub call_nanos : ℕ
  pub return_nanos : ℕ
  pub status : String
  pub http_code : ℕ
  pub attempts : ℕ
  pub redirects : ℕ
  pub endpoint : String
  pub observed_val : String
  pub observed_found : Bool
  pub error : String
  pub phase : String

-- Recorder
pub record Recorder : Type 0 where
  pub ops : List OpRecord
  pub next : ℕ
  pub phase : String

-- NewRecorder
abbrev pub new_recorder : Recorder
new_recorder = record { ops = []; next = 0; phase = phase_traffic }

-- SetPhase
abbrev pub set_phase : Recorder → String → Recorder
set_phase r phase = record r { phase = phase }

-- Add
unfoldable pub add : Recorder → OpRecord → Recorder
add r op = record r {
  next = r.next + 1;
  ops =
      r.ops
      ++ record op { index = r.next; phase = if op.phase == "" then r.phase else op.phase } ∷ [];
}

-- The order of Ops.
abbrev pub earlier : OpRecord → OpRecord → Bool
earlier a b =
    if not (a.call_nanos == b.call_nanos)
    then ltb a.call_nanos b.call_nanos
    else ltb a.index b.index

-- Ops
unfoldable pub ops : Recorder → List OpRecord
ops r = sort_by earlier r.ops

abbrev pub is_get : OpRecord → Bool
is_get op = op.op == "get"

abbrev pub is_ok : OpRecord → Bool
is_ok op = op.status == status_ok

-- History, without the texts that only describe the run
pub record History : Type 0 where
  pub ops : List OpRecord
  pub writes : ℕ
  pub reads : ℕ
  pub indeterminate_writes : ℕ
  pub indeterminate_reads : ℕ

-- The body of the loop of History.
unfoldable pub count_op : History → OpRecord → History
count_op h op =
    if is_get op
    then record h {
      reads = h.reads + 1;
      indeterminate_reads =
          if not (is_ok op) then h.indeterminate_reads + 1 else h.indeterminate_reads;
    }
    else record h {
      writes = h.writes + 1;
      indeterminate_writes =
          if not (is_ok op) then h.indeterminate_writes + 1 else h.indeterminate_writes;
    }

unfoldable pub count_ops : History → List OpRecord → History
unfolding count_op
count_ops h [] = h
count_ops h (op ∷ more) = count_ops (count_op h op) more

-- Recorder.History
unfoldable pub history : Recorder → History
unfolding ops count_ops
history r =
    count_ops
      (record {
        ops = ops r;
        writes = 0;
        reads = 0;
        indeterminate_writes = 0;
        indeterminate_reads = 0;
      })
      (ops r)

-- The first loop of PorcupineOps, and the one of lastReturnNanos.
unfoldable pub last_return : ℕ → List OpRecord → ℕ
last_return last [] = last
last_return last (op ∷ more) =
    last_return (if ltb last op.return_nanos then op.return_nanos else last) more

-- What the client learned of an operation.
abbrev pub output_of : OpRecord → KvOutput
output_of op =
    if is_ok op
    then (if not (is_get op)
        then record { val = op.value; found = true; unknown = false }
        else record { val = op.observed_val; found = op.observed_found; unknown = false })
    else record { val = ""; found = false; unknown = true }

-- `if pop.Return <= pop.Call { pop.Return = pop.Call + 1 }`
abbrev pub after_call : Operation → Operation
after_call op = if leb op.return op.call then record op { return = op.call + 1 } else op

-- The body of the second loop of PorcupineOps.
unfoldable pub porcupine_op : ℕ → OpRecord → Operation
porcupine_op end op = after_call (record {
  client_id = op.client_id;
  input = record { op = if is_get op then "get" else op_put; key = op.key; val = op.value };
  call = op.call_nanos;
  output = output_of op;
  return = if is_ok op then op.return_nanos else end;
})

-- PorcupineOps
unfoldable pub porcupine_ops : History → List Operation
unfolding porcupine_op last_return
porcupine_ops h = map (porcupine_op (last_return 0 h.ops + 1)) h.ops

-- AckedWrites
pub record AckedWrites : Type 0 where
  pub values : GoMap String String
  pub order : List String

-- NewAckedWrites
abbrev pub new_acked_writes : AckedWrites
new_acked_writes = record { values = GoMap.empty; order = [] }

abbrev is_seen : Option String → Bool
is_seen none = false
is_seen (some _) = true

-- Record
unfoldable pub acknowledge : AckedWrites → String → String → AckedWrites
acknowledge a key value = record {
  values = GoMap.put a.values key value;
  order = if is_seen (GoMap.get a.values key) then a.order else a.order ++ key ∷ [];
}

-- Len
abbrev pub acked_len : AckedWrites → ℕ
acked_len a = length a.order

-- All
unfoldable pub all_acked : AckedWrites → List (String × String)
all_acked a = map (λ k. (k, GoMap.get_or a.values k "")) a.order

abbrev pub nth_text : List String → ℕ → String
nth_text [] n = ""
nth_text (x ∷ xs) zero = x
nth_text (x ∷ xs) (suc n) = nth_text xs n

-- Sample, for the numbers that Int draws, which are not negative
unfoldable pub sample : AckedWrites → ℕ → String
sample a n = if length a.order == 0 then "" else nth_text a.order (n % length a.order)
