-- ===== src/Multihost/Traffic.antt =====
-- The workload of internal/multihost/traffic.go. What an iteration of a worker does before its request
-- and what it does after are two functions, since other workers run in between.
pub mod Verified
use Prim.Native.String.{◌++◌ as concat, len}
use quorum_log.Prelude.{
  ℕ, zero, suc, ◌+◌, ◌*◌, ◌-◌, ◌≤◌, ℤ, pos, negsuc, sub_ℕ, ltb_ℤ, String, Bool, true, false, not,
  ◌&&◌, ◌||◌, Option, none, some, List, [], ◌∷◌, ◌++◌, map, length, leb, if◌then◌else◌, ◌==◌,
  string_eq,
}
use quorum_log.Prelude.Decimal.{decimal}
use quorum_log.Multihost.{Floats, Inventory, Host}
use quorum_log.Multihost.Hosts.{raft_url}
use quorum_log.Multihost.History.{
  OpRecord, Recorder, add, AckedWrites, acknowledge, all_acked, sample, status_ok,
  status_indeterminate,
}
use quorum_log.Multihost.Client.{Web, OpError, transport, http_status, Outcome, Trip, PutBody, get}

-- Endpoints
abbrev pub endpoints : List Host → List String
endpoints [] = []
endpoints (h ∷ hosts) = raft_url h ∷ endpoints hosts

-- Workload, without the inventory; `lost` is only counted.
pub record Workload : Type 0 where
  pub rec : Recorder
  pub acked : AckedWrites
  pub completed : ℕ
  pub writes : ℕ
  pub reads : ℕ
  pub lost : ℕ
  pub finished : Bool

-- What a worker is about to send.
pub data Job : Type 0 where
  read_job : String → Job
  write_job : (req_id : ℕ) → (key value : String) → Job

abbrev zeros : ℕ → String → String
zeros zero s = s
zeros (suc n) s = concat "0" (zeros n s)

-- `%06d`
unfoldable pub six_digits : ℕ → String
six_digits n = zeros (6 - len (decimal n)) (decimal n)

-- `target * 4`
abbrev pub hard_cap : ℤ → ℤ
hard_cap (pos n) = pos (n * 4)
hard_cap (negsuc n) = negsuc (n * 4 + 3)

-- The tests at the start of an iteration: whether the worker ends.
unfoldable pub is_over : Bool → Bool → ℤ → ℕ → Bool
is_over cancelled faults_done target completed =
    cancelled
    || not (ltb_ℤ (pos completed) (hard_cap target))
    || (not (ltb_ℤ (pos completed) target) && faults_done)

abbrev write_of : ℕ → ℕ → Job
write_of worker req_id =
    write_job req_id (concat "mh-w" (concat (decimal worker) (concat "-" (six_digits req_id))))
      (concat "v-w" (concat (decimal worker) (concat "-" (six_digits req_id))))

-- The choice of an operation, for the drawn number of Sample and the last request number.
unfoldable pub choose_job : AckedWrites → Bool → ℕ → ℕ → ℕ → Job
unfolding six_digits
choose_job acked read_now drawn worker req_id =
    if read_now && not (sample acked drawn == "")
    then read_job (sample acked drawn)
    else write_of worker (req_id + 1)

-- `fmt.Sprintf("qlmultihost-w%d", worker)`
abbrev pub session_of : ℕ → String
session_of worker = concat "qlmultihost-w" (decimal worker)

-- err.Error(); the text of a library error is that of the parameter.
abbrev pub error_text : {Error : Type 0} → (Error → String) → Option (OpError Error) → String
error_text text none = ""
error_text text (some (transport e)) = text e
error_text text (some (http_status n)) = concat "http " (decimal n)

module _ {Error : Type 0} (text : Error → String) where
  -- The entry that record and VerifyAcked write about an operation.
  unfoldable pub record_of :
      ℤ → String → String → String → String → ℕ → ℕ → ℕ → Outcome Error → String → OpRecord
  record_of client session op key value req_id call return out phase = record {
    index = 0;
    client_id = client;
    client_session = session;
    req_id = req_id;
    op = op;
    key = key;
    value = value;
    call_nanos = call;
    return_nanos = return;
    status = if out.ok then status_ok else status_indeterminate;
    http_code = out.code;
    attempts = out.attempts;
    redirects = out.redirects;
    endpoint = out.endpoint;
    observed_val = out.val;
    observed_found = out.found;
    error = if out.ok then "" else error_text text out.error;
    phase = phase;
  }

  -- The end of an iteration, with the time before and after the request.
  unfoldable pub finish_job : Workload → ℕ → Job → ℕ → ℕ → Outcome Error → Workload
  unfolding record_of
  finish_job w worker (read_job key) call return out = record w {
    rec = add w.rec (record_of (pos worker) (session_of worker) "get" key "" 0 call return out "");
    reads = w.reads + 1;
    completed = w.completed + 1;
  }
  finish_job w worker (write_job req_id key value) call return out = record w {
    rec =
        add w.rec
          (record_of (pos worker) (session_of worker) "put" key value req_id call return out "");
    acked = if out.ok then acknowledge w.acked key value else w.acked;
    writes = w.writes + 1;
    completed = w.completed + 1;
  }

-- Mismatch
pub record Mismatch : Type 0 where
  pub key : String
  pub expected : String
  pub observed_val : String
  pub observed_found : Bool
  pub status : String
  pub http_code : ℕ
  pub error : String

module _ {Error : Type 0} (text : Error → String) where
  -- The mismatches that the read of a write adds.
  unfoldable pub mismatch_of : String × String → Outcome Error → List Mismatch
  mismatch_of (key, value) out =
      if not out.ok
      then record {
        key = key;
        expected = value;
        observed_val = "";
        observed_found = false;
        status = status_indeterminate;
        http_code = out.code;
        error = error_text text out.error;
      }
        ∷ []
      else if not out.found || not (out.val == value)
      then record {
        key = key;
        expected = value;
        observed_val = out.val;
        observed_found = out.found;
        status = status_ok;
        http_code = out.code;
        error = "";
      }
        ∷ []
      else []

module _ (web : Web) where
  -- The variables of VerifyAcked: the workload, the client's leader and the rest of the world.
  pub record Verifying : Type 0 where
    pub work : Workload
    pub world : web.State
    pub leader : String
    pub mismatches : List Mismatch

module _ {web : Web} where
  -- A read with the times before and after it.
  unfoldable pub timed_get : List String → web.State → String → String → Trip web × ℕ × ℕ
  timed_get endpoints world leader key =
      let (world₁, call) = web.now world in
      let t = get web endpoints world₁ leader key in
      let (world₂, return) = web.now t.world in (record t { world = world₂ }, call, return)

  -- The body of the loop of VerifyAcked.
  unfoldable pub verify_one :
      (web.Error → String)
      → ℤ
      → String
      → List String
      → Verifying web
      → String × String
      → Verifying web
  unfolding timed_get mismatch_of
  verify_one text verifier phase endpoints v (key, value) =
      let (t, call, return) = timed_get endpoints v.world v.leader key in
      let rec =
        add v.work.rec
          (record_of text verifier "qlmultihost-verify" "get" key "" 0 call return t.out phase) in
      record {
        work = record v.work {
          rec = rec;
          lost =
              if t.out.ok && (not t.out.found || not (t.out.val == value))
              then v.work.lost + 1
              else v.work.lost;
        };
        world = t.world;
        leader = t.leader;
        mismatches = v.mismatches ++ mismatch_of text (key, value) t.out;
      }

  -- The loop of VerifyAcked, and whether the context ended it.
  unfoldable pub verify_all :
      (web.Error → String)
      → ℤ
      → String
      → List String
      → Verifying web
      → List (String × String)
      → Verifying web × Bool
  unfolding verify_one
  verify_all text verifier phase endpoints v [] = (v, false)
  verify_all text verifier phase endpoints v (kv ∷ more) =
      let rest =
        verify_all text verifier phase endpoints (verify_one text verifier phase endpoints v kv)
          more in
      if web.cancelled v.world then (v, true) else rest

module _ (web : Web) {fl : Floats} where
  -- VerifyAcked: the mismatches and the workload, the number of writes, and whether it was cancelled
  unfoldable pub verify_acked :
      (web.Error → String) → Inventory fl → Workload → web.State → String → Verifying web × ℕ × Bool
  unfolding verify_all
  verify_acked text inv w world phase =
      let acked = all_acked w.acked in
      let (v, cancelled) =
        verify_all text inv.client.concurrency phase (endpoints inv.hosts)
          (record { work = w; world = world; leader = ""; mismatches = [] }) acked in
      (v, length acked, cancelled)
