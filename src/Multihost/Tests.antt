-- ===== src/Multihost/Tests.antt =====
-- The theorems about internal/multihost at concrete inputs.
use Prim.Native.String.{◌++◌ as concat}
use quorum_log.Prelude.{
  ℕ, ◌+◌, ◌≤◌, ◌≡◌, refl, ℤ, pos, ltb_ℤ, String, Bool, true, false, none, some, List, [], ◌∷◌, All,
  ok, if◌then◌else◌, ◌==◌, string_eq, nat_eq, ◌≢◌, arith, ltb, suc, zero, sym, subst, inl,
}
use quorum_log.Chaos.Address.{Net}
use quorum_log.Multihost.{Floats, Host, Inventory, mode_local_dry_run}
use quorum_log.Multihost.Hosts.{has_code, validate, contains_any, join_host_port}
use quorum_log.Prelude.Decimal.{decimal}
use quorum_log.Multihost.Hosts.Valid.{IsValid, validate-IsValid}
use quorum_log.Multihost.Exec.{shell_quote}
use quorum_log.Multihost.Exec.Quoting.{read_word, bare, in_front, read_word-shell_quote}
use quorum_log.Multihost.Client.{Web, Request, put_request, get_request, Response, PutBody, put}
use quorum_log.Multihost.Client.Reaches.{Serves, IsListed, path, put-succeeds}
use quorum_log.Prelude.{lookup, without}
use quorum_log.Prelude.GoMap
use quorum_log.Multihost.Client.{
  get, attempts, get_turn, attempt, base, send, get_answer, unreachable,
}
use quorum_log.Multihost.Traffic.{
  Workload, timed_get, verify_one, verify_all, verify_acked, mismatch_of,
}
use quorum_log.Multihost.Traffic.Verified.{ReadBack, verify_acked-ReadBack}
use quorum_log.Multihost.History.{OpRecord, new_recorder, all_acked, phase_verify}
use quorum_log.Multihost.Measure.{measure_outage, find_gap, narrow, outage_of}
use quorum_log.Multihost.Measure.Outages.{IsGap, measure_outage-IsGap}
use quorum_log.Multihost.Preflight.{HostFacts}
use quorum_log.Multihost.Preflight.Evaluate.{
  see_values, shared_values, check_field, reasons_against, evaluate_distinct,
}
use quorum_log.Multihost.Preflight.Distinct.{AreDistinct, evaluate_distinct-AreDistinct}

-- Whole numbers in the place of float64
abbrev whole : Floats
whole = record { Float = ℤ; of_int = λ n. n; less = ltb_ℤ; divide = λ a b. a }

abbrev loopback : Net
loopback = record {
  Ip = ℕ;
  split_host_port = λ addr. none;
  parse_ip = λ host. if host == "127.0.0.1" then some 127 else none;
  is_loopback = λ ip. ip == 127;
}

abbrev node : ℕ → String → Host
node id name = record {
  id = id;
  name = name;
  ssh = "";
  advertise = "127.0.0.1";
  raft_port = pos (9000 + id);
  chaos_port = pos (9100 + id);
  data_dir = "/tmp/ql";
  goos = "";
  goarch = "";
}

abbrev three_nodes : List Host
three_nodes = node 1 "a" ∷ node 2 "b" ∷ node 3 "c" ∷ []

abbrev dry_run : Inventory whole
dry_run = record {
  mode = mode_local_dry_run;
  hosts = three_nodes;
  client = record { ops = pos 1000; read_fraction = pos 0; concurrency = pos 4; seed = pos 1 };
  faults = record {
    kill_leader_at_op = pos 2;
    isolate_follower_at_op = pos 4;
    isolate_leader_at_op = pos 6;
    restore_at_op = pos 8;
    restart_all_after = true;
  };
}

validate-IsValid_example : IsValid loopback dry_run
unfolding validate GoMap.get_or GoMap.get lookup contains_any GoMap.put without join_host_port
    decimal
validate-IsValid_example = (validate-IsValid loopback dry_run).0 refl

read_word-shell_quote_example :
    read_word bare (concat (shell_quote "it's") " on") ≡ in_front "it's" (read_word bare " on")
read_word-shell_quote_example = read_word-shell_quote "it's" " on"

-- The node http://a leads, and http://b redirects to it.
abbrev reply : Request → Response (String × Bool)
reply (put_request url body) =
    if url == "http://a/kv/k"
    then record { code = 200; location = ""; body = ("", false) }
    else if url == "http://b/kv/k"
    then record { code = 307; location = "http://a/kv/k"; body = ("", false) }
    else record { code = 404; location = ""; body = ("", false) }
reply (get_request url) = record { code = 200; location = ""; body = ("v", true) }

abbrev led_by_a : Web
led_by_a = record {
  State = ℕ;
  Error = String;
  Body = String × Bool;
  new_request = λ url. if has_code b':' url then none else some "no scheme";
  exchange = λ st request. (st + 1, ok (reply request));
  decode = λ body. ok body;
  cancelled = λ st. false;
  sleep = λ st. st + 1;
  now = λ st. (st + 1, st);
  intn = λ st n. (st + 1, if ltb 1 n then 1 else 0);
}

abbrev body : PutBody
body = record { value = "v"; client_id = "c"; req_id = 1 }

abbrev nodes : List String
nodes = "http://a" ∷ "http://b" ∷ []

parsed : (url : String) → IsListed nodes url → led_by_a.new_request (path url "k") ≡ none
parsed url (zero, room, e) = subst (λ u. led_by_a.new_request (path u "k") ≡ none) e refl
parsed url (suc zero, room, e) = subst (λ u. led_by_a.new_request (path u "k") ≡ none) e refl
parsed url (suc (suc n), room, e) = absurd (omega (arith, room))

redirected :
    (url : String)
    → IsListed nodes url
    → url ≢ "http://a"
    → ((reply (put_request (path url "k") body)).code ≡ 307)
      × ((reply (put_request (path url "k") body)).location ≡ "http://a/kv/k")
redirected url (zero, room, e) other = absurd (other (sym e))
redirected url (suc zero, room, e) other =
    subst
      (λ u.
        ((reply (put_request (path u "k") body)).code ≡ 307)
        × ((reply (put_request (path u "k") body)).location ≡ "http://a/kv/k"))
      e (refl, refl)
redirected url (suc (suc n), room, e) other = absurd (omega (arith, room))

served : Serves led_by_a nodes "a" "k" body
served = record {
  unslashed = refl;
  named = λ e. cc e;
  unlike = λ e. cc e;
  listed = (0, omega arith, refl);
  picks = λ world n some_node. ground (arith, some_node);
  parses = parsed;
  calm = λ world. refl;
  answers = λ world. (reply (put_request "http://a/kv/k" body), refl, refl);
  redirects = λ world url listed other.
      let (code, at) = redirected url listed other in
      (reply (put_request (path url "k") body), refl, code, inl at);
}

put-succeeds_example :
    ((put led_by_a nodes 0 "" "k" body).out.ok ≡ true)
    × ((put led_by_a nodes 0 "" "k" body).out.attempts ≤ 2)
put-succeeds_example = put-succeeds led_by_a nodes 0 "a" "k" body served

-- A write before the event, a read, and a write behind it.
abbrev write : ℕ → String → OpRecord
write return status = record {
  index = 0;
  client_id = pos 1;
  client_session = "s";
  req_id = 1;
  op = "put";
  key = "k";
  value = "v";
  call_nanos = 0;
  return_nanos = return;
  status = status;
  http_code = 200;
  attempts = 1;
  redirects = 0;
  endpoint = "http://a";
  observed_val = "v";
  observed_found = true;
  error = "";
  phase = "traffic";
}

abbrev writes : List OpRecord
writes = write 5 "ok" ∷ write 12 "indeterminate" ∷ write 20 "ok" ∷ []

measure_outage-IsGap_example :
    IsGap whole writes "kill_leader" 10 (measure_outage whole writes "kill_leader" 10)
unfolding measure_outage find_gap outage_of narrow
measure_outage-IsGap_example = (measure_outage-IsGap whole writes "kill_leader" 10).0 refl

abbrev facts_of : ℕ → String → HostFacts String
facts_of id name = record {
  id = id;
  configured_name = name;
  target = name;
  executor = "ssh";
  hostname = name;
  os_kind = "Linux";
  kernel = "Linux";
  machine_id = concat "m-" name;
  machine_id_source = "";
  boot_id = concat "b-" name;
  boot_id_source = "";
  primary_address = "";
  advertise = "";
  raft_port = pos 1;
  chaos_port = pos 2;
  data_dir = "";
  data_device = "";
  data_mount_point = "";
  build_target = "";
  problems = [];
}

abbrev three_machines : List (HostFacts String)
three_machines = facts_of 1 "a" ∷ facts_of 2 "b" ∷ facts_of 3 "c" ∷ []

evaluate_distinct-AreDistinct_example : AreDistinct three_machines
unfolding evaluate_distinct reasons_against check_field see_values shared_values GoMap.get GoMap.put
    GoMap.get_or lookup without
evaluate_distinct-AreDistinct_example = (evaluate_distinct-AreDistinct three_machines).0 refl

abbrev acked_one : Workload
acked_one = record {
  rec = new_recorder;
  acked = record { values = record { entries = ("k", "v") ∷ [] }; order = "k" ∷ [] };
  completed = 1;
  writes = 1;
  reads = 0;
  lost = 0;
  finished = true;
}

verify_acked-ReadBack_example : All (ReadBack led_by_a) (all_acked acked_one.acked)
unfolding verify_acked verify_all verify_one timed_get mismatch_of get attempts get_turn attempt
    base send get_answer unreachable all_acked GoMap.get_or GoMap.get lookup join_host_port decimal
verify_acked-ReadBack_example =
    verify_acked-ReadBack led_by_a (λ e. e) dry_run acked_one 0 phase_verify refl refl
