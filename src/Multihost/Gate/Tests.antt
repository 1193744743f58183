-- ===== src/Multihost/Gate/Tests.antt =====
-- A run of internal/multihost/run.go that passes, with its verdict.
use quorum_log.Prelude.{
  ℕ, ◌+◌, ◌≤◌, ◌≡◌, refl, ℤ, pos, ltb_ℤ, String, true, none, some, [], ◌∷◌, ok, if◌then◌else◌, ◌==◌,
  string_eq, lookup, without,
}
use quorum_log.Prelude.GoMap
use quorum_log.Prelude.Text.{trim_space}
use quorum_log.Check.{partition, group, add_to_part, step}
use mathlib.Core.Bool.{xor}
use quorum_log.Check.Parts.{IsLinearizable}
use quorum_log.Check.Greedy.{greedy}
use quorum_log.Multihost.{Floats, Host, Inventory, mode_multi_host}
use quorum_log.Multihost.Exec.{Executor}
use quorum_log.Multihost.History.{OpRecord, History, porcupine_ops}
use quorum_log.Multihost.Preflight.{Machine, fingerprint}
use quorum_log.Multihost.Preflight.Collect.{collect_all}
use quorum_log.Multihost.Preflight.Report.{preflight}
use quorum_log.Multihost.Preflight.Distinct.{AreDistinct}
use quorum_log.Multihost.Gate.{FaultReport, judge}
use quorum_log.Multihost.Gate.Passed.{IsMeasured, IsLossless, judge_passed}

abbrev whole : Floats
whole = record { Float = ℤ; of_int = λ n. n; less = ltb_ℤ; divide = λ a b. a }

-- Every command answers with the host's name, but the system is Linux.
abbrev echo : Executor
echo = record {
  State = ℕ;
  Error = String;
  kind = "ssh";
  run = λ st h script. (st + 1, ok (if script == "uname -s" then "Linux" else h.name));
  copy = λ st h a b. (st + 1, ok tt);
}

abbrev machine : Machine
machine = record {
  goos = "linux";
  goarch = "amd64";
  sha = λ s. s;
  abs = λ s. none;
  rel = λ a b. none;
}

abbrev node : ℕ → String → Host
node id name = record {
  id = id;
  name = name;
  ssh = name;
  advertise = name;
  raft_port = pos 9000;
  chaos_port = pos 9100;
  data_dir = "/var/ql";
  goos = "";
  goarch = "";
}

abbrev inventory : Inventory whole
inventory = record {
  mode = mode_multi_host;
  hosts = node 1 "a" ∷ node 2 "b" ∷ node 3 "c" ∷ [];
  client = record { ops = pos 1000; read_fraction = pos 0; concurrency = pos 4; seed = pos 1 };
  faults = record {
    kill_leader_at_op = pos 2;
    isolate_follower_at_op = pos 4;
    isolate_leader_at_op = pos 6;
    restore_at_op = pos 8;
    restart_all_after = true;
  };
}

abbrev faults : FaultReport whole
faults = record {
  scenario = "leader-isolation";
  events = [];
  measurements = record {
    leader_kill_write_outage = none;
    leader_kill_election = none;
    follower_isolation_progress = none;
    leader_isolation_write_outage = some (record {
      event = "isolate_leader";
      event_at = 4000;
      last_ack_before = 3900;
      first_ack_after = 4400;
      outage_ms = pos 0;
      complete = true;
    });
    leader_isolation_election = some (pos 250);
    restart_ready_recovery = some (pos 900);
    restart_first_read_recovery = none;
  };
  acked_writes = 1;
  acked_write_loss = [];
  verified_keys = 1;
  restart_verified = true;
}

abbrev op : ℕ → String → OpRecord
op call name = record {
  index = 0;
  client_id = pos 1;
  client_session = "s";
  req_id = 1;
  op = name;
  key = "k";
  value = if name == "get" then "" else "v";
  call_nanos = call;
  return_nanos = call + 1;
  status = "ok";
  http_code = 200;
  attempts = 1;
  redirects = 0;
  endpoint = "http://a";
  observed_val = "v";
  observed_found = true;
  error = "";
  phase = "traffic";
}

abbrev run_history : History
run_history = record {
  ops = op 1 "put" ∷ op 3 "get" ∷ [];
  writes = 1;
  reads = 1;
  indeterminate_writes = 0;
  indeterminate_reads = 0;
}

judge_passed_example :
    (inventory.mode ≡ mode_multi_host)
    × AreDistinct (collect_all machine echo 0 inventory.hosts "").1
    × (1000 ≤ 1200)
    × IsMeasured faults
    × (inventory.faults.restart_all_after ≡ true → IsLossless faults)
    × IsLinearizable (porcupine_ops run_history)
unfolding judge preflight trim_space fingerprint GoMap.put GoMap.get_or GoMap.get lookup without
    greedy partition group porcupine_ops add_to_part step xor
judge_passed_example =
    judge_passed greedy machine echo 0 inventory "inventory.json" "" 1200 faults run_history refl
