-- ===== src/Multihost/Faults/Tests.antt =====
-- A run of the scenarios of internal/multihost/faults.go on three hosts.
use quorum_log.Prelude.{
  ℕ, ◌+◌, ◌*◌, ◌/◌, ◌%◌, ◌≡◌, refl, pos, String, true, false, List, [], ◌∷◌, ok, ◌==◌, nat_eq,
  without,
}
use quorum_log.Prelude.Text.{fields, trim_space}
use quorum_log.Prelude.GoMap
use quorum_log.Multihost.{Host, FaultPlan}
use quorum_log.Multihost.Deploy.{Site, other_hosts}
use quorum_log.Multihost.Scripts.{atoi}
use quorum_log.Multihost.Faults.{Faults, ◌>>=◌, drive, await_op, modify, done}
use quorum_log.Multihost.Faults.Scenarios.{run_full}
use quorum_log.Multihost.Faults.Steps.{walk}
use quorum_log.Multihost.Faults.Sequential.{run_full-IsSequential}

-- The time is the state, and an operation completes every second; the nodes lead in turn, each for
-- ten seconds.
abbrev turns : Site
turns = record {
  State = ℕ;
  Error = String;
  run = λ time h script. (time + 1, ok "7");
  copy = λ time h a b. (time + 1, ok tt);
  fetch_status = λ time h.
      let leader = time / 10 % 3 + 1 in
      (time, ok (record { id = h.id; leader = leader; is_leader = h.id == leader }));
  status_ok = λ time h. (time, true);
  now = λ time. (time, time * 1_000_000_000);
  sleep = λ time. time + 1;
  cancelled = λ time. false;
  completed = λ time. time;
  finished = λ time. false;
}

abbrev node : ℕ → Host
node id = record {
  id = id;
  name = "n";
  ssh = "";
  advertise = "127.0.0.1";
  raft_port = pos (9000 + id);
  chaos_port = pos (9100 + id);
  data_dir = "/tmp/ql";
  goos = "";
  goarch = "";
}

abbrev three_nodes : List Host
three_nodes = node 1 ∷ node 2 ∷ node 3 ∷ []

abbrev plan : FaultPlan
plan = record {
  kill_leader_at_op = pos 2;
  isolate_follower_at_op = pos 40;
  isolate_leader_at_op = pos 60;
  restore_at_op = pos 80;
  restart_all_after = false;
}

abbrev at_rest : Faults turns
at_rest = record {
  dep = record { world = 0; pids = GoMap.empty };
  hosts = three_nodes;
  events = [];
  kill_at = 0;
  isolate_follower_at = 0;
  clear_follower_at = 0;
  isolate_leader_at = 0;
  restore_at = 0;
  isolated_follower = 0;
  isolated_leader = 0;
  killed_leader = 0;
  new_leader_after_kill = 0;
  new_leader_after_isolate = 0;
  restart_issued = 0;
  restart_ready = 0;
  restart_verified = false;
  restart_verified_keys = 0;
  restart_mismatches = [];
}

whole_run : (run_full 100 plan three_nodes at_rest).1 ≡ ok tt
unfolding run_full ◌>>=◌ drive await_op modify other_hosts fields atoi trim_space GoMap.put without
    done
whole_run = refl

run_full-IsSequential_example : (walk (0, 0) (run_full 100 plan three_nodes at_rest).0.events).0 ≡ 0
run_full-IsSequential_example =
    (run_full-IsSequential 100 plan three_nodes at_rest
        ((λ e. cc e), ((λ e. cc e), ((λ e. cc e), tt))) refl refl).1
      whole_run refl
