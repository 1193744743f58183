-- ===== src/Multihost/Gate.antt =====
-- The verdict of internal/multihost/run.go, with the check of checkrun.go and the measurements that
-- faults.go reports. The texts that only describe a result are left out.
pub mod Passed
mod Tests
use quorum_log.Prelude.{
  ℕ, ◌+◌, ◌*◌, ◌/◌, ℤ, pos, negsuc, sub_ℕ, String, Bool, true, false, not, ◌&&◌, ◌||◌, Option, none,
  some, List, [], ◌∷◌, ◌++◌, length, leb, ltb, if◌then◌else◌, ◌==◌, nat_eq, string_eq,
}
use quorum_log.Check.Linearizable.{CheckResult, Porcupine}
use quorum_log.Check.Parts.{check}
use quorum_log.Multihost.{Floats, FaultPlan, Inventory}
use quorum_log.Multihost.History.{History, porcupine_ops, last_return}
use quorum_log.Multihost.Measure.{
  Outage, Progress, measure_outage, measure_progress, first_verify_read, ms_between,
}
use quorum_log.Multihost.Preflight.Report.{mode_label_multi_host, InventoryReport}
use quorum_log.Multihost.Traffic.{Mismatch}
use quorum_log.Multihost.Deploy.{Site}
use quorum_log.Multihost.Faults.{Faults, FaultEvent}

abbrev pub scenario_full : String
scenario_full = "full"

-- Criterion, without its detail
pub record Criterion : Type 0 where
  pub name : String
  pub met : Bool

module _ (fl : Floats) where
  -- Measurements; a duration is its milliseconds.
  pub record Measurements : Type 0 where
    pub leader_kill_write_outage : Option (Outage fl)
    pub leader_kill_election : Option fl.Float
    pub follower_isolation_progress : Option (Progress fl)
    pub leader_isolation_write_outage : Option (Outage fl)
    pub leader_isolation_election : Option fl.Float
    pub restart_ready_recovery : Option fl.Float
    pub restart_first_read_recovery : Option fl.Float

  -- FaultReport, without the texts
  pub record FaultReport : Type 0 where
    pub scenario : String
    pub events : List FaultEvent
    pub measurements : Measurements
    pub acked_writes : ℕ
    pub acked_write_loss : List Mismatch
    pub verified_keys : ℕ
    pub restart_verified : Bool

-- CheckReport, without the texts, the counts of the history and what it repeats of the faults
pub record CheckReport : Type 0 where
  pub linearizable : Bool
  pub result : CheckResult
  pub ops : ℕ

abbrev pub is_ok : CheckResult → Bool
is_ok CheckResult.ok = true
is_ok CheckResult.illegal = false
is_ok CheckResult.unknown = false

abbrev is_illegal : CheckResult → Bool
is_illegal CheckResult.illegal = true
is_illegal CheckResult.ok = false
is_illegal CheckResult.unknown = false

-- RunCheck
unfoldable pub run_check : Porcupine → History → CheckReport
run_check p hist =
    let ops = porcupine_ops hist in
    let res = check p ops in record { linearizable = is_ok res; result = res; ops = length ops }

abbrev when_after : {A : Type 0} → ℕ → A → Option A
when_after at a = if ltb 0 at then some a else none

abbrev end_of_window : ℕ → History → ℕ
end_of_window cleared hist = if cleared == 0 then last_return 0 hist.ops else cleared

module _ (fl : Floats) {site : Site} where
  abbrev first_read : Faults site → Option ℕ → Option fl.Float
  first_read f none = none
  first_read f (some at) = when_after at (ms_between fl at f.restart_issued)

  -- FaultRunner.Report, with the scenario, the durations of the elections and the number of
  -- acknowledged writes
  unfoldable pub report : Faults site → String → fl.Float → fl.Float → ℕ → History → FaultReport fl
  report f scenario kill_election isolation_election acked hist = record {
    scenario = scenario;
    events = f.events;
    measurements = record {
      leader_kill_write_outage =
          when_after f.kill_at (measure_outage fl hist.ops "kill_leader" f.kill_at);
      leader_kill_election = when_after f.kill_at kill_election;
      follower_isolation_progress = when_after f.isolate_follower_at (
          measure_progress fl hist.ops f.isolate_follower_at
            (end_of_window f.clear_follower_at hist));
      leader_isolation_write_outage =
          when_after f.isolate_leader_at
            (measure_outage fl hist.ops "isolate_leader" f.isolate_leader_at);
      leader_isolation_election = when_after f.isolate_leader_at isolation_election;
      restart_ready_recovery =
          when_after f.restart_ready (ms_between fl f.restart_ready f.restart_issued);
      restart_first_read_recovery =
          if ltb 0 f.restart_ready then first_read f (first_verify_read none hist.ops) else none;
    };
    acked_writes = acked;
    acked_write_loss = f.restart_mismatches;
    verified_keys = f.restart_verified_keys;
    restart_verified = f.restart_verified;
  }

abbrev pub criterion : String → Bool → Criterion
criterion name met = record { name = name; met = met }

module _ (fl : Floats) where
  abbrev pub is_positive : Option fl.Float → Bool
  is_positive none = false
  is_positive (some ms) = fl.less (fl.of_int (pos 0)) ms

  abbrev is_known : Option fl.Float → Bool
  is_known none = false
  is_known (some _) = true

module _ {fl : Floats} where
  abbrev pub made_progress : Option (Progress fl) → Bool
  made_progress none = false
  made_progress (some p) = p.made_progress

  abbrev pub is_complete : Option (Outage fl) → Bool
  is_complete none = false
  is_complete (some o) = o.complete

  -- The criteria of evaluateCriteria that a full run has besides
  abbrev pub full_criteria : FaultReport fl → List Criterion
  full_criteria faults =
      if faults.scenario == scenario_full
      then criterion "majority_progress_while_follower_isolated"
          (made_progress faults.measurements.follower_isolation_progress)
        ∷ criterion "leader_kill_outage_recorded"
            (is_complete faults.measurements.leader_kill_write_outage)
        ∷ []
      else []

  -- and a run with a restart.
  abbrev pub restart_criteria : Bool → FaultReport fl → List Criterion
  restart_criteria restart_all_after faults =
      if restart_all_after
      then criterion "no_acknowledged_write_lost"
          (faults.restart_verified && length faults.acked_write_loss == 0)
        ∷ criterion "restart_recovery_recorded"
            (is_known fl faults.measurements.restart_ready_recovery)
        ∷ []
      else []

  -- evaluateCriteria, for the mode's `distinct_hosts` and the number of operations
  unfoldable pub evaluate_criteria :
      Inventory fl → Bool → ℕ → FaultReport fl → CheckReport → List Criterion
  evaluate_criteria inv distinct traffic_ops faults chk =
      criterion "three_distinct_hosts" distinct
      ∷ criterion "at_least_1000_mixed_operations" (leb 1000 traffic_ops)
      ∷ (full_criteria faults
          ++ (criterion "leader_isolation_outage_recorded"
                (is_complete faults.measurements.leader_isolation_write_outage)
              ∷ criterion "new_leader_elected_after_isolation"
                  (is_positive fl faults.measurements.leader_isolation_election)
              ∷ (restart_criteria inv.faults.restart_all_after faults
                  ++ criterion "history_linearizable" chk.linearizable ∷ [])))

-- allMet
unfoldable pub all_met : List Criterion → Bool
all_met [] = true
all_met (c ∷ cs) = let rest = all_met cs in if not c.met then false else rest

-- What Run decides: Passed and whether there is a BlockedReason.
pub record Verdict : Type 0 where
  pub criteria : List Criterion
  pub passed : Bool
  pub blocked : Bool

module _ {fl : Floats} {Error : Type 0} where
  -- The end of Run.
  unfoldable pub judge :
      Porcupine → Inventory fl → InventoryReport Error → ℕ → FaultReport fl → History → Verdict
  unfolding evaluate_criteria all_met run_check
  judge p inv hosts traffic_ops faults hist =
      let criteria =
        evaluate_criteria inv hosts.distinct_hosts traffic_ops faults (run_check p hist) in
      record {
        criteria = criteria;
        passed = all_met criteria && hosts.distinct_hosts;
        blocked = not hosts.distinct_hosts;
      }

-- The reasons of buildNegativeControl, and whether the history is rejected.
unfoldable pub rejections : CheckReport → List Mismatch → Bool × Bool
rejections chk loss = (is_illegal chk.result, ltb 0 (length loss))

unfoldable pub rejected : CheckReport → List Mismatch → Bool
unfolding rejections
rejected chk loss = (rejections chk loss).0 || (rejections chk loss).1

-- artifactNames, for the kinds inventory, history, faults, porcupine and report
unfoldable pub artifact_names : String → List String
artifact_names mode =
    if mode == mode_label_multi_host
    then "multihost-inventory.json" ∷ "multihost-history.json" ∷ "multihost-faults.json"
      ∷ "multihost-porcupine.json" ∷ "multihost-report.md" ∷ []
    else "inventory.json" ∷ "history.json" ∷ "faults.json" ∷ "porcupine.json" ∷ "report.md" ∷ []

-- The closure `scale` of scaleFaultPlan, for positive numbers of operations
unfoldable pub scale : ℕ → ℕ → ℤ → ℤ
scale old_ops new_ops (negsuc v) = negsuc v
scale old_ops new_ops (pos v) =
    if v == 0
    then pos v
    else if ltb (v * new_ops / old_ops) 1
    then pos 1
    else pos (v * new_ops / old_ops)

-- scaleFaultPlan
unfoldable pub scale_fault_plan : ℕ → ℕ → FaultPlan → FaultPlan
unfolding scale
scale_fault_plan old_ops new_ops plan = if old_ops == 0 then plan else record plan {
  kill_leader_at_op = scale old_ops new_ops plan.kill_leader_at_op;
  isolate_follower_at_op = scale old_ops new_ops plan.isolate_follower_at_op;
  isolate_leader_at_op = scale old_ops new_ops plan.isolate_leader_at_op;
  restore_at_op = scale old_ops new_ops plan.restore_at_op;
}
