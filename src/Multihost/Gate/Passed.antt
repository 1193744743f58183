-- ===== src/Multihost/Gate/Passed.antt =====
-- What it means that a run of internal/multihost/run.go has passed.
use quorum_log.Prelude.{
  ℕ, ◌≤◌, ◌≡◌, refl, String, Bool, true, false, ◌&&◌, List, [], ◌∷◌, ◌++◌, All, arith,
  if◌then◌else◌, ◌==◌, nat_eq, string_eq, Bool-cases, inl, inr,
}
use quorum_log.Check.Linearizable.{CheckResult, Porcupine}
use quorum_log.Check.Parts.{kv_model, IsLinearizable, partition-IsLinearizable}
use quorum_log.Multihost.{Floats, Inventory, mode_multi_host}
use quorum_log.Multihost.History.{History, porcupine_ops}
use quorum_log.Multihost.Exec.{Executor}
use quorum_log.Multihost.Preflight.{Machine}
use quorum_log.Multihost.Preflight.Collect.{collect_all}
use quorum_log.Multihost.Preflight.Report.{preflight}
use quorum_log.Multihost.Preflight.Distinct.{no_reasons, AreDistinct, evaluate_distinct-AreDistinct}
use quorum_log.Multihost.Gate.{
  FaultReport, CheckReport, Criterion, scenario_full, run_check, made_progress, is_complete,
  is_positive, evaluate_criteria, all_met, judge, is_ok, criterion, full_criteria, restart_criteria,
}

all_met-All : (cs : List Criterion) → all_met cs ≡ true → All (λ c. c.met ≡ true) cs
unfolding all_met
all_met-All [] h = tt
all_met-All (c ∷ cs) h = elim (Bool-cases c.met) [
  | inl e ↦ (e, all_met-All cs (ground (arith, e, h)))
  | inr e ↦ absurd (ground (arith, e, h))
]

met_left :
    (xs ys : List Criterion) → All (λ c. c.met ≡ true) (xs ++ ys) → All (λ c. c.met ≡ true) xs
met_left [] ys h = tt
met_left (x ∷ xs) ys (h, rest) = (h, met_left xs ys rest)

met_right :
    (xs ys : List Criterion) → All (λ c. c.met ≡ true) (xs ++ ys) → All (λ c. c.met ≡ true) ys
met_right [] ys h = h
met_right (x ∷ xs) ys (h, rest) = met_right xs ys rest

met_if :
    (b : Bool) (cs : List Criterion)
    → b ≡ true
    → All (λ c. c.met ≡ true) (if b then cs else [])
    → All (λ c. c.met ≡ true) cs
met_if true cs _ met = met
met_if false cs e _ = absurd (ground (arith, e))

is_ok-ok : (r : CheckResult) → is_ok r ≡ true → r ≡ CheckResult.ok
is_ok-ok CheckResult.ok h = refl
is_ok-ok CheckResult.illegal h = absurd (ground (arith, h))
is_ok-ok CheckResult.unknown h = absurd (ground (arith, h))

check_sound :
    (p : Porcupine) (hist : History)
    → (run_check p hist).linearizable ≡ true
    → IsLinearizable (porcupine_ops hist)
unfolding run_check
check_sound p hist h =
    (partition-IsLinearizable (porcupine_ops hist)).0
      (p.ok_sound kv_model (porcupine_ops hist) 30_000_000_000 (is_ok-ok _ h))

and_true : {a b : Bool} → (a && b) ≡ true → (a ≡ true) × (b ≡ true)
and_true {a} {b} h = elim (Bool-cases a) [
  | inl e ↦ (e, ground (arith, e, h))
  | inr e ↦ absurd (ground (arith, e, h))
]

module _ {fl : Floats} (faults : FaultReport fl) where
  -- The write outage of the leader's isolation was measured up to its recovery, and a new leader was
  -- elected after a positive time; a full run also has the outage of the kill and progress of the
  -- majority while a follower was isolated.
  abbrev pub IsMeasured : Type 0
  IsMeasured =
      (is_complete faults.measurements.leader_isolation_write_outage ≡ true)
      × (is_positive fl faults.measurements.leader_isolation_election ≡ true)
      × (faults.scenario ≡ scenario_full
          → (is_complete faults.measurements.leader_kill_write_outage ≡ true)
            × (made_progress faults.measurements.follower_isolation_progress ≡ true))

  -- The acknowledged writes were read back, and none was missing.
  abbrev pub IsLossless : Type 0
  IsLossless = (faults.restart_verified ≡ true) × (faults.acked_write_loss ≡ [])

  full_met :
      faults.scenario ≡ scenario_full
      → All (λ c. c.met ≡ true) (full_criteria faults)
      → (is_complete faults.measurements.leader_kill_write_outage ≡ true)
        × (made_progress faults.measurements.follower_isolation_progress ≡ true)
  full_met e met =
      let both = met_if (faults.scenario == scenario_full) _ ((string_eq.beq_iff _ _).1 e) met in
      (both.1.0, both.0)

  restart_met :
      (after : Bool)
      → All (λ c. c.met ≡ true) (restart_criteria after faults)
      → after ≡ true
      → IsLossless
  restart_met after met e =
      let (verified, none_lost) = and_true (met_if after _ e met).0 in
      (verified, no_reasons faults.acked_write_loss (ground (arith, none_lost)))

  criteria_met :
      (inv : Inventory fl) (distinct : Bool) (traffic_ops : ℕ) (chk : CheckReport)
      → all_met (evaluate_criteria inv distinct traffic_ops faults chk) ≡ true
      → (1000 ≤ traffic_ops)
        × IsMeasured
        × (inv.faults.restart_all_after ≡ true → IsLossless)
        × (chk.linearizable ≡ true)
  unfolding evaluate_criteria
  criteria_met inv distinct traffic_ops chk h =
      let full = full_criteria faults in
      let lossless = restart_criteria inv.faults.restart_all_after faults in
      let linear = criterion "history_linearizable" chk.linearizable ∷ [] in
      let met = all_met-All (evaluate_criteria inv distinct traffic_ops faults chk) h in
      let late = met_right full _ met.1.1 in
      (
        ground (arith, met.1.0),
        (late.0, late.1.0, λ e. full_met e (met_left full _ met.1.1)),
        restart_met inv.faults.restart_all_after (met_left lossless linear late.1.1),
        (met_right lossless linear late.1.1).0,
      )

module _ (p : Porcupine) (m : Machine) (ex : Executor) {fl : Floats} where
  -- A run whose verdict on the inventory report of its own preflight is a pass was in the mode
  -- multi-host, on at least three hosts whose machine identities, hostnames and boot ids, as the
  -- preflight collected them, are there and tell them apart; it made at least 1000 operations and has
  -- its measurements; if its plan has a restart, the acknowledged writes were read back without a
  -- loss; and its history is linearizable.
  pub judge_passed :
      (st : ex.State) (inv : Inventory fl) (path repo_root : String) (traffic_ops : ℕ)
      (faults : FaultReport fl) (hist : History)
      → (judge p inv (preflight m ex st inv path repo_root).1 traffic_ops faults hist).passed ≡ true
      → (inv.mode ≡ mode_multi_host)
        × AreDistinct (collect_all m ex st inv.hosts repo_root).1
        × (1000 ≤ traffic_ops)
        × IsMeasured faults
        × (inv.faults.restart_all_after ≡ true → IsLossless faults)
        × IsLinearizable (porcupine_ops hist)
  unfolding judge preflight
  judge_passed st inv path repo_root traffic_ops faults hist h =
      let (all, proven) = and_true h in
      let (distinct, mode) = and_true proven in
      let (many, measured, lossless, linear) =
        criteria_met faults inv _ traffic_ops (run_check p hist) all in
      (
        (string_eq.beq_iff _ _).0 mode,
        (evaluate_distinct-AreDistinct _).0 distinct,
        many,
        measured,
        lossless,
        check_sound p hist linear,
      )
