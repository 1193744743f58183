-- ===== src/Multihost/Preflight/Report.antt =====
-- Preflight of internal/multihost/preflight.go.
use quorum_log.Prelude.{String, Bool, ◌&&◌, List, if◌then◌else◌, ◌==◌, nat_eq, string_eq}
use quorum_log.Multihost.{Floats, Inventory, mode_multi_host}
use quorum_log.Multihost.Exec.{Executor}
use quorum_log.Multihost.Preflight.{Machine, HostFacts}
use quorum_log.Multihost.Preflight.Collect.{collect_all}
use quorum_log.Multihost.Preflight.Evaluate.{Reason, evaluate_distinct}

abbrev pub mode_label_multi_host : String
mode_label_multi_host = "multi-host"

abbrev pub mode_label_dry_run : String
mode_label_dry_run = "single-host-dry-run"

-- InventoryReport
pub record InventoryReport (Error : Type 0) : Type 0 where
  pub mode : String
  pub executor : String
  pub inventory_mode : String
  pub inventory_path : String
  pub distinct_hosts : Bool
  pub distinctness_reasons : List Reason
  pub hosts : List (HostFacts Error)

module _ (m : Machine) (ex : Executor) {fl : Floats} where
  -- Preflight
  unfoldable pub preflight :
      ex.State → Inventory fl → String → String → ex.State × InventoryReport ex.Error
  unfolding collect_all evaluate_distinct
  preflight st inv path repo_root =
      let (st', facts) = collect_all m ex st inv.hosts repo_root in
      let (distinct, reasons) = evaluate_distinct facts in
      let proven = distinct && inv.mode == mode_multi_host in
      (
        st',
        record {
          mode = if proven then mode_label_multi_host else mode_label_dry_run;
          executor = ex.kind;
          inventory_mode = inv.mode;
          inventory_path = path;
          distinct_hosts = proven;
          distinctness_reasons = reasons;
          hosts = facts;
        },
      )
