-- ===== src/Multihost.antt =====
-- internal/multihost: the driver of the multi-host gate. The floating-point numbers are a parameter;
-- a time is a number of nanoseconds since the start of the run, and a count a number.
pub mod Hosts
pub mod History
pub mod Measure
pub mod Exec
pub mod Preflight
pub mod Client
pub mod Traffic
pub mod Scripts
pub mod Deploy
pub mod Faults
pub mod Gate
mod Tests
use quorum_log.Prelude.{ℕ, ℤ, String, Bool, List}

-- float64
pub record Floats : Type 1 where
  pub Float : Type 0
  pub of_int : ℤ → Float
  pub less : Float → Float → Bool
  pub divide : Float → Float → Float

abbrev pub mode_multi_host : String
mode_multi_host = "multi-host"

abbrev pub mode_local_dry_run : String
mode_local_dry_run = "local-dry-run"

-- Host
pub record Host : Type 0 where
  pub id : ℕ
  pub name : String
  pub ssh : String
  pub advertise : String
  pub raft_port : ℤ
  pub chaos_port : ℤ
  pub data_dir : String
  pub goos : String
  pub goarch : String

-- ClientPlan
pub record ClientPlan (fl : Floats) : Type 0 where
  pub ops : ℤ
  pub read_fraction : fl.Float
  pub concurrency : ℤ
  pub seed : ℤ

-- FaultPlan
pub record FaultPlan : Type 0 where
  pub kill_leader_at_op : ℤ
  pub isolate_follower_at_op : ℤ
  pub isolate_leader_at_op : ℤ
  pub restore_at_op : ℤ
  pub restart_all_after : Bool

-- Inventory
pub record Inventory (fl : Floats) : Type 0 where
  pub mode : String
  pub hosts : List Host
  pub client : ClientPlan fl
  pub faults : FaultPlan
