-- ===== src/Multihost/Preflight.antt =====
-- internal/multihost/preflight.go: the facts about the hosts, and whether they are distinct machines.
pub mod Collect
pub mod Evaluate
pub mod Report
pub mod Distinct
use Prim.Native.String.{◌++◌ as concat, len, slice}
use quorum_log.Prelude.{
  ℕ, zero, suc, ◌+◌, ℤ, String, Bool, true, false, not, ◌&&◌, ◌||◌, Option, none, some, List, [],
  ◌∷◌, ◌++◌, map, length, ltb, if◌then◌else◌, ◌==◌, nat_eq, string_eq, Except, ok, err,
}
use quorum_log.Prelude.GoMap
use quorum_log.Prelude.GoMap.{GoMap}
use quorum_log.Prelude.Text.{trim_space, fields}
use quorum_log.Multihost.{Floats, Host, Inventory, mode_multi_host}
use quorum_log.Multihost.Hosts.{target}
use quorum_log.Multihost.Exec.{Executor}

-- What the driver's own machine contributes: its platform, the first 8 bytes of a SHA-256 sum in
-- hexadecimal digits, and filepath.Abs and filepath.Rel.
pub record Machine : Type 0 where
  pub goos : String
  pub goarch : String
  pub sha : String → String
  pub abs : String → Option String
  pub rel : String → String → Option String

-- HostFacts; a problem is the command that failed with its error, or an unsupported system.
pub record HostFacts (Error : Type 0) : Type 0 where
  pub id : ℕ
  pub configured_name : String
  pub target : String
  pub executor : String
  pub hostname : String
  pub os_kind : String
  pub kernel : String
  pub machine_id : String
  pub machine_id_source : String
  pub boot_id : String
  pub boot_id_source : String
  pub primary_address : String
  pub advertise : String
  pub raft_port : ℤ
  pub chaos_port : ℤ
  pub data_dir : String
  pub data_device : String
  pub data_mount_point : String
  pub build_target : String
  pub problems : List (String × Option Error)

-- BuildOS and BuildArch
abbrev pub build_os : Machine → Host → String
build_os m h = if not (h.goos == "") then h.goos else m.goos

abbrev pub build_arch : Machine → Host → String
build_arch m h = if not (h.goarch == "") then h.goarch else m.goarch

-- fingerprint
unfoldable pub fingerprint : Machine → String → String
fingerprint m value =
    let trimmed = trim_space value in if trimmed == "" then "" else concat "sha256:" (m.sha trimmed)

abbrev has_prefix : String → String → Bool
has_prefix s prefix = slice s 0 (len prefix) == prefix

-- displayPath
unfoldable pub display_path : Machine → String → String → String
display_path m path repo_root = if repo_root == "" then path else elim (m.abs repo_root) [
  | none ↦ path
  | some root ↦ elim (m.rel root path) [
    | none ↦ path
    | some rel ↦ if has_prefix rel ".." then path else rel
  ]
]

abbrev last_text : String → List String → String
last_text d [] = d
last_text d (x ∷ xs) = last_text x xs

-- parseDF: the device and the mount point
unfoldable pub parse_df : String → String × String
parse_df line =
    if ltb (length (fields line)) 6
    then ("", "")
    else elim (fields line) [ [] ↦ ("", "") | first ∷ more ↦ (first, last_text first more) ]
