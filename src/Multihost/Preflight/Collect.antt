-- ===== src/Multihost/Preflight/Collect.antt =====
-- collectHostFacts of internal/multihost/preflight.go: the commands that ask a host for its facts.
use Prim.Native.String.{◌++◌ as concat}
use quorum_log.Prelude.{
  String, none, some, List, [], ◌∷◌, ◌++◌, if◌then◌else◌, ◌==◌, nat_eq, string_eq, ok, err,
}
use quorum_log.Prelude.Text.{trim_space}
use quorum_log.Multihost.{Host}
use quorum_log.Multihost.Hosts.{target}
use quorum_log.Multihost.Exec.{Executor}
use quorum_log.Multihost.Preflight.{
  Machine, HostFacts, build_os, build_arch, fingerprint, display_path, parse_df,
}

-- The commands of collectHostFacts.
abbrev machine_id_linux : String
machine_id_linux =
    "cat /etc/machine-id 2>/dev/null || cat /var/lib/dbus/machine-id 2>/dev/null || true"

abbrev boot_id_linux : String
boot_id_linux = "cat /proc/sys/kernel/random/boot_id 2>/dev/null || true"

abbrev address_linux : String
address_linux = "hostname -I 2>/dev/null | awk '{print $1}' || true"

abbrev machine_id_darwin : String
machine_id_darwin = "ioreg -rd1 -c IOPlatformExpertDevice | awk -F'\"' '/IOPlatformUUID/{print $4}'"

abbrev boot_id_darwin : String
boot_id_darwin = "sysctl -n kern.boottime 2>/dev/null || true"

abbrev address_darwin : String
address_darwin = "ipconfig getifaddr en0 2>/dev/null || ipconfig getifaddr en1 2>/dev/null || true"

abbrev data_dir_command : Host → String
data_dir_command h =
    concat "mkdir -p " (concat h.data_dir (concat " && df -P " (concat h.data_dir " | tail -1")))

module _ (ex : Executor) where
  -- The hosts and the facts that have been collected.
  pub record Collecting : Type 0 where
    pub hosts : ex.State
    pub facts : HostFacts ex.Error

module _ {ex : Executor} where
  -- ask, with the text that it returns
  unfoldable pub ask : Host → Collecting ex → String → Collecting ex × String
  ask h c script =
      let (st, answer) = ex.run c.hosts h script in
      elim answer [
        | ok out ↦ (record c { hosts = st }, trim_space out)
        | err e ↦ (
          record c {
            hosts = st;
            facts = record c.facts { problems = c.facts.problems ++ (script, some e) ∷ [] };
          },
          "",
        )
      ]

  -- The facts that one command gives.
  abbrev learn :
      (String → HostFacts ex.Error → HostFacts ex.Error)
      → String
      → Host
      → Collecting ex
      → Collecting ex
  learn set script h c = let (c', out) = ask h c script in record c' { facts = set out c'.facts }

module _ (m : Machine) {ex : Executor} where
  -- The switch on the kind of the operating system.
  unfoldable pub collect_identity : Host → Collecting ex → Collecting ex
  unfolding ask
  collect_identity h c =
      if c.facts.os_kind == "Linux"
      then (let c₁ =
            learn
              (λ out f. record f {
                machine_id_source = "/etc/machine-id or /var/lib/dbus/machine-id";
                machine_id = fingerprint m out;
              })
              machine_id_linux h c in
          let c₂ =
            learn
              (λ out f. record f {
                boot_id_source = "/proc/sys/kernel/random/boot_id";
                boot_id = fingerprint m out;
              })
              boot_id_linux h c₁ in
          learn (λ out f. record f { primary_address = out }) address_linux h c₂)
      else if c.facts.os_kind == "Darwin"
      then (let c₁ =
            learn
              (λ out f. record f {
                machine_id_source = "ioreg IOPlatformUUID";
                machine_id = fingerprint m out;
              })
              machine_id_darwin h c in
          let c₂ =
            learn
              (λ out f. record f {
                boot_id_source = "sysctl kern.boottime (macOS has no boot_id)";
                boot_id = fingerprint m out;
              })
              boot_id_darwin h c₁ in
          learn (λ out f. record f { primary_address = out }) address_darwin h c₂)
      else record c {
        facts = record c.facts { problems = c.facts.problems ++ (c.facts.os_kind, none) ∷ [] };
      }

module _ (m : Machine) (ex : Executor) where
  -- The facts before any command has run.
  abbrev known_facts : Host → String → HostFacts ex.Error
  known_facts h repo_root = record {
    id = h.id;
    configured_name = h.name;
    target = target h;
    executor = ex.kind;
    hostname = "";
    os_kind = "";
    kernel = "";
    machine_id = "";
    machine_id_source = "";
    boot_id = "";
    boot_id_source = "";
    primary_address = "";
    advertise = h.advertise;
    raft_port = h.raft_port;
    chaos_port = h.chaos_port;
    data_dir = display_path m h.data_dir repo_root;
    data_device = "";
    data_mount_point = "";
    build_target = concat (build_os m h) (concat "/" (build_arch m h));
    problems = [];
  }

  -- collectHostFacts
  unfoldable pub collect_host_facts : ex.State → Host → String → Collecting ex
  unfolding collect_identity parse_df ask
  collect_host_facts st h repo_root =
      let c₁ =
        learn (λ out f. record f { os_kind = out }) "uname -s" h
          (record { hosts = st; facts = known_facts h repo_root }) in
      let c₂ = learn (λ out f. record f { hostname = out }) "uname -n" h c₁ in
      let c₃ = learn (λ out f. record f { kernel = out }) "uname -a" h c₂ in
      learn
        (λ out f. record f { data_device = (parse_df out).0; data_mount_point = (parse_df out).1 })
        (data_dir_command h) h (collect_identity m h c₃)

  -- The loop of Preflight.
  unfoldable pub collect_all : ex.State → List Host → String → ex.State × List (HostFacts ex.Error)
  unfolding collect_host_facts
  collect_all st [] repo_root = (st, [])
  collect_all st (h ∷ hosts) repo_root =
      let c : Collecting ex = collect_host_facts st h repo_root in
      let (st', facts) = collect_all c.hosts hosts repo_root in (st', c.facts ∷ facts)
