-- ===== src/Multihost/Hosts.antt =====
-- internal/multihost/inventory.go: the rules of an inventory, and the addresses of its hosts.
mod Usable
pub mod Valid
use Prim.Native.Char.{code}
use Prim.Native.String.{◌++◌ as concat}
use quorum_log.Prelude.{
  ℕ, zero, suc, ◌+◌, ◌-◌, ℤ, pos, negsuc, ltb_ℤ, int_eq, String, Bool, true, false, not, ◌&&◌, ◌||◌,
  Option, none, some, List, [], ◌∷◌, length, if◌then◌else◌, ◌==◌, nat_eq, string_eq, Except, ok,
  err, ◌>>=◌, ◌>>◌, refuse_if,
}
use quorum_log.Prelude.Decimal.{decimal}
use quorum_log.Prelude.GoMap
use quorum_log.Prelude.GoMap.{GoMap}
use quorum_log.Chaos.Address.{Net}
use quorum_log.Multihost.{
  Floats, Host, ClientPlan, FaultPlan, Inventory, mode_multi_host, mode_local_dry_run,
}

-- `%d` of a signed number
abbrev pub decimal_ℤ : ℤ → String
decimal_ℤ (pos n) = decimal n
decimal_ℤ (negsuc n) = concat "-" (decimal (n + 1))

-- strings.ContainsAny, for the characters of a text
abbrev pub has_code : ℕ → String → Bool
has_code n String.[] = false
has_code n (String.◌∷◌ c s) = code c == n || has_code n s

unfoldable pub contains_any : String → String → Bool
contains_any String.[] chars = false
contains_any (String.◌∷◌ c s) chars = has_code (code c) chars || contains_any s chars

-- path.IsAbs
abbrev pub is_abs : String → Bool
is_abs String.[] = false
is_abs (String.◌∷◌ c s) = code c == b'/'

-- net.JoinHostPort
unfoldable pub join_host_port : String → String → String
join_host_port host port =
    if has_code b':' host
    then concat "[" (concat host (concat "]:" port))
    else concat host (concat ":" port)

-- Host.ListenAddr
abbrev pub listen_addr : Host → String
listen_addr h = join_host_port h.advertise (decimal_ℤ h.raft_port)

-- Host.RaftURL
abbrev pub raft_url : Host → String
raft_url h = concat "http://" (join_host_port h.advertise (decimal_ℤ h.raft_port))

-- Host.ChaosListenAddr
abbrev pub chaos_listen_addr : Host → String
chaos_listen_addr h = join_host_port "127.0.0.1" (decimal_ℤ h.chaos_port)

-- Host.ChaosURL
abbrev pub chaos_url : Host → String
chaos_url h = concat "http://" (chaos_listen_addr h)

-- Host.Target
abbrev pub target : Host → String
target h = if not (h.ssh == "") then h.ssh else h.name

-- BinaryPath, StartScriptPath, PidPath and LogPath of Host
abbrev pub binary_path : Host → String
binary_path h = concat h.data_dir "/quorumlogd"

abbrev pub start_script_path : Host → String
start_script_path h = concat h.data_dir "/start.sh"

abbrev pub pid_path : Host → String
pid_path h = concat h.data_dir "/node.pid"

abbrev pub log_path : Host → String
log_path h = concat h.data_dir "/node.log"

-- strings.Join with a comma
abbrev pub join_with : String → List String → String
join_with sep [] = ""
join_with sep (s ∷ []) = s
join_with sep (s ∷ t ∷ more) = concat s (concat sep (join_with sep (t ∷ more)))

abbrev pub peer_pairs : List Host → List String
peer_pairs [] = []
peer_pairs (h ∷ hosts) = concat (decimal h.id) (concat "=" (raft_url h)) ∷ peer_pairs hosts

module _ {fl : Floats} where
  -- Inventory.PeersFlag
  unfoldable pub peers_flag : Inventory fl → String
  peers_flag inv = join_with "," (peer_pairs inv.hosts)

-- The loop of Inventory.HostByID.
unfoldable pub host_by_id : List Host → ℕ → Option Host
host_by_id [] id = none
host_by_id (h ∷ hosts) id = let rest = host_by_id hosts id in if h.id == id then some h else rest

-- The errors of Validate, each with the index of the host.
pub data InventoryError : Type 0 where
  bad_mode : String → InventoryError
  not_three_hosts : ℕ → InventoryError
  zero_id duplicate_id no_name no_advertise raft_port_range chaos_port_range same_ports :
      ℕ → InventoryError
  no_data_dir unsafe_data_dir duplicate_address no_ssh advertise_loopback : ℕ → InventoryError
  relative_data_dir not_loopback : ℕ → InventoryError
  no_ops no_concurrency read_fraction_range : InventoryError

-- `p <= 0 || p > 65535`
abbrev pub is_bad_port : ℤ → Bool
is_bad_port p = not (ltb_ℤ (pos 0) p) || ltb_ℤ (pos 65535) p

-- seenID and seenAddr
pub record Seen : Type 0 where
  pub ids : GoMap ℕ Bool
  pub addrs : GoMap String Bool

abbrev pub nothing_seen : Seen
nothing_seen = record { ids = GoMap.empty; addrs = GoMap.empty }

abbrev pub see : Seen → Host → Seen
see s h = record { ids = GoMap.put s.ids h.id true; addrs = GoMap.put s.addrs (listen_addr h) true }

module _ (net : Net) where
  -- `ip != nil && ip.IsLoopback()`
  abbrev pub is_loopback_text : String → Bool
  is_loopback_text s = elim (net.parse_ip s) [ none ↦ false | some ip ↦ net.is_loopback ip ]

  -- The last switch of the loop's body.
  unfoldable pub check_mode : String → ℕ → Host → Except InventoryError (Unit {0})
  check_mode mode i h =
      if mode == mode_multi_host
      then (do
        refuse_if (h.ssh == "") (no_ssh i)
        refuse_if (is_loopback_text h.advertise) (advertise_loopback i)
        refuse_if (not (is_abs h.data_dir)) (relative_data_dir i))
      else if mode == mode_local_dry_run
      then refuse_if (not (is_loopback_text h.advertise)) (not_loopback i)
      else ok tt

  -- The body of the loop of Validate.
  unfoldable pub check_host : String → ℕ → Seen → Host → Except InventoryError (Unit {0})
  unfolding check_mode
  check_host mode i s h = do
    refuse_if (h.id == 0) (zero_id i)
    refuse_if (GoMap.get_or s.ids h.id false) (duplicate_id i)
    refuse_if (h.name == "") (no_name i)
    refuse_if (h.advertise == "") (no_advertise i)
    refuse_if (is_bad_port h.raft_port) (raft_port_range i)
    refuse_if (is_bad_port h.chaos_port) (chaos_port_range i)
    refuse_if (h.raft_port == h.chaos_port) (same_ports i)
    refuse_if (h.data_dir == "") (no_data_dir i)
    refuse_if (contains_any h.data_dir " \t'\"") (unsafe_data_dir i)
    refuse_if (GoMap.get_or s.addrs (listen_addr h) false) (duplicate_address i)
    check_mode mode i h

  unfoldable pub check_hosts : String → ℕ → Seen → List Host → Except InventoryError (Unit {0})
  unfolding check_host
  check_hosts mode i s [] = ok tt
  check_hosts mode i s (h ∷ hosts) = do
    check_host mode i s h
    check_hosts mode (i + 1) (see s h) hosts

  module _ {fl : Floats} where
    -- The checks of the client plan.
    unfoldable pub check_client : ClientPlan fl → Except InventoryError (Unit {0})
    check_client plan = do
      refuse_if (not (ltb_ℤ (pos 0) plan.ops)) no_ops
      refuse_if (not (ltb_ℤ (pos 0) plan.concurrency)) no_concurrency
      refuse_if
          (fl.less plan.read_fraction (fl.of_int (pos 0))
            || fl.less (fl.of_int (pos 1)) plan.read_fraction)
          read_fraction_range

    -- Inventory.Validate
    unfoldable pub validate : Inventory fl → Except InventoryError (Unit {0})
    unfolding check_hosts check_client
    validate inv = do
      refuse_if (not (inv.mode == mode_multi_host || inv.mode == mode_local_dry_run))
          (bad_mode inv.mode)
      refuse_if (not (length inv.hosts == 3)) (not_three_hosts (length inv.hosts))
      check_hosts inv.mode 0 nothing_seen inv.hosts
      check_client inv.client
