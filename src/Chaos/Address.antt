-- ===== src/Chaos/Address.antt =====
-- checkLoopbackAddr of internal/server/chaos.go.
use quorum_log.Prelude.{
  String, Bool, not, Option, none, some, if◌then◌else◌, ◌==◌, string_eq, Except, ok, err, ◌≡◌, ◌≢◌,
  arith, true, Bool-cases, Option-cases, ◌⊎◌, inl, inr,
}

-- The package net: SplitHostPort (host and port), ParseIP, IP.IsLoopback.
pub record Net : Type 1 where
  pub Ip : Type 0
  pub split_host_port : String → Option (String × String)
  pub parse_ip : String → Option Ip
  pub is_loopback : Ip → Bool

pub data AddressError : Type 0 where
  not_host_port no_port not_ip not_loopback : AddressError

module _ (net : Net) where
  -- What follows the split.
  unfoldable pub check_host : String → String → Except AddressError (Unit {0})
  check_host host port =
      if port == ""
      then err no_port
      else if host == "localhost"
      then ok tt
      else elim (net.parse_ip host) [
        | none ↦ err not_ip
        | some ip ↦ if not (net.is_loopback ip) then err not_loopback else ok tt
      ]

  unfoldable pub check_loopback_addr : String → Except AddressError (Unit {0})
  unfolding check_host
  check_loopback_addr addr = elim (net.split_host_port addr) [
    | none ↦ err not_host_port
    | some (host, port) ↦ check_host host port
  ]

  -- A host that names this machine.
  abbrev pub IsLocal : String → Type 0
  IsLocal host =
      (host ≡ "localhost")
      ⊎ ((ip : net.Ip) × (net.parse_ip host ≡ some ip) × (net.is_loopback ip ≡ true))

  check_host-safe : (host port : String) → check_host host port ≡ ok tt → (port ≢ "") × IsLocal host
  unfolding check_host
  check_host-safe host port h = elim (Bool-cases (port == "")) [
    | inl empty ↦ absurd (ground (arith, h, empty))
    | inr given ↦ (
      λ e. ground (arith, given, string_eq.beq_iff port "", e),
      elim (Bool-cases (host == "localhost")) [
        | inl local ↦ inl ((string_eq.beq_iff host "localhost").0 local)
        | inr other ↦ elim (Option-cases (net.parse_ip host)) [
          | inl bad ↦ absurd (ground (arith, h, given, other, bad))
          | inr (ip, found) ↦ inr (ip, found, ground (arith, h, given, other, found))
        ]
      ],
    )
  ]

  -- An address that is accepted splits into a host and a port that is not empty, and the host is
  -- `localhost` or an IP address that the package net calls a loopback one.
  pub check_loopback_addr-safe :
      (addr : String)
      → check_loopback_addr addr ≡ ok tt
      → (host port : String) × (net.split_host_port addr ≡ some (host, port))
        × (port ≢ "")
        × IsLocal host
  unfolding check_loopback_addr
  check_loopback_addr-safe addr h = elim (Option-cases (net.split_host_port addr)) [
    | inl bad ↦ absurd (ground (arith, h, bad))
    | inr ((host, port), found) ↦
        let (given, local) = check_host-safe host port (ground (arith, h, found)) in
        (host, port, found, given, local)
  ]
