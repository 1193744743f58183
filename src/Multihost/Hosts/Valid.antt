-- ===== src/Multihost/Hosts/Valid.antt =====
-- Which inventories Validate of internal/multihost/inventory.go accepts.
use quorum_log.Prelude.{
  ℕ, ◌+◌, ◌≤◌, ℤ, pos, negsuc, ltb_ℤ, int_eq, ◌≡◌, ◌≢◌, refl, ◌⊎◌, ◌↔◌, inl, inr, String, false,
  not, ◌||◌, List, [], ◌∷◌, length, All, arith, ◌==◌, nat_eq, string_eq, ok, refuse_if-eq-ok,
  refuse_if-passes, refuse_if-ok, >>=-eq-ok, Bool-cases,
}
use quorum_log.Prelude.GoMap
use quorum_log.Prelude.GoMap.{GoMap}
use quorum_log.Chaos.Address.{Net}
use quorum_log.Multihost.{Floats, Host, Inventory, mode_multi_host, mode_local_dry_run}
use quorum_log.Multihost.Hosts.{
  listen_addr, Seen, nothing_seen, see, check_hosts, check_client, validate,
}
use quorum_log.Multihost.Hosts.Usable.{
  IsUsable, IsNew, unseen_put, put_unseen, host_sound, host_complete,
}

abbrev pub DifferFrom : Host → Host → Type 0
DifferFrom h g = (h.id ≢ g.id) × (listen_addr h ≢ listen_addr g)

abbrev pub Differ : List Host → Type 0
Differ [] = Unit
Differ (h ∷ hosts) = All (DifferFrom h) hosts × Differ hosts

module _ {fl : Floats} where
  pub record IsValid (net : Net) (inv : Inventory fl) : Type 0 where
    pub has_mode : (inv.mode ≡ mode_multi_host) ⊎ (inv.mode ≡ mode_local_dry_run)
    pub has_three_hosts : length inv.hosts ≡ 3
    pub are_usable : All (IsUsable net inv.mode) inv.hosts
    pub differ : Differ inv.hosts
    pub has_ops : (n : ℕ) × (inv.client.ops ≡ pos n) × (1 ≤ n)
    pub has_workers : (n : ℕ) × (inv.client.concurrency ≡ pos n) × (1 ≤ n)
    pub is_not_negative : fl.less inv.client.read_fraction (fl.of_int (pos 0)) ≡ false
    pub is_fraction : fl.less (fl.of_int (pos 1)) inv.client.read_fraction ≡ false

IsNew-see :
    (s : Seen) (h : Host) (hosts : List Host)
    → All (IsNew (see s h)) hosts
    → All (DifferFrom h) hosts × All (IsNew s) hosts
IsNew-see s h [] fresh = (tt, tt)
IsNew-see s h (g ∷ hosts) ((id, addr), fresh) =
    let (id_differs, id_new) = unseen_put s.ids h.id g.id id in
    let (addr_differs, addr_new) = unseen_put s.addrs (listen_addr h) (listen_addr g) addr in
    let (differ, others) = IsNew-see s h hosts fresh in
    (((id_differs, addr_differs), differ), ((id_new, addr_new), others))

see-IsNew :
    (s : Seen) (h : Host) (hosts : List Host)
    → All (DifferFrom h) hosts
    → All (IsNew s) hosts
    → All (IsNew (see s h)) hosts
see-IsNew s h [] differ fresh = tt
see-IsNew s h (g ∷ hosts) ((a, b), differ) ((c, d), fresh) = (
  (put_unseen s.ids h.id g.id a c, put_unseen s.addrs (listen_addr h) (listen_addr g) b d),
  see-IsNew s h hosts differ fresh,
)

module _ (net : Net) (mode : String) where
  hosts_sound :
      (i : ℕ) (s : Seen) (hosts : List Host)
      → check_hosts net mode i s hosts ≡ ok tt
      → All (IsNew s) hosts × All (IsUsable net mode) hosts × Differ hosts
  unfolding check_hosts
  hosts_sound i s [] done = (tt, tt, tt)
  hosts_sound i s (h ∷ hosts) done =
      let (_, first, rest) = >>=-eq-ok _ _ done in
      let (fresh, usable) = host_sound net mode i s h first in
      let (news, usables, differ) = hosts_sound (i + 1) (see s h) hosts rest in
      let (differ_from, others) = IsNew-see s h hosts news in
      ((fresh, others), (usable, usables), (differ_from, differ))

  hosts_complete :
      (i : ℕ) (s : Seen) (hosts : List Host)
      → (mode ≡ mode_multi_host) ⊎ (mode ≡ mode_local_dry_run)
      → All (IsNew s) hosts
      → All (IsUsable net mode) hosts
      → Differ hosts
      → check_hosts net mode i s hosts ≡ ok tt
  unfolding check_hosts
  hosts_complete i s [] m fresh usable differ = refl
  hosts_complete i s (h ∷ hosts) m (new, fresh) (u, usable) (from, differ) =
      rw (host_complete net mode i s h m new u)
        (hosts_complete (i + 1) (see s h) hosts m (see-IsNew s h hosts from fresh) usable differ)

all-IsNew : (hosts : List Host) → All (IsNew nothing_seen) hosts
all-IsNew [] = tt
all-IsNew (h ∷ hosts) =
    ((GoMap.get_or-empty h.id false, GoMap.get_or-empty (listen_addr h) false), all-IsNew hosts)

positive_test : (n : ℤ) → not (ltb_ℤ (pos 0) n) ≡ false → (k : ℕ) × (n ≡ pos k) × (1 ≤ k)
positive_test (pos k) h = (k, refl, ground (arith, h))
positive_test (negsuc k) h = absurd (ground (arith, h))

test_positive : (n : ℤ) → (k : ℕ) × (n ≡ pos k) × (1 ≤ k) → not (ltb_ℤ (pos 0) n) ≡ false
test_positive n (k, e, h) = rw e (ground arith)

module _ {fl : Floats} (net : Net) (inv : Inventory fl) where
  mode_test :
      not (inv.mode == mode_multi_host || inv.mode == mode_local_dry_run) ≡ false
      → (inv.mode ≡ mode_multi_host) ⊎ (inv.mode ≡ mode_local_dry_run)
  mode_test h = elim (Bool-cases (inv.mode == mode_multi_host)) [
    | inl t ↦ inl ((string_eq.beq_iff inv.mode mode_multi_host).0 t)
    | inr f ↦ inr ((string_eq.beq_iff inv.mode mode_local_dry_run).0 (ground (arith, h, f)))
  ]

  test_mode :
      (inv.mode ≡ mode_multi_host) ⊎ (inv.mode ≡ mode_local_dry_run)
      → not (inv.mode == mode_multi_host || inv.mode == mode_local_dry_run) ≡ false
  test_mode (inl m) = ground (arith, (string_eq.beq_iff inv.mode mode_multi_host).1 m)
  test_mode (inr m) = ground (arith, (string_eq.beq_iff inv.mode mode_local_dry_run).1 m)

  validate_sound : validate net inv ≡ ok tt → IsValid net inv
  unfolding validate check_client
  validate_sound done =
      let (m, done₁) = refuse_if-eq-ok _ _ _ done in
      let (three, done₂) = refuse_if-eq-ok _ _ _ done₁ in
      let (_, checked, client) = >>=-eq-ok _ _ done₂ in
      let (_, usable, differ) = hosts_sound net inv.mode 0 nothing_seen inv.hosts checked in
      let (ops, client₁) = refuse_if-eq-ok _ _ _ client in
      let (workers, client₂) = refuse_if-eq-ok _ _ _ client₁ in
      let range = refuse_if-ok _ _ client₂ in
      record {
        has_mode = mode_test m;
        has_three_hosts = ground (arith, three);
        are_usable = usable;
        differ = differ;
        has_ops = positive_test inv.client.ops ops;
        has_workers = positive_test inv.client.concurrency workers;
        is_not_negative = ground (arith, range);
        is_fraction = ground (arith, range);
      }

  validate_complete : IsValid net inv → validate net inv ≡ ok tt
  unfolding validate check_client
  validate_complete v = refuse_if-passes _ (test_mode v.has_mode) (
      refuse_if-passes {bad = not (length inv.hosts == 3)} _ (ground (arith, v.has_three_hosts)) (
        rw
          (hosts_complete net inv.mode 0 nothing_seen inv.hosts v.has_mode (all-IsNew inv.hosts)
            v.are_usable v.differ)
          (refuse_if-passes _ (test_positive inv.client.ops v.has_ops) (
            refuse_if-passes _ (test_positive inv.client.concurrency v.has_workers)
              (rw (v.is_not_negative, v.is_fraction) refl)))))

  -- Validate accepts exactly the inventories that have one of the two modes, three hosts, at least one
  -- operation and one worker, and a read fraction that is neither below 0 nor above 1; whose hosts have
  -- different IDs and addresses, an ID other than 0, a name, an address, two different ports from 1 to
  -- 65535, and a data directory without blanks and quotes; and whose hosts have, in the multi-host
  -- mode, an SSH target, an address that is no loopback IP and an absolute data directory, and in the
  -- dry run a loopback IP.
  pub validate-IsValid : (validate net inv ≡ ok tt) ↔ IsValid net inv
  validate-IsValid = (validate_sound, validate_complete)
