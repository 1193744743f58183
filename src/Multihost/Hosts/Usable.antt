-- ===== src/Multihost/Hosts/Usable.antt =====
-- Which hosts the loop of Validate of internal/multihost/inventory.go accepts.
use quorum_log.Prelude.{
  ℕ, ◌≤◌, ℤ, pos, negsuc, int_eq, ◌≡◌, ◌≢◌, refl, ◌⊎◌, inl, inr, String, Bool, true, false, not,
  arith, ◌==◌, nat_eq, string_eq, Equality, ok, refuse_if, refuse_if-eq-ok, refuse_if-passes,
  refuse_if-ok, beq_of_ne, subst, sym, ◌∙◌, Bool-cases,
}
use quorum_log.Prelude.GoMap
use quorum_log.Prelude.GoMap.{GoMap}
use quorum_log.Chaos.Address.{Net}
use quorum_log.Multihost.{Host, mode_multi_host, mode_local_dry_run}
use quorum_log.Multihost.Hosts.{
  not_loopback, contains_any, is_abs, listen_addr, is_bad_port, is_loopback_text, Seen, check_mode,
  check_host,
}

abbrev pub IsPort : ℤ → Type 0
IsPort p = (n : ℕ) × (p ≡ pos n) × (1 ≤ n) × (n ≤ 65535)

-- A host of a multi-host run is another machine's; one of a dry run is this machine's.
abbrev pub IsReached : Net → String → Host → Type 0
IsReached net mode h =
    (mode ≡ mode_multi_host
      → (h.ssh ≢ "") × (is_loopback_text net h.advertise ≡ false) × (is_abs h.data_dir ≡ true))
    × (mode ≡ mode_local_dry_run → is_loopback_text net h.advertise ≡ true)

pub record IsUsable (net : Net) (mode : String) (h : Host) : Type 0 where
  pub has_id : h.id ≢ 0
  pub has_name : h.name ≢ ""
  pub has_address : h.advertise ≢ ""
  pub raft_port_fits : IsPort h.raft_port
  pub chaos_port_fits : IsPort h.chaos_port
  pub ports_differ : h.raft_port ≢ h.chaos_port
  pub has_data_dir : h.data_dir ≢ ""
  pub data_dir_is_safe : contains_any h.data_dir " \t'\"" ≡ false
  pub is_reached : IsReached net mode h

module _ {ℓ} {K : Type ℓ} ⦃e : Equality K⦄ where
  pub ne_of_test : {a b : K} → (a == b) ≡ false → a ≢ b
  ne_of_test {a} {b} h = λ p. cc (h, (e.beq_iff a b).1 p)

  pub unseen_put :
      (m : GoMap K Bool) (k j : K)
      → GoMap.get_or (GoMap.put m k true) j false ≡ false
      → (k ≢ j) × (GoMap.get_or m j false ≡ false)
  unseen_put m k j h =
      let split = sym (GoMap.get_or-put m k j true false) ∙ h in
      elim (Bool-cases (k == j)) [
        | inl same ↦ absurd (ground (arith, same, split))
        | inr other ↦ (ne_of_test other, ground (arith, other, split))
      ]

  pub put_unseen :
      (m : GoMap K Bool) (k j : K)
      → k ≢ j
      → GoMap.get_or m j false ≡ false
      → GoMap.get_or (GoMap.put m k true) j false ≡ false
  put_unseen m k j ne h = rw (GoMap.get_or-put m k j true false, beq_of_ne ne) h

IsPort-test : (p : ℤ) → is_bad_port p ≡ false → IsPort p
IsPort-test (pos n) h = (n, refl, ground (arith, h), ground (arith, h))
IsPort-test (negsuc n) h = absurd (ground (arith, h))

test_port : (p : ℤ) → IsPort p → is_bad_port p ≡ false
test_port p (n, e, low, high) = rw e (ground arith)

-- The host's ID and address have not been seen.
abbrev pub IsNew : Seen → Host → Type 0
IsNew s h =
    (GoMap.get_or s.ids h.id false ≡ false) × (GoMap.get_or s.addrs (listen_addr h) false ≡ false)

module _ (net : Net) (mode : String) where
  mode_sound : (i : ℕ) (h : Host) → check_mode net mode i h ≡ ok tt → IsReached net mode h
  unfolding check_mode
  mode_sound i h done = (
    λ m.
        (let at = rw ((string_eq.beq_iff mode mode_multi_host).1 m) at done in
          let (a, done₁) = refuse_if-eq-ok _ _ _ at in
          let (b, done₂) = refuse_if-eq-ok _ _ _ done₁ in
          (ne_of_test a, b, ground (arith, refuse_if-ok _ _ done₂))),
    λ m.
        (let at : refuse_if (not (is_loopback_text net h.advertise)) (not_loopback i) ≡ ok tt =
            subst (λ x. check_mode net x i h ≡ ok tt) m done in
          ground (arith, refuse_if-ok _ _ at)),
  )

  mode_complete :
      (i : ℕ) (h : Host)
      → (mode ≡ mode_multi_host) ⊎ (mode ≡ mode_local_dry_run)
      → IsReached net mode h
      → check_mode net mode i h ≡ ok tt
  unfolding check_mode
  mode_complete i h (inl m) (reached, _) =
      let (a, b, c) = reached m in
      rw ((string_eq.beq_iff mode mode_multi_host).1 m)
        (refuse_if-passes _ (beq_of_ne a) (refuse_if-passes _ b (rw c refl)))
  mode_complete i h (inr m) (_, local) =
      subst (λ x. check_mode net x i h ≡ ok tt) (sym m) (rw (local m) refl)

  pub host_sound :
      (i : ℕ) (s : Seen) (h : Host)
      → check_host net mode i s h ≡ ok tt
      → IsNew s h × IsUsable net mode h
  unfolding check_host
  host_sound i s h done =
      let (a, done₁) = refuse_if-eq-ok _ _ _ done in
      let (b, done₂) = refuse_if-eq-ok _ _ _ done₁ in
      let (c, done₃) = refuse_if-eq-ok _ _ _ done₂ in
      let (d, done₄) = refuse_if-eq-ok _ _ _ done₃ in
      let (e, done₅) = refuse_if-eq-ok _ _ _ done₄ in
      let (f, done₆) = refuse_if-eq-ok _ _ _ done₅ in
      let (g, done₇) = refuse_if-eq-ok _ _ _ done₆ in
      let (j, done₈) = refuse_if-eq-ok _ _ _ done₇ in
      let (k, done₉) = refuse_if-eq-ok _ _ _ done₈ in
      let (l, reached) = refuse_if-eq-ok _ _ _ done₉ in
      (
        (b, l),
        record {
          has_id = ne_of_test a;
          has_name = ne_of_test c;
          has_address = ne_of_test d;
          raft_port_fits = IsPort-test h.raft_port e;
          chaos_port_fits = IsPort-test h.chaos_port f;
          ports_differ = ne_of_test g;
          has_data_dir = ne_of_test j;
          data_dir_is_safe = k;
          is_reached = mode_sound i h reached;
        },
      )

  pub host_complete :
      (i : ℕ) (s : Seen) (h : Host)
      → (mode ≡ mode_multi_host) ⊎ (mode ≡ mode_local_dry_run)
      → IsNew s h
      → IsUsable net mode h
      → check_host net mode i s h ≡ ok tt
  unfolding check_host
  host_complete i s h m (fresh_id, fresh_addr) u = refuse_if-passes _ (beq_of_ne u.has_id) (
      refuse_if-passes _ fresh_id (
        refuse_if-passes _ (beq_of_ne u.has_name) (
          refuse_if-passes _ (beq_of_ne u.has_address) (
            refuse_if-passes _ (test_port h.raft_port u.raft_port_fits) (
              refuse_if-passes _ (test_port h.chaos_port u.chaos_port_fits) (
                refuse_if-passes _ (beq_of_ne u.ports_differ) (
                  refuse_if-passes _ (beq_of_ne u.has_data_dir) (
                    refuse_if-passes _ u.data_dir_is_safe
                      (refuse_if-passes _ fresh_addr (mode_complete i h m u.is_reached))))))))))
