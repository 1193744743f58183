-- ===== src/Multihost/Faults/Sequential.antt =====
-- The faults of internal/multihost/faults.go come one after the other.
use quorum_log.Prelude.{
  ℕ, ◌≤◌, ◌≡◌, ◌≢◌, refl, ap, ℤ, pos, ltb_ℤ, true, false, not, List, [], ◌∷◌, All, arith, ◌==◌,
  nat_eq, Except, ok, err, Bool-cases, ◌⊎◌, inl, inr, beq_of_ne,
}
use quorum_log.Multihost.{Host, FaultPlan}
use quorum_log.Multihost.Deploy.{Site, DriverError, Deployment, Driven, other_hosts}
use quorum_log.Multihost.Faults.{
  isolate_follower, Faults, Run, ◌>>=◌, ◌>>◌, done, drive, await_op, wait_op, when,
}
use quorum_log.Multihost.Faults.Scenarios.{
  follower_phase, leader_phase, restore_all, run_full, first_host, leader_part,
}
use quorum_log.Multihost.Faults.Steps.{
  walk, At, Calm, Any, Leads, Does, then_drive, then_event, then_modify, then_step, ends_done,
  ends_modify,
}
use quorum_log.Multihost.Faults.Phases.{
  kill_phase_lem, majority_lem, clear_follower_lem, restore_all_lem,
}

abbrev NotCut : ℕ → Type 0
NotCut id = id ≡ 0

abbrev IsCut : ℕ → Type 0
IsCut id = id ≢ 0

other_hosts-All :
    (Q : Host → Type 0) (hosts : List Host) (id : ℕ) → All Q hosts → All Q (other_hosts hosts id)
unfolding other_hosts
other_hosts-All Q [] id h = tt
other_hosts-All Q (x ∷ hosts) id (q, h) = elim (Bool-cases (not (x.id == id))) [
  | inl t ↦ rw t (q, other_hosts-All Q hosts id h)
  | inr f ↦ rw f (other_hosts-All Q hosts id h)
]

module _ {site : Site} (hosts : List Host) (named : All (λ h. h.id ≢ 0) hosts) where
  then_first :
      (candidates : List Host) (k : Host → Run site (Unit {0}))
      → All (λ h. h.id ≢ 0) candidates
      → ((h : Host) → h.id ≢ 0 → Does {site = site} (At 0 NotCut) (λ _. At 1 IsCut) (k h))
      → Does {site = site} (At 0 NotCut) (λ _. At 1 IsCut) (first_host candidates >>= k)
  unfolding ◌>>=◌
  then_first [] k ids h f p = p.1
  then_first (c ∷ candidates) k ids h f p = h c ids.0 f p

  follower_phase_lem :
      Does {site = site} (At 0 NotCut) (λ _. At 1 IsCut) (follower_phase {site = site} hosts)
  unfolding follower_phase
  follower_phase_lem =
      let R : Unit {0} → Faults site → Type 0 = λ _. At 1 IsCut in
      then_drive 0 NotCut R _ _ (λ leader.
        then_first (other_hosts hosts leader.id) _ (other_hosts-All _ hosts leader.id named)
          (λ follower given. then_drive 0 NotCut R _ _ (λ _.
            then_modify 0 NotCut R IsCut _ _ (λ f p. (refl, given))
              (then_drive 0 IsCut R _ _ (λ _.
                then_event 0 IsCut R isolate_follower follower.id _ _ (omega arith)
                  (λ at. ends_modify 1 IsCut _ (λ f. (refl, refl))))))))

module _ {site : Site} where
  -- Behind the second part, and behind the third.
  abbrev Noted : Faults site → Type 0
  Noted f = At 0 NotCut f ⊎ At 1 IsCut f

  abbrev Low : Faults site → Type 0
  Low f = ((walk (0, 0) f.events).0 ≤ 1) × Calm f

  weakened :
      {A : Type 0} (P : Faults site → Type 0) (Q Q' : A → Faults site → Type 0)
      → ((a : A) (f : Faults site) → Q a f → Q' a f)
      → (r : Faults site × Except (DriverError site.Error) A) → Leads P Q r
      → Leads P Q' r
  weakened P Q Q' w (f, ok a) h = w a f h
  weakened P Q Q' w (f, err e) h = h

  weaken_lem :
      {A : Type 0} (P : Faults site → Type 0) (Q Q' : A → Faults site → Type 0) (m : Run site A)
      → ((a : A) (f : Faults site) → Q a f → Q' a f)
      → Does P Q m
      → Does P Q' m
  weaken_lem P Q Q' m w h f p = weakened P Q Q' w (m f) (h f p)

  module _ (fuel : ℕ) (hosts : List Host) where
    leader_part_calm :
        (id : ℕ)
        → id ≡ 0
        → Does {site = site} (At 0 NotCut) (λ _. At 1 NotCut) (leader_part fuel hosts id)
    unfolding leader_part
    leader_part_calm id e = rw e (
        then_step (At 0 NotCut) (λ _. At 0 NotCut) (λ _. At 1 NotCut) _ _ (ends_done 0 NotCut)
          (λ _. majority_lem fuel hosts NotCut))

    leader_part-IsCut :
        (id : ℕ)
        → id ≢ 0
        → Does {site = site} (At 1 IsCut) (λ _. At 1 IsCut) (leader_part fuel hosts id)
    unfolding leader_part
    leader_part-IsCut id ne = rw (beq_of_ne ne) (
        then_step (At 1 IsCut) (λ _. At 0 IsCut) (λ _. At 1 IsCut) _ _
          (clear_follower_lem fuel hosts IsCut id) (λ _. majority_lem fuel hosts IsCut))

    leader_phase_lem : Does Noted (λ _. Low) (leader_phase fuel hosts)
    unfolding leader_phase
    leader_phase_lem f (inl p) =
        weakened (At 0 NotCut) (λ _. At 1 NotCut) (λ _. Low) (λ a g h. (omega (arith, h.0), h.1))
          (leader_part fuel hosts f.isolated_follower f)
          (leader_part_calm f.isolated_follower p.2 f p)
    leader_phase_lem f (inr p) =
        weakened (At 1 IsCut) (λ _. At 1 IsCut) (λ _. Low) (λ a g h. (omega (arith, h.0), h.1))
          (leader_part fuel hosts f.isolated_follower f)
          (leader_part-IsCut f.isolated_follower p.2 f p)

  waited :
      (P : Faults site → Type 0)
      → ((f : Faults site) (dep : Deployment site) → P f → P (record f { dep = dep }) × Calm f)
      → (f : Faults site) → P f
      → (r : Driven site (Unit {0})) → Leads P (λ _. P) (record f { dep = r.0 }, r.1)
  waited P stays f p (d, ok a) = (stays f d p).0
  waited P stays f p (d, err e) = (stays f d p).1

  wait_lem :
      (P : Faults site → Type 0)
      → ((f : Faults site) (dep : Deployment site) → P f → P (record f { dep = dep }) × Calm f)
      → (fuel : ℕ) (at_op : ℤ) → Does P (λ _. P) (wait_op fuel at_op)
  unfolding drive
  wait_lem P stays fuel at_op f p = waited P stays f p (await_op fuel at_op f.dep)

  skip_lem : (P Q : Faults site → Type 0) → ((f : Faults site) → P f → Q f) → Does P (λ _. Q) done
  unfolding done
  skip_lem P Q skip f p = skip f p

  -- A part that the plan may leave out, behind its waitOp.
  part_lem :
      (at_op : ℤ) (P Q : Faults site → Type 0) (fuel : ℕ) (m : Run site (Unit {0}))
      → ((f : Faults site) (dep : Deployment site) → P f → P (record f { dep = dep }) × Calm f)
      → (ltb_ℤ (pos 0) at_op ≡ false → (f : Faults site) → P f → Q f)
      → Does P (λ _. Q) m
      → Does P (λ _. Q) (when at_op (wait_op fuel at_op >> m))
  part_lem at_op P Q fuel m stays skip h = elim (Bool-cases (ltb_ℤ (pos 0) at_op)) [
    | inl on ↦ rw on (
        then_step P (λ _. P) (λ _. Q) (wait_op fuel at_op) (λ _. m) (wait_lem P stays fuel at_op)
          (λ _. h))
    | inr off ↦ rw off (skip_lem P Q (skip off))
  ]

  -- At the end of runFull.
  abbrev Ended : ℤ → Faults site → Type 0
  Ended at_op f = Low f × (ltb_ℤ (pos 0) at_op ≡ true → (walk (0, 0) f.events).0 ≡ 0)

  restore_lem :
      (fuel : ℕ) (hosts : List Host) (at_op : ℤ)
      → Does Low (λ _. Ended at_op) (restore_all fuel hosts)
  restore_lem fuel hosts at_op f p =
      weakened (At (walk (0, 0) f.events).0 Any) (λ _. At 0 Any) (λ _. Ended at_op)
        (λ a g h. ((omega (arith, h.0), h.1), λ _. h.0)) (restore_all fuel hosts f)
        (restore_all_lem fuel hosts Any (walk (0, 0) f.events).0 f (refl, p.1, tt))

  Noted-stays :
      (f : Faults site) (dep : Deployment site) → Noted f → Noted (record f { dep = dep }) × Calm f
  Noted-stays f dep (inl p) = (inl p, p.1)
  Noted-stays f dep (inr p) = (inr p, p.1)

  Noted-Low : (f : Faults site) → Noted f → Low f
  Noted-Low f (inl p) = (omega (arith, p.0), p.1)
  Noted-Low f (inr p) = (omega (arith, p.0), p.1)

  full_lem :
      (fuel : ℕ) (plan : FaultPlan) (hosts : List Host)
      → All (λ h. h.id ≢ 0) hosts
      → Does {site = site} (At 0 NotCut) (λ _. Ended plan.restore_at_op) (run_full fuel plan hosts)
  unfolding run_full
  full_lem fuel plan hosts named =
      let R : Unit {0} → Faults site → Type 0 = λ _. Ended plan.restore_at_op in
      then_step (At 0 NotCut) (λ _. At 0 NotCut) R _ _
        (part_lem plan.kill_leader_at_op (At 0 NotCut) (At 0 NotCut) fuel _ (λ f d p. (p, p.1))
          (λ _ f p. p) (kill_phase_lem fuel hosts NotCut))
        (λ _.
          then_step (At 0 NotCut) (λ _. Noted) R _ _
            (part_lem plan.isolate_follower_at_op (At 0 NotCut) Noted fuel _ (λ f d p. (p, p.1))
              (λ _ f p. inl p)
              (weaken_lem (At 0 NotCut) (λ _. At 1 IsCut) (λ _. Noted) (follower_phase hosts)
                (λ a f p. inr p) (follower_phase_lem hosts named)))
            (λ _.
              then_step Noted (λ _. Low) R _ _
                (part_lem plan.isolate_leader_at_op Noted Low fuel _ Noted-stays
                  (λ _ f p. Noted-Low f p) (leader_phase_lem fuel hosts))
                (λ _.
                  part_lem plan.restore_at_op Low (Ended plan.restore_at_op) fuel _
                    (λ f d p. (p, p.1)) (λ off f p. (p, λ on. absurd (cc)))
                    (restore_lem fuel hosts plan.restore_at_op))))

  Calm-end :
      (P Q : Faults site → Type 0) (r : Faults site × Except (DriverError site.Error) (Unit {0}))
      → Leads P (λ _. Q) r
      → ((f : Faults site) → Q f → Calm f)
      → Calm r.0
  Calm-end P Q (f, ok _) h low = low f h
  Calm-end P Q (f, err _) h low = h

  good_end :
      (P Q : Faults site → Type 0) (r : Faults site × Except (DriverError site.Error) (Unit {0}))
      → Leads P (λ _. Q) r
      → r.1 ≡ ok tt
      → Q r.0
  good_end P Q (f, ok _) h e = h
  good_end P Q (f, err _) h e = absurd (cc)

  At-start : (f : Faults site) → f.events ≡ [] → f.isolated_follower ≡ 0 → At 0 NotCut f
  unfolding walk
  At-start f quiet free = (
    ap (λ es. (walk (0, 0) es).0) quiet,
    omega (arith, ap (λ es. (walk (0, 0) es).1) quiet),
    free,
  )

  -- For hosts whose IDs are not 0, from a runner without events that has isolated no follower: however
  -- runFull ends, its timeline never has two nodes cut off at a time; and when it ends without an error
  -- and the plan restores the network, none is cut off at its end.
  pub run_full-IsSequential :
      (fuel : ℕ) (plan : FaultPlan) (hosts : List Host) (f : Faults site)
      → All (λ h. h.id ≢ 0) hosts
      → f.events ≡ []
      → f.isolated_follower ≡ 0
      → ((walk (0, 0) (run_full fuel plan hosts f).0.events).1 ≤ 1)
        × ((run_full fuel plan hosts f).1 ≡ ok tt
            → ltb_ℤ (pos 0) plan.restore_at_op ≡ true
            → (walk (0, 0) (run_full fuel plan hosts f).0.events).0 ≡ 0)
  run_full-IsSequential fuel plan hosts f named quiet free =
      let ended = full_lem fuel plan hosts named f (At-start f quiet free) in
      (
        Calm-end (At 0 NotCut) (Ended plan.restore_at_op) (run_full fuel plan hosts f) ended
            (λ g h. h.0.1),
        λ good on.
            (good_end (At 0 NotCut) (Ended plan.restore_at_op) (run_full fuel plan hosts f) ended
                good).1
              on,
      )
