-- ===== src/Multihost/Faults/Phases.antt =====
-- The timeline of each part of the scenarios of internal/multihost/faults.go.
use quorum_log.Prelude.{ℕ, refl, List, [], ◌∷◌, arith, nat_eq}
use quorum_log.Multihost.{Host}
use quorum_log.Multihost.Deploy.{Site}
use quorum_log.Multihost.Faults.{
  kill_leader, new_leader_elected, restart_killed_node, cluster_settled, clear_follower_isolation,
  isolate_leader, restore_network, cluster_healed, Faults,
}
use quorum_log.Multihost.Faults.Scenarios.{
  kill_phase, clear_follower, isolate_leader_from_majority, clear_all, restore_all,
}
use quorum_log.Multihost.Faults.Steps.{
  At, Does, then_drive, then_event, then_modify, then_step, ends_done,
}

module _ {site : Site} where
  module _ (fuel : ℕ) (hosts : List Host) (P : ℕ → Type 0) where
    pub kill_phase_lem : Does {site = site} (At 0 P) (λ _. At 0 P) (kill_phase fuel hosts)
    unfolding kill_phase
    kill_phase_lem =
        let R : Unit {0} → Faults site → Type 0 = λ _. At 0 P in
        then_drive 0 P R _ _ (λ leader.
          then_modify 0 P R P _ _ (λ f p. (refl, p))
            (then_drive 0 P R _ _ (λ _.
              then_event 0 P R kill_leader leader.id [] _ (omega arith) (λ at.
                then_modify 0 P R P _ _ (λ f p. (refl, p))
                  (then_drive 0 P R _ _ (λ elected.
                    then_modify 0 P R P _ _ (λ f p. (refl, p))
                      (then_event 0 P R new_leader_elected elected.id [] _ (omega arith) (λ _.
                        then_drive 0 P R _ _ (λ _. then_drive 0 P R _ _ (λ _.
                          then_event 0 P R restart_killed_node leader.id [] _ (omega arith) (λ _.
                            then_drive 0 P R _ _ (λ _.
                              then_event 0 P R cluster_settled 0 [] _ (omega arith)
                                (λ _. ends_done 0 P)))))))))))))

    pub majority_lem :
        Does {site = site} (At 0 P) (λ _. At 1 P) (isolate_leader_from_majority fuel hosts)
    unfolding isolate_leader_from_majority
    majority_lem =
        let R : Unit {0} → Faults site → Type 0 = λ _. At 1 P in
        then_drive 0 P R _ _ (λ leader. then_drive 0 P R _ _ (λ _.
          then_modify 0 P R P _ _ (λ f p. (refl, p))
            (then_drive 0 P R _ _ (λ _.
              then_event 0 P R isolate_leader leader.id _ _ (omega arith) (λ at.
                then_modify 1 P R P _ _ (λ f p. (refl, p))
                  (then_drive 1 P R _ _ (λ elected.
                    then_modify 1 P R P _ _ (λ f p. (refl, p))
                      (then_event 1 P R new_leader_elected elected.id [] _ (omega arith)
                        (λ _. ends_done 1 P)))))))))

    pub clear_follower_lem :
        (id : ℕ) → Does {site = site} (At 1 P) (λ _. At 0 P) (clear_follower fuel hosts id)
    unfolding clear_follower
    clear_follower_lem id =
        let R : Unit {0} → Faults site → Type 0 = λ _. At 0 P in
        then_drive 1 P R _ _ (λ _.
          then_event 1 P R clear_follower_isolation _ [] _ (omega arith) (λ at.
            then_modify 0 P R P _ _ (λ f p. (refl, p))
              (then_drive 0 P R _ _
                (λ _. then_event 0 P R cluster_settled 0 [] _ (omega arith) (λ _. ends_done 0 P)))))

    pub clear_all_lem :
        (n : ℕ) (hs : List Host) → Does {site = site} (At n P) (λ _. At n P) (clear_all hs)
    unfolding clear_all
    clear_all_lem n [] = ends_done n P
    clear_all_lem n (h ∷ hs) = then_drive n P (λ _. At n P) _ _ (λ _. clear_all_lem n hs)

    pub restore_all_lem :
        (n : ℕ) → Does {site = site} (At n P) (λ _. At 0 P) (restore_all fuel hosts)
    unfolding restore_all
    restore_all_lem n =
        let R : Unit {0} → Faults site → Type 0 = λ _. At 0 P in
        then_step (At n P) (λ _. At n P) R _ _ (clear_all_lem n hosts)
          (λ _. then_event n P R restore_network 0 [] _ (omega arith) (λ at.
            then_modify 0 P R P _ _ (λ f p. (refl, p))
              (then_drive 0 P R _ _ (λ leader.
                then_event 0 P R cluster_healed leader [] _ (omega arith) (λ _. ends_done 0 P)))))
