-- ===== src/Multihost/Faults/Scenarios.antt =====
-- The scenarios of internal/multihost/faults.go.
use quorum_log.Prelude.{
  ℕ, ◌+◌, ◌*◌, ◌/◌, pos, not, List, [], ◌∷◌, length, ltb, leb, if◌then◌else◌, ◌==◌, nat_eq,
  string_eq, ok, err,
}
use quorum_log.Multihost.{Host, FaultPlan}
use quorum_log.Multihost.Hosts.{host_by_id}
use quorum_log.Multihost.Traffic.{Mismatch}
use quorum_log.Multihost.Deploy.{
  Site, no_follower, Deployment, Driven, other_hosts, host_ids, kill, start, wait_ready, start_all,
  stop_all, wait_leader,
}
use quorum_log.Multihost.Faults.{
  kill_leader, new_leader_elected, restart_killed_node, cluster_settled, isolate_follower,
  clear_follower_isolation, isolate_leader, restore_network, cluster_healed, restart_all_stop,
  restart_all_ready, verify_acknowledged_writes, Run, host_of, ◌>>=◌, ◌>>◌, done, drive, event,
  modify, wait_op, isolate, clear_isolation, chaos_state, the_leader, agree, new_leader, when,
  wait_agreement,
}

module _ {site : Site} where
  -- The first part of runFull, behind its waitOp: the leader is killed and restarted.
  unfoldable pub kill_phase : ℕ → List Host → Run site (Unit {0})
  unfolding event kill start wait_ready wait_leader wait_agreement
  kill_phase fuel hosts = do
    leader ← the_leader hosts
    modify (λ f. record f { killed_leader = leader.id })
    drive (λ d. kill d leader)
    at ← event kill_leader leader.id []
    modify (λ f. record f { kill_at = at })
    elected ← new_leader fuel (other_hosts hosts leader.id) leader.id
    modify (λ f. record f { new_leader_after_kill = elected.id })
    event new_leader_elected elected.id []
    drive (λ d. start d leader)
    drive (λ d. wait_ready fuel 30_000_000_000 d (leader ∷ []))
    event restart_killed_node leader.id []
    agree fuel 30_000_000_000 hosts
    event cluster_settled 0 []
    done

  -- `followers[0]`
  abbrev pub first_host : List Host → Run site Host
  first_host [] f = (f, err no_follower)
  first_host (h ∷ hosts) f = (f, ok h)

  -- The second part, behind its waitOp: a follower is isolated.
  unfoldable pub follower_phase : List Host → Run site (Unit {0})
  unfolding event
  follower_phase hosts = do
    leader ← the_leader hosts
    follower ← first_host (other_hosts hosts leader.id)
    let peers = host_ids (other_hosts hosts follower.id)
    isolate follower peers
    modify (λ f. record f { isolated_follower = follower.id })
    chaos_state follower
    at ← event isolate_follower follower.id peers
    modify (λ f. record f { isolate_follower_at = at })

  -- isolateLeaderFromMajority
  unfoldable pub isolate_leader_from_majority : ℕ → List Host → Run site (Unit {0})
  unfolding event
  isolate_leader_from_majority fuel hosts = do
    leader ← the_leader hosts
    let peers = host_ids (other_hosts hosts leader.id)
    isolate leader peers
    modify (λ f. record f { isolated_leader = leader.id })
    chaos_state leader
    at ← event isolate_leader leader.id peers
    modify (λ f. record f { isolate_leader_at = at })
    elected ← new_leader fuel (other_hosts hosts leader.id) leader.id
    modify (λ f. record f { new_leader_after_isolate = elected.id })
    event new_leader_elected elected.id []
    done

  -- The follower that is isolated is connected again.
  unfoldable pub clear_follower : ℕ → List Host → ℕ → Run site (Unit {0})
  unfolding event
  clear_follower fuel hosts id = do
    let follower = host_of (host_by_id hosts id) id
    clear_isolation follower
    at ← event clear_follower_isolation follower.id []
    modify (λ f. record f { clear_follower_at = at })
    agree fuel 30_000_000_000 hosts
    event cluster_settled 0 []
    done

  -- The third part, behind its waitOp, for the isolated follower: the leader is isolated.
  unfoldable pub leader_part : ℕ → List Host → ℕ → Run site (Unit {0})
  unfolding clear_follower isolate_leader_from_majority
  leader_part fuel hosts isolated = do
    if not (isolated == 0) then clear_follower fuel hosts isolated else done
    isolate_leader_from_majority fuel hosts

  unfoldable pub leader_phase : ℕ → List Host → Run site (Unit {0})
  unfolding leader_part
  leader_phase fuel hosts f = leader_part fuel hosts f.isolated_follower f

  -- The loop of restoreAll.
  unfoldable pub clear_all : List Host → Run site (Unit {0})
  clear_all [] = done
  clear_all (h ∷ hosts) = clear_isolation h >> clear_all hosts

  -- restoreAll
  unfoldable pub restore_all : ℕ → List Host → Run site (Unit {0})
  unfolding clear_all event
  restore_all fuel hosts = do
    clear_all hosts
    at ← event restore_network 0 []
    modify (λ f. record f { restore_at = at })
    leader ← agree fuel 60_000_000_000 hosts
    event cluster_healed leader []
    done

  -- runFull
  unfoldable pub run_full : ℕ → FaultPlan → List Host → Run site (Unit {0})
  unfolding kill_phase follower_phase leader_phase restore_all
  run_full fuel plan hosts = do
    when plan.kill_leader_at_op (wait_op fuel plan.kill_leader_at_op >> kill_phase fuel hosts)
    when plan.isolate_follower_at_op
        (wait_op fuel plan.isolate_follower_at_op >> follower_phase hosts)
    when plan.isolate_leader_at_op
        (wait_op fuel plan.isolate_leader_at_op >> leader_phase fuel hosts)
    when plan.restore_at_op (wait_op fuel plan.restore_at_op >> restore_all fuel hosts)

  -- RestartAllAndVerify, behind its first event; VerifyAcked is an argument.
  unfoldable pub restart_all_and_verify :
      ℕ → List Host → (Deployment site → Driven site (List Mismatch × ℕ)) → Run site (Unit {0})
  unfolding event stop_all start_all
  restart_all_and_verify fuel hosts verify_acked = do
    issued ← event restart_all_stop 0 []
    modify (λ f. record f { restart_issued = issued })
    drive (λ d.
        let (d', errors) = stop_all fuel d hosts in
        (d', elim errors [ [] ↦ ok tt | (_, e) ∷ _ ↦ err e ]))
    drive (λ d. start_all fuel d hosts)
    leader ← agree fuel 60_000_000_000 hosts
    ready ← event restart_all_ready leader []
    modify (λ f. record f { restart_ready = ready })
    verified ← drive verify_acked
    modify (λ f. record f {
      restart_mismatches = verified.0;
      restart_verified_keys = verified.1;
      restart_verified = length verified.0 == 0;
    })
    event verify_acknowledged_writes 0 []
    done

-- The thresholds of runLeaderIsolationOnly.
unfoldable pub isolate_at : ℕ → ℕ
isolate_at ops = let at = ops * 3 / 10 in if ltb at 1 then 1 else at

unfoldable pub restore_threshold : ℕ → ℕ
unfolding isolate_at
restore_threshold ops =
    let at = ops * 3 / 4 in if leb at (isolate_at ops) then isolate_at ops + 1 else at

module _ {site : Site} where
  -- runLeaderIsolationOnly, for the number of operations, which is not negative
  unfoldable pub run_leader_isolation_only : ℕ → ℕ → List Host → Run site (Unit {0})
  unfolding isolate_at restore_threshold isolate_leader_from_majority restore_all
  run_leader_isolation_only fuel ops hosts = do
    wait_op fuel (pos (isolate_at ops))
    isolate_leader_from_majority fuel hosts
    wait_op fuel (pos (restore_threshold ops))
    restore_all fuel hosts
