-- ===== src/Multihost/Faults.antt =====
-- The steps of the scenarios of internal/multihost/faults.go. A step that fails leaves the state that it has reached;
-- the events stand without their texts and wall-clock times.
pub mod Scenarios
mod Steps
mod Phases
pub mod Sequential
mod Tests
use Prim.Native.String.{◌++◌ as concat}
use quorum_log.Prelude.{
  ℕ, zero, suc, ◌+◌, ◌*◌, ◌/◌, ℤ, pos, negsuc, ltb_ℤ, String, Bool, true, false, not, Option, none,
  some, List, [], ◌∷◌, ◌++◌, length, ltb, leb, if◌then◌else◌, ◌==◌, nat_eq, string_eq, Except, ok,
  err,
}
use quorum_log.Prelude.Decimal.{decimal}
use quorum_log.Prelude.GoMap
use quorum_log.Prelude.GoMap.{GoMap}
use quorum_log.Multihost.{Host, FaultPlan}
use quorum_log.Multihost.Hosts.{chaos_url, join_with, host_by_id}
use quorum_log.Multihost.Exec.{shell_quote}
use quorum_log.Multihost.Traffic.{Mismatch}
use quorum_log.Multihost.Deploy.{
  Site, DriverError, no_leader, timed_out, is_cancelled, out_of_fuel, stopped_early, no_follower,
  Deployment, Driven, other_hosts, host_ids, run_on, ignore, kill, start, wait_ready, start_all,
  stop_all, find_leader, wait_leader,
}

-- The names of the events.
pub data EventName : Type 0 where
  kill_leader new_leader_elected restart_killed_node cluster_settled : EventName
  isolate_follower clear_follower_isolation isolate_leader : EventName
  restore_network cluster_healed restart_all_stop restart_all_ready : EventName
  verify_acknowledged_writes : EventName

-- FaultEvent
pub record FaultEvent : Type 0 where
  pub name : EventName
  pub at_op : ℕ
  pub at_nanos : ℕ
  pub node_id : ℕ
  pub peers : List ℕ

-- `POST /chaos/isolate` on a host, as a command for its shell.
abbrev pub isolate_body : List String → String
isolate_body ids =
    concat "{\"peers\":["
      (concat (join_with "," ids) "],\"drop_inbound\":true,\"drop_outbound\":true}")

abbrev decimals : List ℕ → List String
decimals [] = []
decimals (n ∷ ns) = decimal n ∷ decimals ns

unfoldable pub isolate_command : Host → List ℕ → String
isolate_command h peers = concat "curl -sS -f -X POST " (
    concat (chaos_url h)
      (concat "/chaos/isolate -d " (shell_quote (isolate_body (decimals peers)))))

unfoldable pub clear_command : Host → String
clear_command h = concat "curl -sS -f -X DELETE " (concat (chaos_url h) "/chaos/isolate")

module _ (site : Site) where
  -- FaultRunner, with the deployment that it drives
  pub record Faults : Type 0 where
    pub dep : Deployment site
    pub hosts : List Host
    pub events : List FaultEvent
    pub kill_at : ℕ
    pub isolate_follower_at : ℕ
    pub clear_follower_at : ℕ
    pub isolate_leader_at : ℕ
    pub restore_at : ℕ
    pub isolated_follower : ℕ
    pub isolated_leader : ℕ
    pub killed_leader : ℕ
    pub new_leader_after_kill : ℕ
    pub new_leader_after_isolate : ℕ
    pub restart_issued : ℕ
    pub restart_ready : ℕ
    pub restart_verified : Bool
    pub restart_verified_keys : ℕ
    pub restart_mismatches : List Mismatch

  -- A step of the runner.
  abbrev pub Run : Type 0 → Type 0
  Run A = Faults → Faults × Except (DriverError site.Error) A

-- The one leader, if there is one.
abbrev pub only : Option (GoMap ℕ ℕ) → Option ℕ
only none = none
only (some leaders) = elim leaders.entries [
  | [] ↦ none
  | (id, _) ∷ others ↦ elim others [ [] ↦ some id | _ ∷ _ ↦ none ]
]

-- A host that is not found has the zero value.
abbrev pub host_of : Option Host → ℕ → Host
host_of none id = record {
  id = 0;
  name = "";
  ssh = "";
  advertise = "";
  raft_port = pos 0;
  chaos_port = pos 0;
  data_dir = "";
  goos = "";
  goarch = "";
}
host_of (some h) id = h

module _ (site : Site) where
  -- The leaders that the hosts report, or none at the first host that has no answer or no leader.
  unfoldable pub reported : site.State → List Host → GoMap ℕ ℕ → site.State × Option (GoMap ℕ ℕ)
  reported world [] leaders = (world, some leaders)
  reported world (h ∷ hosts) leaders =
      let (world', answer) = site.fetch_status world h in
      elim answer [
        | err _ ↦ (world', none)
        | ok st ↦ elim (st.leader == 0) [
          | true ↦ (world', none)
          | false ↦
              reported world' hosts
                (GoMap.put leaders st.leader (GoMap.get_or leaders st.leader 0 + 1))
        ]
      ]

module _ {site : Site} where
  -- What follows a step that did not fail.
  abbrev pub next :
      {A B : Type 0}
      → Faults site × Except (DriverError site.Error) A
      → (A → Run site B)
      → Faults site × Except (DriverError site.Error) B
  next (f, ok a) k = k a f
  next (f, err e) k = (f, err e)

  infixl 5 ◌>>=◌ ◌>>◌
  unfoldable pub ◌>>=◌ : {A B : Type 0} → Run site A → (A → Run site B) → Run site B
  ◌>>=◌ m k f = next (m f) k

  abbrev pub ◌>>◌ : {A B : Type 0} → Run site A → Run site B → Run site B
  m >> k = m >>= λ _. k

  unfoldable pub done : Run site (Unit {0})
  done f = (f, ok tt)

  abbrev pub fail : {A : Type 0} → DriverError site.Error → Run site A
  fail e f = (f, err e)

  -- A step of the deployment.
  unfoldable pub drive : {A : Type 0} → (Deployment site → Driven site A) → Run site A
  drive step f = let (dep, out) = step f.dep in (record f { dep = dep }, out)

  -- event: it returns the time.
  unfoldable pub event : EventName → ℕ → List ℕ → Run site ℕ
  event name node_id peers f =
      let (world, now) = site.now f.dep.world in
      (
        record f {
          dep = record f.dep { world = world };
          events =
              f.events
              ++ record {
                name = name;
                at_op = site.completed world;
                at_nanos = now;
                node_id = node_id;
                peers = peers;
              }
                ∷ [];
        },
        ok now,
      )

  unfoldable pub modify : (Faults site → Faults site) → Run site (Unit {0})
  modify change f = (change f, ok tt)

  -- The loop of waitOp.
  unfoldable pub await_op : ℕ → ℤ → Deployment site → Driven site (Unit {0})
  await_op zero n d = (d, err out_of_fuel)
  await_op (suc fuel) n d = elim (ltb_ℤ (pos (site.completed d.world)) n) [
    | false ↦ (d, ok tt)
    | true ↦
        if site.finished d.world
        then (d, err stopped_early)
        else if site.cancelled d.world
        then (d, err is_cancelled)
        else await_op fuel n (record d { world = site.sleep d.world })
  ]

  -- waitOp
  abbrev pub wait_op : ℕ → ℤ → Run site (Unit {0})
  wait_op fuel n = drive (await_op fuel n)

  -- isolate
  abbrev pub isolate : Host → List ℕ → Run site (Unit {0})
  isolate h peers = drive (λ d. ignore (run_on d h (isolate_command h peers)))

  -- clearIsolation
  abbrev pub clear_isolation : Host → Run site (Unit {0})
  clear_isolation h = drive (λ d. ignore (run_on d h (clear_command h)))

  -- chaosState, without its text, which only describes an event
  abbrev pub chaos_state : Host → Run site (Unit {0})
  chaos_state h =
      drive (λ d. ((run_on d h (concat "curl -sS -f " (concat (chaos_url h) "/chaos"))).0, ok tt))

  -- FindLeader on the hosts of the inventory.
  abbrev pub the_leader : List Host → Run site Host
  the_leader hosts = drive (λ d.
      let (world, found) = find_leader site d.world hosts in
      (record d { world = world }, elim found [ none ↦ err no_leader | some (h, _) ↦ ok h ]))

  -- The loop of waitAllAgreeOnLeader.
  unfoldable pub await_agreement : ℕ → ℕ → List Host → Deployment site → Driven site ℕ
  unfolding reported
  await_agreement zero deadline hosts d = (d, err out_of_fuel)
  await_agreement (suc fuel) deadline hosts d =
      let (world, leaders) = reported site d.world hosts GoMap.empty in
      let (world', now) = site.now world in
      elim (only leaders) [
        | some id ↦ (record d { world = world' }, ok id)
        | none ↦
            if ltb deadline now
            then (record d { world = world' }, err timed_out)
            else if site.cancelled world'
            then (record d { world = world' }, err is_cancelled)
            else await_agreement fuel deadline hosts (record d { world = site.sleep world' })
      ]

  -- waitAllAgreeOnLeader
  unfoldable pub wait_agreement : ℕ → ℕ → List Host → Deployment site → Driven site ℕ
  unfolding await_agreement
  wait_agreement fuel timeout hosts d =
      let (world, now) = site.now d.world in
      await_agreement fuel (now + timeout) hosts (record d { world = world })

  abbrev pub agree : ℕ → ℕ → List Host → Run site ℕ
  agree fuel timeout hosts = drive (wait_agreement fuel timeout hosts)

  abbrev pub new_leader : ℕ → List Host → ℕ → Run site Host
  new_leader fuel hosts exclude = drive (λ d. wait_leader fuel 30_000_000_000 exclude d hosts)

  -- `if plan.XAtOp > 0 { waitOp; ... }`
  abbrev pub when : ℤ → Run site (Unit {0}) → Run site (Unit {0})
  when at_op step = if ltb_ℤ (pos 0) at_op then step else done
