-- ===== src/Multihost/Deploy.antt =====
-- internal/multihost/status.go and deploy.go: the state of the nodes, their start and their end, over
-- the executor, the requests to /status and the clock as a parameter. A loop that polls until a
-- deadline runs on fuel, and says so when that is used up.
use Prim.Native.String.{◌++◌ as concat}
use quorum_log.Prelude.{
  ℕ, zero, suc, ◌+◌, ℤ, String, Bool, true, false, not, Option, none, some, List, [], ◌∷◌, map, ltb,
  if◌then◌else◌, ◌==◌, nat_eq, string_eq, Except, ok, err,
}
use quorum_log.Prelude.GoMap
use quorum_log.Prelude.GoMap.{GoMap}
use quorum_log.Prelude.Text.{before_first}
use quorum_log.Multihost.{Host}
use quorum_log.Multihost.Hosts.{start_script_path, pid_path}
use quorum_log.Multihost.Scripts.{signal_script, last_int_line}

-- NodeStatus, as far as the driver reads it
pub record NodeStatus : Type 0 where
  pub id : ℕ
  pub leader : ℕ
  pub is_leader : Bool

-- The hosts, the traffic and the clock as the driver sees them. A time is a number of nanoseconds.
pub record Site : Type 1 where
  pub State : Type 0
  pub Error : Type 0
  -- Executor.Run and Executor.Copy
  pub run : State → Host → String → State × Except Error String
  pub copy : State → Host → String → String → State × Except Error (Unit {0})
  -- FetchStatus
  pub fetch_status : State → Host → State × Except Error NodeStatus
  -- statusOK
  pub status_ok : State → Host → State × Bool
  pub now : State → State × ℕ
  pub sleep : State → State
  pub cancelled : State → Bool
  -- Workload.Completed and Workload.Finished
  pub completed : State → ℕ
  pub finished : State → Bool

-- The errors of the driver's steps.
pub data DriverError (Error : Type 0) : Type 0 where
  failed : Error → DriverError Error
  no_leader no_pid timed_out is_cancelled out_of_fuel stopped_early no_follower : DriverError Error

-- OtherHosts
unfoldable pub other_hosts : List Host → ℕ → List Host
other_hosts [] id = []
other_hosts (h ∷ hosts) id =
    let rest = other_hosts hosts id in if not (h.id == id) then h ∷ rest else rest

-- HostIDs
abbrev pub host_ids : List Host → List ℕ
host_ids hosts = map (λ h. h.id) hosts

module _ (site : Site) where
  -- Deployment, with the state of the site
  pub record Deployment : Type 0 where
    pub world : site.State
    pub pids : GoMap ℕ ℤ

  abbrev pub Driven : Type 0 → Type 0
  Driven A = Deployment × Except (DriverError site.Error) A

-- Whether this is a leader that WaitLeader wants.
abbrev pub wanted : ℕ → Option (Host × NodeStatus) → Option Host
wanted exclude none = none
wanted exclude (some (h, st)) = if not (st.id == exclude) then some h else none

module _ (site : Site) where
  -- Whether every host answers; the loop breaks at the first that does not.
  unfoldable pub all_ready : site.State → List Host → site.State × Bool
  all_ready world [] = (world, true)
  all_ready world (h ∷ hosts) =
      let (world', ready) = site.status_ok world h in
      elim ready [ true ↦ all_ready world' hosts | false ↦ (world', false) ]

  -- FindLeader
  unfoldable pub find_leader : site.State → List Host → site.State × Option (Host × NodeStatus)
  find_leader world [] = (world, none)
  find_leader world (h ∷ hosts) =
      let (world', answer) = site.fetch_status world h in
      elim answer [
        | err _ ↦ find_leader world' hosts
        | ok st ↦
            (let rest = find_leader world' hosts in
              if st.is_leader then (world', some (h, st)) else rest)
      ]

module _ {site : Site} where
  -- A command on a host.
  abbrev pub run_on : Deployment site → Host → String → Driven site String
  run_on d h script =
      let (world, out) = site.run d.world h script in
      (record d { world = world }, elim out [ ok text ↦ ok text | err e ↦ err (failed e) ])

  abbrev pub ignore : Driven site String → Driven site (Unit {0})
  ignore (d, ok _) = (d, ok tt)
  ignore (d, err e) = (d, err e)

  -- Kill
  unfoldable pub kill : Deployment site → Host → Driven site (Unit {0})
  unfolding signal_script
  kill d h = ignore (run_on d h (signal_script h "9"))

  -- Start
  unfoldable pub start : Deployment site → Host → Driven site ℤ
  unfolding last_int_line
  start d h =
      let (d', out) = run_on d h (concat "sh " (start_script_path h)) in
      elim out [
        | err e ↦ (d', err e)
        | ok text ↦ elim (last_int_line text) [
          | none ↦ (d', err no_pid)
          | some pid ↦ (record d' { pids = GoMap.put d'.pids h.id pid }, ok pid)
        ]
      ]

  -- The loop of Stop, which polls until the process is gone or the deadline has passed.
  unfoldable pub await_exit : ℕ → ℕ → Deployment site → Host → Driven site (Unit {0})
  unfolding kill
  await_exit zero deadline d h = (d, err out_of_fuel)
  await_exit (suc fuel) deadline d h =
      let (world, now) = site.now d.world in
      let command =
        concat "ps -p $(cat " (concat (pid_path h) ") -o command= 2>/dev/null || true") in
      let (d', out) = run_on (record d { world = world }) h command in
      elim (ltb now deadline) [
        | false ↦ kill (record d { world = world }) h
        | true ↦ elim out [
          | err e ↦ await_exit fuel deadline (record d' { world = site.sleep d'.world }) h
          | ok text ↦ elim (before_first text "quorumlogd") [
            | none ↦ (d', ok tt)
            | some _ ↦ await_exit fuel deadline (record d' { world = site.sleep d'.world }) h
          ]
        ]
      ]

  -- Stop
  unfoldable pub stop : ℕ → Deployment site → Host → Driven site (Unit {0})
  unfolding await_exit signal_script
  stop fuel d h =
      let (d', out) = run_on d h (signal_script h "TERM") in
      elim out [
        | err e ↦ (d', err e)
        | ok _ ↦
            (let (world, now) = site.now d'.world in
              await_exit fuel (now + 10_000_000_000) (record d' { world = world }) h)
      ]

  -- StopAll: the errors of the hosts
  unfoldable pub stop_all :
      ℕ → Deployment site → List Host → Deployment site × List (ℕ × DriverError site.Error)
  unfolding stop
  stop_all fuel d [] = (d, [])
  stop_all fuel d (h ∷ hosts) =
      let (d', out) = stop fuel d h in
      let (d'', errors) = stop_all fuel d' hosts in
      (d'', elim out [ ok _ ↦ errors | err e ↦ (h.id, e) ∷ errors ])

  -- The loop of WaitReady.
  unfoldable pub await_ready : ℕ → ℕ → Deployment site → List Host → Driven site (Unit {0})
  unfolding all_ready
  await_ready zero deadline d hosts = (d, err out_of_fuel)
  await_ready (suc fuel) deadline d hosts =
      let (world, ready) = all_ready site d.world hosts in
      let (world', now) = site.now world in
      elim ready [
        | true ↦ (record d { world = world }, ok tt)
        | false ↦
            if ltb deadline now
            then (record d { world = world' }, err timed_out)
            else if site.cancelled world'
            then (record d { world = world' }, err is_cancelled)
            else await_ready fuel deadline (record d { world = site.sleep world' }) hosts
      ]

  -- WaitReady
  unfoldable pub wait_ready : ℕ → ℕ → Deployment site → List Host → Driven site (Unit {0})
  unfolding await_ready
  wait_ready fuel timeout d hosts =
      let (world, now) = site.now d.world in
      await_ready fuel (now + timeout) (record d { world = world }) hosts

  -- The loop of StartAll.
  unfoldable pub start_each : Deployment site → List Host → Driven site (Unit {0})
  unfolding start
  start_each d [] = (d, ok tt)
  start_each d (h ∷ hosts) =
      let (d', out) = start d h in elim out [ err e ↦ (d', err e) | ok _ ↦ start_each d' hosts ]

  -- StartAll
  unfoldable pub start_all : ℕ → Deployment site → List Host → Driven site (Unit {0})
  unfolding start_each wait_ready
  start_all fuel d hosts =
      let (d', out) = start_each d hosts in
      elim out [ err e ↦ (d', err e) | ok _ ↦ wait_ready fuel 30_000_000_000 d' hosts ]

  -- The loop of WaitLeader.
  unfoldable pub await_leader : ℕ → ℕ → ℕ → Deployment site → List Host → Driven site Host
  unfolding find_leader
  await_leader zero deadline exclude d hosts = (d, err out_of_fuel)
  await_leader (suc fuel) deadline exclude d hosts =
      let (world, found) = find_leader site d.world hosts in
      let (world', now) = site.now world in
      elim (wanted exclude found) [
        | some h ↦ (record d { world = world' }, ok h)
        | none ↦
            if ltb deadline now
            then (record d { world = world' }, err timed_out)
            else if site.cancelled world'
            then (record d { world = world' }, err is_cancelled)
            else await_leader fuel deadline exclude (record d { world = site.sleep world' }) hosts
      ]

  -- WaitLeader, without the time that it took
  unfoldable pub wait_leader : ℕ → ℕ → ℕ → Deployment site → List Host → Driven site Host
  unfolding await_leader
  wait_leader fuel timeout exclude d hosts =
      let (world, now) = site.now d.world in
      await_leader fuel (now + timeout) exclude (record d { world = world }) hosts
