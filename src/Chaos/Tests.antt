-- ===== src/Chaos/Tests.antt =====
-- The theorems about internal/server/chaos.go at concrete inputs.
use quorum_log.Prelude.{
  ℕ, String, ◌≡◌, ◌≢◌, refl, true, not, ◌&&◌, none, some, [], ◌∷◌, ◌==◌, string_eq, if◌then◌else◌,
  nat_eq, select, sort_by, insert_by, lookup,
}
use quorum_log.Prelude.GoMap
use quorum_log.Chaos.{
  ChaosState, ChaosIsolateReq, new_chaos_state, allow_inbound, allow_outbound, current,
  handle_chaos_isolate, sorted_ids,
}
use quorum_log.Chaos.Rules.{has, asked, named, isolate-allow, current-allow}
use quorum_log.Chaos.Address.{
  Net, check_host, check_loopback_addr, IsLocal, check_loopback_addr-safe,
}

-- Only what comes from the peers 3 and 2 is to be dropped.
abbrev one_way : ChaosIsolateReq
one_way = record { peers = 3 ∷ 2 ∷ []; drop_inbound = some true; drop_outbound = none }

isolate-allow_example :
    (allow_inbound (handle_chaos_isolate 1 new_chaos_state "POST" (some one_way)).0 2
      ≡ allow_inbound new_chaos_state 2
        && not ((asked one_way.drop_inbound one_way.drop_outbound).0 && named 2 one_way.peers))
    × (allow_outbound (handle_chaos_isolate 1 new_chaos_state "POST" (some one_way)).0 2
        ≡ allow_outbound new_chaos_state 2
          && not ((asked one_way.drop_inbound one_way.drop_outbound).1 && named 2 one_way.peers))
isolate-allow_example = isolate-allow 1 new_chaos_state one_way 2 (λ e. cc e)

abbrev split : ChaosState
split = record { drop_in = record { entries = (3, true) ∷ (2, true) ∷ [] }; drop_out = GoMap.empty }

reports_in_order : current split ≡ (2 ∷ 3 ∷ [], [])
unfolding current sorted_ids select sort_by insert_by
reports_in_order = refl

abbrev one_host : Net
one_host = record {
  Ip = ℕ;
  split_host_port = λ addr. if addr == "127.0.0.1:80" then some ("127.0.0.1", "80") else none;
  parse_ip = λ host. if host == "127.0.0.1" then some 127 else none;
  is_loopback = λ ip. ip == 127;
}

check_loopback_addr-safe_example :
    (host port : String) × (one_host.split_host_port "127.0.0.1:80" ≡ some (host, port))
    × (port ≢ "")
    × IsLocal one_host host
unfolding check_loopback_addr check_host
check_loopback_addr-safe_example = check_loopback_addr-safe one_host "127.0.0.1:80" refl

current-allow_example :
    (has 2 (current split).0 ≡ not (allow_inbound split 2))
    × (has 2 (current split).1 ≡ not (allow_outbound split 2))
unfolding lookup
current-allow_example = current-allow split 2 (refl, (refl, tt)) tt
