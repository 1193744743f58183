-- ===== src/Chaos.antt =====
-- internal/server/chaos.go: the fault-injection endpoint of a node. What encoding/json makes of a
-- request's body, and the package net of an address, are arguments.
pub mod Rules
pub mod Address
mod Tests
use quorum_log.Prelude.{
  ℕ, String, Bool, true, false, not, ◌&&◌, ◌||◌, Option, none, some, List, [], ◌∷◌, map, ltb,
  select, sort_by, if◌then◌else◌, ◌==◌, nat_eq, string_eq,
}
use quorum_log.Prelude.GoMap
use quorum_log.Prelude.GoMap.{GoMap}

pub record ChaosState : Type 0 where
  pub drop_in : GoMap ℕ Bool
  pub drop_out : GoMap ℕ Bool

-- newChaosState
abbrev pub new_chaos_state : ChaosState
new_chaos_state = record { drop_in = GoMap.empty; drop_out = GoMap.empty }

unfoldable pub allow_inbound : ChaosState → ℕ → Bool
allow_inbound c from = not (GoMap.get_or c.drop_in from false)

unfoldable pub allow_outbound : ChaosState → ℕ → Bool
allow_outbound c to = not (GoMap.get_or c.drop_out to false)

-- `if drop { m[p] = true }`
unfoldable pub mark : Bool → GoMap ℕ Bool → ℕ → GoMap ℕ Bool
mark drop m p = if drop then GoMap.put m p true else m

unfoldable pub isolate : ChaosState → List ℕ → Bool → Bool → ChaosState
isolate c [] drop_inbound drop_outbound = c
isolate c (p ∷ peers) drop_inbound drop_outbound =
    if p == 0
    then isolate c peers drop_inbound drop_outbound
    else isolate
        (record {
          drop_in = mark drop_inbound c.drop_in p;
          drop_out = mark drop_outbound c.drop_out p;
        })
        peers drop_inbound drop_outbound

-- clear
abbrev pub clear : ChaosState → ChaosState
clear c = record { drop_in = GoMap.empty; drop_out = GoMap.empty }

-- sortedIDs
unfoldable pub sorted_ids : GoMap ℕ Bool → List ℕ
sorted_ids m = sort_by ltb (map (λ e. e.0) (select (λ e. e.1) m.entries))

unfoldable pub current : ChaosState → List ℕ × List ℕ
current c = (sorted_ids c.drop_in, sorted_ids c.drop_out)

pub record ChaosIsolateReq : Type 0 where
  pub peers : List ℕ
  pub drop_inbound : Option Bool
  pub drop_outbound : Option Bool

pub record ChaosStateResp : Type 0 where
  pub node_id : ℕ
  pub drop_inbound : List ℕ
  pub drop_outbound : List ℕ

-- A reply: an error with its status, or the state with status 200.
pub data Reply : Type 0 where
  failed : ℕ → Reply
  state : ChaosStateResp → Reply

unfoldable pub report : ℕ → ChaosState → Reply
report node_id c =
    let (inbound, outbound) = current c in
    state (record { node_id = node_id; drop_inbound = inbound; drop_outbound = outbound })

-- handleChaosState
unfoldable pub handle_chaos_state : ℕ → ChaosState → String → Reply
handle_chaos_state node_id c method = if not (method == "GET") then failed 405 else report node_id c

abbrev is_set : Option Bool → Bool
is_set none = false
is_set (some _) = true

-- `d != nil && *d`
abbrev pub is_on : Option Bool → Bool
is_on none = false
is_on (some b) = b

-- A direction of the request: both are on when both are omitted.
unfoldable pub direction : ChaosIsolateReq → Option Bool → Bool
direction req d = if is_set req.drop_inbound || is_set req.drop_outbound then is_on d else true

-- The case `http.MethodPost` of handleChaosIsolate, with what the body decodes to.
unfoldable pub post_isolate : ℕ → ChaosState → Option ChaosIsolateReq → ChaosState × Reply
post_isolate node_id c none = (c, failed 400)
post_isolate node_id c (some req) = elim req.peers [
  | [] ↦ (c, failed 400)
  | _ ∷ _ ↦
      let c' =
        isolate c req.peers (direction req req.drop_inbound) (direction req req.drop_outbound) in
      (c', report node_id c')
]

unfoldable pub handle_chaos_isolate :
    ℕ → ChaosState → String → Option ChaosIsolateReq → ChaosState × Reply
handle_chaos_isolate node_id c method body =
    if method == "POST"
    then post_isolate node_id c body
    else if method == "DELETE"
    then (clear c, report node_id (clear c))
    else (c, failed 405)
