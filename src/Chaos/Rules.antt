-- ===== src/Chaos/Rules.antt =====
-- The drop rules of internal/server/chaos.go.
use quorum_log.Prelude.{
  ℕ, ◌≡◌, ◌≢◌, refl, ap, ◌∙◌, Bool, true, false, not, ◌&&◌, ◌||◌, Option, none, some, List, [], ◌∷◌,
  map, ltb, select, insert_by, sort_by, arith, ◌==◌, nat_eq, string_eq, lookup,
}
use quorum_log.Prelude.GoMap
use quorum_log.Prelude.GoMap.{GoMap, IsMap, IsMap-put, value_or}
use quorum_log.Chaos.{
  ChaosState, ChaosIsolateReq, allow_inbound, allow_outbound, mark, isolate, sorted_ids, current,
  direction, post_isolate, handle_chaos_isolate,
}

unfoldable pub has : ℕ → List ℕ → Bool
has id [] = false
has id (x ∷ xs) = x == id || has id xs

-- The peers that a request names: 0 is none.
abbrev pub named : ℕ → List ℕ → Bool
named id peers = not (id == 0) && has id peers

-- The directions that a request turns on, inbound and outbound, by the table of the endpoint: both
-- when it leaves both out, and else those that it sets to true.
abbrev pub asked : Option Bool → Option Bool → Bool × Bool
asked none none = (true, true)
asked (some i) none = (i, false)
asked none (some o) = (false, o)
asked (some i) (some o) = (i, o)

directions :
    (req : ChaosIsolateReq) (i o : Option Bool)
    → req.drop_inbound ≡ i
    → req.drop_outbound ≡ o
    → (direction req i ≡ (asked i o).0) × (direction req o ≡ (asked i o).1)
unfolding direction
directions req none none e e' = (ground (arith, e, e'), ground (arith, e, e'))
directions req (some i) none e e' = (ground (arith, e, e'), ground (arith, e, e'))
directions req none (some o) e e' = (ground (arith, e, e'), ground (arith, e, e'))
directions req (some i) (some o) e e' = (ground (arith, e, e'), ground (arith, e, e'))

mark_lem :
    (drop : Bool) (m : GoMap ℕ Bool) (p id : ℕ)
    → GoMap.get_or (mark drop m p) id false ≡ (drop && p == id) || GoMap.get_or m id false
unfolding mark
mark_lem drop m p id = ground (arith, GoMap.get_or-put m p id true false)

isolate_in :
    (c : ChaosState) (peers : List ℕ) (i o : Bool) (id : ℕ)
    → GoMap.get_or (isolate c peers i o).drop_in id false
      ≡ (i && named id peers) || GoMap.get_or c.drop_in id false
unfolding isolate has
isolate_in c [] i o id = ground arith
isolate_in c (p ∷ peers) i o id = ground (
  arith,
  isolate_in c peers i o id,
  isolate_in (record { drop_in = mark i c.drop_in p; drop_out = mark o c.drop_out p }) peers i o id,
  mark_lem i c.drop_in p id,
)

isolate_out :
    (c : ChaosState) (peers : List ℕ) (i o : Bool) (id : ℕ)
    → GoMap.get_or (isolate c peers i o).drop_out id false
      ≡ (o && named id peers) || GoMap.get_or c.drop_out id false
unfolding isolate has
isolate_out c [] i o id = ground arith
isolate_out c (p ∷ peers) i o id = ground (
  arith,
  isolate_out c peers i o id,
  isolate_out (record { drop_in = mark i c.drop_in p; drop_out = mark o c.drop_out p }) peers i o
      id,
  mark_lem o c.drop_out p id,
)

posted :
    (node_id : ℕ) (c : ChaosState) (req : ChaosIsolateReq) (peers : List ℕ)
    → req.peers ≡ peers
    → peers ≢ []
    → (post_isolate node_id c (some req)).0
      ≡ isolate c req.peers (direction req req.drop_inbound) (direction req req.drop_outbound)
unfolding post_isolate
posted node_id c req [] e ne = absurd (ne refl)
posted node_id c req (p ∷ peers) e ne = ground arith

-- A request that names peers blocks exactly those, besides the ones blocked before, in the
-- directions that it turns on: both when it leaves both out, and else those it sets to true. The
-- number 0 is never blocked.
pub isolate-allow :
    (node_id : ℕ) (c : ChaosState) (req : ChaosIsolateReq) (id : ℕ)
    → req.peers ≢ []
    → (allow_inbound (handle_chaos_isolate node_id c "POST" (some req)).0 id
        ≡ allow_inbound c id
          && not ((asked req.drop_inbound req.drop_outbound).0 && named id req.peers))
      × (allow_outbound (handle_chaos_isolate node_id c "POST" (some req)).0 id
          ≡ allow_outbound c id
            && not ((asked req.drop_inbound req.drop_outbound).1 && named id req.peers))
unfolding handle_chaos_isolate allow_inbound allow_outbound
isolate-allow node_id c req id some_peers =
    let (inbound, outbound) = directions req req.drop_inbound req.drop_outbound refl refl in
    let i = direction req req.drop_inbound in
    let o = direction req req.drop_outbound in
    rw (posted node_id c req req.peers refl some_peers) (
      ground (arith, isolate_in c req.peers i o id, inbound),
      ground (arith, isolate_out c req.peers i o id, outbound),
    )

has-insert_by : (id x : ℕ) (xs : List ℕ) → has id (insert_by ltb x xs) ≡ x == id || has id xs
unfolding has insert_by
has-insert_by id x [] = refl
has-insert_by id x (y ∷ ys) = ground (arith, has-insert_by id x ys)

has-sort_by : (id : ℕ) (xs : List ℕ) → has id (sort_by ltb xs) ≡ has id xs
unfolding has sort_by
has-sort_by id [] = refl
has-sort_by id (x ∷ xs) =
    has-insert_by id x (sort_by ltb xs) ∙ ap (λ b. x == id || b) (has-sort_by id xs)

abbrev marked : List (ℕ × Bool) → List ℕ
marked entries = map (λ e. e.0) (select (λ e. e.1) entries)

has-marked :
    (id : ℕ) (entries : List (ℕ × Bool))
    → IsMap (record { entries = entries })
    → has id (marked entries) ≡ value_or (lookup id entries) false
unfolding has select lookup
has-marked id [] d = refl
has-marked id ((k, v) ∷ entries) d =
    ground (arith, has-marked id entries d.1, d.0, nat_eq.beq_iff k id)

has-sorted_ids :
    (id : ℕ) (m : GoMap ℕ Bool) → IsMap m → has id (sorted_ids m) ≡ GoMap.get_or m id false
unfolding sorted_ids GoMap.get_or GoMap.get
has-sorted_ids id m d = has-sort_by id (marked m.entries) ∙ has-marked id m.entries d

-- Of drop sets that have no peer twice, the endpoint reports exactly the peers that are blocked, in
-- each direction.
pub current-allow :
    (c : ChaosState) (id : ℕ)
    → IsMap c.drop_in
    → IsMap c.drop_out
    → (has id (current c).0 ≡ not (allow_inbound c id))
      × (has id (current c).1 ≡ not (allow_outbound c id))
unfolding current allow_inbound allow_outbound
current-allow c id i o =
    (ground (arith, has-sorted_ids id c.drop_in i), ground (arith, has-sorted_ids id c.drop_out o))
