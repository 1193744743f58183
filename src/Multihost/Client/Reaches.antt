-- ===== src/Multihost/Client/Reaches.antt =====
-- When put in internal/multihost/traffic.go succeeds.
use Prim.Native.String.{◌++◌ as concat}
use quorum_log.Prelude.{
  ℕ, ◌+◌, ◌≤◌, ◌<◌, length, subst, ◌⊎◌, ◌≡◌, ◌≢◌, refl, sym, subst, String, true, false, none, List,
  ◌==◌, nat_eq, string_eq, ok, arith, Bool-cases, inl, inr, beq_of_ne,
}
use quorum_log.Multihost.Client.{
  put_request, Response, Web, no_outcome, Trip, Turn, stop, again, base, PutBody, attempt,
  put_answer, send, put_turn, attempts, put,
}
use quorum_log.Multihost.Client.Outcomes.{TurnIs}
use quorum_log.Multihost.Client.Locations.{
  url_of, Leads, location-Leads, slashed-Leads, concat-empty,
}
use quorum_log.Multihost.History.{nth_text}
use quorum_log.Multihost.Hosts.{has_code}

abbrev pub IsListed : List String → String → Type 0
IsListed endpoints url = (n : ℕ) × (n < length endpoints) × (nth_text endpoints n ≡ url)

-- Where a client sends a write of a key.
abbrev pub path : String → String → String
path url key = concat url (concat "/kv/" key)

-- A run in which the node on a host answers a write with status 200 and every other listed node
-- redirects it there.
pub record Serves (web : Web) (endpoints : List String) (host key : String) (body : PutBody)
    : Type 0 where
  pub unslashed : has_code b'/' host ≡ false
  pub named : host ≢ ""
  pub unlike : host ≢ "kv"
  pub listed : IsListed endpoints (url_of host)
  -- rand.Intn
  pub picks : (world : web.State) (n : ℕ) → 1 ≤ n → (web.intn world n).1 < n
  pub parses : (url : String) → IsListed endpoints url → web.new_request (path url key) ≡ none
  pub calm : (world : web.State) → web.cancelled world ≡ false
  pub answers :
      (world : web.State)
      → (r : Response web.Body) × ((web.exchange world
            (put_request (path (url_of host) key) body)).1
          ≡ ok r)
        × (r.code ≡ 200)
  pub redirects :
      (world : web.State) (url : String)
      → IsListed endpoints url
      → url ≢ url_of host
      → (r : Response web.Body) × ((web.exchange world (put_request (path url key) body)).1 ≡ ok r)
        × (r.code ≡ 307)
        × ((r.location ≡ concat (url_of host) (concat "/kv/" key))
            ⊎ (r.location ≡ concat (url_of host) (concat "//kv/" key)))

module _ {web : Web} {endpoints : List String} {host key : String} {body : PutBody}
    (served : Serves web endpoints host key body) where
  abbrev leader : String
  leader = url_of host

  redirect-Leads :
      (location : String)
      → (location ≡ path leader key) ⊎ (location ≡ concat leader (concat "//kv/" key))
      → Leads host served.unslashed served.unlike location
  redirect-Leads location (inl e) =
      subst (Leads host served.unslashed served.unlike) (sym e)
        (location-Leads host served.unslashed served.unlike key served.named)
  redirect-Leads location (inr e) =
      subst (Leads host served.unslashed served.unlike) (sym e)
        (slashed-Leads host served.unslashed served.unlike key)

  -- The attempt at a node: it succeeds at the leader, and leads there from another one.
  abbrev Advances : Trip web → Turn web → Type 0
  Advances t u =
      TurnIs (λ t'. (t'.out.ok ≡ true) × (t'.out.attempts ≡ t.out.attempts))
        (λ t'. (t'.leader ≡ leader) × (t'.out.attempts ≡ t.out.attempts)) u

  abbrev deliver : Trip web → Turn web
  deliver t =
      send (λ t r. put_answer t body.value r) (λ url. put_request url body)
        (concat t.out.endpoint (concat "/kv/" key)) t

  deliver_leader :
      (t : Trip web)
      → t.out.endpoint ≡ leader
      → TurnIs (λ t'. (t'.out.ok ≡ true) × (t'.out.attempts ≡ t.out.attempts)) (λ t'. ⊥) (deliver t)
  unfolding send put_answer
  deliver_leader t at =
      let (r, answered, code) = served.answers t.world in
      let here =
        subst
          (λ e. (web.exchange t.world (put_request (concat e (concat "/kv/" key)) body)).1 ≡ ok r)
          (sym at) answered in
      let listed = subst (IsListed endpoints) (sym at) served.listed in
      rw (served.parses t.out.endpoint listed, here, send, code) (refl, refl)

  deliver_other :
      (t : Trip web)
      → IsListed endpoints t.out.endpoint
      → t.out.endpoint ≢ leader
      → Advances t (deliver t)
  unfolding send put_answer
  deliver_other t listed ne =
      let (r, answered, code, to) = served.redirects t.world t.out.endpoint listed ne in
      let (moved, there) = redirect-Leads r.location to in
      rw
        (
          served.parses t.out.endpoint listed,
          answered,
          send,
          code,
          moved,
          served.calm
              (web.exchange t.world
                (put_request (concat t.out.endpoint (concat "/kv/" key)) body)).0,
        )
        (there, refl)

module _ {web : Web} (P Q P' Q' : Trip web → Type 0) where
  map_turn :
      (u : Turn web)
      → ((t : Trip web) → P t → P' t)
      → ((t : Trip web) → Q t → Q' t)
      → TurnIs P Q u
      → TurnIs P' Q' u
  map_turn (stop t) f g h = f t h
  map_turn (again t) f g h = g t h

module _ {web : Web} (P Q : Trip web → Type 0) where
  -- What a turn and the attempts behind it give.
  after_turn :
      (u : Turn web) (more : Trip web → Trip web)
      → TurnIs P Q u
      → ((t : Trip web) → Q t → P (more t))
      → P (elim u as (λ _. Trip web) [ stop t ↦ t | again t ↦ more t ])
  after_turn (stop t) more h rest = h
  after_turn (again t) more h rest = rest t h

module _ {web : Web} {endpoints : List String} {host key : String} {body : PutBody}
    (served : Serves web endpoints host key body) where
  attempt_counts : (t : Trip web) → (attempt endpoints t).out.attempts ≡ t.out.attempts + 1
  unfolding attempt base
  attempt_counts t = ground arith

  attempt_leader :
      (t : Trip web) → t.leader ≡ url_of host → (attempt endpoints t).out.endpoint ≡ url_of host
  unfolding attempt base
  attempt_leader t at = ground (
    arith,
    at,
    beq_of_ne (subst (λ l. l ≢ "") (sym at) (λ e. served.named (concat-empty "http://" host e))),
  )

  attempt-IsListed :
      (t : Trip web) → t.leader ≡ "" → IsListed endpoints (attempt endpoints t).out.endpoint
  unfolding attempt base
  attempt-IsListed t unled =
      let (i, room, found) = served.listed in
      rw unled (
        (web.intn t.world (length endpoints)).1,
        served.picks t.world (length endpoints) (omega (arith, room)),
        refl,
      )

  -- A turn of put that starts at any node.
  first_turn :
      (t : Trip web)
      → t.leader ≡ ""
      → TurnIs
          (λ t'. (t'.out.ok ≡ true) × (t'.out.attempts ≡ t.out.attempts + 1))
          (λ t'. (t'.leader ≡ url_of host) × (t'.out.attempts ≡ t.out.attempts + 1))
          (put_turn endpoints key body t)
  unfolding put_turn
  first_turn t unled =
      subst
        (λ n.
          TurnIs (λ t'. (t'.out.ok ≡ true) × (t'.out.attempts ≡ n))
            (λ t'. (t'.leader ≡ url_of host) × (t'.out.attempts ≡ n))
            (put_turn endpoints key body t))
        (attempt_counts t)
        (elim (Bool-cases ((attempt endpoints t).out.endpoint == url_of host)) [
          | inl same ↦
              map_turn
                (λ t'. (t'.out.ok ≡ true) × (t'.out.attempts ≡ (attempt endpoints t).out.attempts))
                (λ t'. ⊥)
                (λ t'. (t'.out.ok ≡ true) × (t'.out.attempts ≡ (attempt endpoints t).out.attempts))
                (λ t'.
                  (t'.leader ≡ url_of host)
                  × (t'.out.attempts ≡ (attempt endpoints t).out.attempts))
                (put_turn endpoints key body t) (λ t' h. h) (λ t' h. absurd h)
                (deliver_leader served (attempt endpoints t)
                  ((string_eq.beq_iff _ (url_of host)).0 same))
          | inr other ↦
              deliver_other served (attempt endpoints t) (attempt-IsListed t unled)
                (λ p. cc (other, (string_eq.beq_iff _ (url_of host)).1 p))
        ])

  -- A turn of put at the leader.
  last_turn :
      (t : Trip web)
      → t.leader ≡ url_of host
      → TurnIs
          (λ t'. (t'.out.ok ≡ true) × (t'.out.attempts ≡ t.out.attempts + 1))
          (λ t'. ⊥)
          (put_turn endpoints key body t)
  unfolding put_turn
  last_turn t at =
      subst
        (λ n.
          TurnIs (λ t'. (t'.out.ok ≡ true) × (t'.out.attempts ≡ n)) (λ t'. ⊥)
            (put_turn endpoints key body t))
        (attempt_counts t) (deliver_leader served (attempt endpoints t) (attempt_leader t at))

module _ (web : Web) (endpoints : List String) (world : web.State) (host key : String)
    (body : PutBody) where
  abbrev start : Trip web
  start = record { world = world; leader = ""; out = no_outcome web.Error }

  abbrev turn : Trip web → Turn web
  turn = put_turn endpoints key body

  abbrev Done : Trip web → Type 0
  Done t = (t.out.ok ≡ true) × (t.out.attempts ≤ 2)

  abbrev Led : Trip web → Type 0
  Led t = (t.leader ≡ url_of host) × (t.out.attempts ≡ 1)

  -- In a run that is not cancelled, where the URLs of the write at the listed nodes parse and a number
  -- that is drawn is less than its bound: when a listed node, the leader, answers the write with status
  -- 200 and every other listed node answers it with status 307 and the location of the key at the
  -- leader, its URL with a slash at the end or without, then put succeeds with at most two attempts,
  -- whichever listed node it starts at. The leader's URL is http:// with a host behind it that is not
  -- empty, holds no slash and is not kv.
  pub put-succeeds :
      Serves web endpoints host key body
      → ((put web endpoints world "" key body).out.ok ≡ true)
        × ((put web endpoints world "" key body).out.attempts ≤ 2)
  unfolding put attempts
  put-succeeds served =
      after_turn Done Led (put_turn endpoints key body start) (attempts 11 turn)
        (map_turn (λ t. (t.out.ok ≡ true) × (t.out.attempts ≡ 0 + 1))
          (λ t. (t.leader ≡ url_of host) × (t.out.attempts ≡ 0 + 1)) Done Led (turn start)
          (λ t h. (h.0, omega (arith, h.1))) (λ t h. (h.0, omega (arith, h.1)))
          (first_turn served start refl))
        (λ t led.
          after_turn Done (λ _. ⊥) (turn t) (attempts 10 turn)
            (map_turn (λ t'. (t'.out.ok ≡ true) × (t'.out.attempts ≡ t.out.attempts + 1)) (λ _. ⊥)
              Done (λ _. ⊥) (turn t) (λ t' h. (h.0, omega (arith, h.1, led.1))) (λ t' h. h)
              (last_turn served t led.0))
            (λ t' none_left. absurd none_left))
