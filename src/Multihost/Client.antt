-- ===== src/Multihost/Client.antt =====
-- The client of internal/multihost/traffic.go: a write or a read with its redirects and retries. The
-- network, the clock and the random numbers of a client are a parameter.
pub mod Outcomes
pub mod Locations
pub mod Reaches
use Prim.Native.String.{◌++◌ as concat}
use quorum_log.Prelude.{
  ℕ, zero, suc, ◌+◌, String, Bool, true, false, not, ◌&&◌, Option, none, some, List, length,
  if◌then◌else◌, ◌==◌, nat_eq, string_eq, Except, ok, err,
}
use quorum_log.Prelude.Text.{before_first, trim_last}
use quorum_log.Multihost.History.{nth_text}

-- The body of a write, without its fixed `op`.
pub record PutBody : Type 0 where
  pub value : String
  pub client_id : String
  pub req_id : ℕ

pub data Request : Type 0 where
  put_request : String → PutBody → Request
  get_request : String → Request

-- An answer, with the header Location and the body.
pub record Response (Body : Type 0) : Type 0 where
  pub code : ℕ
  pub location : String
  pub body : Body

-- The packages net/http, time, context and math/rand.
pub record Web : Type 1 where
  pub State : Type 0
  pub Error : Type 0
  pub Body : Type 0
  -- http.NewRequestWithContext, which fails on a bad URL
  pub new_request : String → Option Error
  pub exchange : State → Request → State × Except Error (Response Body)
  -- the body of the answer to a read
  pub decode : Body → Except Error (String × Bool)
  -- ctx.Err() != nil
  pub cancelled : State → Bool
  pub sleep : State → State
  pub now : State → State × ℕ
  pub intn : State → ℕ → State × ℕ

pub data OpError (Error : Type 0) : Type 0 where
  transport : Error → OpError Error
  http_status : ℕ → OpError Error

-- opOutcome
pub record Outcome (Error : Type 0) : Type 0 where
  pub ok : Bool
  pub code : ℕ
  pub attempts : ℕ
  pub redirects : ℕ
  pub endpoint : String
  pub val : String
  pub found : Bool
  pub error : Option (OpError Error)

abbrev pub no_outcome : (Error : Type 0) → Outcome Error
no_outcome Error = record {
  ok = false;
  code = 0;
  attempts = 0;
  redirects = 0;
  endpoint = "";
  val = "";
  found = false;
  error = none;
}

-- The client's `leader` and `out`, and the rest of the world.
pub record Trip (web : Web) : Type 0 where
  pub world : web.State
  pub leader : String
  pub out : Outcome web.Error

-- How the body of a loop over the attempts ends.
pub data Turn (web : Web) : Type 0 where
  stop again : Trip web → Turn web

abbrev pub max_attempts : ℕ
max_attempts = 12

-- leaderFromLocation
unfoldable pub leader_from_location : String → String
leader_from_location location = elim (before_first location "/kv/") [
  | none ↦ ""
  | some front ↦ trim_last front b'/'
]

abbrev pub has_kv : Option String → Bool
has_kv none = false
has_kv (some _) = true

module _ {web : Web} where
  -- base
  unfoldable pub base : List String → Trip web → Trip web × String
  base endpoints t =
      if not (t.leader == "")
      then (t, t.leader)
      else (let (world, n) = web.intn t.world (length endpoints) in
          (record t { world = world }, nth_text endpoints n))

  -- The start of an attempt.
  unfoldable pub attempt : List String → Trip web → Trip web
  unfolding base
  attempt endpoints t =
      let (t', endpoint) = base endpoints t in
      record t' { out = record t'.out { attempts = t'.out.attempts + 1; endpoint = endpoint } }

  abbrev pub with_error : Trip web → OpError web.Error → Trip web
  with_error t e = record t { out = record t.out { error = some e } }

  -- `if ctx.Err() != nil { return out }` at the end of the body.
  abbrev pub go_on : Trip web → Turn web
  go_on t = if web.cancelled t.world then stop t else again t

  -- `c.leader = ""` and the pause.
  abbrev pub back_off : Trip web → Trip web
  back_off t = record t { leader = ""; world = web.sleep t.world }

  -- When the exchange fails.
  unfoldable pub unreachable : Trip web → web.Error → Turn web
  unreachable t e =
      let t' = record (with_error t (transport e)) { leader = "" } in
      if web.cancelled t'.world then stop t' else again (record t' { world = web.sleep t'.world })

  abbrev pub succeeded : Trip web → String → Bool → Trip web
  succeeded t val found = record t {
    out = record t.out { ok = true; val = val; found = found; error = none };
  }

  -- The switch of put on an answer.
  unfoldable pub put_answer : Trip web → String → Response web.Body → Turn web
  unfolding leader_from_location
  put_answer t value r =
      if r.code == 200
      then stop (succeeded t value true)
      else if r.code == 307 && has_kv (before_first r.location "/kv/")
      then go_on (record t {
        leader = leader_from_location r.location;
        out = record t.out { redirects = t.out.redirects + 1 };
      })
      else go_on (back_off (with_error t (http_status r.code)))

  -- What get does with an answer.
  unfoldable pub get_answer : Trip web → Response web.Body → Turn web
  get_answer t r =
      if r.code == 200
      then elim (web.decode r.body) [
        | err e ↦ again (record (with_error t (transport e)) { world = web.sleep t.world })
        | ok (val, found) ↦ stop (succeeded t val found)
      ]
      else go_on (back_off (with_error t (http_status r.code)))

  -- The exchange of an attempt, and what follows it.
  unfoldable pub send :
      (Trip web → Response web.Body → Turn web) → (String → Request) → String → Trip web → Turn web
  unfolding unreachable
  send answer request url t = elim (web.new_request url) [
    | some e ↦ stop (with_error t (transport e))
    | none ↦
        (let (world, reply) = web.exchange t.world (request url) in
          elim reply [
            | err e ↦ unreachable (record t { world = world }) e
            | ok r ↦ answer (record t { world = world; out = record t.out { code = r.code } }) r
          ])
  ]

  -- The body of the loop of put.
  unfoldable pub put_turn : List String → String → PutBody → Trip web → Turn web
  unfolding attempt send put_answer
  put_turn endpoints key body t =
      let t' = attempt endpoints t in
      send (λ t r. put_answer t body.value r) (λ url. put_request url body)
        (concat t'.out.endpoint (concat "/kv/" key)) t'

  -- The body of the loop of get.
  unfoldable pub get_turn : List String → String → Trip web → Turn web
  unfolding attempt send get_answer
  get_turn endpoints key t =
      let t' = attempt endpoints t in
      send get_answer get_request
        (concat t'.out.endpoint (concat "/kv/" (concat key "?consistency=linearizable"))) t'

  -- A loop over so many attempts.
  unfoldable pub attempts : ℕ → (Trip web → Turn web) → Trip web → Trip web
  attempts zero turn t = t
  attempts (suc n) turn t = elim (turn t) [ stop t' ↦ t' | again t' ↦ attempts n turn t' ]

module _ (web : Web) where
  -- put
  unfoldable pub put : List String → web.State → String → String → PutBody → Trip web
  unfolding attempts put_turn
  put endpoints world leader key body =
      attempts max_attempts (put_turn endpoints key body)
        (record { world = world; leader = leader; out = no_outcome web.Error })

  -- get
  unfoldable pub get : List String → web.State → String → String → Trip web
  unfolding attempts get_turn
  get endpoints world leader key =
      attempts max_attempts (get_turn endpoints key)
        (record { world = world; leader = leader; out = no_outcome web.Error })
