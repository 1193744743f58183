-- ===== src/Multihost/Client/Outcomes.antt =====
-- What an outcome of put and get in internal/multihost/traffic.go says.
use Prim.Native.String.{◌++◌ as concat}
use quorum_log.Prelude.{
  ℕ, zero, suc, ◌≡◌, ◌⊎◌, refl, ◌∙◌, String, Bool, true, false, ◌&&◌, List, ◌==◌, nat_eq, string_eq,
  Except, ok, err, arith, Bool-cases, Option-cases, inl, inr,
}
use quorum_log.Prelude.Text.{before_first}
use quorum_log.Multihost.Client.{
  Request, put_request, get_request, Response, Web, Outcome, no_outcome, Trip, Turn, stop, again,
  succeeded, base, PutBody, has_kv, attempt, unreachable, put_answer, get_answer, send, put_turn,
  get_turn, attempts, put, get, max_attempts,
}

Except-cases {ℓ κ} :
    {E : Type ℓ} {A : Type κ} (m : Except E A) → ((e : E) × (m ≡ err e)) ⊎ ((a : A) × (m ≡ ok a))
Except-cases (err e) = inl (e, refl)
Except-cases (ok a) = inr (a, refl)

module _ (web : Web) where
  -- In some state of the world a node gave this request an answer with status 200.
  abbrev pub Answered : Request → (Response web.Body → Type 0) → Type 0
  Answered request P =
      (world : web.State) × (r : Response web.Body) × ((web.exchange world request).1 ≡ ok r)
      × (r.code ≡ 200)
      × P r

module _ {web : Web} where
  -- What holds of a turn that is over, and of one that is not.
  abbrev pub TurnIs : (Trip web → Type 0) → (Trip web → Type 0) → Turn web → Type 0
  TurnIs P Q (stop t) = P t
  TurnIs P Q (again t) = Q t

  next_lem :
      (P : Trip web → Type 0) (u : Turn web) (more : Trip web → Trip web)
      → TurnIs (λ t'. t'.out.ok ≡ true → P t') (λ t'. t'.out.ok ≡ false) u
      → ((t : Trip web) → t.out.ok ≡ false → (more t).out.ok ≡ true → P (more t))
      → (elim u as (λ _. Trip web) [ stop t' ↦ t' | again t' ↦ more t' ]).out.ok ≡ true
      → P (elim u as (λ _. Trip web) [ stop t' ↦ t' | again t' ↦ more t' ])
  next_lem P (stop t') more h rest d = h d
  next_lem P (again t') more h rest d = rest t' h d

  -- A loop of at most n attempts.
  attempts_lem :
      (P : Trip web → Type 0) (turn : Trip web → Turn web)
      → ((t : Trip web)
          → t.out.ok ≡ false
          → TurnIs (λ t'. t'.out.ok ≡ true → P t') (λ t'. t'.out.ok ≡ false) (turn t))
      → (n : ℕ) (t : Trip web) → t.out.ok ≡ false
      → (attempts n turn t).out.ok ≡ true
      → P (attempts n turn t)
  unfolding attempts
  attempts_lem P turn keeps zero t unset done = absurd (cc)
  attempts_lem P turn keeps (suc n) t unset done =
      next_lem P (turn t) (attempts n turn) (keeps t unset) (attempts_lem P turn keeps n) done

  -- An exchange that an answer follows.
  send_lem :
      (P : Trip web → Type 0) (answer : Trip web → Response web.Body → Turn web)
      (request : String → Request) (url : String) (t : Trip web)
      → t.out.ok ≡ false
      → ((world : web.State) (r : Response web.Body)
          → (web.exchange t.world (request url)).1 ≡ ok r
          → TurnIs
              (λ t'. t'.out.ok ≡ true → P t')
              (λ t'. t'.out.ok ≡ false)
              (answer (record t { world = world; out = record t.out { code = r.code } }) r))
      → TurnIs (λ t'. t'.out.ok ≡ true → P t') (λ t'. t'.out.ok ≡ false) (send answer request url t)
  unfolding send unreachable
  send_lem P answer request url t unset answers = elim (Option-cases (web.new_request url)) [
    | inr (e, bad) ↦ rw (bad, send) (λ d. absurd (cc))
    | inl good ↦ elim (Except-cases (web.exchange t.world (request url)).1) [
      | inl (e, failed) ↦
          rw (good, failed, send)
            (elim (Bool-cases (web.cancelled (web.exchange t.world (request url)).0)) [
              | inl c ↦ rw c (λ d. absurd (cc))
              | inr c ↦ rw c unset
            ])
      | inr (r, answered) ↦
          rw (good, answered, send) (answers (web.exchange t.world (request url)).0 r answered)
    ]
  ]

  put_answer_lem :
      (P : Trip web → Type 0) (t : Trip web) (value : String) (r : Response web.Body)
      → t.out.ok ≡ false
      → (r.code ≡ 200 → P (succeeded t value true))
      → TurnIs (λ t'. t'.out.ok ≡ true → P t') (λ t'. t'.out.ok ≡ false) (put_answer t value r)
  unfolding put_answer
  put_answer_lem P t value r unset done = elim (Bool-cases (r.code == 200)) [
    | inl good ↦ rw good (λ _. done (ground (arith, good)))
    | inr bad ↦ elim (Bool-cases (r.code == 307 && has_kv (before_first r.location "/kv/"))) [
      | inl moved ↦
          rw (bad, moved)
            (elim (Bool-cases (web.cancelled t.world)) [
              | inl c ↦ rw c (λ d. absurd (cc))
              | inr c ↦ rw c unset
            ])
      | inr other ↦
          rw (bad, other)
            (elim (Bool-cases (web.cancelled (web.sleep t.world))) [
              | inl c ↦ rw c (λ d. absurd (cc))
              | inr c ↦ rw c unset
            ])
    ]
  ]

  get_answer_lem :
      (P : Trip web → Type 0) (t : Trip web) (r : Response web.Body)
      → t.out.ok ≡ false
      → (r.code ≡ 200
          → (val : String) (found : Bool) → web.decode r.body ≡ ok (val, found)
          → P (succeeded t val found))
      → TurnIs (λ t'. t'.out.ok ≡ true → P t') (λ t'. t'.out.ok ≡ false) (get_answer t r)
  unfolding get_answer
  get_answer_lem P t r unset done = elim (Bool-cases (r.code == 200)) [
    | inl good ↦ elim (Except-cases (web.decode r.body)) [
      | inl (e, bad) ↦ rw (good, bad) unset
      | inr ((val, found), body) ↦ rw (good, body) (λ _. done (ground (arith, good)) val found body)
    ]
    | inr bad ↦ rw bad (elim (Bool-cases (web.cancelled (web.sleep t.world))) [
      | inl c ↦ rw c (λ d. absurd (cc))
      | inr c ↦ rw c unset
    ])
  ]

  attempt-ok : (endpoints : List String) (t : Trip web) → (attempt endpoints t).out.ok ≡ t.out.ok
  unfolding attempt base
  attempt-ok endpoints t = ground arith

module _ (web : Web) where
  -- The outcome is that of a write that a node answered with status 200.
  abbrev pub WasWritten : String → PutBody → Outcome web.Error → Type 0
  WasWritten key body out =
      Answered web (put_request (concat out.endpoint (concat "/kv/" key)) body) (λ r. Unit)

  -- The outcome is that of a read that a node answered with status 200, and is what the body says.
  abbrev pub WasRead : String → Outcome web.Error → Type 0
  WasRead key out =
      Answered web
        (get_request (concat out.endpoint (concat "/kv/" (concat key "?consistency=linearizable"))))
        (λ r. web.decode r.body ≡ ok (out.val, out.found))

  module _ (endpoints : List String) (world : web.State) (leader key : String) where
    -- A write is reported as successful only if a node answered this write with status 200.
    pub put-WasWritten :
        (body : PutBody)
        → (put web endpoints world leader key body).out.ok ≡ true
        → WasWritten key body (put web endpoints world leader key body).out
    unfolding put put_turn
    put-WasWritten body =
        attempts_lem {web = web} (λ t. WasWritten key body t.out) (put_turn endpoints key body)
          (λ t unset.
            let t' = attempt endpoints t in
            let unset' = attempt-ok endpoints t ∙ unset in
            send_lem (λ t. WasWritten key body t.out) (λ t r. put_answer t body.value r)
              (λ url. put_request url body) (concat t'.out.endpoint (concat "/kv/" key)) t' unset'
              (λ w r answered.
                put_answer_lem (λ t. WasWritten key body t.out)
                  (record t' { world = w; out = record t'.out { code = r.code } }) body.value r
                  unset' (λ code. (t'.world, r, answered, code, tt))))
          max_attempts (record { world = world; leader = leader; out = no_outcome web.Error }) refl

    -- A read is reported as successful only if a node answered this read with status 200, and what it
    -- returns is what the body of that answer says.
    pub get-WasRead :
        (get web endpoints world leader key).out.ok ≡ true
        → WasRead key (get web endpoints world leader key).out
    unfolding get get_turn
    get-WasRead =
        attempts_lem {web = web} (λ t. WasRead key t.out) (get_turn endpoints key)
          (λ t unset.
            let t' = attempt endpoints t in
            let unset' = attempt-ok endpoints t ∙ unset in
            send_lem (λ t. WasRead key t.out) get_answer get_request
              (concat t'.out.endpoint (concat "/kv/" (concat key "?consistency=linearizable"))) t'
              unset'
              (λ w r answered.
                get_answer_lem (λ t. WasRead key t.out)
                  (record t' { world = w; out = record t'.out { code = r.code } }) r unset'
                  (λ code val found body. (t'.world, r, answered, code, body))))
          max_attempts (record { world = world; leader = leader; out = no_outcome web.Error }) refl
