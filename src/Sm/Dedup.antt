-- ===== src/Sm/Dedup.antt =====
-- Request deduplication in internal/sm/sm.go against a description that looks at the whole log.
use quorum_log.Prelude.{
  String, ◌≤◌, ◌≡◌, ◌≢◌, Bool, true, false, not, ◌&&◌, ◌||◌, Option, none, some, List, [], ◌∷◌,
  arith, ltb, if◌then◌else◌, ◌==◌, string_eq, Bool-cases, Option-cases, inl, inr, beq_of_ne,
  beq_refl, refl, sym, ap, ◌∙◌,
}
use quorum_log.Prelude.GoMap
use quorum_log.Prelude.GoMap.{GoMap}
use quorum_log.Sm.{Sm, Op, Result, Session, cached, execute, remember, run, init}
use quorum_log.Sm.ExactlyOnce.{apply_duplicate, apply_new, cached_earlier, cached_other}

-- No earlier request of the same client has the number of `op` or a greater one.
unfoldable pub outnumbers : List Op → Op → Bool
outnumbers [] op = true
outnumbers (o ∷ earlier) op =
    (not (o.client_id == op.client_id) || ltb o.req_id op.req_id) && outnumbers earlier op

unfoldable pub is_fresh : List Op → Op → Bool
is_fresh earlier op = op.client_id == "" || outnumbers earlier op

-- The commands of a log that are to take effect, after the commands `earlier` (the latest first).
unfoldable pub effective : List Op → List Op → List Op
effective earlier [] = []
effective earlier (op ∷ ops) =
    let rest = effective (op ∷ earlier) ops in if is_fresh earlier op then op ∷ rest else rest

-- A key-value store with no sessions.
unfoldable pub execute_all : GoMap String String → List Op → GoMap String String
execute_all kv [] = kv
execute_all kv (op ∷ ops) = execute_all (execute kv op).0 ops

abbrev pub is_none {ℓ} : {A : Type ℓ} → Option A → Bool
is_none none = true
is_none (some _) = false

-- The sessions know of each request whether it is fresh.
abbrev pub Tracks : Sm → List Op → Type 0
Tracks s earlier = (op : Op) → is_none (cached s op) ≡ is_fresh earlier op

cached_anonymous : (s : Sm) (op : Op) → op.client_id ≡ "" → cached s op ≡ none
unfolding cached
cached_anonymous s op e = rw e

-- After a new request, a request of the same client is a duplicate unless its number is greater.
cached-remember_same :
    (kv : GoMap String String) (s : Sm) (o op : Op) (res : Result)
    → o.client_id ≡ op.client_id
    → op.client_id ≢ ""
    → is_none (cached (record { kv = kv; sessions = remember s.sessions o res }) op)
      ≡ ltb o.req_id op.req_id
unfolding cached remember
cached-remember_same kv s o op res same named =
    rw same (simp (beq_of_ne named, GoMap.get-put, beq_refl) (ground arith))

module _ (s : Sm) (earlier : List Op) (t : Tracks s earlier) (o : Op) where
  pub Tracks-duplicate : {r : Result} → cached s o ≡ some r → Tracks s (o ∷ earlier)
  unfolding is_fresh outnumbers
  Tracks-duplicate d op = elim (Bool-cases (o.client_id == op.client_id)) [
    | inr other ↦ ground (arith, t op, other)
    | inl same ↦ elim (Bool-cases (ltb o.req_id op.req_id)) [
      | inl later ↦ ground (arith, t op, later)
      | inr early ↦
          let client = (string_eq.beq_iff o.client_id op.client_id).0 same in
          ground
            (arith, t op, early, same, cached_earlier s o op d (sym client) (ground (arith, early)))
    ]
  ]

  still_new :
      (op : Op)
      → o.client_id ≡ op.client_id
      → o.req_id ≤ op.req_id
      → cached s o ≡ none
      → cached s op ≡ none
  still_new op client le d = elim (Option-cases (cached s op)) [
    | inl new ↦ new
    | inr (r, old) ↦ absurd (cc (d, cached_earlier s op o old client le))
  ]

  pub Tracks-new :
      cached s o ≡ none
      → Tracks
          (record { kv = (execute s.kv o).0; sessions = remember s.sessions o (execute s.kv o).1 })
          (o ∷ earlier)
  unfolding is_fresh outnumbers
  Tracks-new d op = elim (Bool-cases (op.client_id == "")) [
    | inl anonymous ↦
        let unnamed = (string_eq.beq_iff op.client_id "").0 anonymous in
        rw (cached_anonymous _ op unnamed) (ground (arith, anonymous))
    | inr named ↦ elim (Bool-cases (o.client_id == op.client_id)) [
      | inr other ↦
          rw
            (cached_other (execute s.kv o).0 s op o (execute s.kv o).1
              (λ p. cc (other, (string_eq.beq_iff o.client_id op.client_id).1 p)))
            (ground (arith, t op, other))
      | inl same ↦
          let client = (string_eq.beq_iff o.client_id op.client_id).0 same in
          rw
            (cached-remember_same (execute s.kv o).0 s o op (execute s.kv o).1 client
              (λ p. cc (named, beq_refl {A = String} "", p)))
            (elim (Bool-cases (ltb o.req_id op.req_id)) [
              | inr early ↦ ground (arith, named, same, early)
              | inl later ↦
                  ground
                    (arith, named, same, later, t op, still_new op client (ground (arith, later)) d)
            ])
    ]
  ]

effective_skip :
    (earlier : List Op) (op : Op) (ops : List Op)
    → is_fresh earlier op ≡ false
    → effective (op ∷ earlier) ops ≡ effective earlier (op ∷ ops)
unfolding effective
effective_skip earlier op ops e = rw e

effective_keep :
    (earlier : List Op) (op : Op) (ops : List Op)
    → is_fresh earlier op ≡ true
    → op ∷ effective (op ∷ earlier) ops ≡ effective earlier (op ∷ ops)
unfolding effective
effective_keep earlier op ops e = rw e

run-effective :
    (s : Sm) (earlier ops : List Op)
    → Tracks s earlier
    → (run s ops).kv ≡ execute_all s.kv (effective earlier ops)
unfolding run effective execute_all
run-effective s earlier [] t = refl
run-effective s earlier (op ∷ ops) t = elim (Option-cases (cached s op)) [
  | inr (r, d) ↦
      ap (λ (x : Sm × Result). (run x.0 ops).kv) (apply_duplicate s op d)
      ∙ run-effective s (op ∷ earlier) ops (Tracks-duplicate s earlier t op d)
      ∙ ap (execute_all s.kv) (effective_skip earlier op ops (sym (t op) ∙ rw d))
  | inl d ↦
      ap (λ (x : Sm × Result). (run x.0 ops).kv) (apply_new s op d)
      ∙ run-effective
          (record {
            kv = (execute s.kv op).0;
            sessions = remember s.sessions op (execute s.kv op).1;
          })
          (op ∷ earlier) ops (Tracks-new s earlier t op d)
      ∙ ap (execute_all s.kv) (effective_keep earlier op ops (sym (t op) ∙ rw d))
]

pub Tracks-init : Tracks init []
unfolding cached is_fresh outnumbers
Tracks-init op = ground (arith, GoMap.get-empty {V = Session} op.client_id)

-- After any log of commands the keys and values are those of a store with no sessions that executed
-- only the fresh commands: those of no client, and those whose number is greater than every number
-- that the same client used before in the log.
pub run-execute_effective :
    (ops : List Op) → (run init ops).kv ≡ execute_all GoMap.empty (effective [] ops)
run-execute_effective ops = run-effective init [] ops Tracks-init
