-- ===== src/Sm/ExactlyOnce.antt =====
-- The client sessions of internal/sm/sm.go: duplicates and new requests.
use quorum_log.Prelude.{
  String, ◌≤◌, ◌≡◌, ◌≢◌, ◌↔◌, true, none, some, List, [], ◌∷◌, All, arith, ◌==◌, string_eq,
  Bool-cases, Option-cases, inl, inr, beq_of_ne, beq_refl, le→leb,
}
use quorum_log.Prelude.GoMap
use quorum_log.Prelude.GoMap.{GoMap}
use native.Mathlib.Nat.{le_refl}
use quorum_log.Sm.{Sm, Op, Result, Session, cached, execute, remember, apply, run}

-- A request that a client may send before it gives up retrying `op`.
abbrev pub NotLater : Op → Op → Type 0
NotLater op o = o.client_id ≡ op.client_id → o.req_id ≤ op.req_id

-- A duplicate changes nothing and has the cached result.
pub apply_duplicate : (s : Sm) (op : Op) {r : Result} → cached s op ≡ some r → apply s op ≡ (s, r)
unfolding apply
apply_duplicate s op e = rw (e, apply)

pub apply_new :
    (s : Sm) (op : Op)
    → cached s op ≡ none
    → apply s op ≡ (
      record { kv = (execute s.kv op).0; sessions = remember s.sessions op (execute s.kv op).1 },
      (execute s.kv op).1,
    )
unfolding apply
apply_new s op e = rw (e, apply)

cached-remember :
    (kv : GoMap String String) (sessions : GoMap String Session) (op : Op) (res : Result)
    → op.client_id ≢ ""
    → cached (record { kv = kv; sessions = remember sessions op res }) op ≡ some res
unfolding cached remember
cached-remember kv sessions op res named =
    simp (beq_of_ne named, GoMap.get-put, beq_refl, le→leb _ _ (le_refl op.req_id))

cached-apply_self :
    (s : Sm) (op : Op) → op.client_id ≢ "" → cached (apply s op).0 op ≡ some (apply s op).1
cached-apply_self s op named = elim (Option-cases (cached s op)) [
  | inr (r, e) ↦ rw (apply_duplicate s op e) e
  | inl e ↦ rw (apply_new s op e) (cached-remember _ s.sessions op _ named)
]

pub cached_other :
    (kv : GoMap String String) (s : Sm) (op o : Op) (res : Result)
    → o.client_id ≢ op.client_id
    → cached (record { kv = kv; sessions = remember s.sessions o res }) op ≡ cached s op
unfolding cached remember
cached_other kv s op o res other = elim (Bool-cases (o.client_id == "")) [
  | inl e ↦ rw e
  | inr e ↦ simp (e, GoMap.get-put, beq_of_ne other)
]

pub cached_earlier :
    (s : Sm) (op o : Op) {r : Result}
    → cached s op ≡ some r
    → o.client_id ≡ op.client_id
    → o.req_id ≤ op.req_id
    → cached s o ≡ some r
unfolding cached
cached_earlier s op o e same earlier = rw same (elim (Bool-cases (op.client_id == "")) [
  | inl anonymous ↦ ground (arith, anonymous, e)
  | inr named ↦ elim (Option-cases (GoMap.get s.sessions op.client_id)) [
    | inl missing ↦ absurd (ground arith)
    | inr (sess, found) ↦ ground arith
  ]
])

cached-apply_kept :
    (s : Sm) (op o : Op) {r : Result}
    → cached s op ≡ some r
    → NotLater op o
    → cached (apply s o).0 op ≡ some r
cached-apply_kept s op o e later = elim (Option-cases (cached s o)) [
  | inr (_, d) ↦ rw (apply_duplicate s o d) e
  | inl d ↦ elim (Bool-cases (o.client_id == op.client_id)) [
    | inl same ↦ absurd (cc (d, cached_earlier s op o e (test.0 same) (later (test.0 same))))
    | inr other ↦
        rw (apply_new s o d)
          (rw (cached_other (execute s.kv o).0 s op o _ (λ p. cc (other, test.1 p))) e)
  ]
]
  where
    test : ((o.client_id == op.client_id) ≡ true) ↔ (o.client_id ≡ op.client_id)
    test = string_eq.beq_iff o.client_id op.client_id

cached-run_kept :
    (s : Sm) (op : Op) (between : List Op) {r : Result}
    → cached s op ≡ some r
    → All (NotLater op) between
    → cached (run s between) op ≡ some r
unfolding run
cached-run_kept s op [] e h = e
cached-run_kept s op (o ∷ between) e h =
    cached-run_kept (apply s o).0 op between (cached-apply_kept s op o e h.0) h.1

-- A retry of a request of a named client, after any commands of which none is a later request of
-- that client, leaves the state as it is and returns the result of the first application.
pub apply_retry :
    (s : Sm) (op : Op) (between : List Op)
    → op.client_id ≢ ""
    → All (NotLater op) between
    → apply (run (apply s op).0 between) op ≡ (run (apply s op).0 between, (apply s op).1)
apply_retry s op between named h =
    apply_duplicate _ op (cached-run_kept _ op between (cached-apply_self s op named) h)
