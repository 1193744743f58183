-- ===== src/Sm/Persist.antt =====
-- internal/sm/sm.go: Op.Encode, DecodeOp, Snapshot and Restore. A nil map that encoding/json leaves is
-- `none`.
use quorum_log.Prelude.{
  ℕ, String, ◌≡◌, refl, Option, none, some, List, [], ◌∷◌, ◌==◌, string_eq, sym, subst, ◌∙◌,
  Bool-cases, Option-cases, inl, inr,
}
use quorum_log.Prelude.GoMap
use quorum_log.Prelude.GoMap.{GoMap, value_or, map_laws}
use quorum_log.Sm.ExactlyOnce.{apply_duplicate, apply_new}
use quorum_log.Sm.{
  op_put, op_append, op_delete, Op, Result, Session, Sm, cached, execute, remember, apply, run, get,
}

pub record SnapshotData : Type 0 where
  pub kv : Option (GoMap String String)
  pub sessions : Option (GoMap String Session)

-- Two maps with the same value at every key.
abbrev pub Same {κ} : {V : Type κ} → GoMap String V → GoMap String V → Type κ
Same m n = (k : String) → GoMap.get m k ≡ GoMap.get n k

-- encoding/json on these types: it reads back what it wrote, the entries of a map in any order.
pub record Json : Type 0 where
  pub marshal_op : Op → List ℕ
  pub unmarshal_op : List ℕ → Option Op
  pub marshal_snapshot : SnapshotData → List ℕ
  pub unmarshal_snapshot : List ℕ → Option SnapshotData
  pub unmarshal-marshal_op : (op : Op) → unmarshal_op (marshal_op op) ≡ some op
  pub unmarshal-marshal_snapshot :
      (kv : GoMap String String) (sessions : GoMap String Session)
      → (kv' : GoMap String String) × (sessions' : GoMap String Session) × (unmarshal_snapshot
            (marshal_snapshot (record { kv = some kv; sessions = some sessions }))
          ≡ some (record { kv = some kv'; sessions = some sessions' }))
        × (Same kv' kv)
        × (Same sessions' sessions)

module _ (json : Json) where
  -- Op.Encode
  abbrev pub encode : Op → List ℕ
  encode op = json.marshal_op op

  -- DecodeOp
  abbrev pub decode_op : List ℕ → Option Op
  decode_op bytes = json.unmarshal_op bytes

  unfoldable pub snapshot : Sm → List ℕ
  snapshot s = json.marshal_snapshot (record { kv = some s.kv; sessions = some s.sessions })

  -- `none` when the bytes are not those of a snapshot; the machine is then left as it was.
  unfoldable pub restore : List ℕ → Option Sm
  restore bytes = elim (json.unmarshal_snapshot bytes) [
    | none ↦ none
    | some sd ↦
        some
          (record { kv = value_or sd.kv GoMap.empty; sessions = value_or sd.sessions GoMap.empty })
  ]

-- Two machines that no later command or read tells apart.
pub record IsSame (s s' : Sm) : Type 0 where
  pub kv : Same s.kv s'.kv
  pub sessions : Same s.sessions s'.sessions

cached_same : (s s' : Sm) (op : Op) → IsSame s s' → cached s op ≡ cached s' op
unfolding cached
cached_same s s' op h = rw (h.sessions op.client_id)

put-Same {κ} :
    {V : Type κ} (m n : GoMap String V) (k : String) (v : V)
    → Same m n
    → Same (GoMap.put m k v) (GoMap.put n k v)
put-Same m n k v h j = rw (GoMap.get-put m k j v, GoMap.get-put n k j v, h j)

delete-Same {κ} :
    {V : Type κ} (m n : GoMap String V) (k : String)
    → Same m n
    → Same (GoMap.delete m k) (GoMap.delete n k)
delete-Same m n k h j = rw (GoMap.get-delete m k j, GoMap.get-delete n k j, h j)

get_or-Same :
    (m n : GoMap String String) (k : String) (d : String)
    → Same m n
    → GoMap.get_or m k d ≡ GoMap.get_or n k d
unfolding GoMap.get_or
get_or-Same m n k d h = rw (h k)

execute-Same :
    (kv kv' : GoMap String String) (op : Op)
    → Same kv kv'
    → ((execute kv op).1 ≡ (execute kv' op).1) × Same (execute kv op).0 (execute kv' op).0
unfolding execute
execute-Same kv kv' op h = elim (Bool-cases (op.kind == op_put)) [
  | inl put ↦ rw put (refl, put-Same kv kv' op.key op.val h)
  | inr e ↦ elim (Bool-cases (op.kind == op_append)) [
    | inl app ↦ rw (e, app, get_or-Same kv kv' op.key "" h) (refl, put-Same kv kv' op.key _ h)
    | inr e' ↦ elim (Bool-cases (op.kind == op_delete)) [
      | inl del ↦ rw (e, e', del) (refl, delete-Same kv kv' op.key h)
      | inr e'' ↦ rw (e, e', e'') (refl, h)
    ]
  ]
]

remember-Same :
    (m n : GoMap String Session) (op : Op) (res : Result)
    → Same m n
    → Same (remember m op res) (remember n op res)
unfolding remember
remember-Same m n op res h = elim (Bool-cases (op.client_id == "")) [
  | inl e ↦ rw e h
  | inr e ↦ rw e (put-Same m n op.client_id _ h)
]

apply-IsSame :
    (s s' : Sm) (op : Op)
    → IsSame s s'
    → ((apply s op).1 ≡ (apply s' op).1) × IsSame (apply s op).0 (apply s' op).0
apply-IsSame s s' op h = elim (Option-cases (cached s op)) [
  | inl new ↦
      let (same_result, same_kv) = execute-Same s.kv s'.kv op h.kv in
      rw (apply_new s op new, apply_new s' op (sym (cached_same s s' op h) ∙ new))
        (
          same_result,
          record {
            kv = same_kv;
            sessions =
                rw same_result
                  (remember-Same s.sessions s'.sessions op (execute s'.kv op).1 h.sessions);
          },
        )
  | inr (r, dup) ↦
      rw (apply_duplicate s op dup, apply_duplicate s' op (sym (cached_same s s' op h) ∙ dup))
        (refl, h)
]

pub run-IsSame : (ops : List Op) (s s' : Sm) → IsSame s s' → IsSame (run s ops) (run s' ops)
unfolding run
run-IsSame [] s s' h = h
run-IsSame (op ∷ ops) s s' h =
    run-IsSame ops (apply s op).0 (apply s' op).0 (apply-IsSame s s' op h).1

pub IsSame-trans : (s s' s'' : Sm) → IsSame s s' → IsSame s' s'' → IsSame s s''
IsSame-trans s s' s'' a b = record {
  kv = λ k. a.kv k ∙ b.kv k;
  sessions = λ k. a.sessions k ∙ b.sessions k;
}

module _ (json : Json) where
  restored : (s : Sm) → (s' : Sm) × (restore json (snapshot json s) ≡ some s') × IsSame s' s
  unfolding restore snapshot
  restored s =
      let (kv, sessions, made, same_kv, same_sessions) =
        json.unmarshal-marshal_snapshot s.kv s.sessions in
      (
        record { kv = kv; sessions = sessions },
        rw (made, restore, snapshot) refl,
        record { kv = same_kv; sessions = same_sessions },
      )

  pub restore-IsSame : (s s' : Sm) → restore json (snapshot json s) ≡ some s' → IsSame s' s
  restore-IsSame s s' h =
      let (again, made, same) = restored s in subst (λ x. IsSame x s) (cc (h, made)) same

  -- The state machine that a node restores from a snapshot answers every later log of commands and
  -- every later read as the one that the snapshot was taken of would.
  pub restore-snapshot :
      (s : Sm)
      → (s' : Sm) × (restore json (snapshot json s) ≡ some s')
        × ((ops : List Op) (op : Op) → (apply (run s' ops) op).1 ≡ (apply (run s ops) op).1)
        × ((ops : List Op) (key : String) → get (run s' ops) key ≡ get (run s ops) key)
  restore-snapshot s =
      let (s', made, same) = restored s in
      (
        s',
        made,
        λ ops op. (apply-IsSame (run s' ops) (run s ops) op (run-IsSame ops s' s same)).0,
        λ ops key. (run-IsSame ops s' s same).kv key,
      )
