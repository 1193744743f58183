-- ===== src/Check/Parts.antt =====
-- KVModel.Partition of internal/check/check.go: the parts are the operations of each key, in order.
use quorum_log.Prelude.{
  String, ◌≡◌, List, [], ◌∷◌, ◌++◌, All, select, Bool-cases, Option-cases, inl, inr, ◌↔◌, ◌==◌,
  string_eq, refl, sym, ap, ◌∙◌, All-map, All-of_map, select-append,
}
use mathlib.Core.Path.{◌≡⟨◌⟩◌, ◌∎, subst}
use mathlib.Core.List.Perm
use mathlib.Core.List.{append-nil, append_assoc}
use quorum_log.Prelude.GoMap
use quorum_log.Prelude.GoMap.{GoMap}
use quorum_log.Check.{Operation, add_to_part, group, partition, init, step}
use quorum_log.Check.Linearizable.{Model, Linearizable, CheckResult, Porcupine}

-- the operations on one key
abbrev pub on_key : String → List Operation → List Operation
on_key key = select (λ op. op.input.key == key)

-- KVModel
abbrev pub kv_model : Model
kv_model = record { State = _; partition = partition; init = init; step = step }

-- Check, which waits for 30 seconds at most
abbrev pub check : Porcupine → List Operation → CheckResult
check p history = p.check_operations kv_model history 30_000_000_000

-- A history of the store is linearizable if that of each key is.
abbrev pub IsLinearizable : List Operation → Type 0
IsLinearizable history = (key : String) → Linearizable step init (on_key key history)

part-add_to_part :
    (m : GoMap String (List Operation)) (op : Operation) (key : String)
    → GoMap.get_or (add_to_part m op) key [] ≡ GoMap.get_or m key [] ++ on_key key (op ∷ [])
unfolding add_to_part select
part-add_to_part m op key = elim (Bool-cases (op.input.key == key)) [
  | inl e ↦
      rw (GoMap.get_or-put, e)
        (ap (λ k. GoMap.get_or m k [] ++ op ∷ []) ((string_eq.beq_iff op.input.key key).0 e))
  | inr e ↦ rw (GoMap.get_or-put, e) (sym (append-nil _))
]

part-group :
    (m : GoMap String (List Operation)) (h : List Operation) (key : String)
    → GoMap.get_or (group m h) key [] ≡ GoMap.get_or m key [] ++ on_key key h
unfolding group select
part-group m [] key = sym (append-nil _)
part-group m (op ∷ ops) key =
    GoMap.get_or (group m (op ∷ ops)) key []
    ≡⟨ part-group (add_to_part m op) ops key ⟩
      GoMap.get_or (add_to_part m op) key [] ++ on_key key ops
    ≡⟨ rw (part-add_to_part m op key, append_assoc)
        (ap (λ l. GoMap.get_or m key [] ++ l)
          (sym (select-append (λ o. o.input.key == key) (op ∷ []) ops))) ⟩
      GoMap.get_or m key [] ++ on_key key (op ∷ ops) ∎

IsMap-group :
    (m : GoMap String (List Operation)) (h : List Operation)
    → GoMap.IsMap m
    → GoMap.IsMap (group m h)
unfolding group add_to_part
IsMap-group m [] d = d
IsMap-group m (op ∷ ops) d = IsMap-group (add_to_part m op) ops (GoMap.IsMap-put m op.input.key _ d)

-- The part of a key, which is empty if no operation is on that key.
part :
    (h : List Operation) (key : String) → GoMap.get_or (group GoMap.empty h) key [] ≡ on_key key h
part h key = part-group GoMap.empty h key ∙ rw (GoMap.get_or-empty key) refl

parts→key : (h : List Operation) → All (Linearizable step init) (partition h) → IsLinearizable h
unfolding partition
parts→key h parts key = elim (Option-cases (GoMap.get (group GoMap.empty h) key)) [
  | inl missing ↦
      subst (Linearizable step init) (sym (GoMap.get_or_missing _ key [] missing) ∙ part h key)
        ([], Perm.refl [], tt, tt)
  | inr (ops, found) ↦
      subst (Linearizable step init) (sym (GoMap.get_or_found _ key [] found) ∙ part h key) (
        GoMap.All-get (Linearizable step init) (group GoMap.empty h) key
          (All-of_map (Linearizable step init) (λ e. e.1) _ parts) found)
]

key→parts : (h : List Operation) → IsLinearizable h → All (Linearizable step init) (partition h)
unfolding partition
key→parts h lin =
    All-map (Linearizable step init) (λ e. e.1) _
      (GoMap.All-entries {P = λ k ops. Linearizable step init ops} (group GoMap.empty h)
        (IsMap-group GoMap.empty h tt)
        (λ key ops found.
          subst (Linearizable step init) (sym (part h key) ∙ GoMap.get_or_found _ key [] found)
            (lin key)))

-- The partition loses and mixes nothing: every part is linearizable exactly when, for every key,
-- the operations on that key are.
pub partition-IsLinearizable :
    (h : List Operation) → All (Linearizable step init) (partition h) ↔ IsLinearizable h
partition-IsLinearizable h = (parts→key h, key→parts h)
