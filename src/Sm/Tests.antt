-- ===== src/Sm/Tests.antt =====
-- The state machine of internal/sm/sm.go on concrete logs.
use quorum_log.Prelude.{
  ℕ, ◌≡◌, ◌≢◌, List, [], ◌∷◌, String, arith, some, refl, lookup, without, string_eq,
}
use quorum_log.Prelude.GoMap
use quorum_log.Sm.{Sm, Op, init, cached, execute, remember, apply, run, get}
use quorum_log.Sm.Digest.{digest, hash, hash-IsSame}
use Prim.Native.String.{len as str_len}
use quorum_log.Prelude.Sorting.{less_text}
use quorum_log.Prelude.Decimal.{decimal}
use quorum_log.Prelude.{sort_by, true, Bool-cases, inl, inr, subst, ◌==◌}
use quorum_log.Sm.Persist.{IsSame, restore, snapshot, restore-snapshot}
use quorum_log.Sm.Toy.{toy}
use quorum_log.Sm.ExactlyOnce.{apply_retry}
use quorum_log.Sm.Dedup.{outnumbers, is_fresh, effective, execute_all, run-execute_effective}

program : Unit {0}
unfolding cached execute remember apply run outnumbers is_fresh effective execute_all GoMap.get
    GoMap.put GoMap.delete GoMap.get_or lookup without
program = tt

abbrev append_x : ℕ → Op
append_x n = record { kind = "append"; key = "k"; val = "x"; client_id = "a"; req_id = n }

abbrev other : Op
other = record { kind = "put"; key = "j"; val = "y"; client_id = "b"; req_id = 9 }

-- A retried append is applied once.
append_once :
    get (run init (append_x 1 ∷ append_x 1 ∷ append_x 2 ∷ append_x 1 ∷ [])) "k" ≡ some "xx"
unfolding program
append_once = refl

run-execute_effective_example :
    (run init (append_x 2 ∷ append_x 1 ∷ other ∷ append_x 3 ∷ [])).kv
    ≡ execute_all GoMap.empty (effective [] (append_x 2 ∷ append_x 1 ∷ other ∷ append_x 3 ∷ []))
run-execute_effective_example =
    run-execute_effective (append_x 2 ∷ append_x 1 ∷ other ∷ append_x 3 ∷ [])

restore-snapshot_example :
    (s' : Sm) × (restore toy (snapshot toy (apply init (append_x 1)).0) ≡ some s')
    × ((ops : List Op) (op : Op)
        → (apply (run s' ops) op).1 ≡ (apply (run (apply init (append_x 1)).0 ops) op).1)
    × ((ops : List Op) (key : String)
        → get (run s' ops) key ≡ get (run (apply init (append_x 1)).0 ops) key)
restore-snapshot_example = restore-snapshot toy (apply init (append_x 1)).0

-- The same two keys, ranged over in either order.
abbrev one_way : Sm
one_way = record {
  kv = record { entries = ("j", "y") ∷ ("k", "x") ∷ [] };
  sessions = record {
    entries = ("a", record { last_req = 1; last_res = record { val = "x"; ok = true } }) ∷ [];
  };
}

abbrev other_way : Sm
other_way = record one_way { kv = record { entries = ("k", "x") ∷ ("j", "y") ∷ [] } }

same_values :
    (k : String)
    → lookup {V = String} k (("j", "y") ∷ ("k", "x") ∷ [])
      ≡ lookup {V = String} k (("k", "x") ∷ ("j", "y") ∷ [])
unfolding lookup
same_values k = elim (Bool-cases ("j" == k)) [
  | inl e ↦
      subst
        (λ k.
          lookup {V = String} k (("j", "y") ∷ ("k", "x") ∷ [])
          ≡ lookup {V = String} k (("k", "x") ∷ ("j", "y") ∷ []))
        ((string_eq.beq_iff "j" k).0 e) refl
  | inr e ↦ ground (arith, e)
]

same_ways : IsSame one_way other_way
unfolding GoMap.get
same_ways = record { kv = same_values; sessions = λ c. refl }

written_once : digest one_way ≡ "k|j|y\nk|k|x\ns|a|1|x|true\n"
unfolding digest sort_by less_text GoMap.get_or GoMap.get lookup decimal
written_once = refl

hash-IsSame_example : hash str_len one_way ≡ hash str_len other_way
unfolding lookup
hash-IsSame_example =
    hash-IsSame str_len one_way other_way ((refl, (refl, tt)), (refl, tt))
      ((refl, (refl, tt)), (refl, tt)) same_ways

another_client : other.client_id ≢ "a"
another_client e = absurd (ground (arith, (string_eq.beq_iff "b" "a").1 e))

apply_retry_example :
    apply (run (apply init (append_x 1)).0 (append_x 0 ∷ other ∷ [])) (append_x 1)
    ≡ (run (apply init (append_x 1)).0 (append_x 0 ∷ other ∷ []), (apply init (append_x 1)).1)
apply_retry_example =
    apply_retry init (append_x 1) (append_x 0 ∷ other ∷ []) (λ e. cc e)
      ((λ e. omega arith), ((λ e. absurd (another_client e)), tt))
