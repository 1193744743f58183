-- ===== src/Multihost/Preflight/Evaluate.antt =====
-- EvaluateDistinct of internal/multihost/preflight.go: the reasons against distinct machines. The
-- source ranges over a map in any order; here the entries stand in the order of GoMap.
use quorum_log.Prelude.{
  ℕ, String, Bool, true, false, List, [], ◌∷◌, ◌++◌, length, ltb, if◌then◌else◌, ◌==◌, nat_eq,
  string_eq,
}
use quorum_log.Prelude.GoMap
use quorum_log.Prelude.GoMap.{GoMap}
use quorum_log.Multihost.Preflight.{HostFacts}

-- The fields that EvaluateDistinct compares.
pub data Field : Type 0 where
  machine_identity hostname boot_id : Field

-- The reasons of EvaluateDistinct.
pub data Reason : Type 0 where
  too_few : ℕ → Reason
  empty_field : ℕ → Field → Reason
  shared_field : List ℕ → Field → String → Reason

-- The second loop of check.
unfoldable pub shared_values : Field → List (String × List ℕ) → List Reason
shared_values fd [] = []
shared_values fd ((v, ids) ∷ more) =
    let rest = shared_values fd more in
    if ltb 1 (length ids) then shared_field ids fd v ∷ rest else rest

module _ {Error : Type 0} where
  abbrev pub field_of : Field → HostFacts Error → String
  field_of machine_identity f = f.machine_id
  field_of hostname f = f.hostname
  field_of boot_id f = f.boot_id

  -- `seen[v] = append(seen[v], f.ID)`
  abbrev pub note_id : Field → GoMap String (List ℕ) → HostFacts Error → GoMap String (List ℕ)
  note_id fd seen f =
      GoMap.put seen (field_of fd f) (GoMap.get_or seen (field_of fd f) [] ++ f.id ∷ [])

  -- The first loop of check: the reasons and the map `seen`.
  unfoldable pub see_values :
      Field → GoMap String (List ℕ) → List (HostFacts Error) → List Reason × GoMap String (List ℕ)
  see_values fd seen [] = ([], seen)
  see_values fd seen (f ∷ facts) =
      let v = field_of fd f in
      let skipped = see_values fd seen facts in
      let noted = see_values fd (note_id fd seen f) facts in
      if v == "" then (empty_field f.id fd ∷ skipped.0, skipped.1) else noted

  -- check
  unfoldable pub check_field : Field → List (HostFacts Error) → List Reason
  unfolding see_values shared_values
  check_field fd facts =
      let (reasons, seen) = see_values fd GoMap.empty facts in
      reasons ++ shared_values fd seen.entries

  abbrev pub too_few_hosts : List (HostFacts Error) → List Reason
  too_few_hosts facts = if ltb (length facts) 3 then too_few (length facts) ∷ [] else []

  unfoldable pub reasons_against : List (HostFacts Error) → List Reason
  unfolding check_field
  reasons_against facts =
      too_few_hosts facts
      ++ (check_field machine_identity facts
          ++ (check_field hostname facts ++ check_field boot_id facts))

  -- EvaluateDistinct; the one reason of a success is a fixed text.
  unfoldable pub evaluate_distinct : List (HostFacts Error) → Bool × List Reason
  unfolding reasons_against
  evaluate_distinct facts =
      if length (reasons_against facts) == 0 then (true, []) else (false, reasons_against facts)
