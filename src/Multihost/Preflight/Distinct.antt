-- ===== src/Multihost/Preflight/Distinct.antt =====
-- Which hosts EvaluateDistinct of internal/multihost/preflight.go takes for distinct machines.
use quorum_log.Prelude.{
  ℕ, ◌+◌, ◌≤◌, ◌≡◌, ◌≢◌, ◌↔◌, refl, ap, ◌∙◌, subst, String, true, List, [], ◌∷◌, ◌++◌, length,
  length-append, ltb, All, if◌then◌else◌, ◌==◌, nat_eq, string_eq, arith, Bool-cases, inl, inr,
  append_nothing, Option-cases, beq_refl, beq_of_ne,
}
use quorum_log.Prelude.GoMap
use quorum_log.Prelude.GoMap.{GoMap, IsMap, IsMap-put}
use quorum_log.Multihost.Preflight.{HostFacts}
use quorum_log.Multihost.Preflight.Evaluate.{
  Field, machine_identity, hostname, boot_id, field_of, note_id, see_values, shared_values,
  check_field, too_few_hosts, reasons_against, evaluate_distinct,
}

noted_count :
    (k : String) (id : ℕ) (seen : GoMap String (List ℕ)) (v : String) (more : ℕ)
    → length (GoMap.get_or (GoMap.put seen k (GoMap.get_or seen k [] ++ id ∷ [])) v []) + more
      ≡ length (GoMap.get_or seen v []) + (if k == v then more + 1 else more)
noted_count k id seen v more =
    rw (GoMap.get_or-put seen k v (GoMap.get_or seen k [] ++ id ∷ []) [])
      (elim (Bool-cases (k == v)) [
        | inl e ↦
            let same : k ≡ v = (string_eq.beq_iff k v).0 e in
            rw e (
              subst
                (λ w.
                  length (GoMap.get_or seen k [] ++ id ∷ []) + more
                  ≡ length (GoMap.get_or seen w []) + (more + 1))
                same (rw (length-append (GoMap.get_or seen k []) (id ∷ [])) (omega arith)))
        | inr e ↦ rw e refl
      ])

module _ {Error : Type 0} where
  -- Every host has the fact, and no two have the same.
  abbrev pub Apart : Field → List (HostFacts Error) → Type 0
  Apart fd [] = Unit
  Apart fd (f ∷ facts) =
      (field_of fd f ≢ "") × All (λ g. field_of fd g ≢ field_of fd f) facts × Apart fd facts

  abbrev Filled : Field → List (HostFacts Error) → Type 0
  Filled fd facts = All (λ f. field_of fd f ≢ "") facts

  -- How many hosts have the value.
  count : Field → String → List (HostFacts Error) → ℕ
  count fd v [] = 0
  count fd v (f ∷ facts) =
      let rest = count fd v facts in if field_of fd f == v then rest + 1 else rest

  seen_count :
      (fd : Field) (seen : GoMap String (List ℕ)) (facts : List (HostFacts Error))
      → Filled fd facts
      → (v : String)
      → length (GoMap.get_or (see_values fd seen facts).1 v [])
        ≡ length (GoMap.get_or seen v []) + count fd v facts
  unfolding see_values count
  seen_count fd seen [] filled v = omega arith
  seen_count fd seen (f ∷ facts) (full, filled) v = rw (beq_of_ne full) (
      seen_count fd (note_id fd seen f) facts filled v
      ∙ noted_count (field_of fd f) f.id seen v (count fd v facts))

  see_values-IsMap :
      (fd : Field) (seen : GoMap String (List ℕ)) (facts : List (HostFacts Error))
      → IsMap seen
      → IsMap (see_values fd seen facts).1
  unfolding see_values
  see_values-IsMap fd seen [] h = h
  see_values-IsMap fd seen (f ∷ facts) h = elim (Bool-cases (field_of fd f == "")) [
    | inl e ↦ rw e (see_values-IsMap fd seen facts h)
    | inr e ↦ rw e (see_values-IsMap fd (note_id fd seen f) facts (IsMap-put seen _ _ h))
  ]

  Filled-reasons :
      (fd : Field) (seen : GoMap String (List ℕ)) (facts : List (HostFacts Error))
      → Filled fd facts
      → (see_values fd seen facts).0 ≡ []
  unfolding see_values
  Filled-reasons fd seen [] h = refl
  Filled-reasons fd seen (f ∷ facts) (full, filled) =
      rw (beq_of_ne full) (Filled-reasons fd (note_id fd seen f) facts filled)

  reasons-Filled :
      (fd : Field) (seen : GoMap String (List ℕ)) (facts : List (HostFacts Error))
      → (see_values fd seen facts).0 ≡ []
      → Filled fd facts
  unfolding see_values
  reasons-Filled fd seen [] h = tt
  reasons-Filled fd seen (f ∷ facts) h = elim (Bool-cases (field_of fd f == "")) [
    | inl e ↦ absurd (ground (arith, e, h))
    | inr e ↦ (
      λ p. cc (e, (string_eq.beq_iff (field_of fd f) "").1 p),
      reasons-Filled fd (note_id fd seen f) facts (ground (arith, e, h)),
    )
  ]

  count_absent :
      (fd : Field) (v : String) (facts : List (HostFacts Error))
      → All (λ g. field_of fd g ≢ v) facts
      → count fd v facts ≡ 0
  unfolding count
  count_absent fd v [] h = refl
  count_absent fd v (g ∷ facts) (ne, h) = rw (beq_of_ne ne) (count_absent fd v facts h)

  absent_count :
      (fd : Field) (v : String) (facts : List (HostFacts Error))
      → count fd v facts ≡ 0
      → All (λ g. field_of fd g ≢ v) facts
  unfolding count
  absent_count fd v [] h = tt
  absent_count fd v (g ∷ facts) h = elim (Bool-cases (field_of fd g == v)) [
    | inl e ↦ absurd (ground (arith, e, h))
    | inr e ↦ (
      λ p. cc (e, (string_eq.beq_iff (field_of fd g) v).1 p),
      absent_count fd v facts (ground (arith, e, h)),
    )
  ]

  Apart-count :
      (fd : Field) (facts : List (HostFacts Error))
      → Apart fd facts
      → (v : String) → count fd v facts ≤ 1
  unfolding count
  Apart-count fd [] h v = omega arith
  Apart-count fd (f ∷ facts) (full, ne, h) v = elim (Bool-cases (field_of fd f == v)) [
    | inl e ↦
        let same : field_of fd f ≡ v = (string_eq.beq_iff (field_of fd f) v).0 e in
        ground (
          arith,
          e,
          count_absent fd v facts (subst (λ w. All (λ g. field_of fd g ≢ w) facts) same ne),
        )
    | inr e ↦ ground (arith, e, Apart-count fd facts h v)
  ]

  Apart-Filled : (fd : Field) (facts : List (HostFacts Error)) → Apart fd facts → Filled fd facts
  Apart-Filled fd [] h = tt
  Apart-Filled fd (f ∷ facts) (full, _, h) = (full, Apart-Filled fd facts h)

  count-Apart :
      (fd : Field) (facts : List (HostFacts Error))
      → Filled fd facts
      → ((v : String) → count fd v facts ≤ 1)
      → Apart fd facts
  unfolding count
  count-Apart fd [] filled h = tt
  count-Apart fd (f ∷ facts) (full, filled) h = (
    full,
    absent_count fd (field_of fd f) facts
        (ground (arith, h (field_of fd f), beq_refl (field_of fd f))),
    count-Apart fd facts filled (λ v. ground (arith, h v)),
  )

shared_few :
    (fd : Field) (entries : List (String × List ℕ))
    → shared_values fd entries ≡ []
    → All (λ e. length e.1 ≤ 1) entries
unfolding shared_values
shared_few fd [] h = tt
shared_few fd ((v, ids) ∷ more) h = elim (Bool-cases (ltb 1 (length ids))) [
  | inl e ↦ absurd (ground (arith, e, h))
  | inr e ↦ (ground (arith, e), shared_few fd more (ground (arith, e, h)))
]

append_none {ℓ} : {A : Type ℓ} (xs ys : List A) → xs ≡ [] → ys ≡ [] → xs ++ ys ≡ []
append_none xs ys e f = rw (e, f) refl

few_shared :
    (fd : Field) (entries : List (String × List ℕ))
    → All (λ e. length e.1 ≤ 1) entries
    → shared_values fd entries ≡ []
unfolding shared_values
few_shared fd [] h = refl
few_shared fd ((v, ids) ∷ more) (few, h) = ground (arith, few, few_shared fd more h)

module _ {Error : Type 0} (fd : Field) (facts : List (HostFacts Error)) where
  abbrev seen_all : GoMap String (List ℕ)
  seen_all = (see_values fd GoMap.empty facts).1

  listed : Filled fd facts → (v : String) → length (GoMap.get_or seen_all v []) ≡ count fd v facts
  listed filled v = omega (
    arith,
    seen_count fd GoMap.empty facts filled v,
    ap length (GoMap.get_or-empty {V = List ℕ} v []),
  )

  few_count :
      Filled fd facts
      → (v : String) → All (λ e. length e.1 ≤ 1) seen_all.entries
      → count fd v facts ≤ 1
  few_count filled v few = elim (Option-cases (GoMap.get seen_all v)) [
    | inl absent ↦
        omega (arith, listed filled v, ap length (GoMap.get_or_missing seen_all v [] absent))
    | inr (ids, known) ↦
        let small : length ids ≤ 1 = GoMap.All-get (λ ids. length ids ≤ 1) seen_all v few known in
        omega (arith, listed filled v, small, ap length (GoMap.get_or_found seen_all v [] known))
  ]

  check_sound : check_field fd facts ≡ [] → Apart fd facts
  unfolding check_field
  check_sound h =
      let (none_empty, none_shared) = append_nothing _ _ h in
      let filled = reasons-Filled fd GoMap.empty facts none_empty in
      count-Apart fd facts filled
        (λ v. few_count filled v (shared_few fd seen_all.entries none_shared))

  check_complete : Apart fd facts → check_field fd facts ≡ []
  unfolding check_field
  check_complete h = rw (Filled-reasons fd GoMap.empty facts (Apart-Filled fd facts h)) (
      few_shared fd seen_all.entries (
        GoMap.All-entries {P = λ v ids. length ids ≤ 1} seen_all
          (see_values-IsMap fd GoMap.empty facts tt)
          (λ v ids known. omega (
            arith,
            listed (Apart-Filled fd facts h) v,
            Apart-count fd facts h v,
            ap length (GoMap.get_or_found seen_all v [] known),
          ))))

pub no_reasons {ℓ} : {A : Type ℓ} (xs : List A) → length xs ≡ 0 → xs ≡ []
no_reasons [] h = refl
no_reasons (x ∷ xs) h = absurd (omega (arith, h))

module _ {Error : Type 0} (facts : List (HostFacts Error)) where
  -- At least three hosts, and all three facts tell them apart.
  abbrev pub AreDistinct : Type 0
  AreDistinct =
      (3 ≤ length facts) × Apart machine_identity facts × Apart hostname facts × Apart boot_id facts

  distinct_sound : (evaluate_distinct facts).0 ≡ true → AreDistinct
  unfolding evaluate_distinct reasons_against
  distinct_sound h =
      let none_at_all = no_reasons (reasons_against facts) (ground (arith, h)) in
      let (enough, rest) = append_nothing (too_few_hosts facts) _ none_at_all in
      let (machines, rest₁) = append_nothing _ _ rest in
      let (names, boots) = append_nothing _ _ rest₁ in
      (
        ground (arith, enough),
        check_sound machine_identity facts machines,
        check_sound hostname facts names,
        check_sound boot_id facts boots,
      )

  distinct_complete : AreDistinct → (evaluate_distinct facts).0 ≡ true
  unfolding evaluate_distinct reasons_against
  distinct_complete (enough, machines, names, boots) =
      rw
        (
          check_complete machine_identity facts machines,
          check_complete hostname facts names,
          check_complete boot_id facts boots,
        )
        (ground (arith, enough))

  -- EvaluateDistinct answers true exactly when there are at least three hosts, every one has a machine
  -- identity, a hostname and a boot id, and no two share one of these.
  pub evaluate_distinct-AreDistinct : ((evaluate_distinct facts).0 ≡ true) ↔ AreDistinct
  evaluate_distinct-AreDistinct = (distinct_sound, distinct_complete)
