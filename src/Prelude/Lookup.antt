-- ===== src/Prelude/Lookup.antt =====
-- Association lists, the representation of Go's maps.
use mathlib.Core.Path.{◌≡◌, refl, ap, subst}
use mathlib.Core.Option.{Option, none, some}
use mathlib.Core.List.{List, [], ◌∷◌}
use native.Mathlib.Omega.{arith}
use quorum_log.Prelude.Tests.{if◌then◌else◌, Bool-cases}
use mathlib.Core.Logic.{inl, inr}
use quorum_log.Prelude.Eq.{Equality, ◌==◌, beq_refl}
use quorum_log.Prelude.Lists.{All, length}
use Prim.Native.Nat.{ℕ, ◌+◌}

module _ {ℓ κ} {K : Type ℓ} {V : Type κ} ⦃e : Equality K⦄ where
  unfoldable pub lookup : K → List (K × V) → Option V
  lookup k [] = none
  lookup k ((j, v) ∷ m) = if j == k then some v else lookup k m

  unfoldable pub without : K → List (K × V) → List (K × V)
  without k [] = []
  without k ((j, v) ∷ m) = let rest = without k m in if j == k then rest else (j, v) ∷ rest

  pub lookup-without :
      (k j : K) (m : List (K × V)) → lookup j (without k m) ≡ (if k == j then none else lookup j m)
  unfolding lookup without
  lookup-without k j [] = ground arith
  lookup-without k j ((i, v) ∷ m) =
      ground (arith, lookup-without k j m, e.beq_iff i k, e.beq_iff i j, e.beq_iff k j)

  -- Every key has one entry, as in every map that Go can build.
  abbrev pub IsDistinct : List (K × V) → Type κ
  IsDistinct [] = Unit
  IsDistinct ((k, v) ∷ m) = (lookup k m ≡ none) × IsDistinct m

  pub IsDistinct-without : (k : K) (m : List (K × V)) → IsDistinct m → IsDistinct (without k m)
  unfolding without
  IsDistinct-without k [] h = tt
  IsDistinct-without k ((j, v) ∷ m) h = elim (Bool-cases (j == k)) [
    | inl e ↦ rw e (IsDistinct-without k m h.1)
    | inr e ↦ rw e (ground (arith, lookup-without k j m, h.0), IsDistinct-without k m h.1)
  ]

  -- What holds of all that a lookup finds holds of all entries.
  pub All-entries {μ} :
      {P : K → V → Type μ} (m : List (K × V))
      → IsDistinct m
      → ((k : K) (v : V) → lookup k m ≡ some v → P k v)
      → All (λ x. P x.0 x.1) m
  unfolding lookup
  All-entries [] d h = tt
  All-entries ((k, v) ∷ m) d h = (
    h k v (rw (beq_refl k)),
    All-entries m d.1 (λ j w p. h j w (ground (arith, p, d.0, e.beq_iff k j))),
  )

  pub All-lookup {μ} :
      (P : V → Type μ) (m : List (K × V)) (k : K) {v : V}
      → All (λ x. P x.1) m
      → lookup k m ≡ some v
      → P v
  unfolding lookup
  All-lookup P [] k h p = absurd (cc)
  All-lookup P ((j, w) ∷ m) k h p = elim (Bool-cases (j == k)) [
    | inl e ↦ subst P (ground (arith, e, p)) h.0
    | inr e ↦ All-lookup P m k h.1 (ground (arith, e, p))
  ]

  pub without_absent : (k : K) (m : List (K × V)) → lookup k m ≡ none → without k m ≡ m
  unfolding lookup without
  without_absent k [] h = refl
  without_absent k ((j, v) ∷ m) h = ground (arith, h, without_absent k m)

  pub length-without :
      (k : K) (v : V) (m : List (K × V))
      → IsDistinct m
      → lookup k m ≡ some v
      → length (without k m) + 1 ≡ length m
  unfolding lookup without
  length-without k v [] d h = absurd (cc)
  length-without k v ((j, w) ∷ m) d h = elim (Bool-cases (j == k)) [
    | inl e' ↦
        let same : j ≡ k = (e.beq_iff j k).0 e' in
        rw e' (rw (without_absent k m (subst (λ x. lookup x m ≡ none) same d.0)) (omega arith))
    | inr e' ↦ rw e' (omega (arith, length-without k v m d.1 (ground (arith, e', h))))
  ]

  -- The sum of the weights of the values.
  unfoldable pub total : (V → ℕ) → List (K × V) → ℕ
  total f [] = 0
  total f ((_, v) ∷ m) = f v + total f m

  pub total-without :
      (f : V → ℕ) (k : K) (v : V) (m : List (K × V))
      → IsDistinct m
      → lookup k m ≡ some v
      → f v + total f (without k m) ≡ total f m
  unfolding lookup without total
  total-without f k v [] d h = absurd (cc)
  total-without f k v ((j, w) ∷ m) d h = elim (Bool-cases (j == k)) [
    | inl e' ↦
        let same : j ≡ k = (e.beq_iff j k).0 e' in
        rw e' (
          rw (without_absent k m (subst (λ x. lookup x m ≡ none) same d.0))
            (ap (λ x. f x + total f m) (ground (arith, e', h))))
    | inr e' ↦ rw e' (omega (arith, total-without f k v m d.1 (ground (arith, e', h))))
  ]

  pub All-without {μ} :
      (P : K × V → Type μ) (k : K) (m : List (K × V)) → All P m → All P (without k m)
  unfolding without
  All-without P k [] h = tt
  All-without P k ((j, v) ∷ m) h = elim (Bool-cases (j == k)) [
    | inl e' ↦ rw e' (All-without P k m h.1)
    | inr e' ↦ rw e' (h.0, All-without P k m h.1)
  ]
