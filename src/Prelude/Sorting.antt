-- ===== src/Prelude/Sorting.antt =====
-- Sorted keys: sort.Strings on the keys of a Go map, which do not depend on the order of its entries.
use mathlib.Core.Path.{◌≡◌, refl, ap, sym, ◌∙◌, subst}
use mathlib.Core.Bool.{Bool, true, false}
use mathlib.Core.Option.{none, some}
use mathlib.Core.List.{List, [], ◌∷◌, map}
use mathlib.Core.Logic.{inl, inr}
use native.Mathlib.Omega.{arith}
use Prim.Native.Char.{code}
use Prim.Native.String.{String}
use text.Mathlib.TextEquality.{Char-path}
use quorum_log.Prelude.Tests.{if◌then◌else◌, Bool-cases, ltb}
use quorum_log.Prelude.Lists.{insert_by, sort_by}
use quorum_log.Prelude.Eq.{Equality, ◌==◌, nat_eq, string_eq, beq_refl}
use quorum_log.Prelude.Lookup.{
  lookup, without, lookup-without, IsDistinct, IsDistinct-without, without_absent,
}
use quorum_log.Prelude.GoMap
use quorum_log.Prelude.GoMap.{GoMap, IsMap}

-- A strict total order.
pub record IsOrder {ℓ} {A : Type ℓ} (less : A → A → Bool) : Type ℓ where
  pub asym : (x y : A) → less x y ≡ true → less y x ≡ false
  pub tri : (x y : A) → less x y ≡ false → less y x ≡ false → x ≡ y
  pub between : (x y z : A) → less z x ≡ true → less z y ≡ false → less y x ≡ true

module _ {ℓ} {A : Type ℓ} {less : A → A → Bool} (o : IsOrder less) where
  front_swap :
      (x y : A) (zs : List A)
      → (if less y x then y ∷ x ∷ zs else x ∷ y ∷ zs)
        ≡ (if less x y then x ∷ y ∷ zs else y ∷ x ∷ zs)
  front_swap x y zs = elim (Bool-cases (less y x)) [
    | inl e ↦ rw (e, o.asym y x e) refl
    | inr e ↦ elim (Bool-cases (less x y)) [
      | inl e' ↦ rw (e, e') refl
      | inr e' ↦ cc (e, e', o.tri x y e' e)
    ]
  ]

  insert_swap :
      (x y : A) (zs : List A)
      → insert_by less x (insert_by less y zs) ≡ insert_by less y (insert_by less x zs)
  unfolding insert_by
  insert_swap x y [] = front_swap x y []
  insert_swap x y (z ∷ zs) = elim (Bool-cases (less z x)) [
    | inl ex ↦ elim (Bool-cases (less z y)) [
      | inl ey ↦ ground (arith, ex, ey, insert_swap x y zs)
      | inr ey ↦ ground (arith, ex, ey, o.between x y z ex ey)
    ]
    | inr ex ↦ elim (Bool-cases (less z y)) [
      | inl ey ↦ ground (arith, ex, ey, o.between y x z ey ex)
      | inr ey ↦ ground (arith, ex, ey, front_swap x y (z ∷ zs))
    ]
  ]

module _ {ℓ κ} {K : Type ℓ} {V : Type κ} ⦃e : Equality K⦄ {less : K → K → Bool}
    (o : IsOrder less) where
  abbrev sorted : List (K × V) → List K
  sorted m = sort_by less (map (λ x. x.0) m)

  -- A key can be taken out and put in again.
  sorted-without :
      (k : K) (v : V) (m : List (K × V))
      → IsDistinct m
      → lookup k m ≡ some v
      → sorted m ≡ insert_by less k (sorted (without k m))
  unfolding lookup without sort_by
  sorted-without k v [] d h = absurd (cc)
  sorted-without k v ((j, w) ∷ m) d h = elim (Bool-cases (j == k)) [
    | inl e' ↦
        let same : j ≡ k = (e.beq_iff j k).0 e' in
        rw e' (
          rw (without_absent k m (subst (λ x. lookup x m ≡ none) same d.0))
            (ap (λ x. insert_by less x (sorted m)) same))
    | inr e' ↦ rw e' (
        ap (insert_by less j) (sorted-without k v m d.1 (ground (arith, e', h)))
        ∙ insert_swap o j k (sorted (without k m)))
  ]

  rest_same :
      (v : V) (k j : K) (m n : List (K × V))
      → lookup k m ≡ none
      → lookup j ((k, v) ∷ m) ≡ lookup j n
      → lookup j m ≡ lookup j (without k n)
  unfolding lookup
  rest_same v k j m n fresh h = elim (Bool-cases (k == j)) [
    | inl e' ↦
        subst (λ x. lookup x m ≡ none) ((e.beq_iff k j).0 e') fresh
        ∙ sym (lookup-without k j n ∙ rw e' refl)
    | inr e' ↦ ground (arith, e', h, lookup-without k j n)
  ]

  sorted-same :
      (m n : List (K × V))
      → IsDistinct m
      → IsDistinct n
      → ((k : K) → lookup k m ≡ lookup k n)
      → sorted m ≡ sorted n
  unfolding lookup sort_by
  sorted-same [] [] d d' h = refl
  sorted-same [] ((k, v) ∷ n) d d' h = absurd (ground (arith, h k, beq_refl k))
  sorted-same ((k, v) ∷ m) n d d' h =
      let found : lookup k n ≡ some v = sym (h k) ∙ rw (beq_refl k) refl in
      ap (insert_by less k) (
        sorted-same m (without k n) d.1 (IsDistinct-without k n d')
          (λ j. rest_same v k j m n d.0 (h j)))
      ∙ sym (sorted-without k v n d' found)

unfoldable pub less_text : String → String → Bool
less_text String.[] String.[] = false
less_text String.[] (String.◌∷◌ d t) = true
less_text (String.◌∷◌ c s) String.[] = false
less_text (String.◌∷◌ c s) (String.◌∷◌ d t) =
    if code c == code d then less_text s t else ltb (code c) (code d)

asym_text : (s t : String) → less_text s t ≡ true → less_text t s ≡ false
unfolding less_text
asym_text String.[] String.[] h = ground (arith, h)
asym_text String.[] (String.◌∷◌ d t) h = refl
asym_text (String.◌∷◌ c s) String.[] h = ground (arith, h)
asym_text (String.◌∷◌ c s) (String.◌∷◌ d t) h = ground (arith, h, asym_text s t)

tri_text : (s t : String) → less_text s t ≡ false → less_text t s ≡ false → s ≡ t
unfolding less_text
tri_text String.[] String.[] h h' = refl
tri_text String.[] (String.◌∷◌ d t) h h' = absurd (ground (arith, h))
tri_text (String.◌∷◌ c s) String.[] h h' = absurd (ground (arith, h'))
tri_text (String.◌∷◌ c s) (String.◌∷◌ d t) h h' =
    let same : code c ≡ code d = ground (arith, h, h') in
    let rest : s ≡ t = tri_text s t (ground (arith, h, same)) (ground (arith, h', same)) in
    cc (Char-path c d same, rest)

between_text :
    (s t u : String) → less_text u s ≡ true → less_text u t ≡ false → less_text t s ≡ true
unfolding less_text
between_text String.[] t String.[] h h' = absurd (ground (arith, h))
between_text (String.◌∷◌ c s) String.[] String.[] h h' = refl
between_text s (String.◌∷◌ d t) String.[] h h' = absurd (ground (arith, h'))
between_text String.[] t (String.◌∷◌ e u) h h' = absurd (ground (arith, h))
between_text (String.◌∷◌ c s) String.[] (String.◌∷◌ e u) h h' = refl
between_text (String.◌∷◌ c s) (String.◌∷◌ d t) (String.◌∷◌ e u) h h' =
    ground (arith, h, h', between_text s t u)

pub less_text-IsOrder : IsOrder less_text
less_text-IsOrder = record { asym = asym_text; tri = tri_text; between = between_text }

-- sort.Strings, which orders by bytes, as UTF-8 keeps the order of the characters
unfoldable pub sort_texts : List String → List String
sort_texts = sort_by less_text

-- Maps with the same values have the same sorted keys.
pub sort_texts-keys {κ} :
    {V : Type κ} (m n : GoMap String V)
    → IsMap m
    → IsMap n
    → ((k : String) → GoMap.get m k ≡ GoMap.get n k)
    → sort_texts (GoMap.keys m) ≡ sort_texts (GoMap.keys n)
unfolding sort_texts GoMap.get
sort_texts-keys m n d d' h = sorted-same less_text-IsOrder m.entries n.entries d d' h
