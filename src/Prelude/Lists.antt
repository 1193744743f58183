-- ===== src/Prelude/Lists.antt =====
-- Lists by native numbers, with Boolean tests, and predicates that compute to tuples.
use Prim.Native.Nat.{ℕ, zero, suc, ◌+◌, ◌≤◌}
use mathlib.Core.Path.{◌≡◌, refl, sym, subst}
use mathlib.Core.Bool.{Bool, true, not, ◌&&◌}
use mathlib.Core.List.{List, [], ◌∷◌, ◌++◌, map, Perm, Permᴰ, perm_middle}
use mathlib.Core.List.Perm
use mathlib.Core.Logic.{inl, inr}
use mathlib.Core.HLevel.{×_prop, Unit-prop}
use mathlib.Core.Logic.{∥∥₁_elim}
use native.Mathlib.Omega.{arith}
use quorum_log.Prelude.Tests.{if◌then◌else◌, Bool-cases}

module _ {ℓ} {A : Type ℓ} where
  abbrev pub length : List A → ℕ
  length [] = 0
  length (x ∷ xs) = suc (length xs)

  pub length-append : (xs ys : List A) → length (xs ++ ys) ≡ length xs + length ys
  length-append [] ys = omega arith
  length-append (x ∷ xs) ys = omega (arith, length-append xs ys)

  abbrev pub take : ℕ → List A → List A
  take zero xs = []
  take (suc n) [] = []
  take (suc n) (x ∷ xs) = x ∷ take n xs

  -- The loop `for x in xs { if !p(x) { continue }; out = append(out, x) }`.
  unfoldable pub select : (A → Bool) → List A → List A
  select p [] = []
  select p (x ∷ xs) = let rest = select p xs in if p x then x ∷ rest else rest

  pub length-select-le : (p : A → Bool) (xs : List A) → length (select p xs) ≤ length xs
  unfolding select
  length-select-le p [] = omega arith
  length-select-le p (x ∷ xs) = ground (arith, length-select-le p xs)

  pub select-append :
      (p : A → Bool) (xs ys : List A) → select p (xs ++ ys) ≡ select p xs ++ select p ys
  unfolding select
  select-append p [] ys = refl
  select-append p (x ∷ xs) ys = ground (arith, select-append p xs ys)

  -- The stable insertion that `sort.SliceStable` and `sort.Slice` amount to: an element goes in
  -- front of the first one that is strictly after it.
  unfoldable pub insert_by : (A → A → Bool) → A → List A → List A
  insert_by less x [] = x ∷ []
  insert_by less x (y ∷ ys) =
      let rest = insert_by less x ys in if less y x then y ∷ rest else x ∷ y ∷ ys

  unfoldable pub sort_by : (A → A → Bool) → List A → List A
  unfolding insert_by
  sort_by less [] = []
  sort_by less (x ∷ xs) = insert_by less x (sort_by less xs)

  pub insert_by-perm :
      (less : A → A → Bool) (x : A) (xs : List A) → Perm (insert_by less x xs) (x ∷ xs)
  unfolding insert_by
  insert_by-perm less x [] = Perm.refl (x ∷ [])
  insert_by-perm less x (y ∷ ys) = elim (Bool-cases (less y x)) [
    | inl e ↦ rw e (Perm.trans (Perm.cons y (insert_by-perm less x ys)) (Perm.swap x y ys))
    | inr e ↦ rw e (Perm.refl (x ∷ y ∷ ys))
  ]

  pub sort_by-perm : (less : A → A → Bool) (xs : List A) → Perm (sort_by less xs) xs
  unfolding sort_by
  sort_by-perm less [] = Perm.refl []
  sort_by-perm less (x ∷ xs) =
      Perm.trans (insert_by-perm less x (sort_by less xs)) (Perm.cons x (sort_by-perm less xs))

  pub select-perm :
      (p : A → Bool) (xs : List A) → Perm (select p xs ++ select (λ x. not (p x)) xs) xs
  unfolding select
  select-perm p [] = Perm.refl []
  select-perm p (x ∷ xs) = elim (Bool-cases (p x)) [
    | inl e ↦ rw e (Perm.cons x (select-perm p xs))
    | inr e ↦ rw e (
        Perm.trans (perm_middle (select p xs) (select (λ y. not (p y)) xs))
          (Perm.cons x (select-perm p xs)))
  ]

abbrev pub All {ℓ κ} : {A : Type ℓ} → (A → Type κ) → List A → Type κ
All P [] = Unit
All P (x ∷ xs) = P x × All P xs

pub length-map {ℓ κ} :
    {A : Type ℓ} {B : Type κ} (f : A → B) (xs : List A) → length (map f xs) ≡ length xs
length-map f [] = refl
length-map f (x ∷ xs) = omega (arith, length-map f xs)

pub All-map {ℓ κ μ} :
    {A : Type ℓ} {B : Type κ} (P : B → Type μ) (f : A → B) (xs : List A)
    → All (λ x. P (f x)) xs
    → All P (map f xs)
All-map P f [] h = h
All-map P f (x ∷ xs) h = (h.0, All-map P f xs h.1)

pub All-of_map {ℓ κ μ} :
    {A : Type ℓ} {B : Type κ} (P : B → Type μ) (f : A → B) (xs : List A)
    → All P (map f xs)
    → All (λ x. P (f x)) xs
All-of_map P f [] h = h
All-of_map P f (x ∷ xs) h = (h.0, All-of_map P f xs h.1)

module _ {ℓ κ} {A : Type ℓ} (P : A → Type κ) where
  pub All-append : (xs ys : List A) → All P xs → All P ys → All P (xs ++ ys)
  All-append [] ys hx hy = hy
  All-append (x ∷ xs) ys hx hy = (hx.0, All-append xs ys hx.1 hy)

  pub All-select : (p : A → Bool) (xs : List A) → All P xs → All P (select p xs)
  unfolding select
  All-select p [] h = h
  All-select p (x ∷ xs) h = elim (Bool-cases (p x)) [
    | inl e ↦ rw e (h.0, All-select p xs h.1)
    | inr e ↦ rw e (All-select p xs h.1)
  ]

pub select_comm {ℓ} :
    {A : Type ℓ} (p q : A → Bool) (xs : List A) → select p (select q xs) ≡ select q (select p xs)
unfolding select
select_comm p q [] = refl
select_comm p q (x ∷ xs) = ground (arith, select_comm p q xs)

module _ {ℓ κ} {A : Type ℓ} (P : A → Type κ) where
  All-prop : ((x : A) → IsProp (P x)) → (xs : List A) → IsProp (All P xs)
  All-prop h [] = Unit-prop
  All-prop h (x ∷ xs) = ×_prop (h x) (All-prop h xs)

  All-permᴰ : {xs ys : List A} → Permᴰ xs ys → All P ys → All P xs
  All-permᴰ Permᴰ.nil h = h
  All-permᴰ (Permᴰ.cons e p) h = (subst P (sym e) h.0, All-permᴰ p h.1)
  All-permᴰ (Permᴰ.swap e f) h = (subst P (sym e) h.1.0, (subst P (sym f) h.0, h.1.1))
  All-permᴰ (Permᴰ.trans p q) h = All-permᴰ p (All-permᴰ q h)

  pub All-perm : ((x : A) → IsProp (P x)) → {xs ys : List A} → Perm xs ys → All P ys → All P xs
  All-perm props {xs} p h = ∥∥₁_elim p (All-prop props xs) (λ d. All-permᴰ d h)

module _ {ℓ} {A : Type ℓ} (p : A → Bool) where
  select_swap : (a b : A) (l : List A) → Perm (select p (a ∷ b ∷ l)) (select p (b ∷ a ∷ l))
  unfolding select
  select_swap a b l = elim (Bool-cases (p a)) [
    | inl s ↦ elim (Bool-cases (p b)) [
      | inl t ↦ rw (s, t) (Perm.swap b a (select p l))
      | inr t ↦ rw (s, t) (Perm.refl (a ∷ select p l))
    ]
    | inr s ↦ rw s (Perm.refl (select p (b ∷ l)))
  ]

  select-permᴰ : {xs ys : List A} → Permᴰ xs ys → Perm (select p xs) (select p ys)
  unfolding select
  select-permᴰ Permᴰ.nil = Perm.refl []
  select-permᴰ (Permᴰ.cons {a} {b} {l₁} {l₂} e d) = rw e (elim (Bool-cases (p b)) [
    | inl t ↦ rw t (Perm.cons b (select-permᴰ d))
    | inr t ↦ rw t (select-permᴰ d)
  ])
  select-permᴰ (Permᴰ.swap {a} {b} {a'} {b'} {l} e f) = rw (e, f) (select_swap b' a' l)
  select-permᴰ (Permᴰ.trans d q) = Perm.trans (select-permᴰ d) (select-permᴰ q)

  pub select-perm_cong : {xs ys : List A} → Perm xs ys → Perm (select p xs) (select p ys)
  select-perm_cong h = ∥∥₁_elim h squash₁ select-permᴰ

pub select-All {ℓ κ μ} :
    {A : Type ℓ} (P : A → Type κ) (Q : A → Type μ) (p : A → Bool) (xs : List A)
    → ((x : A) → P x → p x ≡ true → Q x)
    → All P xs
    → All Q (select p xs)
unfolding select
select-All P Q p [] f h = tt
select-All P Q p (x ∷ xs) f h = elim (Bool-cases (p x)) [
  | inl e ↦ rw e (f x h.0 e, select-All P Q p xs f h.1)
  | inr e ↦ rw e (select-All P Q p xs f h.1)
]

pub All-weaken {ℓ κ μ} :
    {A : Type ℓ} (P : A → Type κ) (Q : A → Type μ) (xs : List A)
    → ((x : A) → P x → Q x)
    → All P xs
    → All Q xs
All-weaken P Q [] f h = tt
All-weaken P Q (x ∷ xs) f h = (f x h.0, All-weaken P Q xs f h.1)

pub All-select-true {ℓ} :
    {A : Type ℓ} (p : A → Bool) (xs : List A) → All (λ x. p x ≡ true) (select p xs)
unfolding select
All-select-true p [] = tt
All-select-true p (x ∷ xs) = elim (Bool-cases (p x)) [
  | inl e ↦ rw e (e, All-select-true p xs)
  | inr e ↦ rw e (All-select-true p xs)
]

pub select-select {ℓ} :
    {A : Type ℓ} (p q : A → Bool) (xs : List A)
    → select p (select q xs) ≡ select (λ x. q x && p x) xs
unfolding select
select-select p q [] = refl
select-select p q (x ∷ xs) = ground (arith, select-select p q xs)

pub append_nothing {ℓ} : {A : Type ℓ} (xs ys : List A) → xs ++ ys ≡ [] → (xs ≡ []) × (ys ≡ [])
append_nothing [] ys h = (refl, h)
append_nothing (x ∷ xs) ys h = absurd (cc)
