-- ===== src/Prelude/Eq.antt =====
-- Equality tests, one operator for numbers and texts.
use Prim.Native.Nat.{ℕ, compare, Ordering}
use Prim.Native.String.{String}
use mathlib.Core.Path.{◌≡◌, refl}
use mathlib.Core.Logic.{◌↔◌, ◌≢◌, inl, inr}
use mathlib.Core.Bool.{Bool, true, false}
use mathlib.Core.HLevel.{hedberg}
use native.Mathlib.Omega.{arith}
use quorum_log.Prelude.Tests.{Bool-cases}
use text.Mathlib.Text.{◌==◌ as str_beq}
use text.Mathlib.TextEquality.{eq_iff as str_beq_iff}

pub record Equality {ℓ} (A : Type ℓ) : Type ℓ where
  pub beq : A → A → Bool
  pub beq_iff : (x y : A) → (beq x y ≡ true) ↔ (x ≡ y)

abbrev pub nat_beq : ℕ → ℕ → Bool
nat_beq a b = elim (compare a b) [ Ordering.eq ↦ true | _ ↦ false ]

pub nat_beq_iff : (a b : ℕ) → (nat_beq a b ≡ true) ↔ (a ≡ b)
nat_beq_iff a b = ground arith

instance abbrev pub nat_eq : Equality ℕ
nat_eq = record { beq = nat_beq; beq_iff = nat_beq_iff }

infix 50 ◌==◌
abbrev pub ◌==◌ {ℓ} : {Key : Type ℓ} ⦃same : Equality Key⦄ → Key → Key → Bool
◌==◌ ⦃same⦄ = same.beq

instance abbrev pub string_eq : Equality String
string_eq = record { beq = str_beq; beq_iff = str_beq_iff }

pub beq_refl {ℓ} : {A : Type ℓ} ⦃e : Equality A⦄ (a : A) → (a == a) ≡ true
beq_refl ⦃e⦄ a = (e.beq_iff a a).1 refl

pub beq_of_ne {ℓ} : {A : Type ℓ} ⦃e : Equality A⦄ {a b : A} → a ≢ b → (a == b) ≡ false
beq_of_ne ⦃e⦄ {a} {b} ne = elim (Bool-cases (a == b)) [
  | inl same ↦ absurd (ne ((e.beq_iff a b).0 same))
  | inr different ↦ different
]

pub discrete_of_beq {ℓ} : {A : Type ℓ} ⦃e : Equality A⦄ → Discrete A
discrete_of_beq ⦃e⦄ a b = elim (Bool-cases (a == b)) [
  | inl same ↦ yes ((e.beq_iff a b).0 same)
  | inr different ↦ no (λ p. cc (different, (e.beq_iff a b).1 p))
]

pub String-set : IsSet String
String-set = hedberg discrete_of_beq
