-- ===== src/Prelude/Fallible.antt =====
-- Go's `(T, error)`: a value, or an error of the type `E`.
use mathlib.Core.Path.{◌≡◌, refl}
use mathlib.Core.Bool.{Bool, true, false}

pub data Except {ℓ κ} (E : Type ℓ) (A : Type κ) : Type (ℓ ⊔ κ) where
  ok : A → Except E A
  err : E → Except E A

infixl 5 ◌>>=◌ ◌>>◌
abbrev pub ◌>>=◌ {ℓ κ μ} :
    {E : Type ℓ} {A : Type κ} {B : Type μ} → Except E A → (A → Except E B) → Except E B
ok a >>= f = f a
err e >>= f = err e

pub >>=-eq-ok {ℓ κ μ} :
    {E : Type ℓ} {S : Type κ} {T : Type μ} {t : T} (first : Except E S) (next : S → Except E T)
    → ◌>>=◌ first next ≡ ok t
    → (s : S) × (first ≡ ok s) × (next s ≡ ok t)
>>=-eq-ok (err _) _ done = cc
>>=-eq-ok (ok s) _ done = (s, refl, done)

pub ok-injective {ℓ κ} :
    {E : Type ℓ} {A : Type κ} {a b : A} → ◌≡◌ {A = Except E A} (ok a) (ok b) → a ≡ b
ok-injective e = cc

pub err-ne-ok {ℓ κ} :
    {E : Type ℓ} {A : Type κ} {x : E} {a : A} → ◌≡◌ {A = Except E A} (err x) (ok a) → ⊥
err-ne-ok e = cc

-- `if bad { return err }`, in front of what follows.
abbrev pub refuse_if {ℓ} : {E : Type ℓ} → Bool → E → Except E (Unit {0})
refuse_if true e = err e
refuse_if false e = ok tt

abbrev pub ◌>>◌ {ℓ κ} : {E : Type ℓ} {B : Type κ} → Except E (Unit {0}) → Except E B → Except E B
first >> next = first >>= λ _. next

pub refuse_if-eq-ok {ℓ κ} :
    {E : Type ℓ} {B : Type κ} {b : B} (bad : Bool) (e : E) (next : Except E B)
    → ◌>>◌ (refuse_if bad e) next ≡ ok b
    → (bad ≡ false) × (next ≡ ok b)
refuse_if-eq-ok true e next h = absurd (err-ne-ok h)
refuse_if-eq-ok false e next h = (refl, h)

pub refuse_if-passes {ℓ κ} :
    {E : Type ℓ} {B : Type κ} {b : B} {bad : Bool} (e : E) {next : Except E B}
    → bad ≡ false
    → next ≡ ok b
    → ◌>>◌ (refuse_if bad e) next ≡ ok b
refuse_if-passes e no_fault h = rw no_fault h

pub refuse_if-ok {ℓ} : {E : Type ℓ} (bad : Bool) (e : E) → refuse_if bad e ≡ ok tt → bad ≡ false
refuse_if-ok true e h = absurd (err-ne-ok h)
refuse_if-ok false e h = refl
