-- ===== src/Prelude/GoMap.antt =====
-- Go's maps. A client sees them through `get`; the order of the entries is the arbitrary order in
-- which `range` visits them, so what must not depend on it says so.
use mathlib.Core.Path.{◌≡◌, refl}
use mathlib.Core.Bool.{Bool}
use mathlib.Core.Option.{Option, none, some}
use mathlib.Core.List.{List, [], ◌∷◌, map}
use native.Mathlib.Omega.{arith}
use Prim.Native.Nat.{ℕ, ◌+◌}
use quorum_log.Prelude.Tests.{if◌then◌else◌}
use quorum_log.Prelude.Lists.{length, All}
use quorum_log.Prelude.Eq.{Equality, ◌==◌, beq_refl}
use quorum_log.Prelude.Lookup.{
  lookup, without, lookup-without, IsDistinct, IsDistinct-without, without_absent, length-without,
  total, total-without, All-without,
}
use quorum_log.Prelude.Lookup

pub record GoMap {ℓ κ} (K : Type ℓ) (V : Type κ) : Type (ℓ ⊔ κ) where
  pub entries : List (K × V)

module _ {ℓ κ} {K : Type ℓ} {V : Type κ} where
  -- map[K]V{}
  abbrev pub empty : GoMap K V
  empty = record { entries = [] }

  -- the keys, in the order of `range m`
  abbrev pub keys : GoMap K V → List K
  keys m = map (λ e. e.0) m.entries

  -- len(m)
  abbrev pub size : GoMap K V → ℕ
  size m = length m.entries

module _ {κ} {V : Type κ} where
  abbrev pub value_or : Option V → V → V
  value_or none d = d
  value_or (some v) d = v

  value_or-if :
      (b : Bool) (v : V) (o : Option V) (d : V)
      → value_or (if b then some v else o) d ≡ (if b then v else value_or o d)
  value_or-if b v o d = ground arith

module _ {ℓ κ} {K : Type ℓ} {V : Type κ} ⦃e : Equality K⦄ where
  -- v, ok := m[k]
  unfoldable pub get : GoMap K V → K → Option V
  get m k = lookup k m.entries

  -- delete(m, k)
  unfoldable pub delete : GoMap K V → K → GoMap K V
  delete m k = record { entries = without k m.entries }

  -- m[k] = v
  unfoldable pub put : GoMap K V → K → V → GoMap K V
  put m k v = record { entries = (k, v) ∷ without k m.entries }

  pub get-delete :
      (m : GoMap K V) (k j : K) → get (delete m k) j ≡ (if k == j then none else get m j)
  unfolding get delete
  get-delete m k j = lookup-without k j m.entries

  pub get-put :
      (m : GoMap K V) (k j : K) (v : V) → get (put m k v) j ≡ (if k == j then some v else get m j)
  unfolding get put lookup
  get-put m k j v = ground (arith, lookup-without k j m.entries)

  pub get-empty : (k : K) → get (empty {V = V}) k ≡ none
  unfolding get lookup
  get-empty k = refl

  -- v := m[k], with the zero value of a missing key
  unfoldable pub get_or : GoMap K V → K → V → V
  get_or m k d = value_or (get m k) d

  pub get_or-put :
      (m : GoMap K V) (k j : K) (v d : V)
      → get_or (put m k v) j d ≡ (if k == j then v else get_or m j d)
  unfolding get_or
  get_or-put m k j v d = rw (get-put m k j v, get_or) (value_or-if (k == j) v (get m j) d)

  pub get_or-empty : (k : K) (d : V) → get_or empty k d ≡ d
  unfolding get_or
  get_or-empty k d = rw (get-empty k, get_or)

  pub get_or_found : (m : GoMap K V) (k : K) {v : V} (d : V) → get m k ≡ some v → get_or m k d ≡ v
  unfolding get_or
  get_or_found m k d h = rw (h, get_or)

  pub get_or_missing : (m : GoMap K V) (k : K) (d : V) → get m k ≡ none → get_or m k d ≡ d
  unfolding get_or
  get_or_missing m k d h = rw (h, get_or)

-- Every map that the operations build has one entry to a key.
module _ {ℓ κ} {K : Type ℓ} {V : Type κ} ⦃e : Equality K⦄ where
  abbrev pub IsMap : GoMap K V → Type κ
  IsMap m = IsDistinct m.entries

  pub IsMap-delete : (m : GoMap K V) (k : K) → IsMap m → IsMap (delete m k)
  unfolding delete
  IsMap-delete m k h = IsDistinct-without k m.entries h

  pub IsMap-put : (m : GoMap K V) (k : K) (v : V) → IsMap m → IsMap (put m k v)
  unfolding put
  IsMap-put m k v h = (simp (lookup-without, beq_refl), IsDistinct-without k m.entries h)

  pub All-entries {μ} :
      {P : K → V → Type μ} (m : GoMap K V)
      → IsMap m
      → ((k : K) (v : V) → get m k ≡ some v → P k v)
      → All (λ x. P x.0 x.1) m.entries
  unfolding get
  All-entries m d h = Lookup.All-entries m.entries d h

  pub All-get {μ} :
      (P : V → Type μ) (m : GoMap K V) (k : K) {v : V}
      → All (λ x. P x.1) m.entries
      → get m k ≡ some v
      → P v
  unfolding get
  All-get P m k h p = Lookup.All-lookup P m.entries k h p

  -- A fresh key adds an entry.
  pub size-put_new :
      (m : GoMap K V) (k : K) (v : V) → get m k ≡ none → size (put m k v) ≡ size m + 1
  unfolding get put
  size-put_new m k v h = rw (without_absent k m.entries h) (omega arith)

  pub size-delete :
      (m : GoMap K V) (k : K) (v : V) → IsMap m → get m k ≡ some v → size (delete m k) + 1 ≡ size m
  unfolding get delete
  size-delete m k v d h = length-without k v m.entries d h

  pub All-delete {μ} :
      (P : K × V → Type μ) (m : GoMap K V) (k : K) → All P m.entries → All P (delete m k).entries
  unfolding delete
  All-delete P m k h = All-without P k m.entries h

  pub All-put {μ} :
      (P : K × V → Type μ) (m : GoMap K V) (k : K) (v : V)
      → P (k, v)
      → All P m.entries
      → All P (put m k v).entries
  unfolding put
  All-put P m k v p h = (p, All-without P k m.entries h)

  -- The sum of the weights of the values.
  unfoldable pub weigh : (V → ℕ) → GoMap K V → ℕ
  weigh f m = total f m.entries

  pub weigh-delete :
      (f : V → ℕ) (m : GoMap K V) (k : K) {v : V}
      → IsMap m
      → get m k ≡ some v
      → f v + weigh f (delete m k) ≡ weigh f m
  unfolding get delete weigh
  weigh-delete f m k {v} d h = total-without f k v m.entries d h

  -- A fresh key adds the weight of its value.
  pub weigh-put_new :
      (f : V → ℕ) (m : GoMap K V) (k : K) (v : V)
      → get m k ≡ none
      → weigh f (put m k v) ≡ f v + weigh f m
  unfolding get put weigh total
  weigh-put_new f m k v h = rw (without_absent k m.entries h) refl

pub ruleset map_laws = (get-delete, get-put, get-empty, get_or-put, get_or-empty)
