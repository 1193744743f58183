-- ===== src/Sm/Toy.antt =====
-- A small encoding that has what the state machine relies on of JSON, for the tests.
use Prim.Native.Nat.{Ordering, compare}
use Prim.Native.Char.{Char, char, code, IsLt}
use Prim.Native.String.{[] as empty_text, ◌∷◌ as cons_text}
use text.Mathlib.TextEquality.{Char-path}
use quorum_log.Prelude.{
  ℕ, zero, suc, String, ◌≡◌, refl, ap, Bool, true, false, Option, none, some, List, [], ◌∷◌, length,
  string_eq,
}
use quorum_log.Prelude.GoMap
use quorum_log.Prelude.GoMap.{GoMap, value_or}
use quorum_log.Sm.{Op, Result, Session}
use quorum_log.Sm.Persist.{Json, SnapshotData}

-- A code that is read back from the front of a text.
pub record Code {ℓ} (A : Type ℓ) : Type ℓ where
  pub write : A → List ℕ → List ℕ
  pub read : List ℕ → Option (A × List ℕ)
  pub read-write : (a : A) (rest : List ℕ) → read (write a rest) ≡ some (a, rest)

abbrev bind {ℓ κ} : {A : Type ℓ} {B : Type κ} → Option A → (A → Option B) → Option B
bind none f = none
bind (some a) f = f a

abbrev read_nat : List ℕ → Option (ℕ × List ℕ)
read_nat [] = none
read_nat (n ∷ rest) = some (n, rest)

abbrev nat : Code ℕ
nat = record { write = λ n rest. n ∷ rest; read = read_nat; read-write = λ n rest. refl }

module _ {ℓ κ} {A : Type ℓ} {B : Type κ} where
  abbrev pair : Code A → Code B → Code (A × B)
  pair a b = record {
    write = λ p rest. a.write p.0 (b.write p.1 rest);
    read = λ bytes. bind (a.read bytes) (λ x. bind (b.read x.1) (λ y. some ((x.0, y.0), y.1)));
    read-write = λ p rest. rw (a.read-write p.0 (b.write p.1 rest), b.read-write p.1 rest) refl;
  }

  -- The code of a type that is a part of another.
  abbrev as_part : Code A → (to : B → A) (of : A → B) → ((b : B) → of (to b) ≡ b) → Code B
  as_part a to of back = record {
    write = λ b rest. a.write (to b) rest;
    read = λ bytes. bind (a.read bytes) (λ x. some (of x.0, x.1));
    read-write = λ b rest. rw (a.read-write (to b) rest, back b) refl;
  }

module _ {ℓ} {A : Type ℓ} (a : Code A) where
  abbrev write_all : List A → List ℕ → List ℕ
  write_all [] rest = rest
  write_all (x ∷ xs) rest = a.write x (write_all xs rest)

  abbrev read_all : ℕ → List ℕ → Option (List A × List ℕ)
  read_all zero bytes = some ([], bytes)
  read_all (suc n) bytes =
      bind (a.read bytes) (λ x. bind (read_all n x.1) (λ y. some (x.0 ∷ y.0, y.1)))

  pub read_all_lem :
      (xs : List A) (rest : List ℕ) → read_all (length xs) (write_all xs rest) ≡ some (xs, rest)
  read_all_lem [] rest = refl
  read_all_lem (x ∷ xs) rest = rw (a.read-write x (write_all xs rest), read_all_lem xs rest) refl

  abbrev list : Code (List A)
  list = record {
    write = λ xs rest. length xs ∷ write_all xs rest;
    read = λ bytes. bind (read_nat bytes) (λ n. read_all n.0 n.1);
    read-write = read_all_lem;
  }

-- `IsScalar n`, by its comparisons.
abbrev Both : Ordering → Ordering → Type 0
Both Ordering.lt o = IsLt o
Both Ordering.eq _ = ⊥
Both Ordering.gt _ = ⊥

abbrev Scalar : Ordering → Ordering → Ordering → Type 0
Scalar Ordering.lt _ _ = Unit
Scalar Ordering.eq o p = Both o p
Scalar Ordering.gt o p = Both o p

abbrev test_lt : (o : Ordering) → Option (IsLt o)
test_lt Ordering.lt = some tt
test_lt Ordering.eq = none
test_lt Ordering.gt = none

abbrev test_both : (o p : Ordering) → Option (Both o p)
test_both Ordering.lt p = test_lt p
test_both Ordering.eq _ = none
test_both Ordering.gt _ = none

abbrev test_scalar : (o p q : Ordering) → Option (Scalar o p q)
test_scalar Ordering.lt _ _ = some tt
test_scalar Ordering.eq p q = test_both p q
test_scalar Ordering.gt p q = test_both p q

lt_found : (o : Ordering) (h : IsLt o) → (h' : IsLt o) × (test_lt o ≡ some h')
lt_found Ordering.lt h = (tt, refl)
lt_found Ordering.eq h = absurd h
lt_found Ordering.gt h = absurd h

both_found : (o p : Ordering) (h : Both o p) → (h' : Both o p) × (test_both o p ≡ some h')
both_found Ordering.lt p h = lt_found p h
both_found Ordering.eq p h = absurd h
both_found Ordering.gt p h = absurd h

scalar_found :
    (o p q : Ordering) (h : Scalar o p q) → (h' : Scalar o p q) × (test_scalar o p q ≡ some h')
scalar_found Ordering.lt p q h = (tt, refl)
scalar_found Ordering.eq p q h = both_found p q h
scalar_found Ordering.gt p q h = both_found p q h

unfoldable pub of_code : ℕ → Option Char
of_code n =
    bind (test_scalar (compare n 55296) (compare 57343 n) (compare n 1114112))
      (λ p. some (char n p))

pub of_code-code : (c : Char) → of_code (code c) ≡ some c
unfolding of_code
of_code-code (char n p) =
    let (p', found) = scalar_found (compare n 55296) (compare 57343 n) (compare n 1114112) p in
    rw found (ap some (Char-path (char n p') (char n p) refl))

abbrev write_text : String → List ℕ → List ℕ
write_text empty_text rest = zero ∷ rest
write_text (cons_text c s) rest = suc (code c) ∷ write_text s rest

abbrev read_text : List ℕ → Option (String × List ℕ)
read_text [] = none
read_text (zero ∷ rest) = some (empty_text, rest)
read_text (suc n ∷ rest) =
    bind (of_code n) (λ c. bind (read_text rest) (λ x. some (cons_text c x.0, x.1)))

pub read_text_lem : (s : String) (rest : List ℕ) → read_text (write_text s rest) ≡ some (s, rest)
read_text_lem empty_text rest = refl
read_text_lem (cons_text c s) rest = rw (of_code-code c, read_text_lem s rest) refl

abbrev string_code : Code String
string_code = record { write = write_text; read = read_text; read-write = read_text_lem }

abbrev bit : Bool → ℕ
bit true = 1
bit false = 0

abbrev of_bit : ℕ → Bool
of_bit zero = false
of_bit (suc _) = true

pub of_bit-bit : (b : Bool) → of_bit (bit b) ≡ b
of_bit-bit true = refl
of_bit-bit false = refl

abbrev op_code : Code Op
op_code =
    as_part (pair string_code (pair string_code (pair string_code (pair string_code nat))))
      (λ op. (op.kind, (op.key, (op.val, (op.client_id, op.req_id)))))
      (λ (kind, (key, (val, (client, req)))). record {
        kind = kind;
        key = key;
        val = val;
        client_id = client;
        req_id = req;
      })
      (λ op. refl)

abbrev result_code : Code Result
result_code =
    as_part (pair string_code (as_part nat bit of_bit of_bit-bit)) (λ r. (r.val, r.ok))
      (λ (val, ok). record { val = val; ok = ok }) (λ r. refl)

abbrev session_code : Code Session
session_code =
    as_part (pair nat result_code) (λ s. (s.last_req, s.last_res))
      (λ (req, res). record { last_req = req; last_res = res }) (λ s. refl)

abbrev map_code {ℓ} : {V : Type ℓ} → Code V → Code (GoMap String V)
map_code v =
    as_part (list (pair string_code v)) (λ m. m.entries) (λ entries. record { entries = entries })
      (λ m. refl)

abbrev maps_code : Code (GoMap String String × GoMap String Session)
maps_code = pair (map_code string_code) (map_code session_code)

abbrev first {ℓ κ} : {A : Type ℓ} {B : Type κ} → Option (A × B) → Option A
first none = none
first (some x) = some x.0

abbrev marshal_snapshot : SnapshotData → List ℕ
marshal_snapshot sd =
    maps_code.write (value_or sd.kv GoMap.empty, value_or sd.sessions GoMap.empty) []

abbrev unmarshal_snapshot : List ℕ → Option SnapshotData
unmarshal_snapshot bytes =
    bind (maps_code.read bytes) (λ x. some (record { kv = some x.0.0; sessions = some x.0.1 }))

abbrev pub toy : Json
toy = record {
  marshal_op = λ op. op_code.write op [];
  unmarshal_op = λ bytes. first (op_code.read bytes);
  marshal_snapshot = marshal_snapshot;
  unmarshal_snapshot = unmarshal_snapshot;
  unmarshal-marshal_op = λ op. ap first (op_code.read-write op []);
  unmarshal-marshal_snapshot = λ kv sessions.
      (kv, sessions, rw (maps_code.read-write (kv, sessions) []) refl, λ k. refl, λ k. refl);
}
