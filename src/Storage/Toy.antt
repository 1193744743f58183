-- ===== src/Storage/Toy.antt =====
-- A small encoding that has what the storage relies on of JSON and base64, for the tests.
use quorum_log.Prelude.{
  ℕ, ◌+◌, ◌-◌, ◌≤◌, ◌≡◌, ◌≢◌, Option, none, some, List, [], ◌∷◌, ◌++◌, ltb, All, if◌then◌else◌,
  ◌==◌, nat_eq, refl, ap, arith,
}
use mathlib.Core.List.{append-nil}
use mathlib.Core.Path.{subst}
use quorum_log.Storage.{WalRecord, Encoding}

-- Numbers are shifted out of the way of the brackets 123 and 125.
abbrev body : List ℕ → List ℕ
body [] = 125 ∷ []
body (x ∷ xs) = (x + 200) ∷ body xs

abbrev cons_to : ℕ → Option (List ℕ) → Option (List ℕ)
cons_to x none = none
cons_to x (some xs) = some (x ∷ xs)

abbrev only_end : List ℕ → Option (List ℕ)
only_end [] = some []
only_end (_ ∷ _) = none

abbrev read_body : List ℕ → Option (List ℕ)
read_body [] = none
read_body (c ∷ cs) =
    let rest = read_body cs in
    if c == 125 then only_end cs else if ltb c 200 then none else cons_to (c - 200) rest

abbrev to_fields : WalRecord → List ℕ
to_fields r = r.index ∷ r.term ∷ r.kind ∷ r.payload

abbrev of_fields : Option (List ℕ) → Option WalRecord
of_fields (some (i ∷ t ∷ k ∷ p)) = some (record { index = i; term = t; kind = k; payload = p })
of_fields _ = none

abbrev marshal : WalRecord → List ℕ
marshal r = 123 ∷ body (to_fields r)

abbrev unmarshal : List ℕ → Option WalRecord
unmarshal [] = none
unmarshal (c ∷ cs) = if c == 123 then of_fields (read_body cs) else none

read_body_lem : (xs : List ℕ) → read_body (body xs) ≡ some xs
read_body_lem [] = refl
read_body_lem (x ∷ xs) = rw (read_body_lem xs) (ground arith)

-- What may follow a cut: nothing, or an opening bracket.
abbrev Opening : List ℕ → Type 0
Opening [] = Unit
Opening (c ∷ _) = c ≡ 123

read_body_cut :
    (xs p q w : List ℕ) → p ++ q ≡ body xs → q ≢ [] → Opening w → read_body (p ++ w) ≡ none
read_body_cut xs [] q [] e left o = refl
read_body_cut xs [] q (c ∷ w) e left o = rw o
read_body_cut [] (c ∷ []) q w e left o = absurd (left (cc e))
read_body_cut [] (c ∷ d ∷ p) q w e left o = absurd (cc e)
read_body_cut (x ∷ xs) (c ∷ p) q w e left o =
    let rest = read_body_cut xs p q w (cc e) left o in
    let first : c ≡ x + 200 = cc e in rw (first, rest) (ground arith)

of_fields-none : (o : Option (List ℕ)) → o ≡ none → of_fields o ≡ none
of_fields-none none e = refl
of_fields-none (some xs) e = absurd (cc e)

pub unmarshal_cut :
    (r : WalRecord) (p q w : List ℕ)
    → p ++ q ≡ marshal r
    → p ≢ []
    → q ≢ []
    → Opening w
    → unmarshal (p ++ w) ≡ none
unmarshal_cut r [] q w e begun left o = absurd (begun refl)
unmarshal_cut r (c ∷ p) q w e begun left o =
    let rest = of_fields-none _ (read_body_cut (to_fields r) p q w (cc e) left o) in
    ground (arith, rest)

pub printable_body : (xs : List ℕ) → All (λ c. 32 ≤ c) (body xs)
printable_body [] = omega arith
printable_body (x ∷ xs) = (omega arith, printable_body xs)

pub unmarshal_prefix :
    (r : WalRecord) (p q : List ℕ) → p ++ q ≡ marshal r → q ≢ [] → unmarshal p ≡ none
unmarshal_prefix r [] q e left = refl
unmarshal_prefix r (c ∷ p) q e left =
    subst (λ l. unmarshal l ≡ none) (append-nil (c ∷ p))
      (unmarshal_cut r (c ∷ p) q [] e (λ z. cc z) left tt)

pub unmarshal_marshal : (r : WalRecord) → unmarshal (marshal r) ≡ some r
unmarshal_marshal r = ap of_fields (read_body_lem (to_fields r))

pub le_opens : 32 ≤ 123
le_opens = omega arith

abbrev pub toy : Encoding
toy = record {
  marshal = marshal;
  unmarshal = unmarshal;
  encode_to_string = λ bs. bs;
  decode_string = λ bs. some bs;
  unmarshal-marshal = unmarshal_marshal;
  decode-encode = λ bs. refl;
  marshal_opens = λ r. (body (to_fields r), refl);
  marshal_printable = λ r. (le_opens, printable_body (to_fields r));
  unmarshal_cut = unmarshal_prefix;
  unmarshal_glued = λ r r' p q e begun left. unmarshal_cut r p q (marshal r') e begun left refl;
}
