-- ===== src/Sim/Order.antt =====
-- The messages that deliverDue of internal/sim/sim.go takes from the queue.
use mathlib.Core.List.{Perm}
use mathlib.Core.List.Perm
use mathlib.Core.Bool.{Bool-set}
use quorum_log.Prelude.{
  ◌≡◌, ◌<◌, ◌≤◌, ◌⊎◌, ltb, Bool, true, false, not, List, [], ◌∷◌, ◌++◌, select, insert_by, sort_by,
  sort_by-perm, select-perm, All, if◌then◌else◌, nat_eq, arith, Bool-cases, inl, inr, subst,
  All-perm, All-weaken, All-select-true, refl,
}
use quorum_log.Engine.Interfaces.{Raft, Disk}
use quorum_log.Sim.{Rand, Event, Cluster}
use quorum_log.Sim.Network.{before, is_due, due_of}

module _ {Message : Type 0} where
  abbrev IsOrdered : List (Event Message) → Type 0
  IsOrdered [] = Unit
  IsOrdered (x ∷ []) = Unit
  IsOrdered (x ∷ y ∷ xs) = (before y x ≡ false) × IsOrdered (y ∷ xs)

  IsOrdered-tail :
      (x : Event Message) (xs : List (Event Message)) → IsOrdered (x ∷ xs) → IsOrdered xs
  IsOrdered-tail x [] h = tt
  IsOrdered-tail x (y ∷ xs) h = h.1

  before_asym : (x y : Event Message) → before x y ≡ true → before y x ≡ false
  before_asym x y h = ground (arith, h)

  insert-IsOrdered :
      (x : Event Message) (xs : List (Event Message))
      → IsOrdered xs
      → IsOrdered (insert_by before x xs)
  unfolding insert_by
  insert-IsOrdered x [] h = tt
  insert-IsOrdered x (y ∷ []) h = elim (Bool-cases (before y x)) [
    | inl t ↦ rw t (before_asym y x t, tt)
    | inr f ↦ rw f (f, h)
  ]
  insert-IsOrdered x (y ∷ z ∷ xs) h = elim (Bool-cases (before y x)) [
    | inr f ↦ rw f (f, h)
    | inl t ↦
        let rest = insert-IsOrdered x (z ∷ xs) h.1 in
        elim (Bool-cases (before z x)) [
          | inl u ↦
              rw (t, u)
                (
                  h.0,
                  subst (λ b. IsOrdered (if b then z ∷ insert_by before x xs else x ∷ z ∷ xs)) u
                      rest,
                )
          | inr f ↦ rw (t, f) (before_asym y x t, (f, h.1))
        ]
  ]

  sort-IsOrdered : (xs : List (Event Message)) → IsOrdered (sort_by before xs)
  unfolding sort_by
  sort-IsOrdered [] = tt
  sort-IsOrdered (x ∷ xs) = insert-IsOrdered x (sort_by before xs) (sort-IsOrdered xs)

  -- Each one has a later time than the one in front of it, or the same time and no smaller number.
  abbrev pub InTurn : List (Event Message) → Type 0
  InTurn [] = Unit
  InTurn (x ∷ []) = Unit
  InTurn (x ∷ y ∷ xs) = ((x.at < y.at) ⊎ ((x.at ≡ y.at) × (x.seq ≤ y.seq))) × InTurn (y ∷ xs)

  ordered_pair :
      (x y : Event Message) → before y x ≡ false → (x.at < y.at) ⊎ ((x.at ≡ y.at) × (x.seq ≤ y.seq))
  ordered_pair x y h = elim (Bool-cases (ltb x.at y.at)) [
    | inl t ↦ inl (ground (arith, t))
    | inr f ↦ inr (ground (arith, f, h), ground (arith, f, h))
  ]

  IsOrdered-InTurn : (xs : List (Event Message)) → IsOrdered xs → InTurn xs
  IsOrdered-InTurn [] h = tt
  IsOrdered-InTurn (x ∷ []) h = tt
  IsOrdered-InTurn (x ∷ y ∷ xs) h = (ordered_pair x y h.0, IsOrdered-InTurn (y ∷ xs) h.1)

select_agree {ℓ} :
    {A : Type ℓ} (p q : A → Bool)
    → ((x : A) → p x ≡ q x)
    → (xs : List A) → select p xs ≡ select q xs
unfolding select
select_agree p q same [] = refl
select_agree p q same (x ∷ xs) = ground (arith, same x, select_agree p q same xs)

module _ {rand : Rand} {raft : Raft} {disk : Disk} (c : Cluster rand raft disk) where
  abbrev pub waiting : List (Event raft.Message)
  waiting = select (λ ev. ltb c.now ev.at) c.queue

  waiting_lem : select (λ ev. not (is_due c ev)) c.queue ≡ waiting
  waiting_lem = select_agree _ _ (λ ev. ground arith) c.queue

  -- The messages that deliverDue takes from the queue are, with those whose time is still to come, the
  -- messages of the queue. The time of each is not after the present one, and they come in the order
  -- of their times and, at one time, of their numbers.
  pub due-InTurn :
      InTurn (due_of c) × Perm (due_of c ++ waiting) c.queue × All (λ ev. ev.at ≤ c.now) (due_of c)
  unfolding due_of
  due-InTurn = (
    IsOrdered-InTurn (due_of c) (sort-IsOrdered (select (is_due c) c.queue)),
    subst (λ w. Perm (due_of c ++ w) c.queue) waiting_lem
        (Perm.trans (Perm.append_right _ (sort_by-perm before (select (is_due c) c.queue)))
          (select-perm (is_due c) c.queue)),
    All-weaken (λ ev. is_due c ev ≡ true) (λ ev. ev.at ≤ c.now) (due_of c)
        (λ ev t. ground (arith, t))
        (All-perm (λ ev. is_due c ev ≡ true) (λ ev. Bool-set (is_due c ev) true)
          (sort_by-perm before (select (is_due c) c.queue)) (All-select-true (is_due c) c.queue)),
  )
