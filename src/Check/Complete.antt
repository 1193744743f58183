-- ===== src/Check/Complete.antt =====
-- When a part of a history decides the whole: operations whose outcome is unknown.
use mathlib.Core.List.{Perm}
use mathlib.Core.List.Perm
use mathlib.Core.Path.{subst}
use mathlib.Core.HLevel.{Π_prop}
use native.Mathlib.Bridge.{le_prop}
use quorum_log.Prelude.{
  ℕ, ◌≤◌, ◌≡◌, Bool, true, false, not, List, [], ◌∷◌, ◌++◌, All, select, Bool-cases, inl, inr,
  arith, ◌==◌, string_eq, select-perm_cong, String-set, select-perm, All-select, select_comm,
  All-append, All-perm,
}
use quorum_log.Check.{Operation, KvState, init, step}
use quorum_log.Check.Linearizable.{Legal, RealTime, Linearizable}
use quorum_log.Check.Parts.{on_key, IsLinearizable}

module _ (last : ℕ) where
  -- An operation that may take effect at the end of the history, whatever happened before.
  pub record MayEnd (op : Operation) : Type 0 where
    pub open_until : last ≤ op.return
    pub accepted : (st : KvState) → (step st op.input op.output).0 ≡ true

  abbrev pub CalledBy : Operation → Type 0
  CalledBy op = op.call ≤ last

  All-CalledBy-perm : {xs ys : List Operation} → Perm xs ys → All CalledBy ys → All CalledBy xs
  All-CalledBy-perm p h = All-perm CalledBy (λ op. le_prop) p h

  Legal-MayEnd : (st : KvState) (us : List Operation) → All MayEnd us → Legal step st us
  Legal-MayEnd st [] h = tt
  Legal-MayEnd st (u ∷ us) h = (h.0.accepted st, Legal-MayEnd (step st u.input u.output).1 us h.1)

  Legal-append :
      (st : KvState) (xs us : List Operation)
      → Legal step st xs
      → All MayEnd us
      → Legal step st (xs ++ us)
  Legal-append st [] us l h = Legal-MayEnd st us h
  Legal-append st (x ∷ xs) us l h = (l.0, Legal-append (step st x.input x.output).1 xs us l.1 h)

  after :
      (a : Operation) (us : List Operation)
      → CalledBy a
      → All MayEnd us
      → All (λ b. a.call ≤ b.return) us
  after a [] c h = tt
  after a (u ∷ us) c h = (omega (arith, h.0.open_until), after a us c h.1)

  RealTime-MayEnd : (us : List Operation) → All CalledBy us → All MayEnd us → RealTime us
  RealTime-MayEnd [] c h = tt
  RealTime-MayEnd (u ∷ us) c h = (after u us c.0 h.1, RealTime-MayEnd us c.1 h.1)

  RealTime-append :
      (xs us : List Operation)
      → RealTime xs
      → All CalledBy xs
      → All CalledBy us
      → All MayEnd us
      → RealTime (xs ++ us)
  RealTime-append [] us r c d h = RealTime-MayEnd us d h
  RealTime-append (x ∷ xs) us r c d h = (
    All-append (λ b. x.call ≤ b.return) xs us r.0 (after x us c.0 h),
    RealTime-append xs us r.1 c.1 d h,
  )

  -- If the operations that `keep` leaves out may all end the history, it is linearizable as soon as
  -- the others are.
  pub Linearizable-complete :
      (keep : Operation → Bool) (h : List Operation)
      → All CalledBy h
      → All MayEnd (select (λ op. not (keep op)) h)
      → Linearizable step init (select keep h)
      → Linearizable step init h
  Linearizable-complete keep h called ends (order, perm, timed, legal) = (
    order ++ rest,
    Perm.trans (Perm.append perm (Perm.refl rest)) (select-perm keep h),
    RealTime-append order rest timed (All-CalledBy-perm perm (All-select CalledBy keep h called))
        (All-select CalledBy (λ op. not (keep op)) h called) ends,
    Legal-append init order rest legal ends,
  )
    where
      rest : List Operation
      rest = select (λ op. not (keep op)) h

  pub IsLinearizable-complete :
      (keep : Operation → Bool) (h : List Operation)
      → All CalledBy h
      → All MayEnd (select (λ op. not (keep op)) h)
      → IsLinearizable (select keep h)
      → IsLinearizable h
  IsLinearizable-complete keep h called ends lin key =
      Linearizable-complete keep (on_key key h) (All-select CalledBy _ h called)
        (subst (All MayEnd) (select_comm (λ op. op.input.key == key) _ h)
          (All-select MayEnd _ _ ends))
        (subst (Linearizable step init) (select_comm (λ op. op.input.key == key) keep h) (lin key))

-- An operation that leaves every state as it is.
abbrev pub IsNoop : Operation → Type 0
IsNoop op = (st : KvState) → (step st op.input op.output).1 ≡ st

KvState-set : IsSet KvState
KvState-set = hlevel String-set

module _ (keep : Operation → Bool) where
  abbrev Keeps : Operation → Type 0
  Keeps op = keep op ≡ false → IsNoop op

  Keeps-prop : (op : Operation) → IsProp (Keeps op)
  Keeps-prop op = Π_prop (λ _. Π_prop (λ st. KvState-set _ _))

  pub RealTime-select : (xs : List Operation) → RealTime xs → RealTime (select keep xs)
  unfolding select
  RealTime-select [] r = r
  RealTime-select (x ∷ xs) r = elim (Bool-cases (keep x)) [
    | inl e ↦ rw e (All-select (λ b. x.call ≤ b.return) keep xs r.0, RealTime-select xs r.1)
    | inr e ↦ rw e (RealTime-select xs r.1)
  ]

  Legal-select :
      (st : KvState) (xs : List Operation)
      → All Keeps xs
      → Legal step st xs
      → Legal step st (select keep xs)
  unfolding select
  Legal-select st [] n l = l
  Legal-select st (x ∷ xs) n l = elim (Bool-cases (keep x)) [
    | inl e ↦ rw e (l.0, Legal-select (step st x.input x.output).1 xs n.1 l.1)
    | inr e ↦ rw e (Legal-select st xs n.1 (subst (λ s. Legal step s xs) (n.0 e st) l.1))
  ]

  -- Leaving out operations that change nothing keeps a history linearizable.
  pub IsLinearizable-select :
      (h : List Operation)
      → All (λ op. keep op ≡ false → IsNoop op) h
      → IsLinearizable h
      → IsLinearizable (select keep h)
  IsLinearizable-select h noops lin key =
      let (order, perm, timed, legal) = lin key in
      subst (Linearizable step init) (select_comm keep (λ op. op.input.key == key) h) (
        select keep order,
        select-perm_cong keep perm,
        RealTime-select order timed,
        Legal-select init order
            (All-perm Keeps (λ op. Keeps-prop op) perm (All-select Keeps _ h noops)) legal,
      )
