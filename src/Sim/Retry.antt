-- ===== src/Sim/Retry.antt =====
-- A step of a client of internal/sim/client.go: it goes on with its operation, or begins one.
use quorum_log.Prelude.{
  ◌+◌, ◌<◌, ◌≡◌, refl, sym, ap, ◌∙◌, true, false, not, ◌&&◌, Option, none, some, ◌==◌, nat_eq, ltb,
  leb, arith, ◌⊎◌, Bool-cases, inl, inr,
}
use quorum_log.Sm.Persist.{Json}
use quorum_log.Engine.Interfaces.{Raft, Disk}
use quorum_log.Engine.{Engine}
use quorum_log.Sim.{Rand}
use quorum_log.Sim.Network.{engine_of}
use quorum_log.Sim.Supervisor.{engine_is, is_member}
use quorum_log.Sim.Client.{
  Pending, Client, World, is_pending, start_read, start_write, start_next_op, choose_target, submit,
  attempt, press, step,
}

module _ {rand : Rand} where
  -- The client has the same operation, perhaps sent once more.
  pub record Same (cl cl' : Client rand) : Type 0 where
    pub gen : cl'.gen ≡ cl.gen
    pub waits : is_pending cl'.pending ≡ is_pending cl.pending
    pub ops_done : cl'.ops_done ≡ cl.ops_done
    pub num_ops : cl'.num_ops ≡ cl.num_ops

  pub Same-refl : (cl : Client rand) → Same cl cl
  Same-refl cl = record { gen = refl; waits = refl; ops_done = refl; num_ops = refl }

  Same-trans : (a b c : Client rand) → Same a b → Same b c → Same a c
  Same-trans a b c s t = record {
    gen = t.gen ∙ s.gen;
    waits = t.waits ∙ s.waits;
    ops_done = t.ops_done ∙ s.ops_done;
    num_ops = t.num_ops ∙ s.num_ops;
  }

module _ {rand : Rand} {raft : Raft} {disk : Disk} (json : Json) (w : World rand raft disk) where
  choose-Same : (cl : Client rand) → Same cl (choose_target w cl).1
  unfolding choose_target
  choose-Same cl =
      elim (Bool-cases (not (cl.target == 0) && engine_is is_member w.cluster cl.target)) [
        | inl t ↦ rw t (Same-refl cl)
        | inr f ↦ rw f (record { gen = refl; waits = refl; ops_done = refl; num_ops = refl })
      ]

  submit-Same :
      (cl : Client rand) (p : Pending) (e : Engine raft disk)
      → is_pending cl.pending ≡ true
      → Same cl (submit json w cl p e).1
  unfolding submit
  submit-Same cl p e h = record {
    gen = ground arith;
    waits = ground (arith, h);
    ops_done = ground arith;
    num_ops = ground arith;
  }

module _ {rand : Rand} {raft : Raft} {disk : Disk} (json : Json) (w : World rand raft disk) where
  attempt-Same :
      (cl : Client rand) (p : Pending)
      → is_pending cl.pending ≡ true
      → Same cl (attempt json w cl p).1
  unfolding attempt
  attempt-Same cl p h = by_engine (engine_of w'.cluster cl'.target)
    where
      w' : World rand raft disk
      w' = (choose_target w cl).0

      cl' : Client rand
      cl' = (choose_target w cl).1

      chosen : Same cl cl'
      chosen = choose-Same json w cl

      by_engine :
          (o : Option (Engine raft disk))
          → Same cl
              (elim o as (λ _. World rand raft disk × Client rand) [
                | none ↦ (w', cl')
                | some e ↦ submit json w' cl' p e
              ]).1
      by_engine none = chosen
      by_engine (some e) =
          Same-trans cl cl' _ chosen (submit-Same json w' cl' p e (chosen.waits ∙ h))

  press-Same :
      (cl : Client rand) (o : Option Pending) → cl.pending ≡ o → Same cl (press json w cl o).1
  unfolding press
  press-Same cl none h = Same-refl cl
  press-Same cl (some p) h = elim (Bool-cases p.inflight) [
    | inr f ↦ rw f (attempt-Same cl p (ap is_pending h))
    | inl t ↦ elim (Bool-cases (ltb w.cluster.now p.deadline)) [
      | inl early ↦ rw (t, early) (Same-refl cl)
      | inr late ↦
          rw (t, late)
            (Same-trans cl (retried cl p) _
              (record {
                gen = refl;
                waits = sym (ap is_pending h);
                ops_done = refl;
                num_ops = refl;
              })
              (attempt-Same (retried cl p) (record p { inflight = false }) refl))
    ]
  ]
    where
      retried : Client rand → Pending → Client rand
      retried c q = record c { target = 0; pending = some (record q { inflight = false }) }

module _ {rand : Rand} where
  -- A client that has begun a new operation.
  pub record Begun (cl cl' : Client rand) : Type 0 where
    pub gen : cl'.gen ≡ cl.gen + 1
    pub waits : is_pending cl'.pending ≡ true
    pub ops_done : cl'.ops_done ≡ cl.ops_done
    pub num_ops : cl'.num_ops ≡ cl.num_ops

module _ {rand : Rand} {raft : Raft} {disk : Disk} where
  start-Begun :
      (half : rand.Float) (w : World rand raft disk) (cl : Client rand)
      → Begun cl (start_next_op half w cl).1
  unfolding start_next_op start_read start_write
  start-Begun half w cl = record {
    gen = ground arith;
    waits = ground arith;
    ops_done = ground arith;
    num_ops = ground arith;
  }

  -- A step goes on with the operation, or it begins one when none is pending and some are left.
  pub step_cases :
      (half : rand.Float) (json : Json) (w : World rand raft disk) (cl : Client rand)
      → Same cl (step half json w cl).1
        ⊎ ((b : Client rand) × (is_pending cl.pending ≡ false)
            × (cl.ops_done < cl.num_ops)
            × Begun cl b
            × Same b (step half json w cl).1)
  unfolding step
  step_cases half json w cl = elim (Bool-cases (is_pending cl.pending)) [
    | inl waits ↦ inl (rw waits (press-Same json w cl cl.pending refl))
    | inr idle ↦ elim (Bool-cases (leb cl.num_ops cl.ops_done)) [
      | inl all ↦ inl (rw (idle, all) (Same-refl cl))
      | inr some_left ↦
          let (w', b) = start_next_op half w cl in
          inr (
            b,
            idle,
            ground (arith, some_left),
            start-Begun half w cl,
            rw (idle, some_left) (press-Same json w' b b.pending refl),
          )
    ]
  ]
