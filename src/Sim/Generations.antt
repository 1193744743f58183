-- ===== src/Sim/Generations.antt =====
-- The generations of a client of internal/sim/client.go.
use quorum_log.Prelude.{
  ℕ, ◌≤◌, ◌<◌, ◌≡◌, refl, sym, ◌∙◌, String, Bool, true, false, not, if◌then◌else◌, nat_eq, arith,
  Option-cases, inl, inr,
}
use quorum_log.Sm.{Result}
use quorum_log.Sm.Persist.{Json}
use quorum_log.Engine.Interfaces.{Raft, Disk}
use quorum_log.Sim.{Rand}
use quorum_log.Sim.Network.{engine_of}
use quorum_log.Sim.Client.{
  Client, World, is_pending, expects, finished, step, write_answered, read_answered,
}
use quorum_log.Sim.Retry.{Same, Same-refl, Begun, step_cases}

module _ {rand : Rand} where
  -- It no longer expects an answer to an operation, nor has it yet to begin it.
  abbrev pub IsOver : Client rand → ℕ → Type 0
  IsOver cl g = (expects cl g ≡ false) × (g ≤ cl.gen)

  -- It has completed no more operations than it is to do, and fewer while one is pending.
  abbrev pub IsWithin : Client rand → Type 0
  IsWithin cl =
      (is_pending cl.pending ≡ true → cl.ops_done < cl.num_ops) × (cl.ops_done ≤ cl.num_ops)

module _ {rand : Rand} (raft : Raft) (disk : Disk) where
  -- A step, or a callback with what it captured.
  pub data Turn (half : rand.Float) (json : Json) : Client rand → Client rand → Type 0 where
    stepped :
        (w : World rand raft disk) (cl : Client rand) → Turn half json cl (step half json w cl).1
    write_called :
        (w : World rand raft disk) (cl : Client rand) (gen rec_id : ℕ) (res : Result)
        → Turn half json cl (write_answered w cl gen rec_id res).1
    read_called :
        (w : World rand raft disk) (cl : Client rand) (gen target rec_id : ℕ) (key : String)
        → Turn half json cl (read_answered w cl gen target rec_id key).1

  pub data Turns (half : rand.Float) (json : Json) : Client rand → Client rand → Type 0 where
    still : {cl : Client rand} → Turns half json cl cl
    and_then :
        {cl cl' cl'' : Client rand}
        → Turns half json cl cl'
        → Turn half json cl' cl''
        → Turns half json cl cl''

module _ {rand : Rand} where
  abbrev Kept : Client rand → Client rand → ℕ → Type 0
  Kept cl cl' g = IsWithin cl → IsOver cl g → IsWithin cl' × IsOver cl' g

  Same-Kept : (cl cl' : Client rand) (g : ℕ) → Same cl cl' → Kept cl cl' g
  Same-Kept cl cl' g s within over = (
    (
      λ h. omega (arith, s.ops_done, s.num_ops, within.0 (sym s.waits ∙ h)),
      omega (arith, s.ops_done, s.num_ops, within.1),
    ),
    (rw (s.gen, s.waits) over.0, omega (arith, s.gen, over.1)),
  )

  Begun-Kept : (cl b : Client rand) (g : ℕ) → cl.ops_done < cl.num_ops → Begun cl b → Kept cl b g
  Begun-Kept cl b g some_left s within over = (
    (
      λ h. omega (arith, s.ops_done, s.num_ops, some_left),
      omega (arith, s.ops_done, s.num_ops, some_left),
    ),
    (ground (arith, s.gen, over.1), omega (arith, s.gen, over.1)),
  )

  finished-Kept : (cl : Client rand) (gen g : ℕ) → expects cl gen ≡ true → Kept cl (finished cl) g
  finished-Kept cl gen g e within over =
      ((λ h. absurd (cc h), omega (arith, within.0 (ground (arith, e)))), (ground arith, over.1))

module _ {rand : Rand} {raft : Raft} {disk : Disk} where
  answered-Kept :
      (w w' : World rand raft disk) (cl : Client rand) (gen g : ℕ) (b : Bool)
      → expects cl gen ≡ b
      → Kept cl
          (if◌then◌else◌ {A = World rand raft disk × Client rand}
            (not b)
            (w, cl)
            (w', finished cl)).1
          g
  answered-Kept w w' cl gen g true e = finished-Kept cl gen g e
  answered-Kept w w' cl gen g false e = Same-Kept cl cl g (Same-refl cl)

  write-Kept :
      (w : World rand raft disk) (cl : Client rand) (gen rec_id : ℕ) (res : Result) (g : ℕ)
      → Kept cl (write_answered w cl gen rec_id res).1 g
  unfolding write_answered
  write-Kept w cl gen rec_id res g = answered-Kept w _ cl gen g (expects cl gen) refl

  read-Kept :
      (w : World rand raft disk) (cl : Client rand) (gen target rec_id : ℕ) (key : String) (g : ℕ)
      → Kept cl (read_answered w cl gen target rec_id key).1 g
  unfolding read_answered
  read-Kept w cl gen target rec_id key g = elim (Option-cases (engine_of w.cluster target)) [
    | inl gone ↦ rw gone (by_guard (expects cl gen))
    | inr (e, here) ↦ rw here (answered-Kept w _ cl gen g (expects cl gen) refl)
  ]
    where
      by_guard :
          (b : Bool)
          → Kept cl
              (if◌then◌else◌ {A = World rand raft disk × Client rand} (not b) (w, cl) (w, cl)).1
              g
      by_guard true = Same-Kept cl cl g (Same-refl cl)
      by_guard false = Same-Kept cl cl g (Same-refl cl)

  step-Kept :
      (half : rand.Float) (json : Json) (w : World rand raft disk) (cl : Client rand) (g : ℕ)
      → Kept cl (step half json w cl).1 g
  step-Kept half json w cl g within over = elim (step_cases half json w cl) [
    | inl same ↦ Same-Kept cl (step half json w cl).1 g same within over
    | inr (b, idle, some_left, begun, same) ↦
        let (within', over') = Begun-Kept cl b g some_left begun within over in
        Same-Kept b (step half json w cl).1 g same within' over'
  ]

module _ {rand : Rand} (raft : Raft) (disk : Disk) {half : rand.Float} {json : Json} where
  turn-Kept : {cl cl' : Client rand} (g : ℕ) → Turn raft disk half json cl cl' → Kept cl cl' g
  turn-Kept g (stepped w cl) = step-Kept half json w cl g
  turn-Kept g (write_called w cl gen rec_id res) = write-Kept w cl gen rec_id res g
  turn-Kept g (read_called w cl gen target rec_id key) = read-Kept w cl gen target rec_id key g

  -- Whatever steps a client makes and whatever callbacks are called, old ones and repeated ones
  -- included: it completes no more operations than it is to do, and an operation that is over is
  -- never completed again.
  pub Turns-IsOver :
      {cl cl' : Client rand} (g : ℕ)
      → Turns raft disk half json cl cl'
      → IsWithin cl
      → IsOver cl g
      → IsWithin cl' × IsOver cl' g
  Turns-IsOver g still within over = (within, over)
  Turns-IsOver g (and_then turns turn) within over =
      let (within', over') = Turns-IsOver g turns within over in turn-Kept g turn within' over'
