-- ===== src/Engine/Balance.antt =====
-- How often the callbacks of internal/engine/engine.go stand, and the steps that take a waiter.
use quorum_log.Prelude.{
  ℕ, ◌+◌, String, ◌≡◌, refl, ◌∙◌, List, [], ◌∷◌, ◌++◌, arith, ◌==◌, if◌then◌else◌, nat_eq,
  string_eq, leb, Bool-cases, Option-cases, inl, inr,
}
use quorum_log.Prelude.GoMap
use quorum_log.Prelude.GoMap.{GoMap, IsMap, IsMap-delete, weigh, weigh-delete, weigh-put_new}
use quorum_log.Sm.{Result}
use quorum_log.Raftpb.{ConfChange}
use quorum_log.Engine.Interfaces.{ReadState, Raft, Disk}
use quorum_log.Engine.{Engine, Call, replied, changed, readable, told, reply, confirm, release}
use quorum_log.Engine.Batch.{tell, announce, flush, flush_reads}

-- Whether it is the callback: 1 or 0.
abbrev pub tally : ℕ → ℕ → ℕ
tally cb v = if v == cb then 1 else 0

-- How often it was called.
unfoldable pub answered : ℕ → List Call → ℕ
answered cb [] = 0
answered cb (replied v _ ∷ calls) = tally cb v + answered cb calls
answered cb (changed v ∷ calls) = tally cb v + answered cb calls
answered cb (readable v ∷ calls) = tally cb v + answered cb calls
answered cb (told _ ∷ calls) = answered cb calls

module _ {raft : Raft} {disk : Disk} where
  -- How often a callback waits or was called.
  unfoldable pub stands : ℕ → Engine raft disk → ℕ
  stands cb e =
      (weigh (tally cb) e.prop_waiters + weigh (tally cb) e.cc_waiters)
      + (weigh (tally cb) e.read_waiters + answered cb e.calls)

  pub record AreMaps (e : Engine raft disk) : Type 0 where
    pub prop_waiters : IsMap e.prop_waiters
    pub cc_waiters : IsMap e.cc_waiters
    pub read_waiters : IsMap e.read_waiters

module _ {raft : Raft} {disk : Disk} where
  -- The maps stay maps and every callback stands as often as before.
  abbrev pub Balanced : Engine raft disk → Engine raft disk → Type 0
  Balanced e e' = AreMaps e → AreMaps e' × ((cb : ℕ) → stands cb e' ≡ stands cb e)

  pub Balanced-trans : (a b d : Engine raft disk) → Balanced a b → Balanced b d → Balanced a d
  Balanced-trans a b d x y m =
      let (m', s) = x m in let (m'', s') = y m' in (m'', λ cb. s' cb ∙ s cb)

  pub reply-Balanced :
      (e : Engine raft disk) (key : String) (res : Result) → Balanced e (reply e key res)
  unfolding reply stands answered
  reply-Balanced e key res m = elim (Option-cases (GoMap.get e.prop_waiters key)) [
    | inl absent ↦ rw (absent, reply) (m, λ cb. refl)
    | inr (v, found) ↦
        rw (found, reply)
          (
            record {
              prop_waiters = IsMap-delete e.prop_waiters key m.prop_waiters;
              cc_waiters = m.cc_waiters;
              read_waiters = m.read_waiters;
            },
            λ cb. omega (arith, weigh-delete (tally cb) e.prop_waiters key m.prop_waiters found),
          )
  ]

  confirm-Balanced : (e : Engine raft disk) (id : ℕ) → Balanced e (confirm e id)
  unfolding confirm stands answered
  confirm-Balanced e id m = elim (Option-cases (GoMap.get e.cc_waiters id)) [
    | inl absent ↦ rw (absent, confirm) (m, λ cb. refl)
    | inr (v, found) ↦
        rw (found, confirm)
          (
            record {
              prop_waiters = m.prop_waiters;
              cc_waiters = IsMap-delete e.cc_waiters id m.cc_waiters;
              read_waiters = m.read_waiters;
            },
            λ cb. omega (arith, weigh-delete (tally cb) e.cc_waiters id m.cc_waiters found),
          )
  ]

  release-Balanced : (e : Engine raft disk) (rctx : String) → Balanced e (release e rctx)
  unfolding release stands answered
  release-Balanced e rctx m = elim (Option-cases (GoMap.get e.read_waiters rctx)) [
    | inl absent ↦ rw (absent, release) (m, λ cb. refl)
    | inr (v, found) ↦
        rw (found, release)
          (
            record {
              prop_waiters = m.prop_waiters;
              cc_waiters = m.cc_waiters;
              read_waiters = IsMap-delete e.read_waiters rctx m.read_waiters;
            },
            λ cb. omega (arith, weigh-delete (tally cb) e.read_waiters rctx m.read_waiters found),
          )
  ]

  -- A step that leaves the callbacks alone.
  abbrev Untouched : Engine raft disk → Engine raft disk → Type 0
  Untouched e e' =
      (e'.prop_waiters ≡ e.prop_waiters)
      × (e'.cc_waiters ≡ e.cc_waiters)
      × (e'.read_waiters ≡ e.read_waiters)
      × (e'.calls ≡ e.calls)

  pub Untouched-Balanced : (e e' : Engine raft disk) → Untouched e e' → Balanced e e'
  unfolding stands
  Untouched-Balanced e e' (p, c, r, l) m = (
    record {
      prop_waiters = rw p m.prop_waiters;
      cc_waiters = rw c m.cc_waiters;
      read_waiters = rw r m.read_waiters;
    },
    λ cb. rw (p, c, r, l) refl,
  )

  tell-Balanced : (e : Engine raft disk) (change : ConfChange) → Balanced e (tell e change)
  unfolding tell stands answered
  tell-Balanced e change m = (
    record {
      prop_waiters = ground (arith, m.prop_waiters);
      cc_waiters = ground (arith, m.cc_waiters);
      read_waiters = ground (arith, m.read_waiters);
    },
    λ cb. ground arith,
  )

  pub announce-Balanced :
      (e : Engine raft disk) (change : ConfChange) → Balanced e (announce e change)
  unfolding announce
  announce-Balanced e change =
      Balanced-trans e (confirm e change.id) _ (confirm-Balanced e change.id)
        (tell-Balanced (confirm e change.id) change)

  flush-Balanced :
      (e : Engine raft disk) (keep pending : List ReadState) → Balanced e (flush e keep pending).0
  unfolding flush
  flush-Balanced e keep [] m = (m, λ cb. refl)
  flush-Balanced e keep (rs ∷ pending) m = elim (Bool-cases (leb rs.index e.applied_index)) [
    | inl due ↦
        rw (due, flush)
          (Balanced-trans e (release e rs.request_ctx) _ (release-Balanced e rs.request_ctx)
            (flush-Balanced (release e rs.request_ctx) keep pending) m)
    | inr late ↦ rw (late, flush) (flush-Balanced e (keep ++ rs ∷ []) pending m)
  ]

  pub flush_reads-Balanced : (e : Engine raft disk) → Balanced e (flush_reads e)
  unfolding flush_reads
  flush_reads-Balanced e =
      Balanced-trans e (flush e [] e.pending_read).0 _ (flush-Balanced e [] e.pending_read)
        (Untouched-Balanced _ _ (refl, refl, refl, refl))
