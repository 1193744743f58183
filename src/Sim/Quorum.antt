-- ===== src/Sim/Quorum.antt =====
-- Two sides of a partition in internal/sim/sim.go.
use quorum_log.Prelude.{
  ℕ, ◌+◌, ◌/◌, ◌≤◌, ◌<◌, ◌≡◌, sym, true, false, some, List, [], ◌∷◌, length, nat_eq, arith,
  Bool-cases, inl, inr, subst,
}
use quorum_log.Engine.Interfaces.{Raft, Disk}
use quorum_log.Engine.{Engine}
use quorum_log.Engine.Client.{voters}
use quorum_log.Sim.{Rand, Cluster}
use quorum_log.Sim.Network.{connected, engine_of, reach, reaches_quorum}

module _ {rand : Rand} {raft : Raft} {disk : Disk} (c : Cluster rand raft disk) where
  -- Two nodes that are not connected reach no voter both, so together no more than there are.
  apart :
      (a b : ℕ) (vs : List ℕ) → connected c a b ≡ false → reach c a vs + reach c b vs ≤ length vs
  unfolding reach connected
  apart a b [] h = omega arith
  apart a b (v ∷ vs) h = ground (arith, apart a b vs h, h)

  quorum_reach :
      (id : ℕ) (e : Engine raft disk)
      → engine_of c id ≡ some e
      → reaches_quorum c id ≡ true
      → length (voters e) / 2 < reach c id (voters e)
  unfolding reaches_quorum
  quorum_reach id e at h = ground (arith, h, at)

  -- Two nodes with the same voters that both reach a quorum are connected.
  pub quorums-connected :
      (a b : ℕ) (e e' : Engine raft disk)
      → engine_of c a ≡ some e
      → engine_of c b ≡ some e'
      → voters e ≡ voters e'
      → reaches_quorum c a ≡ true
      → reaches_quorum c b ≡ true
      → connected c a b ≡ true
  quorums-connected a b e e' at at' same qa qb = elim (Bool-cases (connected c a b)) [
    | inl t ↦ t
    | inr f ↦ absurd (
        omega (
          arith,
          apart a b (voters e) f,
          quorum_reach a e at qa,
          subst (λ vs. length vs / 2 < reach c b vs) (sym same) (quorum_reach b e' at' qb),
        ))
  ]
