-- ===== src/Engine/Handled.antt =====
-- The stages of a HandleReady that returns no error.
use quorum_log.Prelude.{
  ◌≡◌, Bool, arith, true, not, List, ok, >>=-eq-ok, ok-injective, if◌then◌else◌, sym, ap,
}
use quorum_log.Sm.Persist.{Json}
use quorum_log.Engine.Interfaces.{Ready, Raft, Disk}
use quorum_log.Engine.{Engine}
use quorum_log.Engine.Batch.{
  install, append_entries, set_hard_state, track, apply_entries, maybe_snapshot, flush_reads,
  handle_batch, process, handle_ready,
}

unless {ℓ} : {A : Type ℓ} (b : Bool) (x y z : A) → b ≡ true → (if not b then x else y) ≡ z → y ≡ z
unless b x y z t h = ground arith

module _ {raft : Raft} {disk : Disk} where
  -- The engine that takes the batch, and the batch.
  abbrev pub taken : Engine raft disk → Engine raft disk
  taken e = record e { rn = (raft.ready e.rn).0 }

  abbrev pub batch : Engine raft disk → Ready raft.Message
  batch e = (raft.ready e.rn).1

  -- The engine that has advanced past the batch.
  abbrev pub advanced : Engine raft disk → Ready raft.Message → Engine raft disk
  advanced e rd = record e { rn = raft.advance e.rn rd }

  pub record Batched (json : Json) (e : Engine raft disk) (rd : Ready raft.Message)
      (e' : Engine raft disk) : Type 0 where
    pub installed : Engine raft disk
    pub appended : Engine raft disk
    pub voted : Engine raft disk
    pub installs : install json e rd.snapshot ≡ ok installed
    pub appends : append_entries installed rd.entries ≡ ok appended
    pub votes : set_hard_state appended rd.hard_state ≡ ok voted
    pub applies :
        apply_entries json (track voted rd.soft_state rd.read_states) rd.committed_entries ≡ ok e'

  pub record Handled (json : Json) (e e' : Engine raft disk) (messages : List raft.Message)
      : Type 0 where
    pub applied : Engine raft disk
    pub settled : Engine raft disk
    pub stages : Batched json (taken e) (batch e) applied
    pub settles : maybe_snapshot json (advanced applied (batch e)) ≡ ok settled
    pub flushed : e' ≡ flush_reads settled
    pub sends : messages ≡ (batch e).messages

  batched :
      (json : Json) (e e' : Engine raft disk) (rd : Ready raft.Message)
      → handle_batch json e rd ≡ ok e'
      → Batched json e rd e'
  unfolding handle_batch
  batched json e e' rd h =
      let (installed, installs, h₁) = >>=-eq-ok (install json e rd.snapshot) _ h in
      let (appended, appends, h₂) = >>=-eq-ok (append_entries installed rd.entries) _ h₁ in
      let (voted, votes, applies) = >>=-eq-ok (set_hard_state appended rd.hard_state) _ h₂ in
      record {
        installed = installed;
        appended = appended;
        voted = voted;
        installs = installs;
        appends = appends;
        votes = votes;
        applies = applies;
      }

  processed :
      (json : Json) (e : Engine raft disk) {e' : Engine raft disk} {messages : List raft.Message}
      → process json (taken e) (batch e) ≡ ok (e', messages)
      → Handled json e e' messages
  unfolding process
  processed json e {e'} {messages} h =
      let (applied, stages, h₁) = >>=-eq-ok (handle_batch json (taken e) (batch e)) _ h in
      let (settled, settles, h₂) =
        >>=-eq-ok (maybe_snapshot json (advanced applied (batch e))) _ h₁ in
      let same : ◌≡◌ {A = Engine raft disk × List raft.Message}
          (flush_reads settled, (batch e).messages) (e', messages) =
        ok-injective h₂ in
      record {
        applied = applied;
        settled = settled;
        stages = batched json (taken e) applied (batch e) stages;
        settles = settles;
        flushed = sym (ap (λ p. p.0) same);
        sends = sym (ap (λ p. p.1) same);
      }

  pub handled :
      (json : Json) (e : Engine raft disk) {e' : Engine raft disk} {messages : List raft.Message}
      → raft.has_ready e.rn ≡ true
      → handle_ready json e ≡ ok (e', messages)
      → Handled json e e' messages
  unfolding handle_ready
  handled json e r h = processed json e (unless (raft.has_ready e.rn) _ _ _ r h)
