-- ===== src/Multihost/Measure/Outages.antt =====
-- What measureOutage of internal/multihost/faults.go finds.
use quorum_log.Prelude.{
  ℕ, ◌≤◌, ◌<◌, ◌≡◌, refl, ◌⊎◌, inl, inr, true, false, Option, none, some, List, [], ◌∷◌, All, arith,
  string_eq, String,
}
use quorum_log.Multihost.{Floats}
use quorum_log.Multihost.History.{OpRecord}
use quorum_log.Multihost.Measure.{is_acked_write, Gap, find_gap, Outage, outage_of, measure_outage}
use quorum_log.Multihost.Measure.Gaps.{Returned, Outside, Loop, find_gap-Loop}

module _ (fl : Floats) (ops : List OpRecord) (event : String) (at : ℕ) where
  abbrev measured : Outage fl
  measured = measure_outage fl ops event at

  abbrev found : Gap
  found = find_gap at (record { before = 0; after = none }) ops

  -- The times lie around the event and are those of acknowledged writes, and none returned between.
  abbrev pub IsGap : Outage fl → Type 0
  IsGap o =
      (o.last_ack_before ≤ at)
      × (at < o.first_ack_after)
      × Returned o.last_ack_before ops
      × Returned o.first_ack_after ops
      × All
          (λ op.
            is_acked_write op ≡ true
            → (op.return_nanos ≤ o.last_ack_before) ⊎ (o.first_ack_after ≤ op.return_nanos))
          ops

  -- No acknowledged write returned on one side of the event, but perhaps at the time 0.
  abbrev pub IsOneSided : Type 0
  IsOneSided =
      All (λ op. is_acked_write op ≡ true → op.return_nanos ≤ at) ops
      ⊎ All (λ op. is_acked_write op ≡ true → (op.return_nanos ≡ 0) ⊎ (at < op.return_nanos)) ops

  module _ (b : ℕ) (a : Option ℕ) where
    -- The gap with these times.
    abbrev gap : Gap
    gap = record { before = b; after = a }

  known_gap :
      (b : ℕ) (a : Option ℕ)
      → Loop at (record { before = 0; after = none }) (gap b a) ops
      → (outage_of fl event at (gap b a)).complete ≡ true
      → IsGap (outage_of fl event at (gap b a))
  unfolding outage_of
  known_gap b none loop h = cc
  known_gap b (some t) (out, _, around, (early, late)) h = (
    (around (ground arith, tt)).0,
    (around (ground arith, tt)).1,
    elim early [ inl zero_time ↦ absurd (ground (arith, h, zero_time)) | inr found ↦ found ],
    elim (late t refl) [ inl none_known ↦ absurd (cc) | inr found ↦ found ],
    out,
  )

  Outside-one :
      (b t : ℕ)
      → b ≡ 0
      → at < t
      → (xs : List OpRecord) → All (Outside at (gap b (some t))) xs
      → All (λ op. is_acked_write op ≡ true → (op.return_nanos ≡ 0) ⊎ (at < op.return_nanos)) xs
  Outside-one b t e h [] out = tt
  Outside-one b t e h (op ∷ xs) (o, out) = (
    λ acked. elim (o acked) [
      | inl early ↦ inl (omega (arith, early, e))
      | inr after ↦ inr (omega (arith, after, h))
    ],
    Outside-one b t e h xs out,
  )

  Outside-none :
      (b : ℕ)
      → b ≤ at
      → (xs : List OpRecord) → All (Outside at (gap b none)) xs
      → All (λ op. is_acked_write op ≡ true → op.return_nanos ≤ at) xs
  Outside-none b h [] out = tt
  Outside-none b h (op ∷ xs) (o, out) = (
    λ acked. elim (o acked) [ inl early ↦ omega (arith, early, h) | inr after ↦ absurd after ],
    Outside-none b h xs out,
  )

  unknown_gap :
      (b : ℕ) (a : Option ℕ)
      → Loop at (record { before = 0; after = none }) (gap b a) ops
      → (outage_of fl event at (gap b a)).complete ≡ false
      → IsOneSided
  unfolding outage_of
  unknown_gap b none (out, _, around, _) h =
      inl (Outside-none b (around (ground arith, tt)).0 ops out)
  unknown_gap b (some t) (out, _, around, _) h =
      inr (Outside-one b t (ground (arith, h)) (around (ground arith, tt)).1 ops out)

  -- An outage that measureOutage reports as complete lies around the event: it goes from an acknowledged
  -- write that returned at or before it to one that returned after it, and no acknowledged write
  -- returned in between. One that is not complete is reported only when no acknowledged write returned
  -- after the event, or none at or before it but perhaps at the time 0.
  pub measure_outage-IsGap :
      (measured.complete ≡ true → IsGap measured) × (measured.complete ≡ false → IsOneSided)
  unfolding measure_outage
  measure_outage-IsGap = (
    known_gap found.before found.after (find_gap-Loop at _ ops),
    unknown_gap found.before found.after (find_gap-Loop at _ ops),
  )
