-- ===== src/Engine/Proposals.antt =====
-- What Propose of internal/engine/engine.go does with the callback.
use quorum_log.Prelude.{
  ℕ, String, ◌+◌, ◌≡◌, Bool, true, false, none, some, arith, ok, err, string_eq, beq_refl,
  Bool-cases, inl, inr, ◌⊎◌, refl, if◌then◌else◌,
}
use quorum_log.Prelude.GoMap
use quorum_log.Prelude.GoMap.{GoMap, IsMap-put, weigh, weigh-delete, weigh-put_new}
use quorum_log.Sm.{Op}
use quorum_log.Sm.Persist.{Json, encode}
use quorum_log.Engine.Interfaces.{Raft, Disk}
use quorum_log.Engine.{Engine, Failed, Step, prop_key}
use quorum_log.Engine.Client.{await, proposed, propose}
use quorum_log.Engine.Balance.{AreMaps, tally, stands}

module _ {raft : Raft} {disk : Disk} where
  -- The engine that a method leaves, and whether it returns no error.
  abbrev pub left_by : Step raft disk → Engine raft disk
  left_by (ok e) = e
  left_by (err f) = f.left

  abbrev pub is_ok : Step raft disk → Bool
  is_ok (ok e) = true
  is_ok (err f) = false

  Step-cases :
      (r : Step raft disk)
      → ((e : Engine raft disk) × (r ≡ ok e)) ⊎ ((f : Failed raft disk) × (r ≡ err f))
  Step-cases (ok e) = inl (e, refl)
  Step-cases (err f) = inr (f, refl)

  await-stands :
      (e : Engine raft disk) (key : String) (cb v : ℕ)
      → GoMap.get e.prop_waiters key ≡ none
      → stands v (await e key (some cb)) ≡ tally v cb + stands v e
  unfolding await stands
  await-stands e key cb v fresh = omega (arith, weigh-put_new (tally v) e.prop_waiters key cb fresh)

  refused-stands :
      (e : Engine raft disk) (key : String) (cb v : ℕ) (node : raft.Node) (f : Failed raft disk)
      → AreMaps e
      → GoMap.get e.prop_waiters key ≡ none
      → proposed (await e key (some cb)) key (node, false) ≡ err f
      → stands v f.left ≡ stands v e
  unfolding await stands proposed
  refused-stands e key cb v node f maps fresh h =
      let waiting = GoMap.put e.prop_waiters key cb in
      let found : GoMap.get waiting key ≡ some cb = simp (GoMap.get-put, beq_refl) in
      let put = weigh-put_new (tally v) e.prop_waiters key cb fresh in
      let gone =
        weigh-delete (tally v) waiting key (IsMap-put e.prop_waiters key cb maps.prop_waiters)
          found in
      ground (arith, h, put, gone)

  proposed-stands :
      (e : Engine raft disk) (key : String) (cb v : ℕ) (r : raft.Node × Bool)
      → AreMaps e
      → GoMap.get e.prop_waiters key ≡ none
      → ((e' : Engine raft disk)
          → proposed (await e key (some cb)) key r ≡ ok e'
          → stands v e' ≡ tally v cb + stands v e)
        × ((f : Failed raft disk)
            → proposed (await e key (some cb)) key r ≡ err f
            → stands v f.left ≡ stands v e)
  unfolding proposed stands
  proposed-stands e key cb v (node, true) maps fresh =
      (λ e' h. ground (arith, h, await-stands e key cb v fresh), λ f h. absurd (cc h))
  proposed-stands e key cb v (node, false) maps fresh =
      (λ e' h. absurd (cc h), λ f h. refused-stands e key cb v node f maps fresh h)

module _ {raft : Raft} {disk : Disk} (json : Json) where
  propose_cases :
      (e : Engine raft disk) (op : Op) (cb v : ℕ)
      → AreMaps e
      → GoMap.get e.prop_waiters (prop_key op.client_id op.req_id) ≡ none
      → ((e' : Engine raft disk)
          → propose json e op (some cb) ≡ ok e'
          → stands v e' ≡ tally v cb + stands v e)
        × ((f : Failed raft disk)
            → propose json e op (some cb) ≡ err f
            → stands v f.left ≡ stands v e)
  unfolding propose
  propose_cases e op cb v maps fresh =
      let key = prop_key op.client_id op.req_id in
      let r = raft.propose e.rn (encode json op) in
      let after = proposed-stands e key cb v r maps fresh in
      elim (Bool-cases (raft.is_leader e.rn)) [
        | inl lead ↦ (
          λ e' h. after.0 e' (ground (arith, h, lead)),
          λ f h. after.1 f (ground (arith, h, lead)),
        )
        | inr other ↦ (λ e' h. absurd (ground (arith, h, other)), λ f h. ground (arith, h, other))
      ]

  -- After a Propose whose key no callback waits under its callback stands once more if no error is
  -- returned and as often as before if one is; the other callbacks stand as before.
  pub propose-stands :
      (e : Engine raft disk) (op : Op) (cb v : ℕ)
      → AreMaps e
      → GoMap.get e.prop_waiters (prop_key op.client_id op.req_id) ≡ none
      → stands v (left_by (propose json e op (some cb)))
        ≡ (if is_ok (propose json e op (some cb)) then tally v cb else 0) + stands v e
  propose-stands e op cb v maps fresh =
      let cases = propose_cases e op cb v maps fresh in
      elim (Step-cases (propose json e op (some cb))) [
        | inl (e', h) ↦ rw h (cases.0 e' h)
        | inr (f, h) ↦ rw h (omega (arith, cases.1 f h))
      ]
