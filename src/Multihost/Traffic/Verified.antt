-- ===== src/Multihost/Traffic/Verified.antt =====
-- What it means that VerifyAcked of internal/multihost/traffic.go finds no mismatch.
use Prim.Native.String.{◌++◌ as concat}
use quorum_log.Prelude.{
  ℤ, ◌≡◌, String, true, false, List, [], ◌∷◌, All, arith, string_eq, Bool-cases, inl, inr,
  append_nothing, ok,
}
use quorum_log.Multihost.{Floats, Inventory}
use quorum_log.Multihost.History.{all_acked}
use quorum_log.Multihost.Client.{Web, Outcome, get_request, get}
use quorum_log.Multihost.Client.Outcomes.{Answered, WasRead, get-WasRead}
use quorum_log.Multihost.Traffic.{
  Workload, endpoints, Verifying, mismatch_of, timed_get, verify_one, verify_all, verify_acked,
}

-- A node answered a linearizable read of the key with the value.
abbrev pub ReadBack : (web : Web) → String × String → Type 0
ReadBack web (key, value) =
    (endpoint : String) × Answered web
      (get_request (concat endpoint (concat "/kv/" (concat key "?consistency=linearizable"))))
      (λ r. web.decode r.body ≡ ok (value, true))

no_mismatch :
    {Error : Type 0} (text : Error → String) (key value : String) (out : Outcome Error)
    → mismatch_of text (key, value) out ≡ []
    → (out.ok ≡ true) × (out.found ≡ true) × (out.val ≡ value)
unfolding mismatch_of
no_mismatch text key value out h = ground (arith, h, string_eq.beq_iff out.val value)

was_read :
    (web : Web) (key value : String) (out : Outcome web.Error)
    → (out.ok ≡ true) × (out.found ≡ true) × (out.val ≡ value)
    → (out.ok ≡ true → WasRead web key out)
    → ReadBack web (key, value)
was_read web key value out (good, found, same) h =
    let (world, r, answered, code, body) = h good in
    (out.endpoint, (world, r, answered, code, cc (body, found, same)))

module _ (web : Web) (text : web.Error → String) where
  module _ (verifier : ℤ) (phase : String) (nodes : List String) where
    one_read :
        (v : Verifying web) (kv : String × String)
        → (verify_one text verifier phase nodes v kv).mismatches ≡ []
        → (v.mismatches ≡ []) × ReadBack web kv
    unfolding verify_one timed_get
    one_read v (key, value) h =
        let (before, now) = append_nothing v.mismatches _ h in
        (
          before,
          was_read web key value (get web nodes (web.now v.world).0 v.leader key).out
              (no_mismatch text key value (get web nodes (web.now v.world).0 v.leader key).out now)
              (get-WasRead web nodes (web.now v.world).0 v.leader key),
        )

    all_read :
        (v : Verifying web) (kvs : List (String × String))
        → (verify_all text verifier phase nodes v kvs).0.mismatches ≡ []
        → (verify_all text verifier phase nodes v kvs).1 ≡ false
        → (v.mismatches ≡ []) × All (ReadBack web) kvs
    unfolding verify_all
    all_read v [] h kept = (h, tt)
    all_read v (kv ∷ kvs) h kept = elim (Bool-cases (web.cancelled v.world)) [
      | inl c ↦ absurd (ground (arith, c, kept))
      | inr c ↦
          let (here, rest) =
            all_read (verify_one text verifier phase nodes v kv) kvs (ground (arith, c, h))
              (ground (arith, c, kept)) in
          let (before, now) = one_read v kv here in (before, (now, rest))
    ]

  -- When VerifyAcked is not cancelled and reports no mismatch, a node has answered a linearizable read of
  -- every acknowledged key with status 200 and the acknowledged value.
  pub verify_acked-ReadBack :
      {fl : Floats} (inv : Inventory fl) (w : Workload) (world : web.State) (phase : String)
      → (verify_acked web text inv w world phase).0.mismatches ≡ []
      → (verify_acked web text inv w world phase).2 ≡ false
      → All (ReadBack web) (all_acked w.acked)
  unfolding verify_acked
  verify_acked-ReadBack inv w world phase h kept =
      (all_read inv.client.concurrency phase (endpoints inv.hosts) _ (all_acked w.acked) h kept).1
