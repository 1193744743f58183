-- ===== src/Multihost/Measure/Gaps.antt =====
-- What the loop of measureOutage of internal/multihost/faults.go keeps.
use quorum_log.Prelude.{
  ℕ, ◌≤◌, ◌<◌, ◌≡◌, refl, ◌⊎◌, inl, inr, true, false, Option, none, some, List, [], ◌∷◌, All, ltb,
  leb, arith, Bool-cases, string_eq, ◌∙◌, sym, if◌then◌else◌,
}
use quorum_log.Multihost.History.{OpRecord}
use quorum_log.Multihost.Measure.{is_acked_write, Gap, narrow, sooner, find_gap}

-- An acknowledged write returned at this time.
abbrev pub Returned : ℕ → List OpRecord → Type 0
Returned t [] = ⊥
Returned t (op ∷ ops) = ((is_acked_write op ≡ true) × (op.return_nanos ≡ t)) ⊎ Returned t ops

-- There is a first time, and it is not after t.
abbrev pub NotAfter : Option ℕ → ℕ → Type 0
NotAfter none t = ⊥
NotAfter (some s) t = s ≤ t

abbrev pub Beyond : ℕ → Option ℕ → Type 0
Beyond event none = Unit
Beyond event (some t) = event < t

-- A write is on one side of the gap.
abbrev pub Outside : ℕ → Gap → OpRecord → Type 0
Outside event g op =
    is_acked_write op ≡ true → (op.return_nanos ≤ g.before) ⊎ NotAfter g.after op.return_nanos

-- What a further step keeps.
abbrev pub Widens : Gap → Gap → Type 0
Widens g g' = (g.before ≤ g'.before) × ((t : ℕ) → NotAfter g.after t → NotAfter g'.after t)

abbrev pub Around : ℕ → Gap → Type 0
Around event g = (g.before ≤ event) × Beyond event g.after

-- The one time was known before, or is that of an acknowledged write.
abbrev pub Attains : Gap → Gap → List OpRecord → Type 0
Attains g g' ops =
    ((g'.before ≡ g.before) ⊎ Returned g'.before ops)
    × ((t : ℕ) → g'.after ≡ some t → (g.after ≡ some t) ⊎ Returned t ops)

sooner_at : (o : Option ℕ) (t : ℕ) → NotAfter (sooner o t) t
sooner_at none t = ground arith
sooner_at (some s) t = elim (Bool-cases (ltb t s)) [
  | inl e ↦ rw e (ground arith)
  | inr e ↦ rw e (ground (arith, e))
]

sooner_keeps : (o : Option ℕ) (t u : ℕ) → NotAfter o u → NotAfter (sooner o t) u
sooner_keeps none t u h = absurd h
sooner_keeps (some s) t u h = elim (Bool-cases (ltb t s)) [
  | inl e ↦ rw e (ground (arith, e, h))
  | inr e ↦ rw e h
]

sooner-Beyond :
    (event t : ℕ) (o : Option ℕ) → event < t → Beyond event o → Beyond event (sooner o t)
sooner-Beyond event t none late h = late
sooner-Beyond event t (some s) late h = elim (Bool-cases (ltb t s)) [
  | inl e ↦ rw e late
  | inr e ↦ rw e h
]

sooner_attains : (o : Option ℕ) (t u : ℕ) → sooner o t ≡ some u → (o ≡ some u) ⊎ (t ≡ u)
sooner_attains none t u h = inr (ground (arith, h))
sooner_attains (some s) t u h = elim (Bool-cases (ltb t s)) [
  | inl e ↦ inr (ground (arith, e, h))
  | inr e ↦ inl (ground (arith, e, h))
]

module _ (event : ℕ) (g : Gap) (op : OpRecord) where
  narrow_other : is_acked_write op ≡ false → narrow event g op ≡ g
  unfolding narrow
  narrow_other h = ground (arith, h)

  narrow_early :
      is_acked_write op ≡ true
      → leb op.return_nanos event ≡ true
      → narrow event g op
        ≡ (if ltb g.before op.return_nanos then record g { before = op.return_nanos } else g)
  unfolding narrow
  narrow_early h early = ground (arith, h, early)

  narrow_late :
      is_acked_write op ≡ true
      → leb op.return_nanos event ≡ false
      → narrow event g op ≡ record g { after = sooner g.after op.return_nanos }
  unfolding narrow
  narrow_late h late = ground (arith, h, late)

-- One write: what the step finds, keeps and takes.
abbrev Step : ℕ → Gap → Gap → OpRecord → Type 0
Step event g g' op =
    Outside event g' op × Widens g g' × (Around event g → Around event g') × Attains g g' (op ∷ [])

narrow-Step : (event : ℕ) (g : Gap) (op : OpRecord) → Step event g (narrow event g op) op
narrow-Step event g op = elim (Bool-cases (is_acked_write op)) [
  | inr other ↦ rw (narrow_other event g op other) (
    λ acked. absurd (ground (arith, acked, other)),
    (ground arith, λ t h. h),
    λ h. h,
    (inl refl, λ t h. inl h),
  )
  | inl acked ↦ elim (Bool-cases (leb op.return_nanos event)) [
    | inr late ↦ rw (narrow_late event g op acked late) (
      λ _. inr (sooner_at g.after op.return_nanos),
      (ground arith, λ t h. sooner_keeps g.after op.return_nanos t h),
      λ h. (h.0, sooner-Beyond event op.return_nanos g.after (ground (arith, late)) h.1),
      (
        inl refl,
        λ t h. elim (sooner_attains g.after op.return_nanos t h) [
          | inl known ↦ inl known
          | inr new ↦ inr (inl (acked, new))
        ],
      ),
    )
    | inl early ↦ elim (Bool-cases (ltb g.before op.return_nanos)) [
      | inl later ↦
          rw (narrow_early event g op acked early, later)
            (
              λ _. inl (ground arith),
              (ground (arith, later), λ t h. h),
              λ h. (ground (arith, early), h.1),
              (inr (inl (acked, refl)), λ t h. inl h),
            )
      | inr older ↦
          rw (narrow_early event g op acked early, older)
            (
              λ _. inl (ground (arith, older)),
              (ground arith, λ t h. h),
              λ h. h,
              (inl refl, λ t h. inl h),
            )
    ]
  ]
]

-- The whole loop.
abbrev pub Loop : ℕ → Gap → Gap → List OpRecord → Type 0
Loop event g g' ops =
    All (Outside event g') ops × Widens g g' × (Around event g → Around event g') × Attains g g' ops

Outside-widen :
    (event : ℕ) (g g' : Gap) (op : OpRecord)
    → Widens g g'
    → Outside event g op
    → Outside event g' op
Outside-widen event g g' op (low, late) h = λ acked. elim (h acked) [
  | inl early ↦ inl (ground (arith, early, low))
  | inr after ↦ inr (late op.return_nanos after)
]

Attains-trans :
    (g g' g'' : Gap) (op : OpRecord) (ops : List OpRecord)
    → Attains g g' (op ∷ [])
    → Attains g' g'' ops
    → Attains g g'' (op ∷ ops)
Attains-trans g g' g'' op ops (b, a) (b', a') = (
  elim b' [
    | inr found ↦ inr (inr found)
    | inl same' ↦ elim b [
      | inl same ↦ inl (same' ∙ same)
      | inr (inl (acked, at)) ↦ inr (inl (acked, at ∙ sym same'))
      | inr (inr none_left) ↦ absurd none_left
    ]
  ],
  λ t h. elim (a' t h) [
    | inr found ↦ inr (inr found)
    | inl known ↦ elim (a t known) [
      | inl older ↦ inl older
      | inr (inl now) ↦ inr (inl now)
      | inr (inr none_left) ↦ absurd none_left
    ]
  ],
)

pub find_gap-Loop :
    (event : ℕ) (g : Gap) (ops : List OpRecord) → Loop event g (find_gap event g ops) ops
unfolding find_gap
find_gap-Loop event g [] = (tt, (ground arith, λ t h. h), λ h. h, (inl refl, λ t h. inl h))
find_gap-Loop event g (op ∷ ops) =
    let g' = narrow event g op in
    let (out, (low, late), around, attains) = narrow-Step event g op in
    let (outs, (low', late'), around', attains') = find_gap-Loop event g' ops in
    (
      (Outside-widen event g' (find_gap event g' ops) op (low', late') out, outs),
      (ground (arith, low, low'), λ t h. late' t (late t h)),
      λ h. around' (around h),
      Attains-trans g g' (find_gap event g' ops) op ops attains attains',
    )
