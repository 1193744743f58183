-- ===== src/Multihost/Faults/Steps.antt =====
-- How a step of internal/multihost/faults.go changes the timeline.
use quorum_log.Prelude.{
  ℕ, ◌+◌, ◌≤◌, ◌≡◌, refl, sym, subst, ap, List, [], ◌-◌, ◌∷◌, ◌++◌, arith, nat_eq, Except, ok, err,
}
use Prim.Native.Nat.{max}
use quorum_log.Multihost.Deploy.{Site, DriverError, Deployment, Driven}
use quorum_log.Multihost.Faults.{
  EventName, isolate_follower, clear_follower_isolation, isolate_leader, restore_network,
  FaultEvent, Faults, Run, next, ◌>>=◌, done, drive, event, modify,
}

-- How many nodes are cut off after an event, from how many were before it.
abbrev pub cut_off : ℕ → EventName → ℕ
cut_off n isolate_follower = n + 1
cut_off n isolate_leader = n + 1
cut_off n clear_follower_isolation = n - 1
cut_off n restore_network = 0
cut_off n _ = n

-- How many are cut off at the end of a timeline, and how many at most on the way.
unfoldable pub walk : ℕ × ℕ → List FaultEvent → ℕ × ℕ
walk (n, peak) [] = (n, peak)
walk (n, peak) (e ∷ events) = walk (cut_off n e.name, max peak (cut_off n e.name)) events

pub walk-append : (s : ℕ × ℕ) (xs ys : List FaultEvent) → walk s (xs ++ ys) ≡ walk (walk s xs) ys
unfolding walk
walk-append s [] ys = refl
walk-append (n, peak) (x ∷ xs) ys =
    walk-append (cut_off n x.name, max peak (cut_off n x.name)) xs ys

abbrev pub Any : ℕ → Type 0
Any n = Unit

-- One more event.
pub walked :
    (n : ℕ) (events : List FaultEvent) (e : FaultEvent)
    → (walk (0, 0) events).0 ≡ n
    → (walk (0, 0) events).1 ≤ 1
    → cut_off n e.name ≤ 1
    → ((walk (0, 0) (events ++ e ∷ [])).0 ≡ cut_off n e.name)
      × ((walk (0, 0) (events ++ e ∷ [])).1 ≤ 1)
unfolding walk
walked n events e now peak low = rw (walk-append (0, 0) events (e ∷ [])) (
  ap (λ m. cut_off m e.name) now,
  (let low' = subst (λ m. cut_off m e.name ≤ 1) (sym now) low in omega (arith, peak, low')),
)

module _ {site : Site} where
  -- At the end of the timeline n nodes are cut off, never more than one was, and the runner has noted
  -- the follower that is cut off.
  abbrev pub At : ℕ → (ℕ → Type 0) → Faults site → Type 0
  At n P f = ((walk (0, 0) f.events).0 ≡ n) × ((walk (0, 0) f.events).1 ≤ 1) × P f.isolated_follower

  abbrev pub Calm : Faults site → Type 0
  Calm f = (walk (0, 0) f.events).1 ≤ 1

  -- From P a step leads to Q, or to an error with a timeline that is calm.
  abbrev pub Leads :
      {A : Type 0}
      → (Faults site → Type 0)
      → (A → Faults site → Type 0)
      → Faults site × Except (DriverError site.Error) A
      → Type 0
  Leads P Q (f, ok a) = Q a f
  Leads P Q (f, err e) = Calm f

  abbrev pub Does :
      {A : Type 0} → (Faults site → Type 0) → (A → Faults site → Type 0) → Run site A → Type 0
  Does P Q m = (f : Faults site) → P f → Leads P Q (m f)

  pub landed :
      {A B : Type 0} (n : ℕ) (P : ℕ → Type 0) (R : B → Faults site → Type 0) (f : Faults site)
      → At n P f
      → (k : A → Run site B) → ((a : A) → Does (At n P) R (k a))
      → (r : Driven site A) → Leads (At n P) R (next (record f { dep = r.0 }, r.1) k)
  landed n P R f p k h (d, ok a) = h a (record f { dep = d }) p
  landed n P R f p k h (d, err e) = p.1

  module _ (n : ℕ) (P : ℕ → Type 0) {B : Type 0} (R : B → Faults site → Type 0) where
    pub then_drive :
        {A : Type 0} (step : Deployment site → Driven site A) (k : A → Run site B)
        → ((a : A) → Does (At n P) R (k a))
        → Does (At n P) R (drive step >>= k)
    unfolding drive ◌>>=◌
    then_drive step k h f p = landed n P R f p k h (step f.dep)

    pub then_event :
        (name : EventName) (id : ℕ) (peers : List ℕ) (k : ℕ → Run site B)
        → cut_off n name ≤ 1
        → ((a : ℕ) → Does (At (cut_off n name) P) R (k a))
        → Does (At n P) R (event name id peers >>= k)
    unfolding event ◌>>=◌
    then_event name id peers k low h f p =
        h _ _ (let (now, peak) = walked n f.events _ p.0 p.1 low in (now, peak, p.2))

    pub then_modify :
        (P' : ℕ → Type 0) (change : Faults site → Faults site) (k : Unit {0} → Run site B)
        → ((f : Faults site)
            → P f.isolated_follower
            → ((change f).events ≡ f.events) × P' (change f).isolated_follower)
        → Does (At n P') R (k tt)
        → Does (At n P) R (modify change >>= k)
    unfolding modify ◌>>=◌
    then_modify P' change k same h f p =
        let (events, followed) = same f p.2 in
        h (change f) (
          subst (λ es. (walk (0, 0) es).0 ≡ n) (sym events) p.0,
          subst (λ es. (walk (0, 0) es).1 ≤ 1) (sym events) p.1,
          followed,
        )

  pub bound :
      {A B : Type 0} (P : Faults site → Type 0) (Q : A → Faults site → Type 0)
      (R : B → Faults site → Type 0) (k : A → Run site B)
      → ((a : A) → Does (Q a) R (k a))
      → (r : Faults site × Except (DriverError site.Error) A) → Leads P Q r
      → Leads P R (next r k)
  bound P Q R k h (f, ok a) p = h a f p
  bound P Q R k h (f, err e) p = p

  -- One step and what follows.
  pub then_step :
      {A B : Type 0} (P : Faults site → Type 0) (Q : A → Faults site → Type 0)
      (R : B → Faults site → Type 0) (m : Run site A) (k : A → Run site B)
      → Does P Q m
      → ((a : A) → Does (Q a) R (k a))
      → Does P R (m >>= k)
  unfolding ◌>>=◌
  then_step P Q R m k first more f p = bound P Q R k more (m f) (first f p)

  module _ (n : ℕ) (P : ℕ → Type 0) where
    pub ended :
        {A : Type 0} (f : Faults site)
        → At n P f
        → (r : Driven site A) → Leads (At n P) (λ _. At n P) (record f { dep = r.0 }, r.1)
    ended f p (d, ok a) = p
    ended f p (d, err e) = p.1

    -- A step of the deployment at the end.
    pub ends_drive :
        (step : Deployment site → Driven site (Unit {0})) → Does (At n P) (λ _. At n P) (drive step)
    unfolding drive
    ends_drive step f p = ended f p (step f.dep)

    pub ends_done : Does (At n P) (λ _. At n P) done
    unfolding done
    ends_done f p = p

    -- The time of an event is noted at the end.
    pub ends_modify :
        (change : Faults site → Faults site)
        → ((f : Faults site)
            → ((change f).events ≡ f.events) × ((change f).isolated_follower ≡ f.isolated_follower))
        → Does (At n P) (λ _. At n P) (modify change)
    unfolding modify
    ends_modify change same f p = rw ((same f).0, (same f).1) p
