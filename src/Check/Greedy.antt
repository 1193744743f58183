-- ===== src/Check/Greedy.antt =====
-- An instance of the checker interface of internal/check for the tests: it tries the order of the
-- history, and refutes single operations.
use mathlib.Core.List.Perm
use mathlib.Core.List.{Perm, not-mem-nil, mem-cons_self, mem-cons}
use mathlib.Core.Logic.Or
use mathlib.Core.HLevel.{⊥_prop}
use quorum_log.Prelude.{
  ℕ, ◌≤◌, ◌≡◌, leb, Bool, true, false, not, ◌&&◌, List, [], ◌∷◌, All, arith, if◌then◌else◌,
}
use quorum_log.Check.{Operation, KvInput, KvOutput}
use quorum_log.Check.Linearizable.{Model, Legal, RealTime, Linearizable, CheckResult, Porcupine}

unfoldable pub all_returned : ℕ → List Operation → Bool
all_returned call [] = true
all_returned call (b ∷ ops) = leb call b.return && all_returned call ops

unfoldable pub real_time : List Operation → Bool
real_time [] = true
real_time (a ∷ ops) = all_returned a.call ops && real_time ops

module _ {S : Type 0} (next : S → KvInput → KvOutput → Bool × S) where
  unfoldable pub legal : S → List Operation → Bool
  legal st [] = true
  legal st (op ∷ ops) = (next st op.input op.output).0 && legal (next st op.input op.output).1 ops

  legal_sound : (st : S) (ops : List Operation) → legal st ops ≡ true → Legal next st ops
  unfolding legal
  legal_sound st [] h = tt
  legal_sound st (op ∷ ops) h =
      (ground (arith, h), legal_sound (next st op.input op.output).1 ops (ground (arith, h)))

all_returned_sound :
    (call : ℕ) (ops : List Operation)
    → all_returned call ops ≡ true
    → All (λ b. call ≤ b.return) ops
unfolding all_returned
all_returned_sound call [] h = tt
all_returned_sound call (b ∷ ops) h =
    (ground (arith, h), all_returned_sound call ops (ground (arith, h)))

real_time_sound : (ops : List Operation) → real_time ops ≡ true → RealTime ops
unfolding real_time
real_time_sound [] h = tt
real_time_sound (a ∷ ops) h =
    (all_returned_sound a.call ops (ground (arith, h)), real_time_sound ops (ground (arith, h)))

unfoldable pub in_order : Model → List (List Operation) → Bool
in_order m [] = true
in_order m (part ∷ parts) = (real_time part && legal m.step m.init part) && in_order m parts

pub in_order_sound :
    (m : Model) (parts : List (List Operation))
    → in_order m parts ≡ true
    → All (Linearizable m.step m.init) parts
unfolding in_order
in_order_sound m [] h = tt
in_order_sound m (part ∷ parts) h = (
  (
    part,
    Perm.refl part,
    real_time_sound part (ground (arith, h)),
    legal_sound m.step m.init part (ground (arith, h)),
  ),
  in_order_sound m parts (ground (arith, h)),
)

only_order :
    (m : Model) (op : Operation)
    → (m.step m.init op.input op.output).0 ≡ false
    → (order : List Operation) → Perm order (op ∷ [])
    → Legal m.step m.init order
    → ⊥
only_order m op bad [] perm l = not-mem-nil ((Perm.mem_iff (Perm.symm perm)).0 mem-cons_self)
only_order m op bad (x ∷ order) perm l =
    Or.elim ⊥_prop (mem-cons.0 ((Perm.mem_iff perm).0 mem-cons_self))
      (λ (same : x ≡ op). cc (bad, l.0, same)) (λ m. not-mem-nil m)

-- a part that is one operation, which the model refuses
unfoldable pub refuted : Model → List (List Operation) → Bool
refuted m ((op ∷ []) ∷ []) = not (m.step m.init op.input op.output).0
refuted m _ = false

pub refuted_sound :
    (m : Model) (parts : List (List Operation))
    → refuted m parts ≡ true
    → ¬ All (Linearizable m.step m.init) parts
unfolding refuted
refuted_sound m ((op ∷ []) ∷ []) h ((order, perm, timed, accepted), _) =
    only_order m op (ground (arith, h)) order perm accepted
refuted_sound m _ h lin = absurd (cc h)

abbrev pub greedy_check : Model → List Operation → CheckResult
greedy_check m history =
    if in_order m (m.partition history)
    then CheckResult.ok
    else if refuted m (m.partition history)
    then CheckResult.illegal
    else CheckResult.unknown

pub greedy_ok :
    (m : Model) (history : List Operation)
    → greedy_check m history ≡ CheckResult.ok
    → in_order m (m.partition history) ≡ true
greedy_ok m history e = ground (arith, e)

pub greedy_illegal :
    (m : Model) (history : List Operation)
    → greedy_check m history ≡ CheckResult.illegal
    → refuted m (m.partition history) ≡ true
greedy_illegal m history e = ground (arith, e)

unfoldable pub greedy : Porcupine
unfolding in_order refuted legal real_time all_returned
greedy = record {
  check_operations = λ m history timeout. greedy_check m history;
  ok_sound = λ m history timeout e. in_order_sound m (m.partition history) (greedy_ok m history e);
  illegal_sound =
      λ m history timeout e. refuted_sound m (m.partition history) (greedy_illegal m history e);
}
