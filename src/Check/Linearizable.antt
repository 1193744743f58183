-- ===== src/Check/Linearizable.antt =====
-- What a verdict of the porcupine checker means: the definition of linearizability over the history
-- type of internal/check/check.go, and the checker as an interface.
use mathlib.Core.List.{Perm}
use quorum_log.Prelude.{ℕ, ◌≤◌, ◌≡◌, Bool, true, List, [], ◌∷◌, All}
use quorum_log.Check.{KvInput, KvOutput, Operation}

-- porcupine.Model, without DescribeOperation
pub record Model : Type 1 where
  pub State : Type 0
  pub partition : List Operation → List (List Operation)
  pub init : State
  pub step : State → KvInput → KvOutput → Bool × State

-- A sequence of operations that the model accepts one after the other.
abbrev pub Legal : {S : Type 0} → (S → KvInput → KvOutput → Bool × S) → S → List Operation → Type 0
Legal step st [] = Unit
Legal step st (op ∷ ops) =
    ((step st op.input op.output).0 ≡ true) × Legal step (step st op.input op.output).1 ops

-- No operation stands behind one that was called after it had returned.
abbrev pub RealTime : List Operation → Type 0
RealTime [] = Unit
RealTime (a ∷ ops) = All (λ b. a.call ≤ b.return) ops × RealTime ops

abbrev pub Linearizable :
    {S : Type 0} → (S → KvInput → KvOutput → Bool × S) → S → List Operation → Type 0
Linearizable step init history =
    (order : List Operation) × Perm order history × RealTime order × Legal step init order

-- porcupine.CheckResult
pub data CheckResult : Type 0 where
  ok illegal unknown : CheckResult

-- porcupine.CheckOperationsVerbose, which may give up at its timeout (in nanoseconds). Its verdict
-- is about every part that the model's partition gives.
pub record Porcupine : Type 1 where
  pub check_operations : Model → List Operation → ℕ → CheckResult
  pub ok_sound :
      (m : Model) (history : List Operation) (timeout : ℕ)
      → check_operations m history timeout ≡ ok
      → All (Linearizable m.step m.init) (m.partition history)
  pub illegal_sound :
      (m : Model) (history : List Operation) (timeout : ℕ)
      → check_operations m history timeout ≡ illegal
      → ¬ All (Linearizable m.step m.init) (m.partition history)
