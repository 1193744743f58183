-- ===== src/Multihost/Measure.antt =====
-- The measurements of internal/multihost/faults.go on the history of a run. A duration is a fraction
-- in the source's floating-point numbers.
pub mod Gaps
pub mod Outages
use quorum_log.Prelude.{
  ℕ, suc, ◌+◌, ◌-◌, ℤ, pos, sub_ℕ, String, Bool, true, false, not, ◌&&◌, ◌||◌, Option, none, some,
  List, [], ◌∷◌, ltb, leb, if◌then◌else◌, ◌==◌, string_eq,
}
use quorum_log.Multihost.{Floats}
use quorum_log.Multihost.History.{OpRecord, History, is_ok, phase_verify}

module _ (fl : Floats) where
  -- OutageMeasurement
  pub record Outage : Type 0 where
    pub event : String
    pub event_at : ℕ
    pub last_ack_before : ℕ
    pub first_ack_after : ℕ
    pub outage_ms : fl.Float
    pub complete : Bool

  -- ProgressMeasurement
  pub record Progress : Type 0 where
    pub window_start : ℕ
    pub window_end : ℕ
    pub window_ms : fl.Float
    pub acknowledged_writes : ℕ
    pub acknowledged_reads : ℕ
    pub writes_per_second : fl.Float
    pub made_progress : Bool

-- `op.Op == "put" && op.Status == StatusOK`
abbrev pub is_acked_write : OpRecord → Bool
is_acked_write op = op.op == "put" && is_ok op

-- The variables of the loop of measureOutage; an `after` below 0 is `none`.
pub record Gap : Type 0 where
  pub before : ℕ
  pub after : Option ℕ

abbrev pub sooner : Option ℕ → ℕ → Option ℕ
sooner none t = some t
sooner (some s) t = if ltb t s then some t else some s

-- The body of the loop of measureOutage.
unfoldable pub narrow : ℕ → Gap → OpRecord → Gap
narrow event g op =
    if not (op.op == "put") || not (is_ok op)
    then g
    else if leb op.return_nanos event
    then (if ltb g.before op.return_nanos then record g { before = op.return_nanos } else g)
    else record g { after = sooner g.after op.return_nanos }

unfoldable pub find_gap : ℕ → Gap → List OpRecord → Gap
unfolding narrow
find_gap event g [] = g
find_gap event g (op ∷ more) = find_gap event (narrow event g op) more

-- The body of the loop of measureProgress, on the numbers of writes and of reads.
unfoldable pub count_window : ℕ → ℕ → ℕ × ℕ → OpRecord → ℕ × ℕ
count_window start end (writes, reads) op =
    if not (is_ok op) || ltb op.return_nanos start || ltb end op.return_nanos
    then (writes, reads)
    else if op.op == "put"
    then (writes + 1, reads)
    else (writes, reads + 1)

unfoldable pub count_windows : ℕ → ℕ → ℕ × ℕ → List OpRecord → ℕ × ℕ
unfolding count_window
count_windows start end counts [] = counts
count_windows start end counts (op ∷ more) =
    count_windows start end (count_window start end counts op) more

-- The loop of firstVerifyReadNanos.
unfoldable pub first_verify_read : Option ℕ → List OpRecord → Option ℕ
first_verify_read first [] = first
first_verify_read first (op ∷ more) =
    first_verify_read
      (if not (op.phase == phase_verify) || not (is_ok op)
        then first
        else sooner first op.return_nanos)
      more

-- `float64(a-b) / 1e6`
abbrev pub ms_between : (fl : Floats) → ℕ → ℕ → fl.Float
ms_between fl a b = fl.divide (fl.of_int (sub_ℕ a b)) (fl.of_int (pos 1_000_000))

module _ (fl : Floats) where
  -- The end of measureOutage.
  unfoldable pub outage_of : String → ℕ → Gap → Outage fl
  outage_of event at g = elim g.after [
    | none ↦ record {
      event = event;
      event_at = at;
      last_ack_before = g.before;
      first_ack_after = 0;
      outage_ms = fl.of_int (pos 0);
      complete = false;
    }
    | some after ↦ record {
      event = event;
      event_at = at;
      last_ack_before = g.before;
      first_ack_after = after;
      outage_ms = ms_between fl after g.before;
      complete = ltb 0 g.before;
    }
  ]

  -- measureOutage
  unfoldable pub measure_outage : List OpRecord → String → ℕ → Outage fl
  unfolding outage_of find_gap
  measure_outage ops event at =
      outage_of event at (find_gap at (record { before = 0; after = none }) ops)

  -- measureProgress
  unfoldable pub measure_progress : List OpRecord → ℕ → ℕ → Progress fl
  unfolding count_windows
  measure_progress ops start end =
      let (writes, reads) = count_windows start end (0, 0) ops in
      let window_ms = ms_between fl end start in
      record {
        window_start = start;
        window_end = end;
        window_ms = window_ms;
        acknowledged_writes = writes;
        acknowledged_reads = reads;
        writes_per_second =
            if fl.less (fl.of_int (pos 0)) window_ms
            then fl.divide (fl.of_int (pos writes)) (fl.divide window_ms (fl.of_int (pos 1000)))
            else fl.of_int (pos 0);
        made_progress = ltb 0 writes;
      }
