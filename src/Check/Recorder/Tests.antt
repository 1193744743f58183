-- ===== src/Check/Recorder/Tests.antt =====
-- The Recorder of internal/check/check.go on a short run.
use quorum_log.Prelude.{◌+◌, arith, pos, true, false, List, [], ◌∷◌, All}
use quorum_log.Check.Recorder.{new_recorder, history, Recording, invoked, returned, record_all}
use quorum_log.Check.Recorder.Histories.{IsTimely, history-IsTimely}

-- Two clients, of which the first returns, and a return of an unknown handle.
abbrev calls : List Recording
calls =
    invoked (pos 1) (record { op = "put"; key = "x"; val = "1" }) 1
    ∷ invoked (pos 2) (record { op = "get"; key = "x"; val = "" }) 2
    ∷ returned 0 (record { val = "1"; found = true; unknown = false }) 4
    ∷ returned 7 (record { val = ""; found = false; unknown = false }) 5
    ∷ []

history-IsTimely_example : All (IsTimely (6 + 1)) (history (record_all new_recorder calls) 6)
history-IsTimely_example =
    history-IsTimely calls 0 6
      (omega arith, (omega arith, (omega arith, (omega arith, omega arith))))
