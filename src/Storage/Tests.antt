-- ===== src/Storage/Tests.antt =====
-- The write-ahead log of internal/storage/storage.go on concrete files.
use quorum_log.Prelude.{◌<◌, All, ℕ, ◌≡◌, List, [], ◌∷◌, ◌++◌, arith, ok, err, refl}
use quorum_log.Raftpb.{Entry}
use quorum_log.Storage.{
  drop_covered, wal_lines, replay_lines, replay_wal, append_entry, drop_from, finish_replay,
  torn_line, corrupt_record, scan_lines, drop_cr, within,
}
use quorum_log.Storage.Toy.{toy}
use quorum_log.Storage.Torn.{replay_torn, replay_append_after_torn, replay_append_twice_after_torn}
use quorum_log.Storage.Order.{IsRising, survivors, untouched, replay_wal-IsRising, replay-wal_lines}
use quorum_log.Prelude.{select, ltb}

program : Unit {0}
unfolding wal_lines replay_lines replay_wal append_entry drop_from drop_covered finish_replay
    torn_line scan_lines drop_cr within survivors untouched
program = tt

abbrev entry : ℕ → ℕ → Entry
entry i t = record { index = i; term = t; kind = 0; payload = i ∷ t ∷ [] }

-- Entry 2 of term 2 truncates entries 2 and 3 of term 1.
abbrev written : List Entry
written = entry 1 1 ∷ entry 2 1 ∷ entry 3 1 ∷ entry 2 2 ∷ []

abbrev file : List ℕ
file = unfold program in wal_lines toy written

abbrev cut : List ℕ
cut = 123 ∷ 203 ∷ []

abbrev left : List ℕ
left = 201 ∷ 200 ∷ 203 ∷ 201 ∷ 125 ∷ []

read_back : replay_wal toy (wal_lines toy written) 0 ≡ ok (entry 1 1 ∷ entry 2 2 ∷ [])
unfolding program
read_back = refl

replay-wal_lines_example :
    replay_wal toy (wal_lines toy written) 1 ≡ ok (select (λ e. ltb 1 e.index) (survivors written))
replay-wal_lines_example = replay-wal_lines toy written 1 (omega arith)

replay_torn_example :
    replay_wal toy (wal_lines toy written ++ cut) 0 ≡ replay_wal toy (wal_lines toy written) 0
replay_torn_example =
    replay_torn toy written 0 (omega arith) (entry 3 1) cut left refl (λ e. cc e) (omega arith)

replay_append_after_torn_example :
    replay_wal toy (wal_lines toy written ++ (cut ++ wal_lines toy (entry 3 2 ∷ []))) 0
    ≡ replay_wal toy (wal_lines toy written) 0
replay_append_after_torn_example =
    replay_append_after_torn toy written 0 (omega arith) (entry 3 1) cut left refl (λ e. cc e)
      (λ e. cc e) (entry 3 2) (omega arith)

replay_append_twice_after_torn_example :
    replay_wal toy (wal_lines toy written ++ (cut ++ wal_lines toy (entry 3 2 ∷ entry 4 2 ∷ []))) 0
    ≡ err corrupt_record
replay_append_twice_after_torn_example =
    replay_append_twice_after_torn toy written 0 (omega arith) (entry 3 1) cut left refl (λ e. cc e)
      (λ e. cc e) (entry 3 2) (omega arith) (entry 4 2) [] (omega arith)

replay_wal-IsRising_example :
    IsRising (entry 1 1 ∷ entry 2 2 ∷ []) × All (λ e. 0 < e.index) (entry 1 1 ∷ entry 2 2 ∷ [])
replay_wal-IsRising_example = replay_wal-IsRising toy (wal_lines toy written) 0 read_back
