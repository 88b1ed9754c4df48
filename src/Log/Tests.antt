-- ===== src/Log/Tests.antt =====
-- libs/app_utils/src/log.c on small files.
use linux_dev_framework.Base.{ℕ, ◌≤◌, ◌≡◌, refl, true, false, some, [], ◌∷◌, ◌++◌, arith}
use linux_dev_framework.Log.{Log, Answers, Entry, write_log, size_of}
use linux_dev_framework.Log.Disk.{contents, Current}
use linux_dev_framework.Log.Records.{line, Fine}
use linux_dev_framework.Log.Start.{write_log_same_name}

abbrev answer : ℕ → ℕ → Answers
answer time written = record { time = time ∷ []; opens = true; written = some written }

-- The line "[a" with its end, in the second `time`.
abbrev entry : ℕ → Entry
entry time = record { answers = answer time 3; stamp = 91 ∷ []; text = 97 ∷ [] }

abbrev nothing_yet : Log
nothing_yet = record {
  log_file_name = [];
  old_log_file_name = [];
  max_log_file_size = 0;
  log_inited = false;
  disk = [];
}

entry-Fine : (t : ℕ) → Fine (entry t)
entry-Fine t = record { short = omega arith; may_open = refl; writes_all = refl }

abbrev full : Log
full = record {
  log_file_name = 108 ∷ 1 ∷ [];
  old_log_file_name = 108 ∷ [];
  max_log_file_size = 2;
  log_inited = true;
  disk = record { name = 108 ∷ 1 ∷ []; content = 98 ∷ 98 ∷ [] } ∷ [];
}

full-Current : Current full.log_file_name full.disk
full-Current = record { before = []; content = 98 ∷ 98 ∷ []; unused = tt; split = refl }

full_size : 2 ≤ size_of full.log_file_name full.disk
unfolding size_of
full_size = omega arith

write_log_same_name_example :
    (l : Log) × (write_log (entry 1).answers (91 ∷ []) (97 ∷ []) full ≡ some (true, l))
    × (contents l.disk ≡ [] ++ line (entry 1))
unfolding full-Current
write_log_same_name_example =
    write_log_same_name (entry 1) full full-Current (entry-Fine 1) refl full_size refl

abbrev grown : Log
grown = record full { disk = record { name = 108 ∷ 1 ∷ []; content = 91 ∷ 97 ∷ 10 ∷ [] } ∷ [] }
