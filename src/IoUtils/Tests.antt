-- ===== src/IoUtils/Tests.antt =====
-- libs/app_utils/src/io_utils.c with interruptions and short writes.
use linux_dev_framework.Base.{◌≡◌, some, List, [], ◌∷◌, arith}
use linux_dev_framework.IoUtils.{Call, again, failed, did, Done, write_certain_bytes}
use linux_dev_framework.IoUtils.Whole.{Moves, write_certain_bytes-Moves}

abbrev calls : List Call
calls = again ∷ did 2 ∷ did 0 ∷ again ∷ did 1 ∷ did 4 ∷ failed ∷ []

write_certain_bytes-Moves_example :
    (r : Done) × (write_certain_bytes calls (97 ∷ 98 ∷ 99 ∷ []) ≡ some r)
    × Moves (97 ∷ 98 ∷ 99 ∷ []) 3 r
write_certain_bytes-Moves_example =
    write_certain_bytes-Moves calls (97 ∷ 98 ∷ 99 ∷ []) (omega arith)
