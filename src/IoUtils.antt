-- ===== src/IoUtils.antt =====
-- Reads and writes of a whole buffer, libs/app_utils/src/io_utils.c, by what the system calls give,
-- one after the other.
pub mod Whole
mod Tests
use linux_dev_framework.Base.{
  ltb, leb, ◌==◌, if◌then◌else◌, ltb→lt, lt→ltb, leb→le, ==_iff, ==_refl, Bool-cases, Option-cases,
  ◌>>=◌, some_inj, tests, length, get_elem?, get_or, set, take, drop, replicate, all, length-append,
  length-set, get_elem?-set_self, get_elem?-set_ne, get_elem?-lt, take-append-drop, take-length,
  length-take, length-drop, length-replicate, get_elem?-none, get_elem?-append_left,
  get_elem?-append_right, get_elem?-replicate, ℕ, zero, suc, ◌+◌, ◌-◌, ◌*◌, ◌/◌, ◌%◌, ◌^◌, ◌≤◌, ◌<◌,
  min, max, ◌≡◌, refl, sym, ap, ap₂, ◌∙◌, subst, fun_ext, ◌≢◌, ◌↔◌, ◌⊎◌, inl, inr, Bool, true,
  false, not, ◌&&◌, ◌||◌, Option, none, some, List, [], ◌∷◌, ◌++◌, map, append_assoc, append-nil,
  arith,
}

-- `EINTR`, `EAGAIN` or `EWOULDBLOCK`; another error; a number of bytes.
pub data Call : Type 0 where
  again : Call
  failed : Call
  did : ℕ → Call

-- `write_reliable` and `read_reliable`: the first call that is not to be tried again, none for an
-- error, and the calls to come. Nothing while there is no such call.
unfoldable pub reliable : List Call → Option (Option ℕ × List Call)
reliable [] = none
reliable (again ∷ calls) = reliable calls
reliable (failed ∷ calls) = some (none, calls)
reliable (did n ∷ calls) = some (some n, calls)

-- Whether 0 is returned, `finished`, and what has been written.
pub record Done : Type 0 where
  pub success : Bool
  pub finished : ℕ
  pub moved : List ℕ

-- The loop of `write_certain_bytes`; the calls of `write_reliable` are tried again in place. A call
-- never takes more than the `left` bytes that it is offered.
unfoldable pub write_loop : List Call → (buf : List ℕ) (left : ℕ) → Done → Option Done
write_loop [] buf zero d = some (record d { success = true })
write_loop [] buf (suc left) d = none
write_loop (call ∷ calls) buf zero d = some (record d { success = true })
write_loop (again ∷ calls) buf (suc left) d = write_loop calls buf (suc left) d
write_loop (failed ∷ calls) buf (suc left) d = some (record d { success = false })
write_loop (did n ∷ calls) buf (suc left) d =
    let k = min n (suc left) in
    write_loop calls buf (suc left - k)
      (record d { finished = d.finished + k; moved = d.moved ++ take k (drop d.finished buf) })

unfoldable pub write_certain_bytes : List Call → (buf : List ℕ) → Option Done
write_certain_bytes calls buf =
    write_loop calls buf (length buf) (record { success = false; finished = 0; moved = [] })

-- The loop of `read_certain_bytes` on the bytes that come in. It stops when a call gives nothing.
unfoldable pub read_loop : List Call → (incoming : List ℕ) (left : ℕ) → Done → Option Done
read_loop [] incoming zero d = some (record d { success = true })
read_loop [] incoming (suc left) d = none
read_loop (call ∷ calls) incoming zero d = some (record d { success = true })
read_loop (again ∷ calls) incoming (suc left) d = read_loop calls incoming (suc left) d
read_loop (failed ∷ calls) incoming (suc left) d = some (record d { success = false })
read_loop (did zero ∷ calls) incoming (suc left) d = some (record d { success = false })
read_loop (did (suc n) ∷ calls) incoming (suc left) d =
    let k = min (suc n) (suc left) in
    read_loop calls incoming (suc left - k)
      (record d { finished = d.finished + k; moved = d.moved ++ take k (drop d.finished incoming) })

unfoldable pub read_certain_bytes : List Call → (incoming : List ℕ) (count : ℕ) → Option Done
read_certain_bytes calls incoming count =
    read_loop calls incoming count (record { success = false; finished = 0; moved = [] })
