-- ===== src/PcQueue.antt =====
-- The producer-consumer queue: libs/app_utils/src/pc_queue.c and libs/app_utils/api/pc_queue.h.
-- A pointer into `p_at_entries` is the index of the entry; a pointer value that the queue only
-- carries is a number, 0 for NULL. `none` is a read outside the storage.
pub mod Spec
pub mod Holds
pub mod Enq
pub mod Deq
pub mod Run
mod Tests
use linux_dev_framework.Base.{
  ℕ, ◌+◌, ◌-◌, ◌*◌, ◌/◌, ◌%◌, ◌^◌, Bool, Option, none, some, List, ◌==◌, ltb, if◌then◌else◌,
  get_elem?, set, replicate, ◌>>=◌,
}

-- `t_pc_que_entry`
pub record Entry : Type 0 where
  pub valid : ℕ
  pub para_int : ℕ
  pub para : ℕ
  pub payload : ℕ

-- `t_pc_que`
pub record PcQue : Type 0 where
  pub nr_entry : ℕ
  pub pt_head : ℕ
  pub pt_tail : ℕ
  pub pt_p_ptr : ℕ
  pub pt_c_ptr : ℕ
  pub p_at_entries : List Entry

abbrev pub zero_entry : Entry
zero_entry = record { valid = 0; para_int = 0; para = 0; payload = 0 }

-- `int total_size = sizeof(t_pc_que) + size*sizeof(t_pc_que_entry)`, on a 64-bit target: 48 bytes
-- and 32 for each entry, cut to 32 bits. `malloc` and `memset` then take it as a `size_t`.
abbrev pub total_size : ℕ → ℕ
total_size size = (48 + size * 32) % 2 ^ 32

abbrev pub to_size_t : ℕ → ℕ
to_size_t n = if ltb n (2 ^ 31) then n else n + (2 ^ 64 - 2 ^ 32)

abbrev pub fresh : ℕ → PcQue
fresh size = record {
  nr_entry = size;
  pt_head = 0;
  pt_tail = (size + 2 ^ 32 - 1) % 2 ^ 32;
  pt_p_ptr = 0;
  pt_c_ptr = 0;
  p_at_entries = replicate ((to_size_t (total_size size) - 48) / 32) zero_entry;
}

-- `malloc n` tells whether a block of `n` bytes is given. The entries are those of the block.
pub create_pc_que : (malloc : ℕ → Bool) → ℕ → Option PcQue
create_pc_que malloc size = if malloc (to_size_t (total_size size)) then some (fresh size) else none

-- What a call of `pc_que_outq_try` gives: the result, and what it stores through `para_int` and
-- `para` (`none` for no store).
pub record Out : Type 0 where
  pub ret : ℕ
  pub out_int : Option ℕ
  pub out_para : Option ℕ

abbrev advance : PcQue → ℕ → ℕ
advance q i = if i == q.pt_tail then q.pt_head else i + 1

take_entry : PcQue → Bool → Bool → Entry → Out × PcQue
take_entry q want_int want_para e =
    if e.valid == 0 then (record { ret = 0; out_int = none; out_para = none }, q) else (
      record {
        ret = e.payload;
        out_int = if want_int then some e.para_int else none;
        out_para = if want_para then some e.para else none;
      },
      record q {
        pt_c_ptr = advance q q.pt_c_ptr;
        p_at_entries = set q.p_at_entries q.pt_c_ptr (record e { valid = 0 });
      },
    )

-- `want_int` and `want_para` tell whether the caller's pointers are not NULL.
unfoldable pub pc_que_outq_try : PcQue → (want_int want_para : Bool) → Option (Out × PcQue)
unfolding take_entry
pc_que_outq_try q want_int want_para = do
  e ← get_elem? q.p_at_entries q.pt_c_ptr
  some (take_entry q want_int want_para e)

put_entry : PcQue → (payload para_int para : ℕ) → Entry → ℕ × PcQue
put_entry q payload para_int para e =
    if e.valid == 0
    then (
      0,
      record q {
        pt_p_ptr = advance q q.pt_p_ptr;
        p_at_entries =
            set q.p_at_entries q.pt_p_ptr
              (record { valid = 1; para_int = para_int; para = para; payload = payload });
      },
    )
    else (1, q)

unfoldable pub pc_que_enq_try : PcQue → (payload para_int para : ℕ) → Option (ℕ × PcQue)
unfolding put_entry
pc_que_enq_try q payload para_int para = do
  e ← get_elem? q.p_at_entries q.pt_p_ptr
  some (put_entry q payload para_int para e)
