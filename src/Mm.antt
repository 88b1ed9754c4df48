-- ===== src/Mm.antt =====
-- The buffer pool of libs/app_utils/src/mm.c, over the rings of libs/app_utils/api/list.h.
-- Addresses are numbers, 0 for NULL, and the layout is that of a 64-bit target: a `t_buffer`
-- header has 32 bytes, with `link_node_free_alloc` at 0, `link_node_all` at 16 and `buffer` at 32;
-- `free_pool` and `all` stand at 8 and 24 in a `t_mm_manager`. The mutexes make each locked region
-- one step; `alloc_buffer` reads the pool's first node before it locks, so it is two steps.
pub mod Pool
pub mod Race
pub mod Safety
pub mod Create
pub mod AllLink
mod Tests
use linux_dev_framework.Base.{
  ltb, leb, ◌==◌, if◌then◌else◌, ltb→lt, lt→ltb, leb→le, ==_iff, ==_refl, Bool-cases, Option-cases,
  ◌>>=◌, some_inj, tests, length, get_elem?, get_or, set, take, drop, replicate, length-append,
  length-set, get_elem?-set_self, get_elem?-set_ne, get_elem?-lt, take-append-drop, length-take,
  length-drop, length-replicate, get_elem?-none, get_elem?-append_left, get_elem?-append_right,
  get_elem?-replicate, ℕ, zero, suc, ◌+◌, ◌-◌, ◌*◌, ◌/◌, ◌%◌, ◌^◌, ◌≤◌, ◌<◌, min, max, ◌≡◌, refl,
  sym, ap, ap₂, ◌∙◌, subst, fun_ext, ◌≢◌, ◌↔◌, ◌⊎◌, inl, inr, Bool, true, false, not, ◌&&◌, ◌||◌,
  Option, none, some, List, [], ◌∷◌, ◌++◌, map, append_assoc, append-nil, arith,
}
use linux_dev_framework.ListHead.{Links, init_list_head, list_add_tail, list_del, list_for_each}

-- `t_mm_manager`, with the memory that holds its nodes
pub record Manager : Type 0 where
  pub buffer_num_total : ℕ
  pub buffer_num_free : ℕ
  pub free_pool : ℕ
  pub all : ℕ
  pub buffer_mem_start : ℕ
  pub buffer_mem_len : ℕ
  pub links : Links

unfoldable pub free_buffer_num : Manager → ℕ
free_buffer_num m = m.buffer_num_free

unfoldable pub mm_handle_is_valid : ℕ → Bool
mm_handle_is_valid hd = not (hd == 0)

-- `pt_buffer` is the address of the header.
unfoldable pub free_only : Manager → (pt_buffer : ℕ) → Manager
free_only m pt_buffer = record m {
  links = list_add_tail pt_buffer m.free_pool m.links;
  buffer_num_free = (m.buffer_num_free + 1) % 2 ^ 32;
}

-- `buf` is the address that `alloc_buffer` gave.
unfoldable pub free_buffer : Manager → (buf : ℕ) → Manager
unfolding free_only
free_buffer m buf = free_only m (buf - 32)

-- The first line of `alloc_buffer`, which runs before the lock is taken.
unfoldable pub alloc_read : Manager → ℕ
alloc_read m = m.links.next m.free_pool

-- The rest of `alloc_buffer`, under the lock, with the node that was read before.
unfoldable pub alloc_locked : (pt_list : ℕ) → Manager → ℕ × Manager
alloc_locked pt_list m = if 0 == m.buffer_num_free then (0, m) else (
  pt_list + 32,
  record m { links = list_del pt_list m.links; buffer_num_free = m.buffer_num_free - 1 },
)

-- `alloc_buffer` with no other thread between the two steps.
unfoldable pub alloc_buffer : Manager → ℕ × Manager
unfolding alloc_read alloc_locked
alloc_buffer m = alloc_locked (alloc_read m) m

unfoldable pub add_to_all_link : Manager → (buf : ℕ) → Manager
add_to_all_link m buf = record m { links = list_add_tail (buf - 32 + 16) m.all m.links }

unfoldable pub delete_from_all_link : Manager → (buf : ℕ) → Manager
delete_from_all_link m buf = record m { links = list_del (buf - 32 + 16) m.links }

-- `usr_func` is given the buffer's address and stops the walk by `true`. It may change a state of
-- its own, and not the rings. `none` means that the fuel ran out.
unfoldable pub for_each_buf_in_all_link {ℓ} :
    {S : Type ℓ} → ℕ → Manager → (usr_func : ℕ → S → Bool × S) → S → Option S
for_each_buf_in_all_link fuel m usr_func s =
    list_for_each fuel m.links m.all (m.links.next m.all)
      (λ pos s. let (stop, s') = usr_func (pos - 16 + 32) s in (not stop, s')) s

-- The loop of `create_buffer_manager`, with `left` rounds to go at round `i`.
unfoldable pub init_buffers : (left i all_mem actual_buf_size : ℕ) → Manager → Manager
unfolding free_only
init_buffers zero i all_mem actual_buf_size m = m
init_buffers (suc left) i all_mem actual_buf_size m =
    let pt_buffer = all_mem + i * actual_buf_size in
    init_buffers left (i + 1) all_mem actual_buf_size
      (free_only (record m { links = init_list_head (pt_buffer + 16) m.links }) pt_buffer)

-- `create_buffer_manager` before its loop. No statement writes `buffer_num_free`: it keeps what the
-- block from `malloc` holds there, `stale`.
abbrev pub new_manager : (stale pt_manager all_mem buf_size num : ℕ) → Links → Manager
new_manager stale pt_manager all_mem buf_size num m = record {
  buffer_num_total = num;
  buffer_num_free = stale;
  free_pool = pt_manager + 8;
  all = pt_manager + 24;
  buffer_mem_start = all_mem;
  buffer_mem_len = (32 + buf_size) * num;
  links = init_list_head (pt_manager + 24) (init_list_head (pt_manager + 8) m);
}

-- `pt_manager` and `all_mem` are what the two calls of `malloc` return. The sizes are `int`
-- products, which must not overflow. `none` is the NULL of the failure exit, which frees what was
-- given.
unfoldable pub create_buffer_manager :
    (stale pt_manager all_mem buf_size num : ℕ) → Links → Option Manager
unfolding init_buffers
create_buffer_manager stale pt_manager all_mem buf_size num m =
    if (all_mem == 0) || (pt_manager == 0)
    then none
    else some (
        init_buffers num 0 all_mem (32 + buf_size)
          (new_manager stale pt_manager all_mem buf_size num m))
