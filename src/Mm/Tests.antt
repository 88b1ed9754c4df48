-- ===== src/Mm/Tests.antt =====
-- mm.c at concrete inputs: a manager at 0x1000 with three buffers of 96 bytes at 0x2000.
use linux_dev_framework.Base.{
  ◌==◌, length, ℕ, suc, ◌+◌, ◌-◌, ◌%◌, ◌^◌, ◌<◌, ◌≡◌, refl, ◌↔◌, ◌⊎◌, inl, Bool, false, List, [],
  ◌∷◌, arith,
}
use linux_dev_framework.ListHead.{Links, init_list_head}
use linux_dev_framework.ListHead.Ring.{has, Ring}
use linux_dev_framework.ListHead.Insert.{init_list_head-Ring}
use linux_dev_framework.Mm.{
  Manager, create_buffer_manager, alloc_buffer, new_manager, init_buffers, add_to_all_link,
}
use linux_dev_framework.Mm.Pool.{Pool}
use linux_dev_framework.Mm.Race.{read_read_lock_lock, double_handout}
use linux_dev_framework.Mm.Safety.{World, give, Reach, here, next, Sound, alloc_exclusive}
use linux_dev_framework.Mm.Create.{nodes, create_buffer_manager-Ring}
use linux_dev_framework.Mm.AllLink.{Registered, add_to_all_link-Registered}

abbrev blank : Links
blank = record { next = λ a. 0; prev = λ a. 0 }

abbrev three : ℕ → Manager
three stale = init_buffers 3 0 0x2000 96 (new_manager stale 0x1000 0x2000 64 3 blank)

create_buffer_manager-Ring_example :
    Ring (three 7).links (three 7).free_pool (nodes 3 0 0x2000 96)
    × ((three 7).buffer_num_free ≡ (7 + 3) % 2 ^ 32)
    × (((three 7).buffer_num_free ≡ 3) ↔ (◌≡◌ {A = ℕ} 7 0))
unfolding create_buffer_manager
create_buffer_manager-Ring_example =
    create_buffer_manager-Ring 7 0x1000 0x2000 64 3 blank (omega arith) (omega arith)
      (inl (omega arith)) refl

abbrev free_three : List ℕ
free_three = 0x2000 ∷ 0x2060 ∷ 0x20c0 ∷ []

three-Pool : Pool (three 0) (0x2000 ∷ 0x2060 ∷ 0x20c0 ∷ [])
unfolding create_buffer_manager
three-Pool =
    let (r, c, z) =
      create_buffer_manager-Ring 0 0x1000 0x2000 64 3 blank {m' = three 0} (omega arith)
        (omega arith) (inl (omega arith)) refl in
    record { ring = r; count = c }

double_handout_example :
    let (p, q, m') = read_read_lock_lock (three 0) in
    (p ≡ 0x2000 + 32)
    × (q ≡ p)
    × Ring m'.links m'.free_pool (0x2060 ∷ 0x20c0 ∷ [])
    × (suc m'.buffer_num_free ≡ 2)
double_handout_example = double_handout three-Pool

three-Sound : Sound 3 (record { manager = three 0; lent = [] })
unfolding init_buffers
three-Sound = record {
  free = 0x2000 ∷ 0x2060 ∷ 0x20c0 ∷ [];
  pool = three-Pool;
  apart = (refl, (refl, (refl, tt)));
  off_head = refl;
  sum = refl;
}

abbrev one_out : World
one_out = record {
  manager = (alloc_buffer (three 0)).1;
  lent = ((alloc_buffer (three 0)).0 - 32) ∷ [];
}

one_step : Reach (record { manager = three 0; lent = [] }) one_out
unfolding alloc_buffer init_buffers
one_step = next here (give (λ e. absurd (omega arith)))

alloc_exclusive_example :
    ((length one_out.lent ≡ 3) × ((alloc_buffer one_out.manager).0 ≡ 0))
    ⊎ ((length one_out.lent < 3)
        × (x : ℕ) × ((alloc_buffer one_out.manager).0 ≡ x + 32)
        × (has x one_out.lent ≡ false))
alloc_exclusive_example = alloc_exclusive (omega arith) three-Sound one_step

-- `0x2010` and `0x2070` are the nodes of the buffers at `0x2020` and `0x2080`.
abbrev none_yet : Manager
none_yet = new_manager 0 0x1000 0x2000 64 3 blank

none-Registered : Registered none_yet []
none-Registered = init_list_head-Ring (init_list_head 0x1008 blank) 0x1018

abbrev registered : Manager
registered = add_to_all_link (add_to_all_link none_yet 0x2020) 0x2080

two-Registered : Registered registered (0x2020 ∷ 0x2080 ∷ [])
unfolding add_to_all_link
two-Registered =
    add_to_all_link-Registered (add_to_all_link none_yet 0x2020) (0x2020 ∷ []) 0x2080
      (add_to_all_link-Registered none_yet [] 0x2020 none-Registered refl) refl

abbrev stop_at_second : ℕ → ℕ → Bool × ℕ
stop_at_second b n = (n == 1, n + 1)
