-- ===== src/PcQueue/Holds.antt =====
-- The representation of pc_queue.c: which items a queue holds.
use native.Mathlib.Nat.{mod-eq_of_lt, mod-eq-sub-mod, mod-add-mod}
use native.Mathlib.Decide.{dec_lt}
use linux_dev_framework.Base.{
  ℕ, suc, ◌+◌, ◌-◌, ◌%◌, ◌≤◌, ◌<◌, ◌≡◌, ◌⊎◌, inl, inr, Option, none, some, List, ap, arith, length,
  get_elem?,
}
use linux_dev_framework.PcQueue.{Entry, PcQue}
use linux_dev_framework.PcQueue.Spec.{Item}

-- The entry that `pc_que_enq_try` writes for an item.
abbrev pub live : Item → Entry
live x = record { valid = 1; para_int = x.para_int; para = x.para; payload = x.payload }

abbrev pub Slot : Option Item → Entry → Type 0
Slot none e = e.valid ≡ 0
Slot (some x) e = e ≡ live x

-- From `pt_c_ptr` on, going round at the end, the entries are the items and then free ones.
pub record Holds (q : PcQue) (xs : List Item) : Type 0 where
  pub storage : length q.p_at_entries ≡ q.nr_entry
  pub head : q.pt_head ≡ 0
  pub tail : suc q.pt_tail ≡ q.nr_entry
  pub c_in : q.pt_c_ptr < q.nr_entry
  pub fits : length xs ≤ q.nr_entry
  pub p_at : q.pt_p_ptr ≡ (q.pt_c_ptr + length xs) % q.nr_entry
  pub slots :
      (k : ℕ) (e : Entry)
      → k < q.nr_entry
      → get_elem? q.p_at_entries ((q.pt_c_ptr + k) % q.nr_entry) ≡ some e
      → Slot (get_elem? xs k) e

-- An index that runs round a ring of `n` entries wraps at most once.
pub wrap_cases :
    (c k n : ℕ)
    → c < n
    → k ≤ n
    → ((c + k < n) × ((c + k) % n ≡ c + k)) ⊎ ((n ≤ c + k) × ((c + k) % n ≡ c + k - n))
wrap_cases c k n hc hk = elim (dec_lt (c + k) n) [
  | yes p ↦ inl (p, mod-eq_of_lt p)
  | no p ↦ inr (
    omega arith,
    omega (
      arith,
      mod-eq-sub-mod {n = c + k} {m = n} (omega arith),
      mod-eq_of_lt {n = c + k - n} {m = n} (omega arith),
    ),
  )
]

-- Two places of the ring with one index are one place.
pub place_injective : (c j k n : ℕ) → c < n → j < n → k < n → (c + j) % n ≡ (c + k) % n → j ≡ k
place_injective c j k n hc hj hk e =
    omega (arith, wrap_cases c j n hc (omega arith), wrap_cases c k n hc (omega arith))

pub place-lt : (c k n : ℕ) → c < n → k ≤ n → (c + k) % n < n
place-lt c k n hc hk = omega (arith, wrap_cases c k n hc hk)

-- The step that both pointers make.
pub place_next : (c k n : ℕ) → ((c + 1) % n + k) % n ≡ (c + suc k) % n
place_next c k n = rw mod-add-mod (ap (λ i. i % n) (omega arith))
