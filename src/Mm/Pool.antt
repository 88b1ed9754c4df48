-- ===== src/Mm/Pool.antt =====
-- `alloc_buffer` and `free_buffer` of libs/app_utils/src/mm.c, one call at a time.
use linux_dev_framework.Base.{
  length, length-append, ℕ, suc, ◌+◌, ◌-◌, ◌^◌, ◌<◌, ◌≡◌, refl, ◌⊎◌, inl, inr, false, List, [], ◌∷◌,
  ◌++◌, arith,
}
use linux_dev_framework.ListHead.{list_del}
use linux_dev_framework.ListHead.Ring.{has, Ring}
use linux_dev_framework.ListHead.Insert.{list_add_tail-Ring}
use linux_dev_framework.ListHead.Remove.{list_del-Ring}
use linux_dev_framework.Mm.{Manager, alloc_buffer, alloc_read, alloc_locked, free_buffer, free_only}

-- The free buffers are the nodes `xs`, in the order in which they are given out.
pub record Pool (m : Manager) (xs : List ℕ) : Type 0 where
  pub ring : Ring m.links m.free_pool xs
  pub count : m.buffer_num_free ≡ length xs

pub alloc_read-first : {m : Manager} {x : ℕ} {xs : List ℕ} → Pool m (x ∷ xs) → alloc_read m ≡ x
unfolding alloc_read
alloc_read-first p = p.ring.chain.0

-- The manager without a node of its pool.
abbrev pub without : ℕ → Manager → Manager
without x m = record m { links = list_del x m.links; buffer_num_free = m.buffer_num_free - 1 }

pub alloc_locked-pos :
    (x : ℕ) (m : Manager) → 0 < m.buffer_num_free → alloc_locked x m ≡ (x + 32, without x m)
unfolding alloc_locked
alloc_locked-pos x m h = ground arith

pub without-Pool : {m : Manager} {x : ℕ} {xs : List ℕ} → Pool m (x ∷ xs) → Pool (without x m) xs
without-Pool {x} {xs} p = record {
  ring = list_del-Ring x [] xs p.ring;
  count = omega (arith, p.count);
}

-- With no other thread at work, `alloc_buffer` gives the oldest free buffer and takes it out of
-- the pool. NULL comes back, and nothing changes, exactly when the pool is empty.
pub alloc_buffer-Pool :
    (m : Manager) (xs : List ℕ)
    → Pool m xs
    → ((xs ≡ []) × (alloc_buffer m ≡ (0, m)))
      ⊎ ((x : ℕ) × (ys : List ℕ) × (xs ≡ x ∷ ys)
          × ((alloc_buffer m).0 ≡ x + 32)
          × Pool (alloc_buffer m).1 ys)
unfolding alloc_buffer
alloc_buffer-Pool m [] p = inl (refl, ground (arith, p.count))
alloc_buffer-Pool m (x ∷ ys) p =
    let e = alloc_read-first p in
    let got = alloc_locked-pos x m (omega (arith, p.count)) in
    inr (x, ys, refl, rw (e, got), rw (e, got) (without-Pool p))

-- `free_only` puts a node that is not free behind the free ones.
pub free_only-Pool :
    {m : Manager} {xs : List ℕ} (x : ℕ)
    → Pool m xs
    → has x (m.free_pool ∷ xs) ≡ false
    → suc (length xs) < 2 ^ 32
    → Pool (free_only m x) (xs ++ x ∷ [])
unfolding free_only
free_only-Pool {m} {xs} x p out small = record {
  ring = list_add_tail-Ring x p.ring out;
  count = omega (arith, p.count, length-append xs (x ∷ []));
}

add_sub : (x : ℕ) → x + 32 - 32 ≡ x
add_sub x = omega arith

-- A buffer that is given back comes behind the free ones, and the count goes up by one.
pub free_buffer-Pool :
    {m : Manager} {xs : List ℕ} (x : ℕ)
    → Pool m xs
    → has x (m.free_pool ∷ xs) ≡ false
    → suc (length xs) < 2 ^ 32
    → Pool (free_buffer m (x + 32)) (xs ++ x ∷ [])
unfolding free_buffer
free_buffer-Pool {m} {xs} x p out small = rw (add_sub x) (free_only-Pool x p out small)
