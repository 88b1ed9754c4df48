-- ===== src/Mm/Race.antt =====
-- Two threads in `alloc_buffer` of libs/app_utils/src/mm.c, which reads the first free node before
-- it takes the lock.
use linux_dev_framework.Base.{length, ℕ, suc, ◌+◌, ◌≡◌, refl, List, ◌∷◌, arith}
use linux_dev_framework.ListHead.{Links, list_del, list_del_between}
use linux_dev_framework.ListHead.Ring.{Ring, frame}
use linux_dev_framework.Mm.{Manager, alloc_read, alloc_locked}
use linux_dev_framework.Mm.Pool.{Pool, alloc_read-first, without, alloc_locked-pos, without-Pool}

-- Both threads read, and then take the lock one after the other.
unfoldable pub read_read_lock_lock : Manager → ℕ × ℕ × Manager
read_read_lock_lock m =
    let mine = alloc_read m in
    let yours = alloc_read m in
    let (p, m') = alloc_locked mine m in let (q, m'') = alloc_locked yours m' in (p, q, m'')

-- A node that was taken out before still points to its old neighbours: a second `list_del`
-- of the old first node leaves the ring as it is.
again-Ring :
    {m : Links} {head x y : ℕ} {xs : List ℕ}
    → Ring m head (x ∷ y ∷ xs)
    → Ring (list_del x m) head (y ∷ xs)
    → Ring (list_del x (list_del x m)) head (y ∷ xs)
unfolding list_del list_del_between
again-Ring {m} {head} {x} {y} {xs} r s = record {
  chain =
      frame (list_del x m) (list_del x (list_del x m)) head (y ∷ xs) head
        (λ z i. ground (arith, r.chain, r.off_head)) (λ z i. ground (arith, r.chain, r.off_head))
        s.chain;
  off_head = s.off_head;
  distinct = s.distinct;
}

-- With two buffers or more free, this schedule gives one buffer to both threads. The count goes
-- down by two and the ring loses one node, so from then on the count is one too small.
pub double_handout :
    {m : Manager} {x y : ℕ} {xs : List ℕ}
    → Pool m (x ∷ y ∷ xs)
    → let (p, q, m') = read_read_lock_lock m in
      (p ≡ x + 32)
      × (q ≡ p)
      × Ring m'.links m'.free_pool (y ∷ xs)
      × (suc m'.buffer_num_free ≡ length (y ∷ xs))
unfolding read_read_lock_lock
double_handout {m} {x} {y} {xs} p =
    let e = alloc_read-first p in
    let got = alloc_locked-pos x m (omega (arith, p.count)) in
    let rest = without-Pool p in
    let got' = alloc_locked-pos x (without x m) (omega (arith, rest.count)) in
    rw (e, got, got') (refl, refl, again-Ring p.ring rest.ring, omega (arith, rest.count, p.count))
