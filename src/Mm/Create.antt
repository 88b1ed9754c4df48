-- ===== src/Mm/Create.antt =====
-- `create_buffer_manager` of libs/app_utils/src/mm.c.
use linux_dev_framework.Base.{
  ◌==◌, Bool-cases, some_inj, length, length-append, ℕ, zero, suc, ◌+◌, ◌*◌, ◌%◌, ◌^◌, ◌≤◌, ◌<◌,
  ◌≡◌, refl, subst, ◌≢◌, ◌↔◌, ◌⊎◌, inl, inr, false, ◌||◌, some, List, [], ◌∷◌, ◌++◌, append_assoc,
  append-nil, arith,
}
use linux_dev_framework.ListHead.{Links, init_list_head}
use linux_dev_framework.ListHead.Ring.{has, Ring, frame, has_ne, has-append}
use linux_dev_framework.ListHead.Insert.{init_list_head-Ring, list_add_tail-Ring}
use linux_dev_framework.Mm.{Manager, free_only, init_buffers, new_manager, create_buffer_manager}

-- The addresses of the buffers `i`, `i + 1`, … of the block.
abbrev pub nodes : (left i all_mem size : ℕ) → List ℕ
nodes zero i all_mem size = []
nodes (suc left) i all_mem size = (all_mem + i * size) ∷ nodes left (i + 1) all_mem size

-- Headers that end before `c`.
abbrev Below : ℕ → List ℕ → Type 0
Below c [] = Unit
Below c (x ∷ xs) = (x + 32 ≤ c) × Below c xs

Below-fresh : (c d : ℕ) (xs : List ℕ) → Below c xs → c ≤ d → has d xs ≡ false
Below-fresh c d [] b h = refl
Below-fresh c d (x ∷ xs) b h = ground (arith, b.0, Below-fresh c d xs b.1)

Below-mono : (c d : ℕ) (xs : List ℕ) → Below c xs → c ≤ d → Below d xs
Below-mono c d [] b h = tt
Below-mono c d (x ∷ xs) b h = (omega (arith, b.0), Below-mono c d xs b.1 h)

Below-snoc : (c x : ℕ) (xs : List ℕ) → Below c xs → x + 32 ≤ c → Below c (xs ++ x ∷ [])
Below-snoc c x [] b h = (h, tt)
Below-snoc c x (y ∷ xs) b h = (b.0, Below-snoc c x xs b.1 h)

-- `INIT_LIST_HEAD` of a node elsewhere leaves a ring alone.
pub init_elsewhere :
    {m : Links} {head : ℕ} {xs : List ℕ} (p : ℕ)
    → Ring m head xs
    → has p (head ∷ xs) ≡ false
    → Ring (init_list_head p m) head xs
unfolding init_list_head
init_elsewhere {m} {head} {xs} p r out = record {
  chain =
      frame m (init_list_head p m) head xs head
        (λ y i. ground (arith, has_ne y p (head ∷ xs) i out))
        (λ y i. ground (
          arith,
          has_ne y p (xs ++ head ∷ []) i (ground (arith, out, has-append p xs (head ∷ []))),
        ))
        r.chain;
  off_head = r.off_head;
  distinct = r.distinct;
}

-- What the loop has done before round `i`.
record Filled (stale all_mem size i : ℕ) (m : Manager) (xs : List ℕ) : Type 0 where
  ring : Ring m.links m.free_pool xs
  below : Below (all_mem + i * size) xs
  count : m.buffer_num_free ≡ (stale + length xs) % 2 ^ 32

-- The manager's head stands outside the block of the buffers.
abbrev Outside : (head all_mem len : ℕ) → Type 0
Outside head all_mem len = (head < all_mem) ⊎ (all_mem + len ≤ head)

not_within :
    {head y : ℕ} (all_mem len off size : ℕ)
    → Outside head all_mem len
    → off + size ≤ len
    → all_mem + off ≤ y
    → y < all_mem + off + size
    → y ≢ head
not_within all_mem len off size out fits lo hi = omega arith

round-Filled :
    (stale all_mem size i len : ℕ) {m : Manager} {xs : List ℕ}
    → 32 ≤ size
    → suc i * size ≤ len
    → Outside m.free_pool all_mem len
    → Filled stale all_mem size i m xs
    → Filled stale all_mem size
        (i + 1)
        (free_only
          (record m { links = init_list_head (all_mem + i * size + 16) m.links })
          (all_mem + i * size))
        (xs ++ (all_mem + i * size) ∷ [])
unfolding free_only
round-Filled stale all_mem size i len {m} {xs} big fits out f =
    let x : ℕ = all_mem + i * size in
    let fits' : i * size + size ≤ len = omega arith in
    let away : (y : ℕ) → x ≤ y → y < x + size → y ≢ m.free_pool =
      λ y lo hi. not_within all_mem len (i * size) size out fits' lo hi in
    let here = Below-fresh x x xs f.below (omega arith) in
    let link = Below-fresh x (x + 16) xs f.below (omega arith) in
    record {
      ring =
          list_add_tail-Ring x
            (init_elsewhere (x + 16) f.ring
              (ground (arith, link, away (x + 16) (omega arith) (omega arith))))
            (ground (arith, here, away x (omega arith) (omega arith)));
      below =
          Below-snoc (all_mem + (i + 1) * size) x xs (Below-mono x _ xs f.below (omega arith))
            (omega arith);
      count = omega (arith, f.count, length-append xs (x ∷ []));
    }

free_pool_same :
    (m : Manager) (x : ℕ) (l : Links)
    → (free_only (record m { links = l }) x).free_pool ≡ m.free_pool
unfolding free_only
free_pool_same m x l = refl

init_buffers-Filled :
    (stale all_mem size len left i : ℕ) {m : Manager} {xs : List ℕ}
    → 32 ≤ size
    → (i + left) * size ≤ len
    → Outside m.free_pool all_mem len
    → Filled stale all_mem size i m xs
    → let m' = init_buffers left i all_mem size m in
      Ring m'.links m'.free_pool (xs ++ nodes left i all_mem size)
      × (m'.buffer_num_free ≡ (stale + (length xs + left)) % 2 ^ 32)
unfolding init_buffers
init_buffers-Filled stale all_mem size len zero i {m} {xs} big fits out f =
    (rw (append-nil xs) f.ring, omega (arith, f.count))
init_buffers-Filled stale all_mem size len (suc left) i {m} {xs} big fits out f =
    let x : ℕ = all_mem + i * size in
    let (r, c) =
      init_buffers-Filled stale all_mem size len left (i + 1) big (omega arith)
        (rw free_pool_same out) (round-Filled stale all_mem size i len big (omega arith) out f) in
    (
      rw (append_assoc xs (x ∷ []) (nodes left (i + 1) all_mem size)) at r,
      omega (arith, c, length-append xs (x ∷ [])),
    )

new_manager-Filled :
    (stale pt_manager all_mem buf_size num : ℕ) (m : Links)
    → stale < 2 ^ 32
    → Filled stale all_mem
        (32 + buf_size)
        0
        (new_manager stale pt_manager all_mem buf_size num m)
        []
new_manager-Filled stale pt_manager all_mem buf_size num m small = record {
  ring = init_elsewhere (pt_manager + 24) (init_list_head-Ring m (pt_manager + 8)) (ground arith);
  below = tt;
  count = omega arith;
}

-- When both blocks are given and do not overlap, the free ring holds the `num` buffers of the
-- block in the order of their addresses. The count is `num` more than what the manager's block
-- held before, so it is the number of free buffers exactly when `malloc` gave a zero there.
pub create_buffer_manager-Ring :
    (stale pt_manager all_mem buf_size num : ℕ) (m : Links) {m' : Manager}
    → stale < 2 ^ 32
    → num * (32 + buf_size) < 2 ^ 31
    → (pt_manager + 48 ≤ all_mem) ⊎ (all_mem + num * (32 + buf_size) ≤ pt_manager)
    → create_buffer_manager stale pt_manager all_mem buf_size num m ≡ some m'
    → Ring m'.links m'.free_pool (nodes num 0 all_mem (32 + buf_size))
      × (m'.buffer_num_free ≡ (stale + num) % 2 ^ 32)
      × ((m'.buffer_num_free ≡ num) ↔ (stale ≡ 0))
unfolding create_buffer_manager
create_buffer_manager-Ring stale pt_manager all_mem buf_size num m small few apart made =
    elim (Bool-cases ((all_mem == 0) || (pt_manager == 0))) [
      | inl failed ↦ ground arith
      | inr given ↦
          let (r, c) =
            init_buffers-Filled stale all_mem (32 + buf_size) (num * (32 + buf_size)) num 0
              {m = new_manager stale pt_manager all_mem buf_size num m} (omega arith) (omega arith)
              (omega arith) (new_manager-Filled stale pt_manager all_mem buf_size num m small) in
          subst
            (λ m'.
              Ring m'.links m'.free_pool (nodes num 0 all_mem (32 + buf_size))
              × (m'.buffer_num_free ≡ (stale + num) % 2 ^ 32)
              × ((m'.buffer_num_free ≡ num) ↔ (stale ≡ 0)))
            (some_inj (rw given at made))
            (r, omega (arith, c), ((λ e. omega (arith, c)), (λ e. omega (arith, c))))
    ]
