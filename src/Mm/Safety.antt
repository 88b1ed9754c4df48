-- ===== src/Mm/Safety.antt =====
-- Clients of libs/app_utils/src/mm.c that call one at a time and give back only what they hold.
use linux_dev_framework.Base.{
  length, length-append, ℕ, suc, ◌+◌, ◌-◌, ◌^◌, ◌<◌, ◌≡◌, refl, sym, ap, subst, ◌≢◌, ◌⊎◌, inl, inr,
  false, List, [], ◌∷◌, ◌++◌, append_assoc, arith,
}
use linux_dev_framework.ListHead.Ring.{has, Distinct, has-append}
use linux_dev_framework.ListHead.Remove.{has-middle, Distinct-middle}
use linux_dev_framework.Mm.{Manager, alloc_buffer, free_buffer}
use linux_dev_framework.Mm.Pool.{Pool, alloc_buffer-Pool, free_buffer-Pool}

-- A pool and the nodes of the buffers that are out.
pub record World : Type 0 where
  pub manager : Manager
  pub lent : List ℕ

pub data Step (w : World) : World → Type 0 where
  give :
      (alloc_buffer w.manager).0 ≢ 0
      → Step w (record {
        manager = (alloc_buffer w.manager).1;
        lent = ((alloc_buffer w.manager).0 - 32) ∷ w.lent;
      })
  refuse :
      (alloc_buffer w.manager).0 ≡ 0
      → Step w (record { manager = (alloc_buffer w.manager).1; lent = w.lent })
  back :
      (x : ℕ) (ys zs : List ℕ)
      → w.lent ≡ ys ++ x ∷ zs
      → Step w (record { manager = free_buffer w.manager (x + 32); lent = ys ++ zs })

pub data Reach (w : World) : World → Type 0 where
  here : Reach w w
  next : {u v : World} → Reach w u → Step u v → Reach w v

-- Every one of `total` buffers is either free or out, and none is both or twice the same.
pub record Sound (total : ℕ) (w : World) : Type 0 where
  pub free : List ℕ
  pub pool : Pool w.manager free
  pub apart : Distinct (free ++ w.lent)
  pub off_head : has w.manager.free_pool (free ++ w.lent) ≡ false
  pub sum : length free + length w.lent ≡ total

has-into :
    (y e : ℕ) (ys zs : List ℕ) → has y (ys ++ zs) ≡ false → y ≢ e → has y (ys ++ e ∷ zs) ≡ false
has-into y e ys zs out ne = ground (arith, has-append y ys (e ∷ zs), has-append y ys zs)

Distinct-into :
    (e : ℕ) (ys zs : List ℕ)
    → Distinct (ys ++ zs)
    → has e (ys ++ zs) ≡ false
    → Distinct (ys ++ e ∷ zs)
Distinct-into e [] zs d out = (out, d)
Distinct-into e (y ∷ ys) zs d out =
    (has-into y e ys zs d.0 (ground arith), Distinct-into e ys zs d.1 (ground arith))

drop_middle :
    (y e : ℕ) (ys zs : List ℕ) → has y (ys ++ e ∷ zs) ≡ false → (y ≢ e) × (has y (ys ++ zs) ≡ false)
drop_middle y e ys zs out = let (ne, o, o1, o2) = has-middle y e ys zs out in (ne, o)

lengths :
    {l : List ℕ} (x : ℕ) (ys zs : List ℕ) → l ≡ ys ++ x ∷ zs → length l ≡ suc (length (ys ++ zs))
lengths x ys zs e = omega (arith, ap length e, length-append ys (x ∷ zs), length-append ys zs)

free_pool-free : (m : Manager) (b : ℕ) → (free_buffer m b).free_pool ≡ m.free_pool
unfolding free_buffer
free_pool-free m b = refl

free_pool-alloc : (m : Manager) → (alloc_buffer m).1.free_pool ≡ m.free_pool
unfolding alloc_buffer
free_pool-alloc m = ground arith

module _ {total : ℕ} {w : World} (s : Sound total w) where
  give-Sound :
      (x : ℕ) (ys : List ℕ)
      → s.free ≡ x ∷ ys
      → (alloc_buffer w.manager).0 ≡ x + 32
      → Pool (alloc_buffer w.manager).1 ys
      → Sound total (record {
        manager = (alloc_buffer w.manager).1;
        lent = ((alloc_buffer w.manager).0 - 32) ∷ w.lent;
      })
  give-Sound x ys e r p =
      let node : (alloc_buffer w.manager).0 - 32 ≡ x = omega arith in
      let d = subst (λ f. Distinct (f ++ w.lent)) e s.apart in
      let off = subst (λ f. has w.manager.free_pool (f ++ w.lent) ≡ false) e s.off_head in
      rw node (record {
        free = ys;
        pool = p;
        apart = Distinct-into x ys w.lent d.1 d.0;
        off_head =
            rw free_pool-alloc (
              has-into w.manager.free_pool x ys w.lent (ground (arith, off)) (ground (arith, off)));
        sum = omega (arith, s.sum, ap length e);
      })

  back-Sound :
      (x : ℕ) (ys zs : List ℕ)
      → total < 2 ^ 32
      → w.lent ≡ ys ++ x ∷ zs
      → Sound total (record { manager = free_buffer w.manager (x + 32); lent = ys ++ zs })
  back-Sound x ys zs small e =
      let apart =
        subst Distinct (sym (append_assoc s.free ys (x ∷ zs)))
          (subst (λ l. Distinct (s.free ++ l)) e s.apart) in
      let off =
        subst (λ l. has w.manager.free_pool l ≡ false) (sym (append_assoc s.free ys (x ∷ zs)))
          (subst (λ l. has w.manager.free_pool (s.free ++ l) ≡ false) e s.off_head) in
      let (d, out) = Distinct-middle x (s.free ++ ys) zs apart in
      let (ne, off') = drop_middle w.manager.free_pool x (s.free ++ ys) zs off in
      let regroup = append_assoc s.free ys zs in
      let out' = subst (λ l. has x l ≡ false) regroup out in
      let swapped = append_assoc s.free (x ∷ []) (ys ++ zs) in
      record {
        free = s.free ++ x ∷ [];
        pool =
            free_buffer-Pool x s.pool (ground (arith, has-append x s.free (ys ++ zs), out', ne))
              (omega (arith, s.sum, lengths x ys zs e));
        apart = rw swapped (Distinct-into x s.free (ys ++ zs) (rw regroup at d) out');
        off_head =
            rw (free_pool-free, swapped)
              (has-into w.manager.free_pool x s.free (ys ++ zs) (rw regroup at off') ne);
        sum = omega (arith, s.sum, lengths x ys zs e, length-append s.free (x ∷ []));
      }

-- One step keeps a pool sound.
pub Step-Sound :
    {total : ℕ} {w v : World} → total < 2 ^ 32 → Sound total w → Step w v → Sound total v
Step-Sound {w} small s (give ne) = elim (alloc_buffer-Pool w.manager s.free s.pool) [
  | inl (e, r) ↦ absurd (ne (ap (λ p. p.0) r))
  | inr (x, ys, e, r, p) ↦ give-Sound s x ys e r p
]
Step-Sound {w} small s (refuse z) = elim (alloc_buffer-Pool w.manager s.free s.pool) [
  | inl (e, r) ↦ rw r s
  | inr (x, ys, e, r, p) ↦ absurd (omega (arith, z, r))
]
Step-Sound small s (back x ys zs e) = back-Sound s x ys zs small e

-- From a sound pool of fewer than 2^32 buffers, no sequence of allocations and of returns of held
-- buffers leads out of soundness: no buffer is ever free and out, or out twice, and none gets lost.
pub Reach-Sound :
    {total : ℕ} {w v : World} → total < 2 ^ 32 → Sound total w → Reach w v → Sound total v
Reach-Sound small s here = s
Reach-Sound small s (next r st) = Step-Sound small (Reach-Sound small s r) st

-- In every world that sequential clients reach from a sound one of fewer than 2^32 buffers,
-- `alloc_buffer` returns NULL exactly when all buffers are out, and otherwise a buffer that nobody holds.
pub alloc_exclusive :
    {total : ℕ} {w v : World}
    → total < 2 ^ 32
    → Sound total w
    → Reach w v
    → ((length v.lent ≡ total) × ((alloc_buffer v.manager).0 ≡ 0))
      ⊎ ((length v.lent < total)
          × (x : ℕ) × ((alloc_buffer v.manager).0 ≡ x + 32)
          × (has x v.lent ≡ false))
alloc_exclusive {v} small s r =
    let t = Reach-Sound small s r in
    elim (alloc_buffer-Pool v.manager t.free t.pool) [
      | inl (e, a) ↦ inl (omega (arith, t.sum, ap length e), ap (λ p. p.0) a)
      | inr (x, ys, e, a, p) ↦ inr (
        omega (arith, t.sum, ap length e),
        x,
        a,
        ground (arith, has-append x ys v.lent, subst (λ f. Distinct (f ++ v.lent)) e t.apart),
      )
    ]
