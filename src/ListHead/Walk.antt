-- ===== src/ListHead/Walk.antt =====
-- `list_for_each` of libs/app_utils/api/list.h.
use linux_dev_framework.Base.{
  ◌==◌, if◌then◌else◌, ==_refl, Bool-cases, length, ℕ, zero, suc, ◌<◌, ◌≡◌, inl, inr, Bool, false,
  some, List, [], ◌∷◌, arith,
}
use linux_dev_framework.ListHead.{Links, list_for_each}
use linux_dev_framework.ListHead.Ring.{has, Chain, Ring}

-- The body on each node in turn, until it breaks.
abbrev pub walk {ℓ} : {S : Type ℓ} → (ℕ → S → Bool × S) → List ℕ → S → S
walk body [] s = s
walk body (x ∷ xs) s = let (go_on, s') = body x s in if go_on then walk body xs s' else s'

module _ {ℓ} {S : Type ℓ} (m : Links) (head : ℕ) (body : ℕ → S → Bool × S) where
  for_each_chain :
      (k a : ℕ) (xs : List ℕ) (s : S)
      → Chain m a xs head
      → has head xs ≡ false
      → length xs < k
      → list_for_each k m head (m.next a) body s ≡ some (walk body xs s)
  unfolding list_for_each
  for_each_chain zero a xs s c off fuel = absurd (omega arith)
  for_each_chain (suc k) a [] s c off fuel = rw (c.0, ==_refl head)
  for_each_chain (suc k) a (x ∷ xs) s c off fuel =
      rw (c.0, away)
        (elim (Bool-cases (body x s).0) [
          | inl more ↦
              rw (more) (for_each_chain k x xs (body x s).1 c.2 (ground (arith, off)) (omega arith))
          | inr stop ↦ rw (stop)
        ])
    where
      away : (x == head) ≡ false
      away = ground (arith, off)

-- With fuel for one round more than the ring has nodes, the loop ends and has run the body on the
-- nodes in order, up to the first at which it breaks.
pub list_for_each-walk {ℓ} :
    {S : Type ℓ} {m : Links} {head : ℕ} {xs : List ℕ} (body : ℕ → S → Bool × S) (k : ℕ) (s : S)
    → Ring m head xs
    → length xs < k
    → list_for_each k m head (m.next head) body s ≡ some (walk body xs s)
list_for_each-walk {m} {head} {xs} body k s r fuel =
    for_each_chain m head body k head xs s r.chain r.off_head fuel
