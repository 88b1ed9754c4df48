-- ===== src/ListHead/Insert.antt =====
-- `list_add` and `list_add_tail` of libs/app_utils/api/list.h.
use linux_dev_framework.Base.{ℕ, ◌≡◌, refl, ◌∙◌, ◌≢◌, false, List, [], ◌∷◌, ◌++◌, arith}
use linux_dev_framework.ListHead.{Links, init_list_head, list_add_between, list_add, list_add_tail}
use linux_dev_framework.ListHead.Ring.{
  has, Distinct, Chain, last, first, Ring, ne_last, prev_of_end, next_of_start, has-append, has_ne,
  frame,
}

-- A chain to `b` becomes one to `new` and then `b`, if the memory changes only where it must.
snoc :
    (m n : Links) (new b a : ℕ) (xs : List ℕ)
    → Chain m a xs b
    → Distinct (a ∷ xs)
    → has new (a ∷ xs) ≡ false
    → has b xs ≡ false
    → ((y : ℕ) → y ≢ new → y ≢ last a xs → n.next y ≡ m.next y)
    → ((y : ℕ) → y ≢ new → y ≢ b → n.prev y ≡ m.prev y)
    → n.next (last a xs) ≡ new
    → n.prev new ≡ last a xs
    → n.next new ≡ b
    → n.prev b ≡ new
    → Chain n a (xs ++ new ∷ []) b
snoc m n new b a [] c d out off f g e1 e2 e3 e4 = (e1, e2, (e3, e4))
snoc m n new b a (x ∷ xs) c d out off f g e1 e2 e3 e4 = (
  f a (ground arith) (ne_last a x xs d.0) ∙ c.0,
  g x (ground arith) (ground arith) ∙ c.1,
  snoc m n new b x xs c.2 d.1 (ground arith) (ground arith) f g e1 e2 e3 e4,
)

-- A chain gets `new` in front, if the memory changes only where it must.
front :
    (m n : Links) (new b a : ℕ) (xs : List ℕ)
    → Chain m a xs b
    → Distinct (a ∷ xs)
    → has new (a ∷ xs) ≡ false
    → has b xs ≡ false
    → new ≢ b
    → ((y : ℕ) → y ≢ new → y ≢ a → n.next y ≡ m.next y)
    → ((y : ℕ) → y ≢ new → y ≢ first xs b → n.prev y ≡ m.prev y)
    → n.next a ≡ new
    → n.prev new ≡ a
    → n.next new ≡ first xs b
    → n.prev (first xs b) ≡ new
    → Chain n a (new ∷ xs) b
front m n new b a [] c d out off ne f g e1 e2 e3 e4 = (e1, e2, (e3, e4))
front m n new b a (x ∷ xs) c d out off ne f g e1 e2 e3 e4 = (
  e1,
  e2,
  (
    e3,
    e4,
    frame m n x xs b
        (λ y i. f y (has_ne y new (x ∷ xs) i (ground arith)) (has_ne y a (x ∷ xs) i d.0))
        (λ y i.
          g y (has_ne y new (xs ++ b ∷ []) i (ground (arith, has-append new xs (b ∷ []))))
            (has_ne y x (xs ++ b ∷ []) i (ground (arith, d.1.0, has-append x xs (b ∷ [])))))
        c.2,
  ),
)

has-snoc : (y new : ℕ) (xs : List ℕ) → has y xs ≡ false → y ≢ new → has y (xs ++ new ∷ []) ≡ false
has-snoc y new xs out ne = ground (arith, has-append y xs (new ∷ []))

Distinct-snoc :
    (new : ℕ) (xs : List ℕ) → Distinct xs → has new xs ≡ false → Distinct (xs ++ new ∷ [])
Distinct-snoc new [] d out = (refl, tt)
Distinct-snoc new (x ∷ xs) d out =
    (has-snoc x new xs d.0 (ground arith), Distinct-snoc new xs d.1 (ground arith))

module _ {m : Links} {head : ℕ} {xs : List ℕ} (new : ℕ) (r : Ring m head xs)
    (out : has new (head ∷ xs) ≡ false) where
  -- `list_add` puts a node that is not in the ring in front of the others.
  pub list_add-Ring : Ring (list_add new head m) head (new ∷ xs)
  unfolding list_add list_add_between
  list_add-Ring = record {
    chain =
        let e : m.next head ≡ first xs head = next_of_start m head xs head r.chain in
        front m (list_add_between new head (m.next head) m) new head head xs r.chain
          (r.off_head, r.distinct) out r.off_head (ground arith) (ground arith) (ground arith)
          (ground arith) (ground arith) (ground arith) (ground arith);
    off_head = ground (arith, r.off_head);
    distinct = (ground arith, r.distinct);
  }

  -- `list_add_tail` puts a node that is not in the ring behind the others.
  pub list_add_tail-Ring : Ring (list_add_tail new head m) head (xs ++ new ∷ [])
  unfolding list_add_tail list_add_between
  list_add_tail-Ring =
      let e : m.prev head ≡ last head xs = prev_of_end m head xs head r.chain in
      let far : new ≢ last head xs = ne_last new head xs out in
      record {
        chain =
            snoc m (list_add_between new (m.prev head) head m) new head head xs r.chain
              (r.off_head, r.distinct) out r.off_head (ground arith) (ground arith) (ground arith)
              (ground arith) (ground arith) (ground arith);
        off_head = has-snoc head new xs r.off_head (ground arith);
        distinct = Distinct-snoc new xs r.distinct (ground arith);
      }

-- `INIT_LIST_HEAD` makes an empty ring.
pub init_list_head-Ring : (m : Links) (head : ℕ) → Ring (init_list_head head m) head []
unfolding init_list_head
init_list_head-Ring m head = record {
  chain = (ground arith, ground arith);
  off_head = refl;
  distinct = tt;
}
