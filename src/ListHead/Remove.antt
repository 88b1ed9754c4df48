-- ===== src/ListHead/Remove.antt =====
-- `list_del` and `list_move_tail` of libs/app_utils/api/list.h.
use linux_dev_framework.Base.{ℕ, ◌≡◌, ◌∙◌, ◌≢◌, false, List, [], ◌∷◌, ◌++◌, arith}
use linux_dev_framework.ListHead.{Links, list_del_between, list_del, list_move_tail}
use linux_dev_framework.ListHead.Ring.{
  has, Distinct, Chain, last, first, Ring, ne_last, next_of_start, has-append, has_ne, frame,
}
use linux_dev_framework.ListHead.Insert.{list_add_tail-Ring}

pub has-middle :
    (y e : ℕ) (ys zs : List ℕ)
    → has y (ys ++ e ∷ zs) ≡ false
    → (y ≢ e) × (has y (ys ++ zs) ≡ false) × (has y ys ≡ false) × (has y zs ≡ false)
has-middle y e ys zs out = ground (arith, has-append y ys (e ∷ zs), has-append y ys zs)

pub Distinct-middle :
    (e : ℕ) (ys zs : List ℕ)
    → Distinct (ys ++ e ∷ zs)
    → Distinct (ys ++ zs) × (has e (ys ++ zs) ≡ false)
Distinct-middle e [] zs d = (d.1, d.0)
Distinct-middle e (y ∷ ys) zs d =
    let (ds, out) = Distinct-middle e ys zs d.1 in
    let (ne, o, o1, o2) = has-middle y e ys zs d.0 in ((o, ds), ground arith)

ne_first : (y b : ℕ) (zs : List ℕ) → has y zs ≡ false → y ≢ b → y ≢ first zs b
ne_first y b [] out ne = ne
ne_first y b (z ∷ zs) out ne = ground arith

-- A chain through `e` becomes the chain without it, if the memory changes only where it must.
unlink :
    (m n : Links) (e b a : ℕ) (ys zs : List ℕ)
    → Chain m a (ys ++ e ∷ zs) b
    → Distinct (a ∷ ys ++ e ∷ zs)
    → has b (ys ++ e ∷ zs) ≡ false
    → ((y : ℕ) → y ≢ last a ys → n.next y ≡ m.next y)
    → ((y : ℕ) → y ≢ first zs b → n.prev y ≡ m.prev y)
    → n.next (last a ys) ≡ first zs b
    → n.prev (first zs b) ≡ last a ys
    → Chain n a (ys ++ zs) b
unlink m n e b a [] [] c d off f g e1 e2 = (e1, e2)
unlink m n e b a [] (z ∷ zs) c d off f g e1 e2 = (
  e1,
  e2,
  frame m n z zs b (λ y i. f y (has_ne y a (z ∷ zs) i (ground (arith, d.0))))
      (λ y i. g y (has_ne y z (zs ++ b ∷ []) i (ground (arith, d.1.1.0, has-append z zs (b ∷ [])))))
      c.2.2,
)
unlink m n e b a (y ∷ ys) zs c d off f g e1 e2 =
    let (ne, o, o1, o2) = has-middle y e ys zs d.1.0 in
    (
      f a (ne_last a y ys (ground (arith, d.0, has-append a ys (e ∷ zs)))) ∙ c.0,
      g y (ne_first y b zs o2 (ground arith)) ∙ c.1,
      unlink m n e b y ys zs c.2 d.1 (ground arith) f g e1 e2,
    )

-- The neighbours of a node of a chain.
neighbours :
    (m : Links) (e b a : ℕ) (ys zs : List ℕ)
    → Chain m a (ys ++ e ∷ zs) b
    → (m.prev e ≡ last a ys) × (m.next e ≡ first zs b)
neighbours m e b a [] zs c = (c.1, next_of_start m e zs b c.2)
neighbours m e b a (y ∷ ys) zs c = neighbours m e b y ys zs c.2

module _ {m : Links} {head : ℕ} (e : ℕ) (ys zs : List ℕ) (r : Ring m head (ys ++ e ∷ zs)) where
  -- `__list_del` of a node's neighbours takes the node out of its ring.
  list_del_between-Ring : Ring (list_del_between (m.prev e) (m.next e) m) head (ys ++ zs)
  unfolding list_del_between
  list_del_between-Ring =
      let (p, n) = neighbours m e head head ys zs r.chain in
      record {
        chain =
            unlink m (list_del_between (m.prev e) (m.next e) m) e head head ys zs r.chain
              (r.off_head, r.distinct) r.off_head (ground arith) (ground arith) (ground arith)
              (ground arith);
        off_head = (has-middle head e ys zs r.off_head).1;
        distinct = (Distinct-middle e ys zs r.distinct).0;
      }

  -- `list_del` takes a node out of its ring and leaves the others in their order.
  pub list_del-Ring : Ring (list_del e m) head (ys ++ zs)
  unfolding list_del
  list_del-Ring = list_del_between-Ring

  -- `list_move_tail` moves a node of the ring behind all others.
  pub list_move_tail-Ring : Ring (list_move_tail e head m) head ((ys ++ zs) ++ e ∷ [])
  unfolding list_move_tail
  list_move_tail-Ring = list_add_tail-Ring e list_del_between-Ring (
      ground
        (arith, (has-middle head e ys zs r.off_head).0, (Distinct-middle e ys zs r.distinct).1))
