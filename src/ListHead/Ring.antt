-- ===== src/ListHead/Ring.antt =====
-- What it means that a ring of libs/app_utils/api/list.h holds a list of nodes.
use linux_dev_framework.Base.{
  ◌==◌, ℕ, ◌≡◌, refl, sym, ◌∙◌, subst, ◌≢◌, ◌↔◌, Bool, true, false, ◌||◌, List, [], ◌∷◌, ◌++◌,
  arith,
}
use linux_dev_framework.ListHead.{Links, list_empty}

abbrev pub has : ℕ → List ℕ → Bool
has a [] = false
has a (x ∷ xs) = (a == x) || has a xs

abbrev pub Distinct : List ℕ → Type 0
Distinct [] = Unit
Distinct (x ∷ xs) = (has x xs ≡ false) × Distinct xs

-- From `a` the pointers lead through `xs` to `b`, and back.
abbrev pub Chain : Links → ℕ → List ℕ → ℕ → Type 0
Chain m a [] b = (m.next a ≡ b) × (m.prev b ≡ a)
Chain m a (x ∷ xs) b = (m.next a ≡ x) × (m.prev x ≡ a) × Chain m x xs b

abbrev pub last : ℕ → List ℕ → ℕ
last a [] = a
last a (x ∷ xs) = last x xs

abbrev pub first : List ℕ → ℕ → ℕ
first [] b = b
first (x ∷ xs) b = x

-- The ring at `head` holds the nodes `xs`, in order.
pub record Ring (m : Links) (head : ℕ) (xs : List ℕ) : Type 0 where
  pub chain : Chain m head xs head
  pub off_head : has head xs ≡ false
  pub distinct : Distinct xs

pub last_in : (a : ℕ) (xs : List ℕ) → has (last a xs) (a ∷ xs) ≡ true
last_in a [] = ground arith
last_in a (x ∷ xs) = ground (arith, last_in x xs)

pub ne_last : (y a : ℕ) (xs : List ℕ) → has y (a ∷ xs) ≡ false → y ≢ last a xs
ne_last y a xs out same = cc (last_in a xs, subst (λ z. has z (a ∷ xs) ≡ false) same out)

pub prev_of_end : (m : Links) (a : ℕ) (xs : List ℕ) (b : ℕ) → Chain m a xs b → m.prev b ≡ last a xs
prev_of_end m a [] b c = c.1
prev_of_end m a (x ∷ xs) b c = prev_of_end m x xs b c.2

pub next_of_start :
    (m : Links) (a : ℕ) (xs : List ℕ) (b : ℕ) → Chain m a xs b → m.next a ≡ first xs b
next_of_start m a [] b c = c.0
next_of_start m a (x ∷ xs) b c = c.0

pub has-append : (a : ℕ) (xs ys : List ℕ) → has a (xs ++ ys) ≡ (has a xs || has a ys)
has-append a [] ys = refl
has-append a (x ∷ xs) ys = ground (arith, has-append a xs ys)

pub has_ne : (y z : ℕ) (l : List ℕ) → has y l ≡ true → has z l ≡ false → y ≢ z
has_ne y z l i o same = cc (i, subst (λ x. has x l ≡ false) (sym same) o)

-- Two memories that agree on the pointers of a chain share it.
pub frame :
    (m n : Links) (a : ℕ) (xs : List ℕ) (b : ℕ)
    → ((y : ℕ) → has y (a ∷ xs) ≡ true → n.next y ≡ m.next y)
    → ((y : ℕ) → has y (xs ++ b ∷ []) ≡ true → n.prev y ≡ m.prev y)
    → Chain m a xs b
    → Chain n a xs b
frame m n a [] b f g c = (f a (ground arith) ∙ c.0, g b (ground arith) ∙ c.1)
frame m n a (x ∷ xs) b f g c = (
  f a (ground arith) ∙ c.0,
  g x (ground arith) ∙ c.1,
  frame m n x xs b (λ y i. f y (ground arith)) (λ y i. g y (ground arith)) c.2,
)

-- `list_empty` is true exactly of the ring that holds no node.
pub list_empty_iff :
    {m : Links} {head : ℕ} {xs : List ℕ} → Ring m head xs → (list_empty head m ≡ true) ↔ (xs ≡ [])
unfolding list_empty
list_empty_iff {xs = []} r = ((λ e. refl), λ e. ground (arith, r.chain))
list_empty_iff {xs = x ∷ xs} r = ((λ e. absurd (ground (arith, r.chain, r.off_head))), λ e. cc)
