-- ===== src/Mm/AllLink.antt =====
-- The ring of all buffers that clients register in libs/app_utils/src/mm.c.
use linux_dev_framework.Base.{
  if◌then◌else◌, Bool-cases, length, ℕ, suc, ◌+◌, ◌-◌, ◌≤◌, ◌<◌, ◌≡◌, refl, ap, ◌∙◌, inl, inr, Bool,
  false, not, some, List, [], ◌∷◌, ◌++◌, map, arith,
}
use linux_dev_framework.ListHead.Ring.{has, Ring}
use linux_dev_framework.ListHead.Insert.{list_add_tail-Ring}
use linux_dev_framework.ListHead.Remove.{list_del-Ring}
use linux_dev_framework.ListHead.Walk.{walk, list_for_each-walk}
use linux_dev_framework.Mm.{
  Manager, add_to_all_link, delete_from_all_link, for_each_buf_in_all_link,
}

-- The registered buffers, by the addresses that clients have; the node of a buffer stands 16 bytes
-- before it.
abbrev pub links_of : List ℕ → List ℕ
links_of bufs = map (λ b. b - 32 + 16) bufs

abbrev pub Registered : Manager → List ℕ → Type 0
Registered m bufs = Ring m.links m.all (links_of bufs)

-- `usr_func` on each buffer in turn, until it returns true.
abbrev pub visit {ℓ} : {S : Type ℓ} → (ℕ → S → Bool × S) → List ℕ → S → S
visit f [] s = s
visit f (b ∷ bufs) s = let (stop, s') = f b s in if stop then s' else visit f bufs s'

map-append : (xs ys : List ℕ) → links_of (xs ++ ys) ≡ links_of xs ++ links_of ys
map-append [] ys = refl
map-append (x ∷ xs) ys = ap (◌∷◌ (x - 32 + 16)) (map-append xs ys)

-- `add_to_all_link` registers a buffer behind the others.
pub add_to_all_link-Registered :
    (m : Manager) (bufs : List ℕ) (b : ℕ)
    → Registered m bufs
    → has (b - 32 + 16) (m.all ∷ links_of bufs) ≡ false
    → Registered (add_to_all_link m b) (bufs ++ b ∷ [])
unfolding add_to_all_link
add_to_all_link-Registered m bufs b r out =
    rw (map-append bufs (b ∷ [])) (list_add_tail-Ring (b - 32 + 16) r out)

-- `delete_from_all_link` takes a registered buffer out and leaves the others in their order.
pub delete_from_all_link-Registered :
    (m : Manager) (b : ℕ) (before after : List ℕ)
    → Registered m (before ++ b ∷ after)
    → Registered (delete_from_all_link m b) (before ++ after)
unfolding delete_from_all_link
delete_from_all_link-Registered m b before after r = rw (map-append before after) (
    list_del-Ring (b - 32 + 16) (links_of before) (links_of after)
      (rw (map-append before (b ∷ after)) at r))

-- Buffers that lie behind a header.
abbrev pub AllHave : List ℕ → Type 0
AllHave [] = Unit
AllHave (b ∷ bufs) = (32 ≤ b) × AllHave bufs

walk-visit {ℓ} :
    {S : Type ℓ} (f : ℕ → S → Bool × S) (bufs : List ℕ) (s : S)
    → AllHave bufs
    → walk (λ pos s. let (stop, s') = f (pos - 16 + 32) s in (not stop, s')) (links_of bufs) s
      ≡ visit f bufs s
walk-visit f [] s h = refl
walk-visit f (b ∷ bufs) s h = rw (back b h.0) (elim (Bool-cases (f b s).0) [
  | inl stop ↦ rw stop
  | inr more ↦ rw more (walk-visit f bufs (f b s).1 h.1)
])
  where
    back : (b : ℕ) → 32 ≤ b → b - 32 + 16 - 16 + 32 ≡ b
    back b h = omega arith

length-links : (bufs : List ℕ) → length (links_of bufs) ≡ length bufs
length-links [] = refl
length-links (b ∷ bufs) = ap suc (length-links bufs)

-- `for_each_buf_in_all_link` ends, and calls the function on the registered buffers in order, up
-- to the first for which it returns true.
pub for_each_buf-visit {ℓ} :
    {S : Type ℓ} (m : Manager) (bufs : List ℕ) (f : ℕ → S → Bool × S) (fuel : ℕ) (s : S)
    → Registered m bufs
    → AllHave bufs
    → length bufs < fuel
    → for_each_buf_in_all_link fuel m f s ≡ some (visit f bufs s)
unfolding for_each_buf_in_all_link
for_each_buf-visit m bufs f fuel s r h enough =
    list_for_each-walk _ fuel s r (omega (arith, length-links bufs))
    ∙ ap some (walk-visit f bufs s h)
