-- ===== src/Net/Checksum/Words.antt =====
-- The loops of `csum` in libs/app_utils/src/net.c as a sum of words.
use linux_dev_framework.Base.{ℕ, zero, suc, ◌+◌, ◌-◌, ◌*◌, ◌^◌, ◌≤◌, ◌<◌, ◌≡◌, refl, ap, ◌≢◌, arith}
use native.Mathlib.Decide.{ℕ_discrete}
use linux_dev_framework.Net.Memory.{Mem, IsBytes, load16, store16, swap16, load16-store16}
use linux_dev_framework.Net.Checksum.{add_words, fold, complement}
use linux_dev_framework.Net.Checksum.Fold.{fold_lem}

-- Only the bytes of the region count.
pub add_words_same :
    (m n : Mem) (a c s : ℕ)
    → ((x : ℕ) → a ≤ x → x < a + c → n x ≡ m x)
    → add_words n a c s ≡ add_words m a c s
unfolding add_words
add_words_same m n a zero s f = refl
add_words_same m n a (suc zero) s f = rw (f a (omega arith) (omega arith))
add_words_same m n a (suc (suc c)) s f =
    rw (f a (omega arith) (omega arith), f (a + 1) (omega arith) (omega arith))
      (add_words_same m n (a + 2) c _ (λ x lo hi. f x (omega arith) (omega arith)))

-- What a sum starts with is added to the rest.
pub add_words_start : (m : Mem) (a c s : ℕ) → add_words m a c s ≡ s + add_words m a c 0
unfolding add_words
add_words_start m a zero s = omega arith
add_words_start m a (suc zero) s = omega arith
add_words_start m a (suc (suc c)) s = omega (
  arith,
  add_words_start m (a + 2) c (s + swap16 (load16 m a)),
  add_words_start m (a + 2) c (0 + swap16 (load16 m a)),
)

pub store16_other : (m : Mem) (p v x : ℕ) → x ≢ p → x ≢ p + 1 → store16 m p v x ≡ m x
store16_other m p v x h k = ground arith

-- A word at an even offset is one of the words that are added.
pub add_words-store16 :
    (m : Mem) (a c j p s v : ℕ)
    → IsBytes m
    → v < 2 ^ 16
    → p ≡ a + j * 2
    → j * 2 + 1 < c
    → add_words (store16 m p v) a c s + swap16 (load16 m p) ≡ add_words m a c s + swap16 v
unfolding add_words
add_words-store16 m a zero j p s v b h e fits = absurd (omega arith)
add_words-store16 m a (suc zero) j p s v b h e fits = absurd (omega arith)
add_words-store16 m a (suc (suc c)) zero p s v b h e fits =
    let here : p ≡ a = omega arith in
    let head : load16 (store16 m p v) a ≡ v =
      rw (ap (λ q. load16 (store16 m q v) a) here) (load16-store16 m a v h) in
    let rest =
      add_words_same m (store16 m p v) (a + 2) c (s + swap16 v)
        (λ x lo hi. store16_other m p v x (omega arith) (omega arith)) in
    rw (head, here)
      (omega (
        arith,
        rw here at rest,
        add_words_start m (a + 2) c (s + swap16 v),
        add_words_start m (a + 2) c (s + swap16 (load16 m a)),
      ))
add_words-store16 m a (suc (suc c)) (suc j) p s v b h e fits =
    rw
      (
        store16_other m p v a (omega arith) (omega arith),
        store16_other m p v (a + 1) (omega arith) (omega arith),
      )
      (add_words-store16 m (a + 2) c j p (s + swap16 (load16 m a)) v b h (omega arith)
        (omega arith))

-- A sum and the complement of its fold make up all ones.
fold_total : (s : ℕ) → fold (s + (65535 - fold s)) ≡ 65535
fold_total s =
    let (low, same, zero_iff) = fold_lem s in
    let (low', same', zero_iff') = fold_lem (s + (65535 - fold s)) in
    elim (ℕ_discrete (fold (s + (65535 - fold s))) 0) [
      | yes z ↦ omega (arith, zero_iff'.0 z, zero_iff.1)
      | no nz ↦ omega arith
    ]

-- The heart of the Internet checksum: if a field at an even offset is zeroed, and the complement
-- of the folded sum is stored in it, then the sum with the field folds to all ones. This is the
-- test that a receiver makes.
pub sum_verifies :
    (m : Mem) (a c j p s : ℕ)
    → IsBytes m
    → p ≡ a + j * 2
    → j * 2 + 1 < c
    → fold (add_words (store16 m p (complement (fold (add_words (store16 m p 0) a c s)))) a c s)
      ≡ 65535
sum_verifies m a c j p s b e fits =
    let sum : ℕ = add_words (store16 m p 0) a c s in
    let check : ℕ = complement (fold sum) in
    let small : check < 2 ^ 16 = omega arith in
    let with_zero = add_words-store16 m a c j p s 0 b (omega arith) e fits in
    let with_check = add_words-store16 m a c j p s check b small e fits in
    let total : add_words (store16 m p check) a c s ≡ sum + (65535 - fold sum) =
      omega (arith, fold_lem sum, with_zero, with_check) in
    rw total (fold_total sum)
