-- ===== src/Telnetd/Iacs.antt =====
-- `remove_iacs` of libs/app_utils/src/telnetd4dbg.c.
use linux_dev_framework.Base.{
  ltb, ◌==◌, if◌then◌else◌, ltb→lt, ==_refl, Bool-cases, length, ℕ, zero, suc, ◌+◌, ◌-◌, ◌≤◌, ◌<◌,
  ◌≡◌, refl, sym, ap, ap₂, ◌∙◌, subst, inl, inr, Bool, false, not, ◌&&◌, Option, none, some, List,
  [], ◌∷◌, arith,
}
use linux_dev_framework.StringUtils.{Buf, put_char}
use linux_dev_framework.StringUtils.Buffer.{read, read_same}
use linux_dev_framework.Telnetd.{iac, sb, telopt_naws, remove_step, remove_loop, remove_iacs}

-- A window size follows the IAC.
abbrev pub is_naws : List ℕ → Bool
is_naws [] = false
is_naws (c ∷ []) = false
is_naws (c ∷ d ∷ s) = (c == sb) && (d == telopt_naws)

-- The client's text: without every IAC and the two bytes behind it, or the eight behind it if it
-- starts a window size.
abbrev pub telnet_text : (skip : ℕ) → List ℕ → List ℕ
telnet_text skip [] = []
telnet_text (suc k) (c ∷ s) = telnet_text k s
telnet_text zero (c ∷ s) =
    if not (c == iac) then c ∷ telnet_text 0 s else telnet_text (if is_naws s then 8 else 2) s

skip_all : (k : ℕ) (s : List ℕ) → length s ≤ k → telnet_text k s ≡ []
skip_all k [] h = refl
skip_all zero (c ∷ s) h = absurd (omega (arith, h))
skip_all (suc k) (c ∷ s) h = skip_all k s (omega (arith, h))

skip_read :
    (b : Buf) (k i n : ℕ) → telnet_text k (read b i n) ≡ telnet_text 0 (read b (i + k) (n - k))
skip_read b zero i n = ap₂ (λ x y. telnet_text 0 (read b x y)) (omega arith) (omega arith)
skip_read b (suc k) i zero = ap (λ y. telnet_text 0 (read b (i + suc k) y)) {x = 0} (omega arith)
skip_read b (suc k) i (suc n) =
    skip_read b k (i + 1) n ∙ ap₂ (λ x y. telnet_text 0 (read b x y)) (omega arith) (omega arith)

-- The loop from `ptr` on has stored the first bytes, and stores the text of the rest behind them.
abbrev pub Removes : Buf → (totty end_ : ℕ) → (text : List ℕ) → Option (Buf × ℕ) → Type 0
Removes b totty end_ text none = ⊥
Removes b totty end_ text (some (r, n)) =
    (n ≡ totty + length text)
    × (read r totty (length text) ≡ text)
    × ((x : ℕ) → x < totty → r x ≡ b x)
    × ((x : ℕ) → end_ ≤ x → r x ≡ b x)

-- A byte that is kept goes in front.
kept :
    (b : Buf) (c totty end_ : ℕ) (text : List ℕ) (o : Option (Buf × ℕ))
    → totty < end_
    → Removes (put_char totty c b) (totty + 1) end_ text o
    → Removes b totty end_ (c ∷ text) o
kept b c totty end_ text none h x = x
kept b c totty end_ text (some (r, n)) h (len, got, low, high) = (
  omega (arith, len),
  ap₂ (λ d l. d ∷ l) (low totty (omega arith) ∙ rw (==_refl totty) refl) got,
  λ x l. low x (omega arith) ∙ ground (arith, l),
  λ x l. high x l ∙ ground (arith, l, h),
)

-- The test for a window size may look behind the end, where its answer does not count.
window_or_not :
    (b : Buf) (i m : ℕ)
    → telnet_text (if is_naws (read b i m) then 8 else 2) (read b i m)
      ≡ telnet_text (if (b i == sb) && (b (i + 1) == telopt_naws) then 8 else 2) (read b i m)
window_or_not b i zero = refl
window_or_not b i (suc zero) = elim (Bool-cases ((b i == sb) && (b (i + 1) == telopt_naws))) [
  | inl y ↦ rw y refl
  | inr n ↦ rw n refl
]
window_or_not b i (suc (suc m)) = refl

abbrev Later : (fuel end_ : ℕ) → Type 0
Later fuel end_ =
    (b : Buf) (ptr totty : ℕ)
    → end_ - ptr < fuel
    → totty ≤ ptr
    → Removes b totty end_ (telnet_text 0 (read b ptr (end_ - ptr)))
        (remove_loop fuel b ptr totty end_)

-- An IAC is skipped, with the `k` bytes behind it.
skipped :
    (fuel : ℕ) (b : Buf) (ptr totty end_ k ptr' : ℕ)
    → Later fuel end_
    → end_ - ptr ≤ fuel
    → totty ≤ ptr
    → ptr < end_
    → ptr + 1 + k ≡ ptr'
    → Removes b totty end_
        (telnet_text k (read b (ptr + 1) (end_ - (ptr + 1))))
        (remove_loop fuel b ptr' totty end_)
skipped fuel b ptr totty end_ k ptr' later enough h l e =
    subst (λ t. Removes b totty end_ t (remove_loop fuel b ptr' totty end_))
      (ap₂ (λ x y. telnet_text 0 (read b x y)) (sym e) (omega (arith, e))
        ∙ sym (skip_read b k (ptr + 1) (end_ - (ptr + 1))))
      (later b ptr' totty (omega (arith, e, enough, l)) (omega (arith, e, h)))

one_step :
    (fuel : ℕ) (b : Buf) (ptr totty end_ : ℕ)
    → Later fuel end_
    → end_ - ptr ≤ fuel
    → totty ≤ ptr
    → ptr < end_
    → let (b', ptr', totty') = remove_step b ptr totty in
      Removes b totty end_
        (telnet_text 0 (b ptr ∷ read b (ptr + 1) (end_ - (ptr + 1))))
        (remove_loop fuel b' ptr' totty' end_)
one_step fuel b ptr totty end_ later enough h l = elim (Bool-cases (b ptr == iac)) [
  | inr n ↦ rw n (
      kept b (b ptr) totty end_ (telnet_text 0 (read b (ptr + 1) (end_ - (ptr + 1))))
        (remove_loop fuel (put_char totty (b ptr) b) (ptr + 1) (totty + 1) end_) (omega arith)
        (subst
          (λ t.
            Removes (put_char totty (b ptr) b) (totty + 1) end_ (telnet_text 0 t)
              (remove_loop fuel (put_char totty (b ptr) b) (ptr + 1) (totty + 1) end_))
          (read_same b (put_char totty (b ptr) b) (ptr + 1) (end_ - (ptr + 1))
            (λ x lo hi. ground (arith, lo, h)))
          (later (put_char totty (b ptr) b) (ptr + 1) (totty + 1) (omega arith) (omega arith))))
  | inl y ↦
      let next : ptr + 1 + 1 ≡ ptr + 2 = omega arith in
      rw (y, window_or_not b (ptr + 1) (end_ - (ptr + 1)), next)
        (elim (Bool-cases ((b (ptr + 1) == sb) && (b (ptr + 2) == telopt_naws))) [
          | inl w ↦ rw w (skipped fuel b ptr totty end_ 8 (ptr + 9) later enough h l (omega arith))
          | inr w ↦ rw w (skipped fuel b ptr totty end_ 2 (ptr + 3) later enough h l (omega arith))
        ])
]

remove_loop-Removes : (fuel : ℕ) (end_ : ℕ) → Later fuel end_
unfolding remove_loop
remove_loop-Removes zero end_ b ptr totty enough h = absurd (omega (arith, enough))
remove_loop-Removes (suc fuel) end_ b ptr totty enough h = elim (Bool-cases (ltb ptr end_)) [
  | inr n ↦
      let z : end_ - ptr ≡ 0 = ground (arith, n) in
      rw (n, z) (omega arith, refl, λ x l. refl, λ x l. refl)
  | inl y ↦
      let l : ptr < end_ = ltb→lt ptr end_ y in
      let e : suc (end_ - (ptr + 1)) ≡ end_ - ptr = omega (arith, l) in
      rw y (
        subst
          (λ k. Removes b totty end_ (telnet_text 0 (read b ptr k)) (
            let (b', ptr', totty') = remove_step b ptr totty in
            remove_loop fuel b' ptr' totty' end_))
          e (one_step fuel b ptr totty end_ (remove_loop-Removes fuel end_) (omega arith) h l))
]

-- `remove_iacs` ends, leaves the client's text at the front of the buffer and its length in
-- `*pnum_totty`, and writes nothing behind the `len` bytes that were received.
pub remove_iacs-Removes :
    (b : Buf) (len : ℕ) → Removes b 0 len (telnet_text 0 (read b 0 len)) (remove_iacs b len)
unfolding remove_iacs
remove_iacs-Removes b len =
    let e : len - 0 ≡ len = omega arith in
    subst (λ k. Removes b 0 len (telnet_text 0 (read b 0 k)) (remove_loop (suc len) b 0 0 len)) e
      (remove_loop-Removes (suc len) len b 0 0 (omega arith) (omega arith))
