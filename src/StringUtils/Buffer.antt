-- ===== src/StringUtils/Buffer.antt =====
-- `insert_char` and `delete_char` of libs/app_utils/api/string_utils.h.
use linux_dev_framework.Base.{
  length, ℕ, zero, suc, ◌+◌, ◌-◌, ◌≤◌, ◌<◌, ◌≡◌, refl, sym, ap, ap₂, ◌∙◌, List, [], ◌∷◌, arith,
}
use linux_dev_framework.StringUtils.{Buf, insert_char, delete_char}

-- What an array has from an index on.
abbrev pub read {ℓ} : {A : Type ℓ} → (ℕ → A) → (i n : ℕ) → List A
read b i zero = []
read b i (suc n) = b i ∷ read b (i + 1) n

abbrev pub insert_at : (idx c : ℕ) → List ℕ → List ℕ
insert_at zero c s = c ∷ s
insert_at (suc idx) c [] = c ∷ []
insert_at (suc idx) c (d ∷ s) = d ∷ insert_at idx c s

abbrev pub remove_at : (idx : ℕ) → List ℕ → List ℕ
remove_at idx [] = []
remove_at zero (d ∷ s) = s
remove_at (suc idx) (d ∷ s) = d ∷ remove_at idx s

pub length-read {ℓ} : {A : Type ℓ} (b : ℕ → A) (i n : ℕ) → length (read b i n) ≡ n
length-read b i zero = refl
length-read b i (suc n) = ap suc (length-read b (i + 1) n)

pub read_same {ℓ} :
    {A : Type ℓ} (b d : ℕ → A) (i n : ℕ)
    → ((x : ℕ) → i ≤ x → x < i + n → d x ≡ b x)
    → read d i n ≡ read b i n
read_same b d i zero f = refl
read_same b d i (suc n) f =
    ap₂ (λ x l. x ∷ l) (f i (omega arith) (omega arith))
      (read_same b d (i + 1) n (λ x lo hi. f x (omega arith) (omega arith)))

pub read_shift {ℓ} :
    {A : Type ℓ} (b d : ℕ → A) (i n : ℕ)
    → ((x : ℕ) → i ≤ x → x < i + n → d (x + 1) ≡ b x)
    → read d (i + 1) n ≡ read b i n
read_shift b d i zero f = refl
read_shift b d i (suc n) f =
    ap₂ (λ x l. x ∷ l) (f i (omega arith) (omega arith))
      (read_shift b d (i + 1) n (λ x lo hi. f x (omega arith) (omega arith)))

-- `d` is `b` up to `p`, has `c` there, and after it what `b` has from `p` on.
module _ (b d : Buf) (c p e : ℕ) (front : (x : ℕ) → x < p → d x ≡ b x) (here : d p ≡ c)
    (back : (x : ℕ) → p ≤ x → x < e → d (x + 1) ≡ b x) where
  inserted :
      (i idx len : ℕ)
      → i + idx ≡ p
      → i + len ≡ e
      → idx ≤ len
      → read d i (suc len) ≡ insert_at idx c (read b i len)
  inserted i zero len a z h =
      ap₂ (λ x l. x ∷ l) (ap d (omega (arith, a)) ∙ here)
        (read_shift b d i len (λ x lo hi. back x (omega arith) (omega arith)))
  inserted i (suc idx) zero a z h = absurd (omega (arith, h))
  inserted i (suc idx) (suc len) a z h =
      ap₂ (λ x l. x ∷ l) (front i (omega arith))
        (inserted (i + 1) idx len (omega arith) (omega arith) (omega arith))

-- `d` is `b` up to `p`, and from there on what `b` has behind `p`.
module _ (b d : Buf) (p e : ℕ) (front : (x : ℕ) → x < p → d x ≡ b x)
    (back : (x : ℕ) → p ≤ x → x + 1 < e → d x ≡ b (x + 1)) where
  removed :
      (i idx len : ℕ)
      → i + idx ≡ p
      → i + suc len ≡ e
      → idx ≤ len
      → read d i len ≡ remove_at idx (read b i (suc len))
  removed i zero len a z h =
      sym (read_shift d b i len (λ x lo hi. sym (back x (omega arith) (omega arith))))
  removed i (suc idx) zero a z h = absurd (omega (arith, h))
  removed i (suc idx) (suc len) a z h =
      ap₂ (λ x l. x ∷ l) (front i (omega arith))
        (removed (i + 1) idx len (omega arith) (omega arith) (omega arith))

-- For a place in the text or at its end, `insert_char` puts the character there, with the terminator behind the text,
-- and writes nothing further on.
pub insert_char-read :
    (str : Buf) (c idx len : ℕ)
    → idx ≤ len
    → (read (insert_char str c idx len) 0 (suc len) ≡ insert_at idx c (read str 0 len))
      × (insert_char str c idx len (len + 1) ≡ 0)
      × ((x : ℕ) → len + 1 < x → insert_char str c idx len x ≡ str x)
unfolding insert_char
insert_char-read str c idx len h = (
  inserted str (insert_char str c idx len) c idx len (λ x l. ground arith) (ground arith)
      (λ x lo hi. let e : idx + (x + 1 - (idx + 1)) ≡ x = omega arith in rw e (ground arith)) 0 idx
      len (omega arith) (omega arith) h,
  ground arith,
  λ x far. ground arith,
)

-- For a place in the text, `delete_char` takes the character there out, with the terminator behind what is left, and
-- writes nothing further on.
pub delete_char-read :
    (str : Buf) (idx left : ℕ)
    → idx ≤ left
    → (read (delete_char str idx (suc left)) 0 left ≡ remove_at idx (read str 0 (suc left)))
      × (delete_char str idx (suc left) left ≡ 0)
      × ((x : ℕ) → left < x → delete_char str idx (suc left) x ≡ str x)
unfolding delete_char
delete_char-read str idx n h = (
  removed str (delete_char str idx (suc n)) idx (suc n) (λ x l. ground arith)
      (λ x lo hi. let e : idx + 1 + (x - idx) ≡ x + 1 = omega arith in rw e (ground arith)) 0 idx n
      (omega arith) (omega arith) (omega arith),
  ground arith,
  λ x far. ground arith,
)
