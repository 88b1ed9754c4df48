-- ===== src/StringUtils/Text.antt =====
-- Strings without a terminator inside, and what is left of them at either end: what the functions
-- of libs/app_utils/src/string_utils.c are measured by.
use linux_dev_framework.Base.{
  ◌==◌, if◌then◌else◌, ==_refl, Bool-cases, length, get_or, set, ℕ, ◌≡◌, refl, ap, ap₂, ◌≢◌, inl,
  inr, Bool, true, false, List, [], ◌∷◌, ◌++◌, arith,
}
use linux_dev_framework.StringUtils.{c_str, streq}

-- No byte is the terminator.
abbrev pub NoZero : List ℕ → Type 0
NoZero [] = Unit
NoZero (c ∷ s) = (c ≢ 0) × NoZero s

abbrev pub filter : (ℕ → Bool) → List ℕ → List ℕ
filter p [] = []
filter p (c ∷ s) = if p c then c ∷ filter p s else filter p s

-- Without the longest front of characters that fail the test.
abbrev pub from_first : (ℕ → Bool) → List ℕ → List ℕ
from_first p [] = []
from_first p (c ∷ s) = if p c then c ∷ s else from_first p s

abbrev pub push_front : (ℕ → Bool) → ℕ → List ℕ → List ℕ
push_front p c [] = if p c then c ∷ [] else []
push_front p c (d ∷ s) = c ∷ d ∷ s

-- Without the longest end of characters that fail the test.
abbrev pub to_last : (ℕ → Bool) → List ℕ → List ℕ
to_last p [] = []
to_last p (c ∷ s) = push_front p c (to_last p s)

pub c_str-append_zero : (s t : List ℕ) → NoZero s → c_str (s ++ 0 ∷ t) ≡ s
c_str-append_zero [] t h = refl
c_str-append_zero (c ∷ s) t h = ground (arith, c_str-append_zero s t h.1)

pub get_or-append : (s t : List ℕ) (c : ℕ) → get_or (s ++ c ∷ t) (length s) 0 ≡ c
get_or-append [] t c = refl
get_or-append (x ∷ s) t c = get_or-append s t c

pub set-append : (s t : List ℕ) (c v : ℕ) → set (s ++ c ∷ t) (length s) v ≡ s ++ v ∷ t
set-append [] t c v = refl
set-append (x ∷ s) t c v = ap (λ l. x ∷ l) (set-append s t c v)

pub to_last-snoc_yes :
    (p : ℕ → Bool) (s : List ℕ) (c : ℕ) → p c ≡ true → to_last p (s ++ c ∷ []) ≡ s ++ c ∷ []
to_last-snoc_yes p [] c h = rw h refl
to_last-snoc_yes p (x ∷ []) c h = rw h refl
to_last-snoc_yes p (x ∷ y ∷ s) c h = rw (to_last-snoc_yes p (y ∷ s) c h) refl

pub to_last-snoc_no :
    (p : ℕ → Bool) (s : List ℕ) (c : ℕ) → p c ≡ false → to_last p (s ++ c ∷ []) ≡ to_last p s
to_last-snoc_no p [] c h = rw h refl
to_last-snoc_no p (x ∷ s) c h = ap (push_front p x) (to_last-snoc_no p s c h)

-- A list that is not empty has a last element.
pub last_split : (c : ℕ) (s : List ℕ) → (r : List ℕ) × (d : ℕ) × (c ∷ s ≡ r ++ d ∷ [])
last_split c [] = ([], c, refl)
last_split c (x ∷ s) = let (r, d, e) = last_split x s in (c ∷ r, d, ap (λ l. c ∷ l) e)

pub NoZero-append_left : (s t : List ℕ) → NoZero (s ++ t) → NoZero s
NoZero-append_left [] t h = tt
NoZero-append_left (c ∷ s) t h = (h.0, NoZero-append_left s t h.1)

pub streq_refl : (s : List ℕ) → streq s s ≡ true
streq_refl [] = refl
streq_refl (c ∷ s) = rw (==_refl c) (streq_refl s)

pub streq-eq : (s t : List ℕ) → streq s t ≡ true → s ≡ t
streq-eq [] [] h = refl
streq-eq [] (d ∷ t) h = absurd cc
streq-eq (c ∷ s) [] h = absurd cc
streq-eq (c ∷ s) (d ∷ t) h = elim (Bool-cases (c == d)) [
  | inl y ↦
      let e : c ≡ d = ground (arith, y) in
      let rest : streq s t ≡ true = rw y at h in ap₂ (λ x l. x ∷ l) e (streq-eq s t rest)
  | inr n ↦ let f : false ≡ true = rw n at h in absurd cc
]
