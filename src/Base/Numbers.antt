-- ===== src/Base/Numbers.antt =====
-- Numbers as texts: what `sprintf` prints, and `atoi`, `strtol` and `strtoul` of the C library.
use Prim.Native.Nat.{ℕ, zero, suc, ◌+◌, ◌-◌, ◌*◌, ◌/◌, ◌%◌, ◌^◌, ◌<◌, ◌≤◌, min}
use mathlib.Core.Path.{◌≡◌, refl, ap, sym, ◌∙◌}
use mathlib.Core.Bool.{Bool, true, false, ◌&&◌, ◌||◌}
use mathlib.Core.List.{List, [], ◌∷◌, ◌++◌}
use mathlib.Core.Logic.{inl, inr}
use native.Mathlib.Omega.{arith}
use linux_dev_framework.Base.Tests.{◌==◌, if◌then◌else◌, ltb, leb, Bool-cases, ltb→lt}
use linux_dev_framework.Base.Lists.{get_or}
use linux_dev_framework.Base.Strings.{Free}

-- `%d` of a number that is not negative: its digits, with fuel for each.
abbrev pub digits : (fuel n : ℕ) → List ℕ → List ℕ
digits zero n behind = behind
digits (suc fuel) n behind =
    let more = digits fuel (n / 10) ((48 + n % 10) ∷ behind) in
    if ltb n 10 then (48 + n) ∷ behind else more

unfoldable pub decimal : ℕ → List ℕ
decimal n = digits (suc n) n []

abbrev pub digit? : ℕ → Bool
digit? c = leb 48 c && leb c 57

-- The value of a digit or a letter, 36 for any other character.
abbrev pub digit_of : ℕ → ℕ
digit_of c =
    if digit? c
    then c - 48
    else if leb 97 c && leb c 122
    then c - 87
    else if leb 65 c && leb c 90
    then c - 55
    else 36

abbrev digit_then : (c base sum : ℕ) → (ℕ → ℕ) → ℕ
digit_then c base sum later = if ltb (digit_of c) base then later (sum * base + digit_of c) else sum

-- The digits of a base at the front of a text.
unfoldable pub number_from : (base sum : ℕ) → List ℕ → ℕ
number_from base sum [] = sum
number_from base sum (c ∷ s) = digit_then c base sum (λ n. number_from base n s)

-- The base that the base 0 and a text stand for, and the text behind its prefix.
abbrev prefixed : List ℕ → ℕ × List ℕ
prefixed [] = (10, [])
prefixed (c ∷ []) = (if c == 48 then 8 else 10, c ∷ [])
prefixed (c ∷ x ∷ s) =
    if c == 48
    then if ((x == 120) || (x == 88)) && ltb (digit_of (get_or s 0 0)) 16
      then (16, s)
      else (8, c ∷ x ∷ s)
    else (10, c ∷ x ∷ s)

abbrev pub magnitude : List ℕ → ℕ
magnitude s = number_from (prefixed s).0 0 (prefixed s).1

-- `strtol` with base 0 of a text that begins with a sign or a digit, as the 64 bits of a long.
unfoldable pub strtol : List ℕ → ℕ
strtol [] = 0
strtol (c ∷ s) =
    if c == 45
    then (2 ^ 64 - min (2 ^ 63) (magnitude s)) % 2 ^ 64
    else min (2 ^ 63 - 1) (magnitude (if c == 43 then s else c ∷ s))

-- `strtoul` with base 16 of a text that begins with a digit.
unfoldable pub strtoul16 : List ℕ → ℕ
strtoul16 s =
    let digits_of = if (prefixed s).0 == 16 then (prefixed s).1 else s in
    min (2 ^ 64 - 1) (number_from 16 0 digits_of)

-- `atoi`: blanks, a sign and digits, as the 32 bits of an int. The digits are read by `strtol`, which
-- stops at the bounds of a long.
abbrev pub signed : List ℕ → ℕ
signed [] = 0
signed (c ∷ s) =
    if c == 45
    then (2 ^ 32 - min (2 ^ 63) (number_from 10 0 s) % 2 ^ 32) % 2 ^ 32
    else min (2 ^ 63 - 1) (number_from 10 0 (if c == 43 then s else c ∷ s)) % 2 ^ 32

abbrev pub blank? : ℕ → Bool
blank? c = (c == 32) || leb 9 c && leb c 13

unfoldable pub atoi : List ℕ → ℕ
atoi [] = 0
atoi (c ∷ s) = elim (blank? c) [ true ↦ atoi s | false ↦ signed (c ∷ s) ]

number_from-digit :
    (n d : ℕ) (s : List ℕ)
    → d < 10
    → number_from 10 n ((48 + d) ∷ s) ≡ number_from 10 (n * 10 + d) s
unfolding number_from
number_from-digit n d s h =
    let value : digit_of (48 + d) ≡ d = ground (arith, h) in
    let small : ltb d 10 ≡ true = ground (arith, h) in
    ap (λ v. if ltb v 10 then number_from 10 (n * 10 + v) s else n) value ∙ rw small refl

-- The digits of a number are read back as it.
pub number_from-digits :
    (fuel n : ℕ) (behind : List ℕ)
    → n < fuel
    → number_from 10 0 (digits fuel n behind) ≡ number_from 10 n behind
number_from-digits zero n behind h = elim h [ ]
number_from-digits (suc fuel) n behind h = elim (Bool-cases (ltb n 10)) [
  | inl one ↦
      let z : 0 * 10 + n ≡ n = omega arith in
      rw one (number_from-digit 0 n behind (ltb→lt n 10 one) ∙ ap (λ x. number_from 10 x behind) z)
  | inr more ↦
      let d : n % 10 < 10 = omega arith in
      let e : n / 10 * 10 + n % 10 ≡ n = omega arith in
      rw more (
        number_from-digits fuel (n / 10) ((48 + n % 10) ∷ behind) (ground (arith, h, more))
        ∙ number_from-digit (n / 10) (n % 10) behind d
        ∙ ap (λ x. number_from 10 x behind) e)
]

-- A positive number begins with a digit other than 0.
pub digits-first :
    (fuel n : ℕ) (behind : List ℕ)
    → n < fuel
    → 0 < n
    → (c : ℕ) × (s : List ℕ) × (digits fuel n behind ≡ c ∷ s) × (49 ≤ c) × (c ≤ 57)
digits-first zero n behind h p = elim h [ ]
digits-first (suc fuel) n behind h p = elim (Bool-cases (ltb n 10)) [
  | inl one ↦
      let below : n < 10 = ltb→lt n 10 one in
      (48 + n, behind, rw one refl, omega (arith, p), omega (arith, below))
  | inr more ↦
      let (c, s, e, lo, hi) =
        digits-first fuel (n / 10) ((48 + n % 10) ∷ behind) (ground (arith, h, more))
          (ground (arith, more)) in
      (c, s, rw more e, lo, hi)
]

prefixed-decimal : (c : ℕ) (s : List ℕ) → 49 ≤ c → prefixed (c ∷ s) ≡ (10, c ∷ s)
prefixed-decimal c [] h = let n : (c == 48) ≡ false = ground (arith, h) in rw n refl
prefixed-decimal c (x ∷ s) h = let n : (c == 48) ≡ false = ground (arith, h) in rw n refl

-- A positive number that fits into a long is printed and read back.
pub strtol-decimal :
    (n : ℕ) (s : List ℕ)
    → 0 < n
    → n < 2 ^ 63
    → number_from 10 n s ≡ n
    → strtol (digits (suc n) n s) ≡ n
unfolding strtol
strtol-decimal n s p small e =
    let (c, t, f, lo, hi) = digits-first (suc n) n s (omega arith) p in
    let minus : (c == 45) ≡ false = ground (arith, lo) in
    let plus : (c == 43) ≡ false = ground (arith, lo) in
    let read : magnitude (c ∷ t) ≡ n =
      ap (λ x. number_from x.0 0 x.1) (prefixed-decimal c t lo)
      ∙ ap (number_from 10 0) (sym f)
      ∙ number_from-digits (suc n) n s (omega arith)
      ∙ e in
    ap strtol f ∙ rw (minus, plus, read) (omega (arith, small))

pub digits-append : (fuel n : ℕ) (b t : List ℕ) → digits fuel n b ++ t ≡ digits fuel n (b ++ t)
digits-append zero n b t = refl
digits-append (suc fuel) n b t = elim (Bool-cases (ltb n 10)) [
  | inl one ↦ rw one refl
  | inr more ↦ rw more (digits-append fuel (n / 10) ((48 + n % 10) ∷ b) t)
]

-- Digits are not a given character that is none.
pub digits-Free :
    (d fuel n : ℕ) (b : List ℕ) → digit? d ≡ false → Free d b → Free d (digits fuel n b)
digits-Free d zero n b h f = f
digits-Free d (suc fuel) n b h f = elim (Bool-cases (ltb n 10)) [
  | inl one ↦ let ne : ((48 + n) == d) ≡ false = ground (arith, h, one) in rw one ((ne, f))
  | inr more ↦
      let r : n % 10 < 10 = omega arith in
      let ne : ((48 + n % 10) == d) ≡ false = ground (arith, h, r) in
      rw more (digits-Free d fuel (n / 10) ((48 + n % 10) ∷ b) h (ne, f))
]
