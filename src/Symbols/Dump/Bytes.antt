-- ===== src/Symbols/Dump/Bytes.antt =====
-- What can be read from the dump of memory in libs/app_utils/src/symbol_utils.c.
use linux_dev_framework.Base.{
  ltb, leb, ◌==◌, if◌then◌else◌, leb→le, Bool-cases, length, drop, replicate, length-append,
  length-replicate, chars, digit_of, ℕ, zero, suc, ◌+◌, ◌-◌, ◌*◌, ◌/◌, ◌%◌, ◌≤◌, ◌<◌, ◌≡◌, refl,
  sym, ap, ap₂, ◌∙◌, inl, inr, false, List, [], ◌∷◌, ◌++◌, append-nil, arith,
}
use linux_dev_framework.Net.Memory.{Mem, IsBytes}
use linux_dev_framework.Net.Names.{hex_digit}
use linux_dev_framework.Net.Text.{bytes_at}
use linux_dev_framework.Symbols.Dump.{
  hex_digits, str_addr, str_data, blank_data, columns, row, rows, d,
}

-- The byte in the first of the columns, and what is read from the others.
abbrev read_column : (List ℕ → List ℕ) → List ℕ → List ℕ
read_column later [] = []
read_column later (x ∷ []) = []
read_column later (x ∷ y ∷ []) = []
read_column later (x ∷ y ∷ z ∷ s) =
    let rest = later s in if x == 32 then [] else (digit_of x * 16 + digit_of y) ∷ rest

abbrev pub read_columns : ℕ → List ℕ → List ℕ
read_columns zero s = []
read_columns (suc n) s = read_column (read_columns n) s

-- The bytes that the rows of a dump show, in the columns behind an address of 16 characters.
abbrev pub shown : List (List ℕ) → List ℕ
shown [] = []
shown (r ∷ rs) = read_columns 16 (drop 18 r) ++ shown rs

digit_of-hex_digit : (n : ℕ) → n < 16 → digit_of (hex_digit n) ≡ n
digit_of-hex_digit n h = ground (arith, h)

hex_digit-ne_blank : (n : ℕ) → n < 16 → (hex_digit n == 32) ≡ false
hex_digit-ne_blank n h = ground (arith, h)

abbrev Bytes : List ℕ → Type 0
Bytes [] = Unit
Bytes (b ∷ bytes) = (b < 256) × Bytes bytes

bytes_at-Bytes : (n : ℕ) (m : Mem) (a : ℕ) → IsBytes m → Bytes (bytes_at n m a)
bytes_at-Bytes zero m a h = tt
bytes_at-Bytes (suc n) m a h = (h a, bytes_at-Bytes n m (a + 1) h)

length-bytes_at : (n : ℕ) (m : Mem) (a : ℕ) → length (bytes_at n m a) ≡ n
length-bytes_at zero m a = refl
length-bytes_at (suc n) m a = ap suc (length-bytes_at n m (a + 1))

bytes_at-append :
    (k n : ℕ) (m : Mem) (a : ℕ) → bytes_at k m a ++ bytes_at n m (a + k) ≡ bytes_at (k + n) m a
bytes_at-append zero n m a =
    let here : a + 0 ≡ a = omega arith in
    let all_of : n ≡ 0 + n = omega arith in ap (bytes_at n m) here ∙ ap (λ k. bytes_at k m a) all_of
bytes_at-append (suc k) n m a =
    let next : a + suc k ≡ a + 1 + k = omega arith in
    let sum : suc (k + n) ≡ suc k + n = omega arith in
    ap (λ x. m a ∷ (bytes_at k m (a + 1) ++ bytes_at n m x)) next
    ∙ ap (λ l. m a ∷ l) (bytes_at-append k n m (a + 1))
    ∙ ap (λ x. bytes_at x m a) sum

byte_shown :
    (b : ℕ) → b < 256 → digit_of (hex_digit (b / 16 % 16)) * 16 + digit_of (hex_digit (b % 16)) ≡ b
byte_shown b h = omega (
  arith,
  h,
  digit_of-hex_digit (b / 16 % 16) (omega arith),
  digit_of-hex_digit (b % 16) (omega arith),
)

read_columns-str_data :
    (bytes : List ℕ) (k j : ℕ) (rest : List ℕ)
    → Bytes bytes
    → length bytes + j ≡ k
    → read_columns k (str_data bytes ++ (blank_data j ++ rest)) ≡ bytes
read_columns-str_data [] zero j rest h e = refl
read_columns-str_data [] (suc k) zero rest h e = absurd (omega (arith, e))
read_columns-str_data [] (suc k) (suc j) rest h e = refl
read_columns-str_data (b ∷ bytes) zero j rest h e = absurd (omega (arith, e))
read_columns-str_data (b ∷ bytes) (suc k) j rest (small, h) e =
    rw (hex_digit-ne_blank (b / 16 % 16) (omega arith)) (
      ap₂ (λ x l. x ∷ l) (byte_shown b small)
        (read_columns-str_data bytes k j rest h (omega (arith, e))))

drop-length : (n : ℕ) (xs ys : List ℕ) → length xs ≡ n → drop n (xs ++ ys) ≡ ys
drop-length zero [] ys e = refl
drop-length zero (x ∷ xs) ys e = absurd (omega (arith, e))
drop-length (suc n) [] ys e = absurd (omega (arith, e))
drop-length (suc n) (x ∷ xs) ys e = drop-length n xs ys (omega (arith, e))

length-hex_digits :
    (fuel n : ℕ) (behind : List ℕ) → length (hex_digits fuel n behind) ≤ fuel + length behind
length-hex_digits zero n behind = omega arith
length-hex_digits (suc fuel) n behind = elim (Bool-cases (ltb n 16)) [
  | inl y ↦ rw y (omega arith)
  | inr out ↦ rw out (omega (arith, length-hex_digits fuel (n / 16) (hex_digit (n % 16) ∷ behind)))
]

length-str_addr : (a : ℕ) → length (str_addr a ++ chars ": ") ≡ 18
length-str_addr a = omega (
  arith,
  length-hex_digits 16 a [],
  length-append (hex_digits 16 a []) (replicate (16 - length (hex_digits 16 a [])) 32),
  length-replicate {A = ℕ} (16 - length (hex_digits 16 a [])) 32,
  length-append (str_addr a) (chars ": "),
)

read_columns-row :
    (a : ℕ) (bytes : List ℕ)
    → Bytes bytes
    → length bytes ≤ 16
    → read_columns 16 (drop 18 (row a bytes)) ≡ bytes
read_columns-row a bytes h few =
    ap (read_columns 16)
      (drop-length 18 (str_addr a ++ chars ": ") (columns bytes) (length-str_addr a))
    ∙ read_columns-str_data bytes 16 (16 - length bytes) _ h (omega (arith, few))

shown-rows :
    (fuel n : ℕ) (m : Mem) (a : ℕ) → IsBytes m → n < fuel → shown (rows fuel m a n) ≡ bytes_at n m a
unfolding rows
shown-rows zero n m a h e = absurd (omega (arith, e))
shown-rows (suc fuel) n m a h e = elim (Bool-cases (leb 16 n)) [
  | inl y ↦
      let long : 16 ≤ n = leb→le 16 n y in
      rw y (
        ap₂ (λ x l. x ++ l)
          (read_columns-row a (bytes_at 16 m a) (bytes_at-Bytes 16 m a h) (omega arith))
          (shown-rows fuel (n - 16) m (a + 16) h (omega (arith, long, e)))
        ∙ bytes_at-append 16 (n - 16) m a
        ∙ ap (λ k. bytes_at k m a) (omega (arith, long)))
  | inr out ↦ elim (Bool-cases (n == 0)) [
    | inl z ↦
        let nothing : n ≡ 0 = ground (arith, z) in
        rw (out, z) (ap (λ k. bytes_at k m a) (sym nothing))
    | inr k ↦
        let few : n ≤ 16 = ground (arith, out) in
        rw (out, k)
          (append-nil _
            ∙ read_columns-row a (bytes_at n m a) (bytes_at-Bytes n m a h)
                (omega (arith, few, length-bytes_at n m a)))
  ]
]

-- The dump of a range of memory, of any length, shows each of its bytes once and in order: the two
-- digits in the columns of its rows, behind the address of each row, are read back as those bytes.
pub shown-d :
    (m : Mem) (start_addr n : ℕ) → IsBytes m → shown (d m start_addr n) ≡ bytes_at n m start_addr
unfolding d
shown-d m a n h = shown-rows (suc n) n m a h (omega arith)
