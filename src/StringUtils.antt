-- ===== src/StringUtils.antt =====
-- Strings: libs/app_utils/src/string_utils.c and libs/app_utils/api/string_utils.h. A string is the
-- list of its characters before the terminator, an array the list of its bytes; a buffer that is
-- edited in place is a function from the index to the byte.
pub mod Text
pub mod Trim
pub mod Ends
pub mod All
pub mod Replace
pub mod Buffer
mod Tests
use linux_dev_framework.Base.{
  ltb, leb, ◌==◌, if◌then◌else◌, ltb→lt, lt→ltb, leb→le, ==_iff, ==_refl, Bool-cases, Option-cases,
  ◌>>=◌, some_inj, tests, length, get_elem?, get_or, set, take, drop, replicate, all, length-append,
  length-set, get_elem?-set_self, get_elem?-set_ne, get_elem?-lt, take-append-drop, length-take,
  length-drop, length-replicate, get_elem?-none, get_elem?-append_left, get_elem?-append_right,
  get_elem?-replicate, ℕ, zero, suc, ◌+◌, ◌-◌, ◌*◌, ◌/◌, ◌%◌, ◌^◌, ◌≤◌, ◌<◌, min, max, ◌≡◌, refl,
  sym, ap, ap₂, ◌∙◌, subst, fun_ext, ◌≢◌, ◌↔◌, ◌⊎◌, inl, inr, Bool, true, false, not, ◌&&◌, ◌||◌,
  Option, none, some, List, [], ◌∷◌, ◌++◌, map, append_assoc, append-nil, arith,
}

-- `isgraph` of the C locale.
abbrev pub isgraph : ℕ → Bool
isgraph c = leb 33 c && leb c 126

-- What `strcpy` and `%s` read of an array: the bytes before the first zero.
abbrev pub c_str : List ℕ → List ℕ
c_str [] = []
c_str (c ∷ t) = if c == 0 then [] else c ∷ c_str t

-- `0==strcmp` of the C library.
abbrev pub streq : List ℕ → List ℕ → Bool
streq [] [] = true
streq [] (d ∷ t) = false
streq (c ∷ s) [] = false
streq (c ∷ s) (d ∷ t) = (c == d) && streq s t

-- The first loop of `str_trim_len`: how much of `len` is left when `head` stops.
unfoldable pub trim_head : List ℕ → (head len : ℕ) → ℕ
trim_head t head zero = 0
trim_head t head (suc n) = if isgraph (get_or t head 0) then suc n else trim_head t (head + 1) n

-- The second loop, which writes terminators from the end on.
unfoldable pub trim_tail : List ℕ → (tail len : ℕ) → ℕ × List ℕ
trim_tail t tail zero = (0, t)
trim_tail t tail (suc n) =
    if isgraph (get_or t tail 0) then (suc n, t) else trim_tail (set t tail 0) (tail - 1) n

-- After the first loop: `output` is written only when something is left.
abbrev pub trim_rest : List ℕ → (tail left : ℕ) → ℕ × Option (List ℕ)
trim_rest t tail zero = (0, none)
trim_rest t tail (suc n) =
    let (left, t') = trim_tail t tail (suc n) in
    if left == 0 then (0, none) else (left, some (c_str t'))

-- The result and what is stored in `output`; `none` leaves it as it was. `str_temp` is the string,
-- its terminator, and what the array held.
unfoldable pub str_trim_len : (input stale : List ℕ) (len : ℕ) → ℕ × Option (List ℕ)
str_trim_len input stale zero = (0, none)
str_trim_len input stale (suc n) =
    let str_temp = input ++ 0 ∷ stale in trim_rest str_temp n (trim_head str_temp 0 (suc n))

unfoldable pub str_trim : (input stale : List ℕ) → ℕ × Option (List ℕ)
str_trim input stale = str_trim_len input stale (length input)

-- The loop of `str_trim_all_len` on the first `len` bytes.
unfoldable pub trim_all : (input : List ℕ) (str_temp : List ℕ) → List ℕ
trim_all [] str_temp = str_temp
trim_all (c ∷ input) str_temp = trim_all input (if isgraph c then str_temp ++ c ∷ [] else str_temp)

unfoldable pub str_trim_all_len : (input : List ℕ) (len : ℕ) → ℕ × Option (List ℕ)
str_trim_all_len input zero = (0, none)
str_trim_all_len input (suc n) =
    let str_temp = trim_all (take (suc n) input) [] in
    (length str_temp, some (c_str (str_temp ++ 0 ∷ [])))

unfoldable pub str_trim_all : (input : List ℕ) → ℕ × Option (List ℕ)
str_trim_all input = str_trim_all_len input (length input)

abbrev pub is_prefix : (needle hay : List ℕ) → Bool
is_prefix [] hay = true
is_prefix (n ∷ needle) [] = false
is_prefix (n ∷ needle) (h ∷ hay) = (n == h) && is_prefix needle hay

-- `strstr` of the C library: the offset of the first occurrence.
abbrev pub strstr : (hay needle : List ℕ) → Option ℕ
strstr [] needle = if is_prefix needle [] then some 0 else none
strstr (h ∷ hay) needle =
    if is_prefix needle (h ∷ hay) then some 0 else do k ← strstr hay needle; some (suc k)

-- What is behind an occurrence. For an empty `from` it is the terminator that has been written.
abbrev pub after_match : (from ptr1 : List ℕ) (k : ℕ) → List ℕ
after_match [] ptr1 k = []
after_match (f ∷ from) ptr1 k = drop (k + length (f ∷ from)) ptr1

-- The loop of `str_replace_substr` from `ptr1` on; `none` means that the fuel ran out.
unfoldable pub replace_from : (fuel : ℕ) (output ptr1 from to : List ℕ) → Option (List ℕ)
replace_from zero output ptr1 from to = none
replace_from (suc fuel) output ptr1 from to = elim (strstr ptr1 from) [
  | none ↦ some (output ++ ptr1)
  | some k ↦
      let output' = output ++ (take k ptr1 ++ to) in
      elim (after_match from ptr1 k) [
        | [] ↦ some output'
        | c ∷ rest ↦ replace_from fuel output' (c ∷ rest) from to
      ]
]

-- What is stored in `output`; the result is its length.
unfoldable pub str_replace_substr : (input from to : List ℕ) → Option (List ℕ)
str_replace_substr input from to = replace_from (suc (length input)) [] input from to

abbrev pub is_new_line : ℕ → Bool
is_new_line c = (c == 13) || (c == 10)

-- The loop of `trim_new_line`; `n` is how far `tail` is behind the byte before `str`.
unfoldable pub cut_back : List ℕ → (n : ℕ) → List ℕ
cut_back t zero = t
cut_back t (suc n) = if is_new_line (get_or t n 0) then cut_back (set t n 0) n else t

unfoldable pub trim_new_line : (str : List ℕ) → List ℕ
trim_new_line str = c_str (cut_back (str ++ 0 ∷ []) (length str))

-- A buffer that is edited in place.
abbrev pub Buf : Type 0
Buf = ℕ → ℕ

abbrev pub memmove : (dst src n : ℕ) → Buf → Buf
memmove dst src n b i = if leb dst i && ltb i (dst + n) then b (src + (i - dst)) else b i

abbrev pub put_char : (i c : ℕ) → Buf → Buf
put_char i c b j = if j == i then c else b j

-- `idx` is at most `len`.
unfoldable pub insert_char : (str : Buf) (c idx len : ℕ) → Buf
insert_char str c idx len =
    put_char (len + 1) 0 (put_char idx c (memmove (idx + 1) idx (len - idx) str))

-- `idx` is less than `len`.
unfoldable pub delete_char : (str : Buf) (idx len : ℕ) → Buf
delete_char str idx len = put_char (len - 1) 0 (memmove idx (idx + 1) (len - idx - 1) str)
