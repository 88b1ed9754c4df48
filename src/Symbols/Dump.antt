-- ===== src/Symbols/Dump.antt =====
-- The dump of memory, `d` of libs/app_utils/src/symbol_utils.c.
mod Bytes
mod Tests
use linux_dev_framework.Base.{
  ltb, leb, ◌==◌, if◌then◌else◌, ltb→lt, lt→ltb, leb→le, ==_iff, ==_refl, Bool-cases, Option-cases,
  ◌>>=◌, some_inj, tests, length, get_elem?, get_or, set, take, drop, replicate, all, length-append,
  length-set, get_elem?-set_self, get_elem?-set_ne, get_elem?-lt, take-append-drop, take-length,
  length-take, length-drop, length-replicate, get_elem?-none, get_elem?-append_left,
  get_elem?-append_right, get_elem?-replicate, chars, token, strtok, Free, token-word, token-last,
  strtok-last, strtok-word, strchr, strrchr, strchr-first, strchr-none, Free-append, strrchr-end,
  digits, decimal, digit?, digit_of, number_from, magnitude, strtol, strtoul16, signed, blank?,
  atoi, number_from-digits, digits-first, strtol-decimal, digits-append, digits-Free, ℕ, zero, suc,
  ◌+◌, ◌-◌, ◌*◌, ◌/◌, ◌%◌, ◌^◌, ◌≤◌, ◌<◌, min, max, ◌≡◌, refl, sym, ap, ap₂, ◌∙◌, subst, fun_ext,
  ◌≢◌, ◌↔◌, ◌⊎◌, inl, inr, Bool, true, false, not, ◌&&◌, ◌||◌, Option, none, some, List, [], ◌∷◌,
  ◌++◌, map, append_assoc, append-nil, arith,
}
use linux_dev_framework.Net.Memory.{Mem}
use linux_dev_framework.Net.Names.{hex_digit}
use linux_dev_framework.Net.Text.{bytes_at, hex2}

-- `%lx`, with fuel for the 16 digits that a word may have.
abbrev pub hex_digits : (fuel n : ℕ) → List ℕ → List ℕ
hex_digits zero n behind = behind
hex_digits (suc fuel) n behind =
    let more = hex_digits fuel (n / 16) (hex_digit (n % 16) ∷ behind) in
    if ltb n 16 then hex_digit n ∷ behind else more

-- `%-16lx`
abbrev pub str_addr : (cur_pos : ℕ) → List ℕ
str_addr a = hex_digits 16 a [] ++ replicate (16 - length (hex_digits 16 a [])) 32

abbrev pub str_data : List ℕ → List ℕ
str_data [] = []
str_data (b ∷ bytes) = hex2 b ++ 32 ∷ str_data bytes

-- The columns of a row that has fewer than 16 bytes.
abbrev pub blank_data : ℕ → List ℕ
blank_data zero = []
blank_data (suc n) = 32 ∷ 32 ∷ 32 ∷ blank_data n

abbrev pub readable : ℕ → ℕ
readable b = if ltb 31 b && ltb b 127 then b else 42

-- What a row has behind the address.
abbrev pub columns : List ℕ → List ℕ
columns bytes =
    str_data bytes
    ++ (blank_data (16 - length bytes)
        ++ (chars ": " ++ (map readable bytes ++ (replicate (16 - length bytes) 32 ++ 10 ∷ []))))

abbrev pub row : (cur_pos : ℕ) → List ℕ → List ℕ
row a bytes = (str_addr a ++ chars ": ") ++ columns bytes

-- The loop of `d` and the row behind it.
unfoldable pub rows : (fuel : ℕ) → Mem → (cur_pos n : ℕ) → List (List ℕ)
rows zero m a n = []
rows (suc fuel) m a n =
    let later = rows fuel m (a + 16) (n - 16) in
    if leb 16 n
    then row a (bytes_at 16 m a) ∷ later
    else if n == 0
    then []
    else row a (bytes_at n m a) ∷ []

-- The lines that are printed; a negative length prints none, as 0 does.
unfoldable pub d : Mem → (start_addr n : ℕ) → List (List ℕ)
d m a n = rows (suc n) m a n
