-- ===== src/StringUtils/All.antt =====
-- `str_trim_all` of libs/app_utils/src/string_utils.c.
use linux_dev_framework.Base.{
  Bool-cases, length, ℕ, ◌≡◌, sym, ap, ◌∙◌, inl, inr, some, List, [], ◌∷◌, ◌++◌, append_assoc,
  append-nil, arith,
}
use linux_dev_framework.Base.{take-length}
use linux_dev_framework.StringUtils.{isgraph, trim_all, str_trim_all_len, str_trim_all}
use linux_dev_framework.StringUtils.Text.{NoZero, filter, c_str-append_zero}

trim_all_lem : (s acc : List ℕ) → trim_all s acc ≡ acc ++ filter isgraph s
unfolding trim_all
trim_all_lem [] acc = sym (append-nil acc)
trim_all_lem (c ∷ s) acc = elim (Bool-cases (isgraph c)) [
  | inl g ↦ rw g (trim_all_lem s (acc ++ c ∷ []) ∙ append_assoc acc (c ∷ []) (filter isgraph s))
  | inr n ↦ rw n (trim_all_lem s acc)
]

filter-NoZero : (s : List ℕ) → NoZero (filter isgraph s)
filter-NoZero [] = tt
filter-NoZero (c ∷ s) = elim (Bool-cases (isgraph c)) [
  | inl g ↦ rw g (ground (arith, g), filter-NoZero s)
  | inr n ↦ rw n (filter-NoZero s)
]

-- `str_trim_all` of a string that is not empty stores its graphic characters, in their order, and
-- returns how many they are.
pub str_trim_all-eq :
    (c : ℕ) (s : List ℕ)
    → str_trim_all (c ∷ s) ≡ (length (filter isgraph (c ∷ s)), some (filter isgraph (c ∷ s)))
unfolding str_trim_all str_trim_all_len
str_trim_all-eq c s =
    rw (take-length s, trim_all_lem (c ∷ s) [])
      (ap (λ (l : List ℕ). (length (filter isgraph (c ∷ s)), some l))
        (c_str-append_zero (filter isgraph (c ∷ s)) [] (filter-NoZero (c ∷ s))))
