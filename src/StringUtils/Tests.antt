-- ===== src/StringUtils/Tests.antt =====
-- libs/app_utils/src/string_utils.c at concrete strings.
use linux_dev_framework.Base.{get_or, ℕ, ◌≡◌, refl, some, List, [], ◌∷◌, arith}
use linux_dev_framework.StringUtils.{
  Buf, isgraph, str_trim, str_trim_len, trim_head, trim_tail, str_replace_substr,
}
use linux_dev_framework.StringUtils.Text.{NoZero, from_first}
use linux_dev_framework.StringUtils.Ends.{trimmed, str_trim-eq}
use linux_dev_framework.StringUtils.Replace.{replace_char, str_replace_substr-char}

-- " a b\r\n"
abbrev sample : List ℕ
sample = 32 ∷ 97 ∷ 32 ∷ 98 ∷ 13 ∷ 10 ∷ []

sample-NoZero : NoZero (32 ∷ 97 ∷ 32 ∷ 98 ∷ 13 ∷ 10 ∷ [])
sample-NoZero =
    (omega arith, (omega arith, (omega arith, (omega arith, (omega arith, (omega arith, tt))))))

str_trim-eq_example : str_trim sample (7 ∷ []) ≡ trimmed sample (from_first isgraph sample)
str_trim-eq_example = str_trim-eq sample (7 ∷ []) sample-NoZero

-- The front is not counted and yet stored.
trimmed_sample : str_trim sample (7 ∷ []) ≡ (3, some (32 ∷ 97 ∷ 32 ∷ 98 ∷ []))
unfolding str_trim str_trim_len trim_head trim_tail
trimmed_sample = refl

str_replace_substr-char_example :
    str_replace_substr (97 ∷ 10 ∷ 98 ∷ []) (10 ∷ []) (13 ∷ 10 ∷ [])
    ≡ some (replace_char 10 (13 ∷ 10 ∷ []) (97 ∷ 10 ∷ 98 ∷ []))
str_replace_substr-char_example = str_replace_substr-char (97 ∷ 10 ∷ 98 ∷ []) (13 ∷ 10 ∷ []) 10

-- The array "abc".
abbrev abc : Buf
abc i = get_or (97 ∷ 98 ∷ 99 ∷ []) i 0
