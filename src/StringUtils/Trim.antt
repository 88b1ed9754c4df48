-- ===== src/StringUtils/Trim.antt =====
-- `str_trim`, `str_trim_all` and `trim_new_line` of libs/app_utils/src/string_utils.c.
use linux_dev_framework.Base.{
  if◌then◌else◌, Bool-cases, length, length-append, ℕ, zero, suc, ◌≡◌, refl, sym, ap, ◌∙◌, subst,
  inl, inr, Bool, not, List, [], ◌∷◌, ◌++◌, append_assoc, arith,
}
use linux_dev_framework.StringUtils.{c_str, is_new_line, cut_back, trim_new_line}
use linux_dev_framework.StringUtils.Text.{
  NoZero, to_last, c_str-append_zero, get_or-append, set-append, to_last-snoc_yes, to_last-snoc_no,
  last_split, NoZero-append_left,
}

abbrev not_new_line : ℕ → Bool
not_new_line c = not (is_new_line c)

-- What the loop does at the last of the characters.
cut_back-snoc :
    (r rest : List ℕ) (d : ℕ)
    → cut_back (r ++ d ∷ rest) (suc (length r))
      ≡ (if is_new_line d then cut_back (r ++ 0 ∷ rest) (length r) else r ++ d ∷ rest)
unfolding cut_back
cut_back-snoc r rest d = rw (get_or-append r rest d, set-append r rest d 0) refl

cut_back_last :
    (n : ℕ) (r rest : List ℕ) (d : ℕ)
    → length r ≡ n
    → NoZero (r ++ d ∷ [])
    → c_str (cut_back (r ++ 0 ∷ 0 ∷ rest) n) ≡ to_last not_new_line r
    → c_str (cut_back (r ++ d ∷ 0 ∷ rest) (suc n)) ≡ to_last not_new_line (r ++ d ∷ [])
cut_back_last n r rest d len h ih =
    subst (λ k. c_str (cut_back (r ++ d ∷ 0 ∷ rest) (suc k)) ≡ to_last not_new_line (r ++ d ∷ []))
      len
      (ap c_str (cut_back-snoc r (0 ∷ rest) d) ∙ elim (Bool-cases (is_new_line d)) [
        | inl nl ↦ rw (nl, len, to_last-snoc_no not_new_line r d (ap not nl)) ih
        | inr other ↦
            rw (other, to_last-snoc_yes not_new_line r d (ap not other))
              (ap c_str (sym (append_assoc r (d ∷ []) (0 ∷ rest)))
                ∙ c_str-append_zero (r ++ d ∷ []) rest h)
      ])

cut_back_lem :
    (n : ℕ) (s rest : List ℕ)
    → length s ≡ n
    → NoZero s
    → c_str (cut_back (s ++ 0 ∷ rest) n) ≡ to_last (λ c. not (is_new_line c)) s
unfolding cut_back
cut_back_lem zero [] rest e h = refl
cut_back_lem zero (c ∷ s) rest e h = absurd (omega (arith, e))
cut_back_lem (suc n) [] rest e h = absurd (omega (arith, e))
cut_back_lem (suc n) (c ∷ s) rest e h =
    let (r, d, f) = last_split c s in
    let len : length r ≡ n = omega (arith, e, ap length f, length-append r (d ∷ [])) in
    let h' : NoZero (r ++ d ∷ []) = subst NoZero f h in
    subst (λ l. c_str (cut_back (l ++ 0 ∷ rest) (suc n)) ≡ to_last not_new_line l) (sym f)
      (rw (append_assoc r (d ∷ []) (0 ∷ rest)) (
        cut_back_last n r rest d len h'
          (cut_back_lem n r (0 ∷ rest) len (NoZero-append_left r (d ∷ []) h'))))

-- `trim_new_line` cuts off the carriage returns and line feeds at the end, and nothing else.
pub trim_new_line-eq :
    (str : List ℕ) → NoZero str → trim_new_line str ≡ to_last (λ c. not (is_new_line c)) str
unfolding trim_new_line
trim_new_line-eq str h = cut_back_lem (length str) str [] refl h
