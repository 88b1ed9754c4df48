-- ===== src/StringUtils/Replace.antt =====
-- `str_replace_substr` of libs/app_utils/src/string_utils.c.
use linux_dev_framework.Base.{
  ◌==◌, if◌then◌else◌, Bool-cases, length, take, drop, ℕ, zero, suc, ◌<◌, ◌≡◌, refl, sym, ap, ◌∙◌,
  ◌⊎◌, inl, inr, none, some, List, [], ◌∷◌, ◌++◌, append_assoc, append-nil, arith,
}
use linux_dev_framework.StringUtils.{strstr, after_match, replace_from, str_replace_substr}

-- The string with `to` for every `f`.
abbrev pub replace_char : (f : ℕ) (to s : List ℕ) → List ℕ
replace_char f to [] = []
replace_char f to (c ∷ s) = if f == c then to ++ replace_char f to s else c ∷ replace_char f to s

-- The first `f`, when there is one: what is in front of it stays, and what is behind is shorter.
first_char :
    (f : ℕ) (to s : List ℕ)
    → ((strstr s (f ∷ []) ≡ none) × (replace_char f to s ≡ s))
      ⊎ ((k : ℕ) × (strstr s (f ∷ []) ≡ some k)
          × (replace_char f to s ≡ take k s ++ (to ++ replace_char f to (drop (suc k) s)))
          × (length (drop (suc k) s) < length s))
first_char f to [] = inl (refl, refl)
first_char f to (c ∷ s) = elim (Bool-cases (f == c)) [
  | inl y ↦ inr (0, rw y refl, rw y refl, omega arith)
  | inr n ↦ elim (first_char f to s) [
    | inl (e, r) ↦ inl (rw (n, e) refl, rw (n, r) refl)
    | inr (k, e, r, l) ↦ inr (suc k, rw (n, e) refl, rw (n, r) refl, omega (arith, l))
  ]
]

-- One round of the loop.
replace_from-none :
    (fuel : ℕ) (output s from to : List ℕ)
    → strstr s from ≡ none
    → replace_from (suc fuel) output s from to ≡ some (output ++ s)
unfolding replace_from
replace_from-none fuel output s from to e = ground (arith, e)

replace_from-last :
    (fuel : ℕ) (output s from to : List ℕ) (k : ℕ)
    → strstr s from ≡ some k
    → after_match from s k ≡ []
    → replace_from (suc fuel) output s from to ≡ some (output ++ (take k s ++ to))
unfolding replace_from
replace_from-last fuel output s from to k e b = ground (arith, e, b)

replace_from-next :
    (fuel : ℕ) (output s from to : List ℕ) (k c : ℕ) (rest : List ℕ)
    → strstr s from ≡ some k
    → after_match from s k ≡ c ∷ rest
    → replace_from (suc fuel) output s from to
      ≡ replace_from fuel (output ++ (take k s ++ to)) (c ∷ rest) from to
unfolding replace_from
replace_from-next fuel output s from to k c rest e b = ground (arith, e, b)

abbrev Replaces : (f : ℕ) (to : List ℕ) (fuel : ℕ) → Type 0
Replaces f to fuel =
    (output s : List ℕ)
    → length s < fuel
    → replace_from fuel output s (f ∷ []) to ≡ some (output ++ replace_char f to s)

-- A round that finds a character, given the later rounds.
found :
    (f : ℕ) (to : List ℕ) (fuel : ℕ) (output s : List ℕ) (k : ℕ)
    → Replaces f to fuel
    → strstr s (f ∷ []) ≡ some k
    → length (drop (suc k) s) < fuel
    → (rest : List ℕ) → drop (suc k) s ≡ rest
    → replace_from (suc fuel) output s (f ∷ []) to
      ≡ some (output ++ (take k s ++ (to ++ replace_char f to (drop (suc k) s))))
found f to fuel output s k later e l [] b =
    replace_from-last fuel output s (f ∷ []) to k e
      (ap (λ j. drop j s) {y = suc k} (omega arith) ∙ b)
    ∙ ap (λ x. some (output ++ (take k s ++ x)))
        (sym (append-nil to) ∙ ap (λ d. to ++ replace_char f to d) (sym b))
found f to fuel output s k later e l (c ∷ rest) b =
    replace_from-next fuel output s (f ∷ []) to k c rest e
      (ap (λ j. drop j s) {y = suc k} (omega arith) ∙ b)
    ∙ later (output ++ (take k s ++ to)) (c ∷ rest) (omega (arith, l, ap length b))
    ∙ ap some (
        append_assoc output (take k s ++ to) (replace_char f to (c ∷ rest))
        ∙ ap (λ x. output ++ x)
            (append_assoc (take k s) to (replace_char f to (c ∷ rest))
              ∙ ap (λ d. take k s ++ (to ++ replace_char f to d)) (sym b)))

replace_from_lem : (f : ℕ) (to : List ℕ) (fuel : ℕ) → Replaces f to fuel
replace_from_lem f to zero output s enough = absurd (omega (arith, enough))
replace_from_lem f to (suc fuel) output s enough = elim (first_char f to s) [
  | inl (e, r) ↦
      replace_from-none fuel output s (f ∷ []) to e ∙ ap (λ l. some (output ++ l)) (sym r)
  | inr (k, e, r, l) ↦
      found f to fuel output s k (replace_from_lem f to fuel) e (omega (arith, enough, l))
        (drop (suc k) s) refl
      ∙ ap (λ x. some (output ++ x)) (sym r)
]

-- With a single character to look for, as in the telnet server's use, `str_replace_substr` ends,
-- and stores the string with `to` for every occurrence of the character.
pub str_replace_substr-char :
    (input to : List ℕ) (f : ℕ)
    → str_replace_substr input (f ∷ []) to ≡ some (replace_char f to input)
unfolding str_replace_substr
str_replace_substr-char input to f =
    replace_from_lem f to (suc (length input)) [] input (omega arith)
