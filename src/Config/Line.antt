-- ===== src/Config/Line.antt =====
-- One line of a configuration file, written and read, in libs/app_utils/src/config_file_ops.c.
use linux_dev_framework.Base.{
  take-length, ltb, leb, ◌==◌, length, get_or, length-append, take-length, ℕ, ◌+◌, ◌-◌, ◌≤◌, ◌<◌,
  ◌≡◌, refl, sym, ap, ◌∙◌, subst, Bool, true, false, not, ◌&&◌, ◌||◌, some, List, [], ◌∷◌, ◌++◌,
  arith,
}
use linux_dev_framework.Config.{
  isspace, skip_space, separates, rest_of_key, up_to_quote, key_from, get_key,
  remove_trailing_chars, Var, print_var, max_var_name_len, line_size, store_var, not_comment,
  parse_line,
}

abbrev pub All : (ℕ → Bool) → List ℕ → Type 0
All p [] = Unit
All p (c ∷ s) = (p c ≡ true) × All p s

-- A character of a key that neither ends it nor starts a comment.
abbrev pub in_key : ℕ → Bool
in_key c = not (separates c) && not (c == 35)

abbrev pub in_value : ℕ → Bool
in_value c = not (c == 34)

-- A value that a slash does not end.
abbrev pub ends_well : List ℕ → Bool
ends_well s = (length s == 0) || not (get_or s (length s - 1) 0 == 47)

-- A variable that a line can carry.
pub record Plain (v : Var) : Type 0 where
  pub some_name : 0 < length v.name
  pub name_fits : length v.name ≤ max_var_name_len
  pub line_fits : length v.name + length v.value + 4 ≤ line_size
  pub name_chars : All in_key v.name
  pub value_chars : All in_value v.value
  pub no_slash : ends_well v.value ≡ true

rest_of_key-name :
    (k behind : List ℕ) → All in_key k → rest_of_key (k ++ 61 ∷ behind) ≡ some (k, behind)
rest_of_key-name [] behind a = refl
rest_of_key-name (c ∷ k) behind (h, a) =
    let n : separates c ≡ false = ground (arith, h) in rw (n, rest_of_key-name k behind a) refl

up_to_quote-value : (v behind : List ℕ) → All in_value v → up_to_quote (v ++ 34 ∷ behind) ≡ some v
up_to_quote-value [] behind a = refl
up_to_quote-value (c ∷ v) behind (h, a) =
    let n : (c == 34) ≡ false = ground (arith, h) in rw (n, up_to_quote-value v behind a) refl

key_from-print :
    (c : ℕ) (k v : List ℕ)
    → All in_key k
    → All in_value v
    → key_from (c ∷ (k ++ (61 ∷ 34 ∷ (v ++ 34 ∷ 10 ∷ [])))) ≡ some (c ∷ k, v)
key_from-print c k v a b =
    rw (rest_of_key-name k (34 ∷ (v ++ 34 ∷ 10 ∷ [])) a, up_to_quote-value v (10 ∷ []) b) refl

first_of_key : (c : ℕ) (s : List ℕ) → in_key c ≡ true → skip_space (c ∷ s) ≡ c ∷ s
first_of_key c s h = let n : isspace c ≡ false = ground (arith, h) in rw n refl

remove_trailing_chars-kept : (s : List ℕ) → ends_well s ≡ true → remove_trailing_chars s 47 ≡ s
unfolding remove_trailing_chars
remove_trailing_chars-kept [] h = refl
remove_trailing_chars-kept (c ∷ s) h =
    let e : length s ≡ length (c ∷ s) - 1 = omega arith in
    let last : (get_or (c ∷ s) (length s) 0 == 47) ≡ false =
      subst (λ i. (get_or (c ∷ s) i 0 == 47) ≡ false) (sym e)
        (let z : (length (c ∷ s) == 0) ≡ false = ground arith in
          let h' : not (get_or (c ∷ s) (length (c ∷ s) - 1) 0 == 47) ≡ true = rw z at h in
          ground (arith, h')) in
    rw last (ap (λ l. c ∷ l) (take-length s))

length-print : (v : Var) → length (print_var v) ≡ length v.name + length v.value + 4
length-print v = omega (
  arith,
  length-append v.name ((61 ∷ 34 ∷ (v.value ++ 34 ∷ 10 ∷ []))),
  length-append v.value (34 ∷ 10 ∷ []),
)

store_var-Plain :
    (vars : List Var) (v : Var)
    → Plain v
    → length vars < 50
    → store_var vars (some (v.name, v.value)) ≡ vars ++ v ∷ []
store_var-Plain vars v p room =
    let a : leb 50 (length vars) ≡ false = ground (arith, room) in
    let b : ltb 128 (length v.name) ≡ false = ground (arith, p.name_fits) in
    let d : ltb 1024 (length v.value) ≡ false = ground (arith, p.line_fits) in
    rw (a, b, d, remove_trailing_chars-kept v.value p.no_slash) refl

not_comment-print :
    (vars : List Var) (v : Var) (name : List ℕ)
    → name ≡ v.name
    → Plain v
    → length vars < 50
    → not_comment vars (skip_space (name ++ (61 ∷ 34 ∷ (v.value ++ 34 ∷ 10 ∷ [])))) ≡ vars ++ v ∷ []
unfolding get_key
not_comment-print vars v [] e p room = absurd (omega (arith, p.some_name, ap length e))
not_comment-print vars v (c ∷ k) e p room =
    let (h, a) = subst (All in_key) (sym e) p.name_chars in
    let line : List ℕ = k ++ (61 ∷ 34 ∷ (v.value ++ 34 ∷ 10 ∷ [])) in
    let n : (c == 35) ≡ false = ground (arith, h) in
    ap (not_comment vars) (first_of_key c line h)
    ∙ rw n (
        ap (λ l. store_var vars (key_from l)) (first_of_key c line h)
        ∙ ap (store_var vars) (key_from-print c k v.value a p.value_chars)
        ∙ ap (λ l. store_var vars (some (l, v.value))) e
        ∙ store_var-Plain vars v p room)

-- A line that `write_to_config_file` writes for a plain variable is read as that variable, if there
-- is room.
pub parse_line-print :
    (vars : List Var) (v : Var)
    → Plain v
    → length vars < 50
    → parse_line vars (print_var v) ≡ vars ++ v ∷ []
unfolding parse_line
parse_line-print vars v p room =
    let short : ltb 768 (length (print_var v)) ≡ false =
      ground (arith, length-print v, p.line_fits) in
    rw short (not_comment-print vars v v.name refl p room)
