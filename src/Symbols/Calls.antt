-- ===== src/Symbols/Calls.antt =====
-- Calls typed into the debug shell of libs/app_utils/src/symbol_utils.c.
use linux_dev_framework.Base.{
  ◌==◌, Bool-cases, Option-cases, ◌>>=◌, some_inj, length, chars, Free, digits, decimal, digit?,
  number_from, strchr, strtol, digits-first, strtol-decimal, strchr-first, strchr-none, strrchr-end,
  digits-append, digits-Free, ℕ, zero, suc, ◌^◌, ◌≤◌, ◌<◌, ◌≡◌, refl, sym, ap, ◌∙◌, ◌≢◌, inl, inr,
  true, false, ◌||◌, Option, none, some, List, [], ◌∷◌, ◌++◌, append_assoc, arith,
}
use linux_dev_framework.StringUtils.{streq}
use linux_dev_framework.Symbols.{
  Symbol, Arg, name2addr, next_arg, quoted_arg, arg_at, args_from, parse_function_args, call_at,
  call_of, parse_func_call,
}

abbrev pub print_arg : Arg → List ℕ
print_arg (Arg.number n) = decimal n
print_arg (Arg.text s) = 34 ∷ (s ++ 34 ∷ [])

-- The arguments with commas between them.
abbrev pub print_args : List Arg → List ℕ
print_args [] = []
print_args (a ∷ []) = print_arg a
print_args (a ∷ b ∷ args) = print_arg a ++ 44 ∷ print_args (b ∷ args)

-- A positive number that fits into a long, or a text with no quote.
abbrev pub Plain : Arg → Type 0
Plain (Arg.number n) = (0 < n) × (n < 2 ^ 63)
Plain (Arg.text s) = Free 34 s

abbrev pub AllPlain : List Arg → Type 0
AllPlain [] = Unit
AllPlain (a ∷ args) = Plain a × AllPlain args

-- An argument in front of its end or of a comma.
abbrev Closed : List ℕ → Type 0
Closed t = (n : ℕ) → number_from 10 n t ≡ n

digit_at :
    (later : List ℕ → Option (List Arg)) (c : ℕ) (s : List ℕ)
    → 49 ≤ c
    → c ≤ 57
    → arg_at later (c ∷ s) ≡ next_arg later (Arg.number (strtol (c ∷ s))) (strchr 44 (c ∷ s))
digit_at later c s lo hi = let d : digit? c ≡ true = ground (arith, lo, hi) in rw d refl

number_at :
    (later : List ℕ → Option (List Arg)) (n : ℕ) (t : List ℕ)
    → 0 < n
    → n < 2 ^ 63
    → Closed t
    → arg_at later (digits (suc n) n t)
      ≡ next_arg later (Arg.number n) (strchr 44 (digits (suc n) n t))
number_at later n t p small closed =
    let (c, s, e, lo, hi) = digits-first (suc n) n t (omega arith) p in
    ap (arg_at later) e
    ∙ digit_at later c s lo hi
    ∙ ap (λ x. next_arg later (Arg.number (strtol x)) (strchr 44 x)) (sym e)
    ∙ ap (λ x. next_arg later (Arg.number x) (strchr 44 (digits (suc n) n t)))
        (strtol-decimal n t p small (closed n))

arg_last :
    (later : List ℕ → Option (List Arg)) (a : Arg)
    → Plain a
    → arg_at later (print_arg a) ≡ some (a ∷ [])
unfolding decimal number_from
arg_last later (Arg.number n) (p, small) =
    number_at later n [] p small (λ k. refl)
    ∙ ap (next_arg later (Arg.number n))
        (strchr-none 44 (digits (suc n) n []) (digits-Free 44 (suc n) n [] refl tt))
arg_last later (Arg.text s) f =
    rw (strchr-first 34 s [] refl f) (ap (next_arg later (Arg.text s)) (strchr-none 44 [] tt))

arg_then :
    (later : List ℕ → Option (List Arg)) (a : Arg) (rest : List ℕ)
    → Plain a
    → arg_at later (print_arg a ++ 44 ∷ rest) ≡ later rest >>= λ args. some (a ∷ args)
unfolding decimal number_from
arg_then later (Arg.number n) rest (p, small) =
    let e = digits-append (suc n) n [] (44 ∷ rest) in
    ap (arg_at later) e
    ∙ number_at later n (44 ∷ rest) p small (λ k. refl)
    ∙ ap (λ x. next_arg later (Arg.number n) (strchr 44 x)) (sym e)
    ∙ ap (next_arg later (Arg.number n))
        (strchr-first 44 (digits (suc n) n []) rest refl (digits-Free 44 (suc n) n [] refl tt))
arg_then later (Arg.text s) rest f =
    ap (quoted_arg later)
      (ap (strchr 34) (append_assoc s (34 ∷ []) (44 ∷ rest)) ∙ strchr-first 34 s (44 ∷ rest) refl f)
    ∙ ap (next_arg later (Arg.text s)) (strchr-first 44 [] rest refl tt)

args_from-print :
    (room : ℕ) (a : Arg) (args : List Arg)
    → AllPlain (a ∷ args)
    → length (a ∷ args) ≤ room
    → args_from room (print_args (a ∷ args)) ≡ some (a ∷ args)
unfolding args_from
args_from-print zero a args h fits = absurd (omega arith)
args_from-print (suc room) a [] (p, h) fits = arg_last (args_from room) a p
args_from-print (suc room) a (b ∷ args) (p, h) fits =
    arg_then (args_from room) a (print_args (b ∷ args)) p
    ∙ rw (args_from-print room b args h (omega arith)) refl

print_args-first :
    (a : Arg) (args : List Arg)
    → AllPlain (a ∷ args)
    → (c : ℕ) × (s : List ℕ) × (print_args (a ∷ args) ≡ c ∷ s)
unfolding decimal
print_args-first (Arg.number n) [] ((p, small), h) =
    let (c, s, e, lo, hi) = digits-first (suc n) n [] (omega arith) p in (c, s, e)
print_args-first (Arg.number n) (b ∷ args) ((p, small), h) =
    let (c, s, e, lo, hi) = digits-first (suc n) n [] (omega arith) p in
    (c, s ++ 44 ∷ print_args (b ∷ args), ap (λ x. x ++ 44 ∷ print_args (b ∷ args)) e)
print_args-first (Arg.text t) [] (p, h) = (34, t ++ 34 ∷ [], refl)
print_args-first (Arg.text t) (b ∷ args) (p, h) =
    (34, (t ++ 34 ∷ []) ++ 44 ∷ print_args (b ∷ args), refl)

parse_function_args-print :
    (args : List Arg)
    → AllPlain args
    → length args ≤ 8
    → parse_function_args (print_args args) ≡ some args
unfolding parse_function_args
parse_function_args-print [] h fits = refl
parse_function_args-print (a ∷ args) h fits =
    let (c, s, e) = print_args-first a args h in
    ap parse_function_args e ∙ ap (args_from 8) (sym e) ∙ args_from-print 8 a args h fits

abbrev pub print_call : (func_name : List ℕ) → List Arg → List ℕ
print_call func_name args = func_name ++ 40 ∷ (print_args args ++ 41 ∷ [])

-- A call of a known function other than `exit` and `abort`, with up to eight arguments that are
-- positive numbers or texts with no quote, printed with commas between them, is read as its address
-- and its arguments.
pub parse_func_call-print :
    (dlsym : List ℕ → ℕ) (tab : List Symbol) (name : List ℕ) (args : List Arg) (fun_addr : ℕ)
    → Free 40 name
    → name2addr dlsym tab name ≡ fun_addr
    → fun_addr ≢ 0
    → (streq name (chars "exit") || streq name (chars "abort")) ≡ false
    → AllPlain args
    → length args ≤ 8
    → parse_func_call dlsym tab (print_call name args) ≡ some (fun_addr, args)
unfolding parse_func_call
parse_func_call-print dlsym tab name args fun_addr free found there ends plain fits =
    let known : (fun_addr == 0) ≡ false = ground (arith, there) in
    ap (call_of dlsym tab) (strchr-first 40 name (print_args args ++ 41 ∷ []) refl free)
    ∙ ap (λ x. call_at dlsym tab x name (print_args args ++ 41 ∷ [])) found
    ∙ rw
        (
          known,
          ends,
          strrchr-end 41 (print_args args) refl,
          parse_function_args-print args plain fits,
        )
        refl

next_arg_bound :
    (room : ℕ) (a : Arg) (later : List ℕ → Option (List Arg)) (o : Option (List ℕ × List ℕ))
    (args : List Arg)
    → ((s : List ℕ) (l : List Arg) → later s ≡ some l → length l ≤ room)
    → next_arg later a o ≡ some args
    → length args ≤ suc room
next_arg_bound room a later none args h e = omega (arith, ap length (some_inj e))
next_arg_bound room a later (some (x, s)) args h e = elim (Option-cases (later s)) [
  | inl n ↦ let f : none ≡ some args = rw n at e in cc
  | inr (l, y) ↦
      let f : some (a ∷ l) ≡ some args = rw y at e in omega (arith, ap length (some_inj f), h s l y)
]

quoted_arg_bound :
    (room : ℕ) (later : List ℕ → Option (List Arg)) (o : Option (List ℕ × List ℕ)) (args : List Arg)
    → ((s : List ℕ) (l : List Arg) → later s ≡ some l → length l ≤ room)
    → quoted_arg later o ≡ some args
    → length args ≤ suc room
quoted_arg_bound room later none args h e = cc
quoted_arg_bound room later (some (x, s)) args h e =
    next_arg_bound room (Arg.text x) later (strchr 44 s) args h e

args_from_bound :
    (room : ℕ) (s : List ℕ) (args : List Arg) → args_from room s ≡ some args → length args ≤ room
unfolding args_from
args_from_bound zero s args e = omega (arith, ap length (some_inj e))
args_from_bound (suc room) [] args e = cc
args_from_bound (suc room) (c ∷ s) args e = elim (Bool-cases (digit? c || (c == 45))) [
  | inl y ↦ next_arg_bound room _ (args_from room) _ args (args_from_bound room) (rw y at e)
  | inr m ↦ elim (Bool-cases (c == 34)) [
    | inl y ↦ quoted_arg_bound room (args_from room) _ args (args_from_bound room) (rw (m, y) at e)
    | inr k ↦ let f : none ≡ some args = rw (m, k) at e in cc
  ]
]

-- Whatever is typed, `parse_function_args` fills at most the 8 entries of `args`.
pub parse_function_args_bound :
    (s : List ℕ) (args : List Arg) → parse_function_args s ≡ some args → length args ≤ 8
unfolding parse_function_args
parse_function_args_bound [] args e = omega (arith, ap length (some_inj e))
parse_function_args_bound (c ∷ s) args e = args_from_bound 8 (c ∷ s) args e
