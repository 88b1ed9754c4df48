-- ===== src/Symbols/Tests.antt =====
-- libs/app_utils/src/symbol_utils.c on small inputs.
use linux_dev_framework.Base.{
  chars, token, strtok, number_from, strchr, strtol, ℕ, ◌<◌, ◌≡◌, refl, ◌≢◌, inr, none, some, List,
  [], ◌∷◌, arith,
}
use linux_dev_framework.StringUtils.{trim_new_line, cut_back}
use linux_dev_framework.Net.Memory.{Mem}
use linux_dev_framework.Symbols.{
  Symbol, Arg, Reply, name2symbol, name2addr, parse_symbol, parse_function_args, args_from,
  parse_func_call, assign_var, show_var_info, store_bytes, load_bytes, proccess_cmd,
}
use linux_dev_framework.Symbols.Table.{Line, Disjoint}
use linux_dev_framework.Symbols.Calls.{print_call, parse_func_call-print}

-- 10 2 D v
abbrev line_v : Line
line_v = record { addr = 49 ∷ 48 ∷ []; size = 50 ∷ []; kind = 68 ∷ []; name = 118 ∷ [] }

abbrev nz : (n : ℕ) → 0 < n → n ≢ 0
nz n p e = omega (arith, p, e)

-- The lines of undefined symbols enter nothing.
undefined : parse_symbol (32 ∷ 32 ∷ 85 ∷ 32 ∷ 102 ∷ 10 ∷ []) ≡ none
unfolding parse_symbol strtok token trim_new_line cut_back
undefined = refl

abbrev v : Symbol
v = record { name = 118 ∷ []; addr = 16; size = 2 }

abbrev f : Symbol
f = record { name = 102 ∷ []; addr = 32; size = 8 }

abbrev tab : List Symbol
tab = v ∷ f ∷ []

tab-Disjoint : Disjoint tab
tab-Disjoint = (omega arith, (inr (omega arith), tt), (omega arith, tt, tt))

abbrev zeros : Mem
zeros x = 0

low_half : (proccess_cmd (λ n. 0) tab (chars "v=0x12345") zeros).1 ≡ Reply.value 2 0x2345
unfolding proccess_cmd assign_var strchr name2symbol show_var_info load_bytes store_bytes strtol
    number_from
low_half = refl

abbrev no_dlsym : List ℕ → ℕ
no_dlsym n = 0

-- f(12,"a,b")
abbrev two_args : List Arg
two_args = Arg.number 12 ∷ Arg.text (97 ∷ 44 ∷ 98 ∷ []) ∷ []

found_f : name2addr no_dlsym tab (102 ∷ []) ≡ 32
unfolding name2addr name2symbol
found_f = refl

parse_func_call-print_example :
    parse_func_call no_dlsym tab (print_call (102 ∷ []) two_args) ≡ some (32, two_args)
parse_func_call-print_example =
    parse_func_call-print no_dlsym tab (102 ∷ []) two_args 32 (refl, tt) found_f
      (nz 32 (omega arith)) refl ((omega arith, omega arith), ((refl, (refl, (refl, tt))), tt))
      (omega arith)

-- 1,2
one_two : parse_function_args (49 ∷ 44 ∷ 50 ∷ []) ≡ some (Arg.number 1 ∷ Arg.number 2 ∷ [])
unfolding parse_function_args args_from strtol strchr number_from
one_two = refl
