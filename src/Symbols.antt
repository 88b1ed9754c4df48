-- ===== src/Symbols.antt =====
-- The table of symbols and the commands of the debug shell, libs/app_utils/src/symbol_utils.c.
pub mod Table
pub mod Vars
pub mod Calls
pub mod Dump
mod Tests
use linux_dev_framework.Base.{
  ltb, leb, ◌==◌, if◌then◌else◌, ltb→lt, lt→ltb, leb→le, ==_iff, ==_refl, Bool-cases, Option-cases,
  ◌>>=◌, some_inj, tests, length, get_elem?, get_or, set, take, drop, replicate, all, length-append,
  length-set, get_elem?-set_self, get_elem?-set_ne, get_elem?-lt, take-append-drop, take-length,
  length-take, length-drop, length-replicate, get_elem?-none, get_elem?-append_left,
  get_elem?-append_right, get_elem?-replicate, chars, token, strtok, Free, token-word, token-last,
  strtok-last, strtok-word, digits, decimal, digit?, digit_of, number_from, strchr, strrchr,
  magnitude, strtol, strtoul16, signed, blank?, atoi, number_from-digits, digits-first, ℕ, zero,
  suc, ◌+◌, ◌-◌, ◌*◌, ◌/◌, ◌%◌, ◌^◌, ◌≤◌, ◌<◌, min, max, ◌≡◌, refl, sym, ap, ap₂, ◌∙◌, subst,
  fun_ext, ◌≢◌, ◌↔◌, ◌⊎◌, inl, inr, Bool, true, false, not, ◌&&◌, ◌||◌, Option, none, some, List,
  [], ◌∷◌, ◌++◌, map, append_assoc, append-nil, arith,
}
use linux_dev_framework.StringUtils.{streq, trim_new_line}
use linux_dev_framework.Net.Memory.{Mem}

pub record Symbol : Type 0 where
  pub name : List ℕ
  pub addr : ℕ
  pub size : ℕ

-- `gpt_symbol_tab` is the list of its first `nr_symbol` entries; a sum of unsigned longs wraps.
unfoldable pub addr2symbol : List Symbol → (addr : ℕ) → Option Symbol
addr2symbol [] addr = none
addr2symbol (s ∷ tab) addr =
    if leb s.addr addr && ltb addr ((s.addr + s.size) % 2 ^ 64)
    then some s
    else addr2symbol tab addr

unfoldable pub name2symbol : List Symbol → (name : List ℕ) → Option Symbol
name2symbol [] name = none
name2symbol (s ∷ tab) name = if streq name s.name then some s else name2symbol tab name

-- Symbols of the dynamic linker, by name; 0 for none.
module _ (dlsym : List ℕ → ℕ) where
  abbrev pub addr_or : Option Symbol → (name : List ℕ) → ℕ
  addr_or (some s) name = s.addr
  addr_or none name = dlsym name

  unfoldable pub name2addr : List Symbol → (name : List ℕ) → ℕ
  name2addr tab name = addr_or (name2symbol tab name) name

-- A word that begins with a digit, and the text behind it.
abbrev pub numeral : Option (List ℕ × List ℕ) → Option (List ℕ × List ℕ)
numeral none = none
numeral (some (word, rest)) = if digit? (get_or word 0 0) then some (word, rest) else none

-- A line of `nm -S`, when it completes an entry of the table.
unfoldable pub parse_symbol : (line : List ℕ) → Option Symbol
parse_symbol line = numeral (strtok 32 (trim_new_line line)) >>= λ a.
    numeral (strtok 32 a.1) >>= λ s. strtok 32 s.1 >>= λ t.
    strtok 32 t.1 >>= λ n. some (record { name = n.0; addr = strtoul16 a.0; size = strtoul16 s.0 })

abbrev pub enter : Option Symbol → List Symbol → List Symbol
enter none tab = tab
enter (some s) tab = s ∷ tab

-- The loop of `get_symbols` over what `fgets` gives.
unfoldable pub get_symbols : (lines : List (List ℕ)) → List Symbol
get_symbols [] = []
get_symbols (line ∷ lines) = enter (parse_symbol line) (get_symbols lines)

abbrev pub max_arg_num : ℕ
max_arg_num = 8

-- The 64 bits of a number, or the string that a pointer leads to.
pub data Arg : Type 0 where
  number : ℕ → Arg
  text : List ℕ → Arg

-- An argument, and what is made of the text behind the next comma.
abbrev pub next_arg :
    (List ℕ → Option (List Arg)) → Arg → Option (List ℕ × List ℕ) → Option (List Arg)
next_arg later arg none = some (arg ∷ [])
next_arg later arg (some (before, behind)) = later behind >>= λ args. some (arg ∷ args)

abbrev pub quoted_arg : (List ℕ → Option (List Arg)) → Option (List ℕ × List ℕ) → Option (List Arg)
quoted_arg later none = none
quoted_arg later (some (str, behind)) = next_arg later (text str) (strchr 44 behind)

abbrev pub arg_at : (List ℕ → Option (List Arg)) → (cur_arg : List ℕ) → Option (List Arg)
arg_at later [] = none
arg_at later (c ∷ s) =
    if digit? c || (c == 45)
    then next_arg later (number (strtol (c ∷ s))) (strchr 44 (c ∷ s))
    else if c == 34
    then quoted_arg later (strchr 34 s)
    else none

-- The loop of `parse_function_args` when `args` has room for so many more. Nothing stands for -1.
unfoldable pub args_from : (room : ℕ) → (cur_arg : List ℕ) → Option (List Arg)
args_from zero s = some []
args_from (suc room) s = arg_at (args_from room) s

-- `parse_function_args` on the text between its two pointers.
unfoldable pub parse_function_args : (para_str : List ℕ) → Option (List Arg)
parse_function_args [] = some []
parse_function_args (c ∷ s) = args_from max_arg_num (c ∷ s)

module _ (dlsym : List ℕ → ℕ) (tab : List Symbol) where
  abbrev pub call_at : (fun_addr : ℕ) → (func_name para_str : List ℕ) → Option (ℕ × List Arg)
  call_at fun_addr func_name para_str =
      if (fun_addr == 0) || streq func_name (chars "exit") || streq func_name (chars "abort")
      then none
      else strrchr 41 para_str >>= λ inner.
          parse_function_args inner >>= λ args. some (fun_addr, args)

  abbrev pub call_of : Option (List ℕ × List ℕ) → Option (ℕ × List Arg)
  call_of none = none
  call_of (some (func_name, para_str)) = call_at (name2addr dlsym tab func_name) func_name para_str

  -- The address and the arguments of a call; nothing stands for -1. `proccess_cmd` has seen a `(`.
  unfoldable pub parse_func_call : (buf : List ℕ) → Option (ℕ × List Arg)
  parse_func_call buf = call_of (strchr 40 buf)

-- `n` bytes at an address, little-endian.
unfoldable pub store_bytes : (n addr value : ℕ) → Mem → Mem
store_bytes zero a v m = m
store_bytes (suc n) a v m = store_bytes n (a + 1) (v / 256) (λ x. if x == a then v % 256 else m x)

unfoldable pub load_bytes : (n addr : ℕ) → Mem → ℕ
load_bytes zero a m = 0
load_bytes (suc n) a m = m a + 256 * load_bytes n (a + 1) m

-- What a command prints, or the call that it makes.
pub data Reply : Type 0 where
  unknown_var : Reply
  invalid_assign : Reply
  size_abnormal : Reply
  value : (size v : ℕ) → Reply
  calls : (fun_addr : ℕ) → List Arg → Reply
  no_call : Reply

abbrev pub word_size : ℕ → Bool
word_size n = (n == 1) || (n == 2) || (n == 4) || (n == 8)

abbrev pub show_symbol : Option Symbol → Mem → Reply
show_symbol none m = unknown_var
show_symbol (some s) m =
    if word_size s.size then value s.size (load_bytes s.size s.addr m) else size_abnormal

unfoldable pub show_var_info : List Symbol → (var_name : List ℕ) → Mem → Reply
show_var_info tab var_name m = show_symbol (name2symbol tab var_name) m

abbrev pub begins_number : (c : ℕ) → Bool
begins_number c = digit? c || (c == 43) || (c == 45)

abbrev pub assign_symbol :
    List Symbol → (var_name para_str : List ℕ) → Option Symbol → Mem → Mem × Reply
assign_symbol tab var_name para_str none m = (m, unknown_var)
assign_symbol tab var_name para_str (some s) m =
    if begins_number (get_or para_str 0 0)
    then if word_size s.size
      then (
        store_bytes s.size s.addr (strtol para_str) m,
        show_var_info tab var_name (store_bytes s.size s.addr (strtol para_str) m),
      )
      else (m, size_abnormal)
    else (m, invalid_assign)

-- `assign_var` on the two sides of the first `=`.
unfoldable pub assign_var : List Symbol → (var_name para_str : List ℕ) → Mem → Mem × Reply
assign_var tab var_name para_str m =
    assign_symbol tab var_name para_str (name2symbol tab var_name) m

abbrev pub call_reply : Option (ℕ × List Arg) → Reply
call_reply none = no_call
call_reply (some (fun_addr, args)) = calls fun_addr args

abbrev pub var_cmd :
    List Symbol → (cmd_line : List ℕ) → Option (List ℕ × List ℕ) → Mem → Mem × Reply
var_cmd tab cmd_line none m = (m, show_var_info tab cmd_line m)
var_cmd tab cmd_line (some (var_name, para_str)) m = assign_var tab var_name para_str m

abbrev pub cmd_with :
    (List ℕ → ℕ) → List Symbol → (cmd_line : List ℕ) → Option (List ℕ × List ℕ) → Mem → Mem × Reply
cmd_with dlsym tab cmd_line none m = var_cmd tab cmd_line (strchr 61 cmd_line) m
cmd_with dlsym tab cmd_line (some p) m = (m, call_reply (parse_func_call dlsym tab cmd_line))

-- `proccess_cmd`; a call is a reply, and is made by what `func_type` leads to.
unfoldable pub proccess_cmd : (List ℕ → ℕ) → List Symbol → (cmd_line : List ℕ) → Mem → Mem × Reply
proccess_cmd dlsym tab cmd_line m = cmd_with dlsym tab cmd_line (strchr 40 cmd_line) m
