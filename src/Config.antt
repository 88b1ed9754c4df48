-- ===== src/Config.antt =====
-- Configuration files, libs/app_utils/src/config_file_ops.c. A file is the list of its lines, as
-- `fgets` gives them, and a variable is a name with a value.
pub mod Line
pub mod RoundTrip
pub mod Store
mod Tests
use linux_dev_framework.Base.{
  ltb, leb, ◌==◌, if◌then◌else◌, ltb→lt, lt→ltb, leb→le, ==_iff, ==_refl, Bool-cases, Option-cases,
  ◌>>=◌, some_inj, tests, length, get_elem?, get_or, set, take, drop, replicate, all, length-append,
  length-set, get_elem?-set_self, get_elem?-set_ne, get_elem?-lt, take-append-drop, take-length,
  length-take, length-drop, length-replicate, get_elem?-none, get_elem?-append_left,
  get_elem?-append_right, get_elem?-replicate, ℕ, zero, suc, ◌+◌, ◌-◌, ◌*◌, ◌/◌, ◌%◌, ◌^◌, ◌≤◌, ◌<◌,
  min, max, ◌≡◌, refl, sym, ap, ap₂, ◌∙◌, subst, fun_ext, ◌≢◌, ◌↔◌, ◌⊎◌, inl, inr, Bool, true,
  false, not, ◌&&◌, ◌||◌, Option, none, some, List, [], ◌∷◌, ◌++◌, map, append_assoc, append-nil,
  arith,
}
use linux_dev_framework.StringUtils.{isgraph}

abbrev pub max_var_num : ℕ
max_var_num = 50

abbrev pub max_var_name_len : ℕ
max_var_name_len = 128

abbrev pub max_var_value_len : ℕ
max_var_value_len = 1024

abbrev pub line_size : ℕ
line_size = 768

-- `isspace` of the C locale.
abbrev pub isspace : ℕ → Bool
isspace c = (c == 32) || (leb 9 c && leb c 13)

abbrev pub skip_space : List ℕ → List ℕ
skip_space [] = []
skip_space (c ∷ s) = if isspace c then skip_space s else c ∷ s

-- A blank or `=`, which ends a key.
abbrev pub separates : ℕ → Bool
separates c = isspace c || (c == 61)

-- The loop that ends the key: the rest of the key, and what is behind its terminator.
abbrev pub rest_of_key : List ℕ → Option (List ℕ × List ℕ)
rest_of_key [] = none
rest_of_key (c ∷ s) =
    if separates c then some ([], s) else do (key, behind) ← rest_of_key s; some (c ∷ key, behind)

abbrev pub skip_separators : List ℕ → List ℕ
skip_separators [] = []
skip_separators (c ∷ s) = if separates c then skip_separators s else c ∷ s

-- Up to the closing quote.
abbrev pub up_to_quote : List ℕ → Option (List ℕ)
up_to_quote [] = none
up_to_quote (c ∷ s) = if c == 34 then some [] else do value ← up_to_quote s; some (c ∷ value)

abbrev pub quoted : List ℕ → Option (List ℕ)
quoted [] = none
quoted (c ∷ s) = if c == 34 then up_to_quote s else none

abbrev pub key_from : List ℕ → Option (List ℕ × List ℕ)
key_from [] = none
key_from (c ∷ s) = do
  (key, behind) ← rest_of_key s
  value ← quoted (skip_separators behind)
  some (c ∷ key, value)

-- The key and the value, or none for -1.
unfoldable pub get_key : (line : List ℕ) → Option (List ℕ × List ℕ)
get_key line = key_from (skip_space line)

abbrev pub trailing_from : (path : List ℕ) (c len : ℕ) → List ℕ
trailing_from path c zero = []
trailing_from path c (suc n) =
    let rest = trailing_from path c n in if get_or path n 0 == c then rest else take (suc n) path

unfoldable pub remove_trailing_chars : (path : List ℕ) (c : ℕ) → List ℕ
remove_trailing_chars path c = trailing_from path c (length path)

pub record Var : Type 0 where
  pub name : List ℕ
  pub value : List ℕ

-- A key and a value that have been read: the limits, and the new variable.
abbrev pub store_var : List Var → Option (List ℕ × List ℕ) → List Var
store_var vars none = vars
store_var vars (some (name, value)) =
    if leb max_var_num (length vars)
    then vars
    else if ltb max_var_name_len (length name)
    then vars
    else if ltb max_var_value_len (length value)
    then vars
    else vars ++ record { name = name; value = remove_trailing_chars value 47 } ∷ []

abbrev pub not_comment : List Var → (bufline : List ℕ) → List Var
not_comment vars [] = vars
not_comment vars (c ∷ s) = if c == 35 then vars else store_var vars (get_key (c ∷ s))

-- The body of the loop of `parse_config_file`; `vars` are the variables so far.
unfoldable pub parse_line : List Var → (line : List ℕ) → List Var
parse_line vars line =
    if ltb line_size (length line) then vars else not_comment vars (skip_space line)

unfoldable pub parse_config_file : List Var → (lines : List (List ℕ)) → List Var
parse_config_file vars [] = vars
parse_config_file vars (line ∷ lines) = parse_config_file (parse_line vars line) lines

-- `sprintf("%s=\"%s\"\n")`
abbrev pub print_var : Var → List ℕ
print_var v = v.name ++ (61 ∷ 34 ∷ (v.value ++ 34 ∷ 10 ∷ []))

-- The lines that `write_to_config_file` writes, when no write fails, of the variables with the
-- values that it chooses: those of the backup, if there is one.
unfoldable pub write_to_config_file : List Var → List (List ℕ)
write_to_config_file vars = map print_var vars
