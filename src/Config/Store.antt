-- ===== src/Config/Store.antt =====
-- Getting and setting variables in libs/app_utils/src/config_file_ops.c.
use linux_dev_framework.Base.{
  leb, if◌then◌else◌, ◌>>=◌, get_or, set, ℕ, zero, suc, ◌+◌, ◌≡◌, Bool, true, false, ◌&&◌, Option,
  none, some, List, [], ◌∷◌, map,
}
use linux_dev_framework.StringUtils.{streq}
use linux_dev_framework.Config.{Var}

-- `ga_variables` with `ga_values`, and `ga_values_backup`, which may be NULL.
pub record Store : Type 0 where
  pub vars : List Var
  pub ga_values_backup : Option (List (List ℕ))

-- `tolower` of the C locale.
abbrev lower : ℕ → ℕ
lower c = if leb 65 c && leb c 90 then c + 32 else c

-- `strcasecmp(a, b) == 0`
abbrev pub same_name : List ℕ → List ℕ → Bool
same_name a b = streq (map lower a) (map lower b)

-- The loops over the variables: the value of the first with the name, and its index.
abbrev pub value_of : (var_name : List ℕ) → List Var → Option (List ℕ)
value_of var_name [] = none
value_of var_name (v ∷ vars) =
    if same_name v.name var_name then some v.value else value_of var_name vars

abbrev pub index_of : (var_name : List ℕ) → List Var → Option ℕ
index_of var_name [] = none
index_of var_name (v ∷ vars) =
    if same_name v.name var_name then some 0 else do i ← index_of var_name vars; some (suc i)

abbrev pub set_value : ℕ → (value : List ℕ) → List Var → List Var
set_value i value [] = []
set_value zero value (v ∷ vars) = record v { value = value } ∷ vars
set_value (suc i) value (v ∷ vars) = v ∷ set_value i value vars

abbrev value_at : ℕ → List Var → List ℕ
value_at i vars = (get_or vars i (record { name = []; value = [] })).value

-- The value, or none for NULL.
unfoldable pub get_config_var : (var_name : List ℕ) → Store → Option (List ℕ)
get_config_var var_name s = value_of var_name s.vars

-- `written` tells whether `write_to_config_file` returns 0.
abbrev pub set_backup :
    (written : Bool) (i : ℕ) (value : List ℕ) → Store → List (List ℕ) → Bool × Store
set_backup true i value s backup =
    (true, record { vars = set_value i value s.vars; ga_values_backup = some (set backup i value) })
set_backup false i value s backup =
    (false, record s { ga_values_backup = some (set (set backup i value) i (value_at i s.vars)) })

abbrev pub set_at : (written : Bool) (value : List ℕ) → Store → Option ℕ → Bool × Store
set_at written value s none = (false, s)
set_at written value s (some i) = elim s.ga_values_backup [
  | none ↦ (true, record s { vars = set_value i value s.vars })
  | some backup ↦ set_backup written i value s backup
]

-- Whether 0 is returned, and the new state.
unfoldable pub set_config_var : (written : Bool) (var_name value : List ℕ) → Store → Bool × Store
set_config_var written var_name value s = set_at written value s (index_of var_name s.vars)

-- What a set does to what is got.
abbrev pub Sets : (var_name value : List ℕ) → Store → Bool × Store → Type 0
Sets n value s (false, t) = (o : List ℕ) → get_config_var o t ≡ get_config_var o s
Sets n value s (true, t) =
    (get_config_var n t ≡ some value)
    × ((o : List ℕ) → same_name n o ≡ false → get_config_var o t ≡ get_config_var o s)
