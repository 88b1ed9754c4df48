-- ===== src/Guard/Setup.antt =====
-- The table of programs that simple_apps/guard.c reads from its configuration.
use linux_dev_framework.Base.{
  ltb, if◌then◌else◌, ◌>>=◌, length, chars, decimal, atoi, ℕ, zero, suc, ◌+◌, ◌≤◌, ◌<◌, ◌≡◌, ◌&&◌,
  Option, none, some, List, [], ◌∷◌, ◌++◌,
}
use linux_dev_framework.Config.Store.{Store, get_config_var}
use linux_dev_framework.Guard.{ProcessItem, RestoreMode, init_one_process, init_argv}

abbrev pub max_process_num : ℕ
max_process_num = 128

-- `init_one_process(idx)`, with the names of its variables.
unfoldable pub init_process : Store → (idx : ℕ) → Option ProcessItem
init_process config idx =
    init_one_process (get_config_var (chars "bin_path_" ++ decimal idx) config)
      (get_config_var (chars "args_" ++ decimal idx) config)
      (get_config_var (chars "restore_mode_" ++ decimal idx) config)

-- The loop over `num` entries from `i` on.
unfoldable pub init_from : Store → (num i : ℕ) → Option (List ProcessItem)
init_from config zero i = some []
init_from config (suc num) i = do
  item ← init_process config i
  list ← init_from config num (i + 1)
  some (item ∷ list)

abbrev pub init_num : Store → (process_num : ℕ) → Option (List ProcessItem)
init_num config num = if ltb max_process_num num then none else init_from config num 0

-- `init_process_list` on what the configuration file gave; a missing number is a null pointer, and a
-- negative one is more than the bound.
unfoldable pub init_process_list : Store → Option (List ProcessItem)
init_process_list config =
    if ltb (length config.vars) 1
    then none
    else get_config_var (chars "process_num") config >>= λ s. init_num config (atoi s)

-- An entry of the table before the programs are started.
pub record Ready (i : ProcessItem) : Type 0 where
  pub no_process : i.pid ≡ none
  pub arguments : i.argv ≡ init_argv i.bin_path i.args
  pub argv_fits : length i.argv + 1 ≤ 16
  pub path_fits : length i.bin_path < 1024
  pub args_fit : length i.args < 128

abbrev made : (b a : List ℕ) → RestoreMode → Option ProcessItem
made b a r =
    if ltb (length b) 1024 && ltb (length a) 128
    then some
        (record { bin_path = b; args = a; argv = init_argv b a; restore_mode = r; pid = none })
    else none
