-- ===== src/Telnetd/Commands/Tests.antt =====
-- An assignment that is typed at the prompt of libs/app_utils/src/telnetd4dbg.c.
use linux_dev_framework.Base.{chars, strchr, number_from, strtol, ℕ, ◌≡◌, refl, List, [], ◌∷◌}
use linux_dev_framework.Net.Memory.{Mem}
use linux_dev_framework.StringUtils.{str_trim_all, str_trim_all_len, trim_all}
use linux_dev_framework.Symbols.{Symbol, proccess_cmd, assign_var, name2symbol, store_bytes}
use linux_dev_framework.Telnetd.{Shell, update_histotry_cmds}
use linux_dev_framework.Telnetd.Auth.{typed}
use linux_dev_framework.Telnetd.Commands.{the_shell_thread_func}
use linux_dev_framework.Telnetd.Commands.Typed.{waiting}

abbrev no_symbol : List ℕ → ℕ
no_symbol name = 0

abbrev one_var : List Symbol
one_var = record { name = 118 ∷ []; addr = 16; size = 2 } ∷ []

abbrev empty_shell : Shell
empty_shell = record {
  histotry_cmds = λ i. record { name = []; len = 0 };
  cur_histotry_cmds_num = 0;
  cur_histotry_cmds_roll_idx = 0;
  shell_buf = [];
  shell_buf_cur_len = 0;
}

abbrev zeros : Mem
zeros a = 0

abbrev assignment : List ℕ
assignment = chars " = 7"

-- `v = 7` stores 7 in the variable.
stored :
    (the_shell_thread_func no_symbol one_var
        (typed (118 ∷ assignment))
        (waiting empty_shell)
        zeros).0
      16
    ≡ 7
unfolding the_shell_thread_func update_histotry_cmds str_trim_all proccess_cmd assign_var
    name2symbol store_bytes str_trim_all_len trim_all strchr strtol number_from
stored = refl
