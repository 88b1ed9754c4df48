-- ===== src/Telnetd/Commands.antt =====
-- The loop of the shell thread in libs/app_utils/src/telnetd4dbg.c, from the lines that are typed to the
-- commands of libs/app_utils/src/symbol_utils.c.
mod Typed
mod Tests
use linux_dev_framework.Base.{
  ltb, leb, ◌==◌, if◌then◌else◌, ltb→lt, lt→ltb, leb→le, ==_iff, ==_refl, Bool-cases, Option-cases,
  ◌>>=◌, some_inj, tests, length, get_elem?, get_or, set, take, drop, replicate, all, length-append,
  length-set, get_elem?-set_self, get_elem?-set_ne, get_elem?-lt, take-append-drop, take-length,
  length-take, length-drop, length-replicate, get_elem?-none, get_elem?-append_left,
  get_elem?-append_right, get_elem?-replicate, chars, token, strtok, Free, token-word, token-last,
  strtok-last, strtok-word, strchr, strrchr, strchr-first, strchr-none, Free-append, strrchr-end,
  digits, decimal, digit?, digit_of, number_from, magnitude, strtol, strtoul16, signed, blank?,
  atoi, number_from-digits, digits-first, strtol-decimal, digits-append, digits-Free, ℕ, zero, suc,
  ◌+◌, ◌-◌, ◌*◌, ◌/◌, ◌%◌, ◌^◌, ◌≤◌, ◌<◌, min, max, ◌≡◌, refl, sym, ap, ap₂, ◌∙◌, subst, fun_ext,
  ◌≢◌, ◌↔◌, ◌⊎◌, inl, inr, Bool, true, false, not, ◌&&◌, ◌||◌, Option, none, some, List, [], ◌∷◌,
  ◌++◌, map, append_assoc, append-nil, arith,
}
use linux_dev_framework.Net.Memory.{Mem}
use linux_dev_framework.StringUtils.{streq, str_trim_all}
use linux_dev_framework.Symbols.{Symbol, Reply, proccess_cmd}
use linux_dev_framework.Telnetd.{Shell, update_histotry_cmds}
use linux_dev_framework.Telnetd.Login.{Event, Reader, Turn, read_input, fresh_reader}

-- What the loop goes on with, and the reply of a command.
abbrev pub Next : Type 0
Next = Option (Reader × Mem × Option Reply)

-- `clean_cmd_line`; `str_trim_all` stores nothing only for an empty line.
abbrev pub clean_line : Option (List ℕ) → List ℕ
clean_line none = []
clean_line (some text) = text

abbrev pub quit_cmd : List ℕ
quit_cmd = chars "quit"

abbrev pub command_done : Reader → Mem × Reply → Next
command_done r (m, reply) = some (r, m, some reply)

abbrev pub run_line : (List ℕ → ℕ) → List Symbol → (clean_cmd_line : List ℕ) → Reader → Mem → Next
run_line dlsym tab clean r m =
    if length clean == 0
    then some (r, m, none)
    else if streq clean quit_cmd
    then none
    else command_done r (proccess_cmd dlsym tab clean m)

-- What is done when `read_input` returns 1.
abbrev pub after_line : (List ℕ → ℕ) → List Symbol → Shell → Mem → Next
after_line dlsym tab s m =
    if s.shell_buf_cur_len == 0
    then some (fresh_reader s, m, none)
    else run_line dlsym tab (clean_line (str_trim_all s.shell_buf).1)
        (fresh_reader (update_histotry_cmds s.shell_buf s)) m

abbrev pub loop_turn : (List ℕ → ℕ) → List Symbol → Turn → Mem → Next
loop_turn dlsym tab (Turn.read_byte r) m = some (r, m, none)
loop_turn dlsym tab (Turn.no_input r) m = some (r, m, none)
loop_turn dlsym tab (Turn.line s) m = after_line dlsym tab s m
loop_turn dlsym tab Turn.error m = none

abbrev pub replied : Option Reply → Mem × List Reply → Mem × List Reply
replied none (m, replies) = (m, replies)
replied (some reply) (m, replies) = (m, reply ∷ replies)

abbrev pub next_turn : (Reader → Mem → Mem × List Reply) → Mem → Next → Mem × List Reply
next_turn later m none = (m, [])
next_turn later m (some (r, m', reply)) = replied reply (later r m')

-- The loop of `the_shell_thread_func` by the reads, until there are no more of them, the user quits or
-- a read fails: the memory, and the replies in their order.
unfoldable pub the_shell_thread_func :
    (List ℕ → ℕ) → List Symbol → List Event → Reader → Mem → Mem × List Reply
the_shell_thread_func dlsym tab [] r m = (m, [])
the_shell_thread_func dlsym tab (e ∷ events) r m =
    next_turn (the_shell_thread_func dlsym tab events) m (loop_turn dlsym tab (read_input e r) m)
