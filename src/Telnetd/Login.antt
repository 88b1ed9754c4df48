-- ===== src/Telnetd/Login.antt =====
-- `read_input` and `login_auth` of libs/app_utils/src/telnetd4dbg.c, by what the reads of
-- `fd_pty_slave` give, one after the other. What is echoed is left out.
use linux_dev_framework.Base.{
  ltb, ◌==◌, if◌then◌else◌, take, drop, ℕ, ◌+◌, ◌-◌, Bool, true, false, not, ◌&&◌, ◌||◌, Option,
  none, some, List, [], ◌∷◌, ◌++◌,
}
use linux_dev_framework.StringUtils.{isgraph, streq}
use linux_dev_framework.Telnetd.{Shell, history_cmd_roll_prev, history_cmd_roll_next}

-- `fd_readable` says no, or a read fails, gives nothing, or gives a byte.
pub data Event : Type 0 where
  silent : Event
  failed : Event
  nothing : Event
  got : ℕ → Event

-- The shell, and the bytes that `read_certain_bytes` has read behind an escape.
pub record Reader : Type 0 where
  pub shell : Shell
  pub two_byes : Option (List ℕ)

-- `goto READ_BYTE`, or a return: 0, 1 or -1.
pub data Turn : Type 0 where
  read_byte : Reader → Turn
  no_input : Reader → Turn
  line : Shell → Turn
  error : Turn

abbrev pub plain : Shell → Turn
plain s = read_byte (record { shell = s; two_byes = none })

-- `back_input(1)`
abbrev pub back_one : Shell → Shell
back_one s = record s { shell_buf_cur_len = s.shell_buf_cur_len - 1 }

-- `shell_buf[shell_buf_cur_len++]=c`
abbrev pub put_input : ℕ → Shell → Shell
put_input c s = record s {
  shell_buf =
      take s.shell_buf_cur_len s.shell_buf ++ c ∷ drop (s.shell_buf_cur_len + 1) s.shell_buf;
  shell_buf_cur_len = s.shell_buf_cur_len + 1;
}

-- The terminator behind the line.
abbrev pub end_line : Shell → Shell
end_line s = record s { shell_buf = take s.shell_buf_cur_len s.shell_buf }

abbrev pub byte_input : ℕ → Shell → Turn
byte_input c s =
    if (c == 0x00) || (c == 0x0a)
    then plain s
    else if ((c == 0x08) || (c == 0x7f)) && ltb 0 s.shell_buf_cur_len
    then plain (back_one s)
    else if c == 0x1b
    then read_byte (record { shell = s; two_byes = some [] })
    else if c == 0x0d
    then line (end_line s)
    else if not (c == 32) && not (isgraph c)
    then plain s
    else plain (put_input c s)

abbrev pub escape_input : (b c : ℕ) → Shell → Turn
escape_input b c s =
    if (b == 0x5b) && (c == 0x41)
    then plain (history_cmd_roll_prev s)
    else if (b == 0x5b) && (c == 0x42)
    then plain (history_cmd_roll_next s)
    else plain s

-- An event at the label, and one while `read_certain_bytes` waits for the two bytes: it does not
-- look for silence first, and fails when a read gives nothing.
abbrev pub plain_event : Event → Shell → Turn
plain_event silent s = no_input (record { shell = s; two_byes = none })
plain_event failed s = error
plain_event nothing s = plain s
plain_event (got c) s = byte_input c s

abbrev pub escape_event : Event → List ℕ → Shell → Turn
escape_event silent bs s = read_byte (record { shell = s; two_byes = some bs })
escape_event failed bs s = error
escape_event nothing bs s = error
escape_event (got c) [] s = read_byte (record { shell = s; two_byes = some (c ∷ []) })
escape_event (got c) (b ∷ bs) s = escape_input b c s

abbrev pub read_input_in : Event → Shell → Option (List ℕ) → Turn
read_input_in e s none = plain_event e s
read_input_in e s (some bs) = escape_event e bs s

abbrev pub read_input : Event → Reader → Turn
read_input e r = read_input_in e r.shell r.two_byes

-- `login_auth` is at one of its two labels; `user_name` is what the first line gave.
pub record Login : Type 0 where
  pub is_password : Bool
  pub user_name : List ℕ
  pub password : List ℕ
  pub reader : Reader

-- "admin"
abbrev pub admin : List ℕ
admin = 97 ∷ 100 ∷ 109 ∷ 105 ∷ 110 ∷ []

abbrev pub fresh_reader : Shell → Reader
fresh_reader s = record { shell = record s { shell_buf_cur_len = 0 }; two_byes = none }

-- The next state, or the result: whether the login succeeded.
pub data Progress : Type 0 where
  waits : Login → Progress
  returns : Bool → Progress

-- Behind a line: `memcpy` of 15 bytes, and after the second line the comparison.
abbrev pub got_line : Bool → Shell → Login → Progress
got_line false s l =
    waits
      (record l { is_password = true; user_name = take 15 s.shell_buf; reader = fresh_reader s })
got_line true s l =
    if streq l.user_name admin && streq l.user_name admin
    then returns true
    else waits
        (record l { is_password = false; password = take 15 s.shell_buf; reader = fresh_reader s })

abbrev pub after_turn : Turn → Login → Progress
after_turn (read_byte r) l = waits (record l { reader = r })
after_turn (no_input r) l = waits (record l { reader = r })
after_turn error l = returns false
after_turn (line s) l = got_line l.is_password s l

unfoldable pub login_auth : List Event → Login → Progress
login_auth [] l = waits l
login_auth (e ∷ events) l = elim (after_turn (read_input e l.reader) l) [
  | waits l' ↦ login_auth events l'
  | returns success ↦ returns success
]
