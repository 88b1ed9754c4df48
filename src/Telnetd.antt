-- ===== src/Telnetd.antt =====
-- The debug telnet server, libs/app_utils/src/telnetd4dbg.c: what it takes out of the client's bytes,
-- the command history, and what it sends.
pub mod Iacs
pub mod History
pub mod Send
pub mod Login
pub mod Auth
pub mod Sessions
pub mod Commands
mod Tests
use linux_dev_framework.Base.{
  ltb, leb, ◌==◌, if◌then◌else◌, ltb→lt, lt→ltb, leb→le, ==_iff, ==_refl, Bool-cases, Option-cases,
  ◌>>=◌, some_inj, tests, length, get_elem?, get_or, set, take, drop, replicate, all, length-append,
  length-set, get_elem?-set_self, get_elem?-set_ne, get_elem?-lt, take-append-drop, length-take,
  length-drop, length-replicate, get_elem?-none, get_elem?-append_left, get_elem?-append_right,
  get_elem?-replicate, ℕ, zero, suc, ◌+◌, ◌-◌, ◌*◌, ◌/◌, ◌%◌, ◌^◌, ◌≤◌, ◌<◌, min, max, ◌≡◌, refl,
  sym, ap, ap₂, ◌∙◌, subst, fun_ext, ◌≢◌, ◌↔◌, ◌⊎◌, inl, inr, Bool, true, false, not, ◌&&◌, ◌||◌,
  Option, none, some, List, [], ◌∷◌, ◌++◌, map, append_assoc, append-nil, arith,
}
use linux_dev_framework.StringUtils.{Buf, c_str, put_char, str_replace_substr}
use linux_dev_framework.StringUtils.Buffer.{read}

-- `IAC`, `SB` and `TELOPT_NAWS` of arpa/telnet.h
abbrev pub iac : ℕ
iac = 255

abbrev pub sb : ℕ
sb = 250

abbrev pub telopt_naws : ℕ
telopt_naws = 31

-- The body of the loop of `remove_iacs`, by `ptr` and `totty` as offsets from `ptr0`.
abbrev pub remove_step : Buf → (ptr totty : ℕ) → Buf × ℕ × ℕ
remove_step b ptr totty =
    if not (b ptr == iac)
    then (put_char totty (b ptr) b, ptr + 1, totty + 1)
    else if (b (ptr + 1) == sb) && (b (ptr + 2) == telopt_naws)
    then (b, ptr + 9, totty)
    else (b, ptr + 3, totty)

-- The loop; `none` means that the fuel ran out.
unfoldable pub remove_loop : (fuel : ℕ) → Buf → (ptr totty end_ : ℕ) → Option (Buf × ℕ)
remove_loop zero b ptr totty end_ = none
remove_loop (suc fuel) b ptr totty end_ =
    if ltb ptr end_
    then (let (b', ptr', totty') = remove_step b ptr totty in remove_loop fuel b' ptr' totty' end_)
    else some (b, totty)

-- The buffer behind the call, and `*pnum_totty`.
unfoldable pub remove_iacs : Buf → (len : ℕ) → Option (Buf × ℕ)
remove_iacs b len = remove_loop (suc len) b 0 0 len

abbrev pub max_history_cmd_num : ℕ
max_history_cmd_num = 128

pub record HistoryCmd : Type 0 where
  pub name : List ℕ
  pub len : ℕ

-- The history, `shell_buf` as the string in it, and `shell_buf_cur_len`.
pub record Shell : Type 0 where
  pub histotry_cmds : ℕ → HistoryCmd
  pub cur_histotry_cmds_num : ℕ
  pub cur_histotry_cmds_roll_idx : ℕ
  pub shell_buf : List ℕ
  pub shell_buf_cur_len : ℕ

-- `memmove` of all entries but the first to the front
abbrev pub forget_oldest : (ℕ → HistoryCmd) → ℕ → HistoryCmd
forget_oldest h i = if ltb i (max_history_cmd_num - 1) then h (i + 1) else h i

abbrev pub put_cmd : ℕ → HistoryCmd → (ℕ → HistoryCmd) → ℕ → HistoryCmd
put_cmd i c h j = if j == i then c else h j

abbrev pub append_cmd : List ℕ → (ℕ → HistoryCmd) → (num : ℕ) → Shell → Shell
append_cmd cmd h num s = record s {
  histotry_cmds = put_cmd num (record { name = cmd; len = length cmd }) h;
  cur_histotry_cmds_num = num + 1;
  cur_histotry_cmds_roll_idx = num + 1;
}

unfoldable pub update_histotry_cmds : List ℕ → Shell → Shell
update_histotry_cmds cmd s =
    if s.cur_histotry_cmds_num == max_history_cmd_num
    then append_cmd cmd (forget_oldest s.histotry_cmds) (s.cur_histotry_cmds_num - 1) s
    else append_cmd cmd s.histotry_cmds s.cur_histotry_cmds_num s

-- `strcpy` of an entry to `shell_buf`, whose length is taken over. The redrawing is left out.
abbrev pub show_cmd : (idx : ℕ) → Shell → Shell
show_cmd idx s = record s {
  cur_histotry_cmds_roll_idx = idx;
  shell_buf = (s.histotry_cmds idx).name;
  shell_buf_cur_len = (s.histotry_cmds idx).len;
}

unfoldable pub history_cmd_roll_prev : Shell → Shell
history_cmd_roll_prev s =
    if ltb 0 s.cur_histotry_cmds_num && ltb 0 s.cur_histotry_cmds_roll_idx
    then show_cmd (s.cur_histotry_cmds_roll_idx - 1) s
    else s

unfoldable pub history_cmd_roll_next : Shell → Shell
history_cmd_roll_next s =
    if ltb 0 s.cur_histotry_cmds_num
      && ltb s.cur_histotry_cmds_roll_idx (s.cur_histotry_cmds_num - 1)
    then show_cmd (s.cur_histotry_cmds_roll_idx + 1) s
    else s

-- `pty2sock_cache` as the bytes stored in it, `pty2sock_cache_len`, and `cur_snd_ptr` as an offset.
pub record Sender : Type 0 where
  pub pty2sock_cache : List ℕ
  pub pty2sock_cache_len : ℕ
  pub cur_snd_ptr : ℕ

-- The result, whether it is an error, with what the socket took and the new state.
pub record Sent : Type 0 where
  pub failed : Bool
  pub taken : List ℕ
  pub sender : Sender

-- From the label `DO_SEND_DATA` on: `ret` is what `write_reliable` returns, none for an error.
abbrev pub do_send_data : (writeable : Bool) (ret : Option ℕ) → Sender → Sent
do_send_data false ret s = record { failed = false; taken = []; sender = s }
do_send_data true none s = record { failed = true; taken = []; sender = s }
do_send_data true (some zero) s = record { failed = true; taken = []; sender = s }
do_send_data true (some (suc n)) s = record {
  failed = false;
  taken = take (suc n) s.pty2sock_cache;
  sender = record s {
    pty2sock_cache_len = s.pty2sock_cache_len - suc n;
    cur_snd_ptr = s.cur_snd_ptr + suc n;
  };
}

-- `got` is what `read_reliable` gives, none for an error; it ends the string at the first zero.
abbrev pub refill :
    (got : Option (List ℕ)) (writeable : Bool) (ret : Option ℕ) → Sender → Option Sent
refill none writeable ret s = some (record {
  failed = true;
  taken = [];
  sender = record s { pty2sock_cache_len = 0; cur_snd_ptr = 0 };
})
refill (some buf) writeable ret s = do
  out ← str_replace_substr (c_str buf) (10 ∷ []) (13 ∷ 10 ∷ [])
  let s' : Sender = record {
    pty2sock_cache = out;
    pty2sock_cache_len = length out;
    cur_snd_ptr = 0;
  }
  some (
      if length out == 0
      then record { failed = false; taken = []; sender = s' }
      else do_send_data writeable ret s')

-- `none` would mean that `str_replace_substr` did not end.
unfoldable pub trans_data_pty2sock :
    (got : Option (List ℕ)) (writeable : Bool) (ret : Option ℕ) → Sender → Option Sent
trans_data_pty2sock got writeable ret s =
    if ltb 0 s.pty2sock_cache_len
    then some (do_send_data writeable ret s)
    else refill got writeable ret s
