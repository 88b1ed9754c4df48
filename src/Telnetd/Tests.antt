-- ===== src/Telnetd/Tests.antt =====
-- libs/app_utils/src/telnetd4dbg.c at concrete input.
use linux_dev_framework.Base.{
  ◌==◌, if◌then◌else◌, Bool-cases, get_or, drop, ◌≡◌, refl, inl, inr, true, false, none, some, [],
  ◌∷◌, ◌++◌, arith,
}
use linux_dev_framework.StringUtils.{Buf}
use linux_dev_framework.StringUtils.Buffer.{read}
use linux_dev_framework.Telnetd.{
  Shell, remove_iacs, update_histotry_cmds, max_history_cmd_num, Sender, do_send_data,
  trans_data_pty2sock,
}
use linux_dev_framework.Telnetd.Iacs.{Removes, telnet_text, remove_iacs-Removes}
use linux_dev_framework.Telnetd.History.{Good, commands, update_histotry_cmds-Good}
use linux_dev_framework.Telnetd.Send.{partial_write_repeats}

-- "a", IAC WILL 1, "b", a window size, "c"
abbrev received : Buf
received i =
    get_or (97 ∷ 255 ∷ 251 ∷ 1 ∷ 98 ∷ 255 ∷ 250 ∷ 31 ∷ 0 ∷ 80 ∷ 0 ∷ 24 ∷ 255 ∷ 240 ∷ 99 ∷ []) i 0

remove_iacs-Removes_example :
    Removes received 0 15 (telnet_text 0 (read received 0 15)) (remove_iacs received 15)
remove_iacs-Removes_example = remove_iacs-Removes received 15

received_text : telnet_text 0 (read received 0 15) ≡ 97 ∷ 98 ∷ 99 ∷ []
received_text = refl

-- Two commands, "ls" and "d", and the place behind them.
abbrev two_cmds : Shell
two_cmds = record {
  histotry_cmds = λ i.
      if i == 0
      then record { name = 108 ∷ 115 ∷ []; len = 2 }
      else record { name = 100 ∷ []; len = 1 };
  cur_histotry_cmds_num = 2;
  cur_histotry_cmds_roll_idx = 2;
  shell_buf = [];
  shell_buf_cur_len = 0;
}

two_cmds-Good : Good two_cmds
two_cmds-Good = record {
  room = omega arith;
  place = omega arith;
  lengths = λ i l. elim (Bool-cases (i == 0)) [ inl y ↦ rw y refl | inr n ↦ rw n refl ];
}

update_histotry_cmds-Good_example :
    Good (update_histotry_cmds (113 ∷ []) two_cmds)
    × (commands (update_histotry_cmds (113 ∷ []) two_cmds)
        ≡ (if 2 == max_history_cmd_num then drop 1 (commands two_cmds) else commands two_cmds)
          ++ (113 ∷ []) ∷ [])
    × ((update_histotry_cmds (113 ∷ []) two_cmds).cur_histotry_cmds_roll_idx
        ≡ (update_histotry_cmds (113 ∷ []) two_cmds).cur_histotry_cmds_num)
update_histotry_cmds-Good_example = update_histotry_cmds-Good (113 ∷ []) two_cmds two_cmds-Good

abbrev idle : Sender
idle = record { pty2sock_cache = []; pty2sock_cache_len = 0; cur_snd_ptr = 0 }

-- "abc", of which two bytes are taken first: the socket gets "ab" and then "a".
partial_write_repeats_example :
    trans_data_pty2sock none true
      (some 1)
      (do_send_data true (some 2) (record {
        pty2sock_cache = 97 ∷ 98 ∷ 99 ∷ [];
        pty2sock_cache_len = 3;
        cur_snd_ptr = 0;
      })).sender
    ≡ some (record {
      failed = false;
      taken = 97 ∷ [];
      sender = record {
        pty2sock_cache = 97 ∷ 98 ∷ 99 ∷ [];
        pty2sock_cache_len = 0;
        cur_snd_ptr = 3;
      };
    })
partial_write_repeats_example =
    partial_write_repeats none (97 ∷ 98 ∷ 99 ∷ []) 2 (omega arith) (omega arith)
