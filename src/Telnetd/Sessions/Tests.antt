-- ===== src/Telnetd/Sessions/Tests.antt =====
-- The sessions of libs/app_utils/src/telnetd4dbg.c with two clients.
use linux_dev_framework.Base.{◌>>=◌, ◌≡◌, refl, Bool, true, false, none, some, List, [], ◌∷◌}
use linux_dev_framework.Telnetd.Sessions.{
  Stage, Daemon, Ready, Round, term_session, misc_round, misc_thread_func,
}

abbrev idle : Daemon
idle = record {
  fd_conn = 0;
  fd_pty_master = 0;
  fd_pty_slave = 0;
  shell_thread_should_exit = false;
  shell_quit_occurred = false;
  sender = record { pty2sock_cache = []; pty2sock_cache_len = 0; cur_snd_ptr = 0 };
  stage = Stage.ended;
  open_fds = [];
}

-- A client comes, and its user logs in; then another comes.
abbrev two_clients : List (Bool × Round)
two_clients =
    (false, Round.comes (some 5) (some (6, 7)))
    ∷ (true, Round.logs_in)
    ∷ (false, Round.comes (some 8) (some (9, 10)))
    ∷ []

abbrev one_client : Daemon
one_client = record idle {
  fd_conn = 5;
  fd_pty_master = 6;
  fd_pty_slave = 7;
  stage = Stage.at_login;
  open_fds = 6 ∷ 7 ∷ 5 ∷ [];
}

first_comes :
    misc_thread_func ((false, Round.comes (some 5) (some (6, 7))) ∷ []) idle ≡ some one_client
unfolding misc_thread_func misc_round term_session
first_comes = refl

second_fds : (misc_thread_func two_clients idle >>= λ s. some s.open_fds) ≡ some (9 ∷ 10 ∷ 8 ∷ [])
unfolding misc_thread_func misc_round term_session
second_fds = refl

abbrev goes_away : Ready
goes_away = record {
  conn_except = false;
  conn_read = true;
  pty_read = false;
  gone = true;
  got = none;
  writeable = true;
  ret = none;
}
