-- ===== src/Telnetd/Sessions.antt =====
-- The sessions of libs/app_utils/src/telnetd4dbg.c: one round of misc_thread_func after the other, and
-- the shell thread by what it has come to. The bytes that go to the shell are those of Telnetd.Iacs.
pub mod Close
pub mod Rounds
mod Tests
use linux_dev_framework.Base.{
  ltb, leb, ◌==◌, if◌then◌else◌, ltb→lt, lt→ltb, leb→le, ==_iff, ==_refl, Bool-cases, Option-cases,
  ◌>>=◌, some_inj, tests, length, get_elem?, get_or, set, take, drop, replicate, all, length-append,
  length-set, get_elem?-set_self, get_elem?-set_ne, get_elem?-lt, take-append-drop, take-length,
  length-take, length-drop, length-replicate, get_elem?-none, get_elem?-append_left,
  get_elem?-append_right, get_elem?-replicate, chars, token, strtok, Free, token-word, token-last,
  strtok-last, strtok-word, strchr, strrchr, strchr-first, strchr-none, Free-append, strrchr-end,
  digits, decimal, digit?, digit_of, number_from, magnitude, strtol, strtoul16, signed, blank?,
  atoi, number_from-digits, digits-first, strtol-decimal, digits-append, digits-Free, ℕ, zero, suc,
  ◌+◌, ◌-◌, ◌*◌, ◌/◌, ◌%◌, ◌^◌, ◌≤◌, ◌<◌, min, max, ◌≡◌, refl, sym, ap, ap₂, ◌∙◌, subst, fun_ext,
  ◌≢◌, ◌↔◌, ◌⊎◌, inl, inr, Bool, true, false, not, ◌&&◌, ◌||◌, Option, none, some, List, [], ◌∷◌,
  ◌++◌, map, append_assoc, append-nil, arith,
}
use linux_dev_framework.Telnetd.{Sender, Sent, trans_data_pty2sock}

-- What the shell thread is at: `login_auth`, the loop on commands, or it has ended.
pub data Stage : Type 0 where
  at_login : Stage
  in_loop : Stage
  ended : Stage

-- The variables of the file, the thread, and the descriptors that are open besides those of the
-- server. A descriptor that is not open is 0.
pub record Daemon : Type 0 where
  pub fd_conn : ℕ
  pub fd_pty_master : ℕ
  pub fd_pty_slave : ℕ
  pub shell_thread_should_exit : Bool
  pub shell_quit_occurred : Bool
  pub sender : Sender
  pub stage : Stage
  pub open_fds : List ℕ

abbrev pub close : (fd : ℕ) → List ℕ → List ℕ
close fd [] = []
close fd (x ∷ l) = if x == fd then close fd l else x ∷ close fd l

-- The thread sets `shell_quit_occurred` at its end.
abbrev pub shell_quits : Daemon → Daemon
shell_quits s = record s { stage = ended; shell_quit_occurred = true }

abbrev pub shell_ends : (typed : Bool) → Stage → Daemon → Option Daemon
shell_ends typed in_loop s = some (shell_quits s)
shell_ends true at_login s = some (shell_quits s)
shell_ends false at_login s = none
shell_ends typed ended s = none

-- The wait of `term_session`, where nothing means that it goes on for ever. The loop on commands sees
-- `shell_thread_should_exit`; `login_auth` does not read it, and goes on with what is typed until the
-- login is right or a read fails. `typed` says that what is left to read does that.
abbrev pub wait_for_shell : (typed : Bool) → Daemon → Option Daemon
wait_for_shell typed s = if s.shell_quit_occurred then some s else shell_ends typed s.stage s

abbrev pub close_session : Daemon → Daemon
close_session s = record s {
  fd_conn = 0;
  fd_pty_slave = 0;
  fd_pty_master = 0;
  shell_quit_occurred = false;
  sender = record s.sender { pty2sock_cache_len = 0 };
  open_fds = close s.fd_pty_master (close s.fd_pty_slave (close s.fd_conn s.open_fds));
}

unfoldable pub term_session : (typed : Bool) → Daemon → Option Daemon
term_session typed s = if s.fd_conn == 0 then some s else (do
  t ← wait_for_shell typed (record s { shell_thread_should_exit = true })
  some (close_session t))

-- `make_new_session` by the two ends that `socketpair` gives, none for an error, and the `close` of
-- the caller in that case.
abbrev pub make_new_session : (new_sock_fd : ℕ) → (sv : Option (ℕ × ℕ)) → Daemon → Daemon
make_new_session fd none s = record s { open_fds = close fd s.open_fds }
make_new_session fd (some (sv0, sv1)) s = record s {
  fd_conn = fd;
  fd_pty_master = sv0;
  fd_pty_slave = sv1;
  shell_thread_should_exit = false;
  stage = at_login;
  open_fds = sv0 ∷ sv1 ∷ s.open_fds;
}

-- What `select` says of the descriptors of a session, and the results of the calls on them: whether
-- nothing can be read from the client, and those of `trans_data_pty2sock`.
pub record Ready : Type 0 where
  pub conn_except : Bool
  pub conn_read : Bool
  pub pty_read : Bool
  pub gone : Bool
  pub got : Option (List ℕ)
  pub writeable : Bool
  pub ret : Option ℕ

-- A round in which `select` gives nothing or a client comes, by the results of `accept` and
-- `socketpair`; a round for the session; a step of the shell thread.
pub data Round : Type 0 where
  nothing : Round
  comes : (tmp_fd : Option ℕ) (sv : Option (ℕ × ℕ)) → Round
  ready : Ready → Round
  logs_in : Round
  quits : Round

abbrev pub sock2pty : (typed : Bool) → Ready → Daemon → Option Daemon
sock2pty typed r s =
    if ltb 0 s.fd_conn && r.conn_read && r.gone then term_session typed s else some s

abbrev pub after_sent : (typed : Bool) → Sent → Daemon → Option Daemon
after_sent typed sent s =
    if sent.failed
    then term_session typed (record s { sender = sent.sender })
    else some (record s { sender = sent.sender })

abbrev pub pty2sock : (typed : Bool) → Ready → Daemon → Option Daemon
pty2sock typed r s =
    if (ltb 0 s.fd_pty_master && r.pty_read) || ltb 0 s.sender.pty2sock_cache_len
    then (do sent ← trans_data_pty2sock r.got r.writeable r.ret s.sender; after_sent typed sent s)
    else some s

abbrev pub log_in : Stage → Stage
log_in at_login = in_loop
log_in in_loop = in_loop
log_in ended = ended

abbrev pub quit_from : Stage → Daemon → Daemon
quit_from ended s = s
quit_from in_loop s = shell_quits s
quit_from at_login s = shell_quits s

-- The body of the loop of `misc_thread_func`; a descriptor is only reported when it was asked for.
unfoldable pub misc_round : (typed : Bool) → Round → Daemon → Option Daemon
misc_round typed nothing s = some s
misc_round typed (comes none sv) s = some s
misc_round typed (comes (some fd) sv) s = do
  t ← term_session typed (record s { open_fds = fd ∷ s.open_fds })
  some (make_new_session fd sv t)
misc_round typed (ready r) s =
    if s.shell_quit_occurred || (ltb 0 s.fd_conn && r.conn_except)
    then term_session typed s
    else (do t ← sock2pty typed r s; pty2sock typed r t)
misc_round typed logs_in s = some (record s { stage = log_in s.stage })
misc_round typed quits s = some (quit_from s.stage s)

-- The loop of `misc_thread_func`, for so many rounds.
unfoldable pub misc_thread_func : List (Bool × Round) → Daemon → Option Daemon
misc_thread_func [] s = some s
misc_thread_func ((typed, r) ∷ rs) s = do t ← misc_round typed r s; misc_thread_func rs t
