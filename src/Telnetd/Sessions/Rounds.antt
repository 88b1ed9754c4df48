-- ===== src/Telnetd/Sessions/Rounds.antt =====
-- The rounds of libs/app_utils/src/telnetd4dbg.c: that they end, with one session at most, and the wait
-- that does not.
use linux_dev_framework.Base.{
  ltb, ◌==◌, ==_refl, Bool-cases, ℕ, ◌≡◌, refl, sym, ap, ◌∙◌, subst, inl, inr, Bool, true, false,
  ◌&&◌, ◌||◌, Option, none, some, List, [], ◌∷◌, arith,
}
use linux_dev_framework.StringUtils.{c_str}
use linux_dev_framework.StringUtils.Replace.{str_replace_substr-char}
use linux_dev_framework.Telnetd.{Sender, Sent, trans_data_pty2sock, refill}
use linux_dev_framework.Telnetd.Sessions.{
  Stage, Daemon, close, term_session, make_new_session, Ready, Round, sock2pty, after_sent,
  pty2sock, log_in, quit_from, misc_round,
}
use linux_dev_framework.Telnetd.Sessions.Close.{
  Ends, Ends-bind, ended?, Closed, Sound, CanEnd, Absent, shell_quits-Busy, term_session-Busy,
  term_session-Closed,
}

abbrev Good : (typed : Bool) → Daemon → Type 0
Good typed s = Sound s × CanEnd typed s.stage

ended-CanEnd : (typed : Bool) → CanEnd typed Stage.ended
ended-CanEnd true = tt
ended-CanEnd false = tt

Closed-Good : (typed : Bool) (s : Daemon) → Closed [] s → Good typed s
Closed-Good typed s c = (inl c, subst (CanEnd typed) (sym c.stage) (ended-CanEnd typed))

Ends-map :
    {A : Type 0} → (P Q : A → Type 0) (o : Option A) → ((a : A) → P a → Q a) → Ends P o → Ends Q o
Ends-map P Q none f h = absurd h
Ends-map P Q (some a) f h = f a h

term_session-Good :
    (typed : Bool) (s : Daemon) → Good typed s → Ends (Good typed) (term_session typed s)
term_session-Good typed s (inl c, h) =
    subst (Ends (Good typed)) (sym (term_session-Closed typed [] s c)) (inl c, h)
term_session-Good typed s (inr b, h) =
    Ends-map (Closed []) (Good typed) (term_session typed s) (Closed-Good typed)
      (term_session-Busy typed [] s b (tt, tt, tt) h)

trans_data_pty2sock-Ends :
    (got : Option (List ℕ)) (writeable : Bool) (ret : Option ℕ) (s : Sender)
    → Ends (λ t. Unit) (trans_data_pty2sock got writeable ret s)
unfolding trans_data_pty2sock
trans_data_pty2sock-Ends got writeable ret s = elim (Bool-cases (ltb 0 s.pty2sock_cache_len)) [
  | inl y ↦ rw y tt
  | inr out ↦ rw out (refill-Ends got writeable ret s)
]
  where
    refill-Ends :
        (got : Option (List ℕ)) (writeable : Bool) (ret : Option ℕ) (s : Sender)
        → Ends (λ t. Unit) (refill got writeable ret s)
    refill-Ends none writeable ret s = tt
    refill-Ends (some buf) writeable ret s =
        rw (str_replace_substr-char (c_str buf) (13 ∷ 10 ∷ []) 10) tt

-- A session does not depend on what there is to send.
with_sender :
    (typed : Bool) (p : Sender) (s : Daemon) → Good typed s → Good typed (record s { sender = p })
with_sender typed p s (inl c, h) = (
  inl (record {
    conn = c.conn;
    master = c.master;
    quit = c.quit;
    stage = c.stage;
    opened = c.opened;
  }),
  h,
)
with_sender typed p s (inr b, h) = (
  inr (record {
    conn = b.conn;
    opened = b.opened;
    master_conn = b.master_conn;
    slave_conn = b.slave_conn;
    master_slave = b.master_slave;
    quit = b.quit;
  }),
  h,
)

after_sent-Good :
    (typed : Bool) (sent : Sent) (s : Daemon)
    → Good typed s
    → Ends (Good typed) (after_sent typed sent s)
after_sent-Good typed sent s g = elim (Bool-cases sent.failed) [
  | inl y ↦ rw y (term_session-Good typed _ (with_sender typed sent.sender s g))
  | inr out ↦ rw out (with_sender typed sent.sender s g)
]

pty2sock-Good :
    (typed : Bool) (r : Ready) (s : Daemon) → Good typed s → Ends (Good typed) (pty2sock typed r s)
pty2sock-Good typed r s g =
    elim (Bool-cases ((ltb 0 s.fd_pty_master && r.pty_read) || ltb 0 s.sender.pty2sock_cache_len)) [
      | inl y ↦ rw y (
          Ends-bind (λ t. Unit) (Good typed) (trans_data_pty2sock r.got r.writeable r.ret s.sender)
            (λ sent. after_sent typed sent s)
            (trans_data_pty2sock-Ends r.got r.writeable r.ret s.sender)
            (λ sent u. after_sent-Good typed sent s g))
      | inr out ↦ rw out g
    ]

sock2pty-Good :
    (typed : Bool) (r : Ready) (s : Daemon) → Good typed s → Ends (Good typed) (sock2pty typed r s)
sock2pty-Good typed r s g = elim (Bool-cases (ltb 0 s.fd_conn && r.conn_read && r.gone)) [
  | inl y ↦ rw y (term_session-Good typed s g)
  | inr out ↦ rw out g
]

-- The kernel gives descriptors that are different and not open, and 0 is taken.
abbrev pub Fits : Round → Daemon → Type 0
Fits Round.nothing s = Unit
Fits (Round.comes none sv) s = Unit
Fits (Round.comes (some fd) none) s = Absent fd s.open_fds
Fits (Round.comes (some fd) (some (a, b))) s =
    Absent fd s.open_fds
    × ((fd == 0) ≡ false)
    × ((a == fd) ≡ false)
    × ((b == fd) ≡ false)
    × ((a == b) ≡ false)
Fits (Round.ready r) s = Unit
Fits Round.logs_in s = Unit
Fits Round.quits s = Unit

ne_swap : (a b : ℕ) → (a == b) ≡ false → (b == a) ≡ false
ne_swap a b h = ground (arith, h)

-- With a client's descriptor open, the session before ends.
comes-Closed :
    (typed : Bool) (fd : ℕ) (s : Daemon)
    → Good typed s
    → Absent fd s.open_fds
    → Ends (Closed (fd ∷ [])) (term_session typed (record s { open_fds = fd ∷ s.open_fds }))
comes-Closed typed fd s (inl c, h) absent =
    let t : Daemon = record s { open_fds = fd ∷ s.open_fds } in
    let c' : Closed (fd ∷ []) t = record {
      conn = c.conn;
      master = c.master;
      quit = c.quit;
      stage = c.stage;
      opened = ap (λ l. fd ∷ l) c.opened;
    } in
    subst (Ends (Closed (fd ∷ []))) (sym (term_session-Closed typed (fd ∷ []) t c')) c'
comes-Closed typed fd s (inr b, h) absent =
    let t : Daemon = record s { open_fds = fd ∷ s.open_fds } in
    let (m, (p, (c, u))) = subst (Absent fd) b.opened absent in
    term_session-Busy typed (fd ∷ []) t
      (record {
        conn = b.conn;
        opened = ap (λ l. fd ∷ l) b.opened;
        master_conn = b.master_conn;
        slave_conn = b.slave_conn;
        master_slave = b.master_slave;
        quit = b.quit;
      })
      (
        (ne_swap s.fd_conn fd c, tt),
        (ne_swap s.fd_pty_slave fd p, tt),
        (ne_swap s.fd_pty_master fd m, tt),
      )
      h

made-Sound :
    (fd : ℕ) (sv : Option (ℕ × ℕ)) (s t : Daemon)
    → Fits (Round.comes (some fd) sv) s
    → Closed (fd ∷ []) t
    → Sound (make_new_session fd sv t)
made-Sound fd none s t h c =
    let gone : close fd (fd ∷ []) ≡ [] = rw (==_refl fd) refl in
    inl (record {
      conn = c.conn;
      master = c.master;
      quit = c.quit;
      stage = c.stage;
      opened = ap (close fd) c.opened ∙ gone;
    })
made-Sound fd (some (a, b)) s t (absent, positive, x, y, z) c = inr (record {
  conn = positive;
  opened = ap (λ l. a ∷ b ∷ l) c.opened;
  master_conn = x;
  slave_conn = y;
  master_slave = z;
  quit = c.quit;
})

Fits-Absent :
    (fd : ℕ) (sv : Option (ℕ × ℕ)) (s : Daemon)
    → Fits (Round.comes (some fd) sv) s
    → Absent fd s.open_fds
Fits-Absent fd none s h = h
Fits-Absent fd (some (a, b)) s h = h.0

ready-Sound :
    (typed : Bool) (r : Ready) (s : Daemon)
    → Good typed s
    → Ends Sound (misc_round typed (Round.ready r) s)
unfolding misc_round
ready-Sound typed r s g =
    elim (Bool-cases (s.shell_quit_occurred || (ltb 0 s.fd_conn && r.conn_except))) [
      | inl y ↦ rw y (Ends-map (Good typed) Sound _ (λ t h. h.0) (term_session-Good typed s g))
      | inr out ↦ rw out (
          Ends-bind (Good typed) Sound (sock2pty typed r s) (pty2sock typed r)
            (sock2pty-Good typed r s g)
            (λ t h. Ends-map (Good typed) Sound _ (λ u k. k.0) (pty2sock-Good typed r t h)))
    ]

logs_in-Busy : (g : Stage) → ended? g ≡ ended? (log_in g)
logs_in-Busy Stage.at_login = refl
logs_in-Busy Stage.in_loop = refl
logs_in-Busy Stage.ended = refl

logs_in-Sound : (s : Daemon) → Sound s → Sound (record s { stage = log_in s.stage })
logs_in-Sound s (inl c) = inl (record {
  conn = c.conn;
  master = c.master;
  quit = c.quit;
  stage = ap log_in c.stage;
  opened = c.opened;
})
logs_in-Sound s (inr b) = inr (record {
  conn = b.conn;
  opened = b.opened;
  master_conn = b.master_conn;
  slave_conn = b.slave_conn;
  master_slave = b.master_slave;
  quit = b.quit ∙ logs_in-Busy s.stage;
})

quits-Sound : (g : Stage) (s : Daemon) → s.stage ≡ g → Sound s → Sound (quit_from g s)
quits-Sound Stage.ended s e h = h
quits-Sound Stage.in_loop s e (inl c) = let f : Stage.in_loop ≡ Stage.ended = sym e ∙ c.stage in cc
quits-Sound Stage.at_login s e (inl c) =
    let f : Stage.at_login ≡ Stage.ended = sym e ∙ c.stage in cc
quits-Sound Stage.in_loop s e (inr b) = inr (shell_quits-Busy [] s b)
quits-Sound Stage.at_login s e (inr b) = inr (shell_quits-Busy [] s b)

-- What a run relies on in each of its rounds: the kernel gives new descriptors, and a session is not
-- closed while its shell thread is at the login. In a round that closes none, `typed` is not looked at
-- and can be true.
abbrev pub Runs : List (Bool × Round) → Daemon → Type 0
Runs [] s = Unit
Runs ((typed, r) ∷ rs) s =
    CanEnd typed s.stage × Fits r s × ((t : Daemon) → misc_round typed r s ≡ some t → Runs rs t)

-- From a sound state, when the shell thread is not at the login or what is typed gets it out of there,
-- each round of `misc_thread_func` and each step of the shell thread ends in a sound state, where the
-- kernel gives new descriptors: either there is no session, the shell thread has ended and no
-- descriptor is left open, or there is one session with its three descriptors and no others, and
-- `shell_quit_occurred` says whether its shell has ended.
pub misc_round-Sound :
    (typed : Bool) (r : Round) (s : Daemon)
    → Sound s
    → CanEnd typed s.stage
    → Fits r s
    → Ends Sound (misc_round typed r s)
unfolding misc_round
misc_round-Sound typed Round.nothing s g h f = g
misc_round-Sound typed (Round.comes none sv) s g h f = g
misc_round-Sound typed (Round.comes (some fd) sv) s g h f =
    Ends-bind (Closed (fd ∷ [])) Sound
      (term_session typed (record s { open_fds = fd ∷ s.open_fds }))
      (λ t. some (make_new_session fd sv t))
      (comes-Closed typed fd s (g, h) (Fits-Absent fd sv s f)) (λ t c. made-Sound fd sv s t f c)
misc_round-Sound typed (Round.ready r) s g h f = ready-Sound typed r s (g, h)
misc_round-Sound typed Round.logs_in s g h f = logs_in-Sound s g
misc_round-Sound typed Round.quits s g h f = quits-Sound s.stage s refl g
