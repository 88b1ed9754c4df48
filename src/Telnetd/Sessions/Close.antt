-- ===== src/Telnetd/Sessions/Close.antt =====
-- What is open after the rounds of libs/app_utils/src/telnetd4dbg.c, and when they go on for ever.
use linux_dev_framework.Base.{
  ◌==◌, if◌then◌else◌, ==_refl, Bool-cases, ◌>>=◌, ℕ, ◌≡◌, refl, sym, ap, ap₂, ◌∙◌, subst, ◌⊎◌, inl,
  inr, Bool, true, false, Option, none, some, List, [], ◌∷◌, ◌++◌, append-nil,
}
use linux_dev_framework.Telnetd.Sessions.{
  Stage, Daemon, close, shell_quits, shell_ends, wait_for_shell, close_session, term_session,
}

-- There is a result, and it is as wanted.
abbrev pub Ends : {A : Type 0} → (A → Type 0) → Option A → Type 0
Ends P none = ⊥
Ends P (some a) = P a

pub Ends-bind :
    {A B : Type 0}
    → (P : A → Type 0) (Q : B → Type 0) (o : Option A) (k : A → Option B) → Ends P o
    → ((a : A) → P a → Ends Q (k a))
    → Ends Q (o >>= k)
Ends-bind P Q none k h f = absurd h
Ends-bind P Q (some a) k h f = f a h

abbrev pub ended? : Stage → Bool
ended? Stage.at_login = false
ended? Stage.in_loop = false
ended? Stage.ended = true

-- There is no session: the shell thread has ended, and nothing is open but the descriptors given.
pub record Closed (fds : List ℕ) (s : Daemon) : Type 0 where
  pub conn : s.fd_conn ≡ 0
  pub master : s.fd_pty_master ≡ 0
  pub quit : s.shell_quit_occurred ≡ false
  pub stage : s.stage ≡ Stage.ended
  pub opened : s.open_fds ≡ fds

-- There is a session, with three different descriptors, which are open with those given.
pub record Busy (fds : List ℕ) (s : Daemon) : Type 0 where
  pub conn : (s.fd_conn == 0) ≡ false
  pub opened : s.open_fds ≡ fds ++ s.fd_pty_master ∷ s.fd_pty_slave ∷ s.fd_conn ∷ []
  pub master_conn : (s.fd_pty_master == s.fd_conn) ≡ false
  pub slave_conn : (s.fd_pty_slave == s.fd_conn) ≡ false
  pub master_slave : (s.fd_pty_master == s.fd_pty_slave) ≡ false
  pub quit : s.shell_quit_occurred ≡ ended? s.stage

abbrev pub Sound : Daemon → Type 0
Sound s = Closed [] s ⊎ Busy [] s

-- The shell thread is not at the login, or what is typed gets it out of there.
abbrev pub CanEnd : (typed : Bool) → Stage → Type 0
CanEnd false Stage.at_login = ⊥
CanEnd true Stage.at_login = Unit
CanEnd typed Stage.in_loop = Unit
CanEnd typed Stage.ended = Unit

close-append : (fd : ℕ) (a b : List ℕ) → close fd (a ++ b) ≡ close fd a ++ close fd b
close-append fd [] b = refl
close-append fd (x ∷ a) b = elim (Bool-cases (x == fd)) [
  | inl y ↦ rw (y, close-append fd a b) refl
  | inr out ↦ rw (out, close-append fd a b) refl
]

-- A descriptor that is none of those given.
abbrev pub Absent : (fd : ℕ) → List ℕ → Type 0
Absent fd [] = Unit
Absent fd (x ∷ l) = ((x == fd) ≡ false) × Absent fd l

pub close-Absent : (fd : ℕ) (l : List ℕ) → Absent fd l → close fd l ≡ l
close-Absent fd [] h = refl
close-Absent fd (x ∷ l) (a, h) = rw (a, close-Absent fd l h) refl

abbrev pub Apart : List ℕ → Daemon → Type 0
Apart fds s = Absent s.fd_conn fds × Absent s.fd_pty_slave fds × Absent s.fd_pty_master fds

close_three :
    (l : List ℕ) (m p c : ℕ)
    → (m == c) ≡ false
    → (p == c) ≡ false
    → (m == p) ≡ false
    → Absent c l
    → Absent p l
    → Absent m l
    → close m (close p (close c (l ++ m ∷ p ∷ c ∷ []))) ≡ l
close_three l m p c mc pc mp lc lp lm =
    let last : close c (m ∷ p ∷ c ∷ []) ≡ m ∷ p ∷ [] = rw (mc, pc, ==_refl c) refl in
    let second : close p (m ∷ p ∷ []) ≡ m ∷ [] = rw (mp, ==_refl p) refl in
    let first : close m (m ∷ []) ≡ [] = rw (==_refl m) refl in
    ap (λ x. close m (close p x))
      (close-append c l _ ∙ ap₂ (λ x y. x ++ y) (close-Absent c l lc) last)
    ∙ ap (close m) (close-append p l _ ∙ ap₂ (λ x y. x ++ y) (close-Absent p l lp) second)
    ∙ (close-append m l _ ∙ ap₂ (λ x y. x ++ y) (close-Absent m l lm) first)
    ∙ append-nil l

close_session-Closed :
    (fds : List ℕ) (s : Daemon)
    → Busy fds s
    → Apart fds s
    → s.stage ≡ Stage.ended
    → Closed fds (close_session s)
close_session-Closed fds s b (lc, lp, lm) e = record {
  conn = refl;
  master = refl;
  quit = refl;
  stage = e;
  opened =
      ap (λ l. close s.fd_pty_master (close s.fd_pty_slave (close s.fd_conn l))) b.opened
      ∙ close_three fds s.fd_pty_master s.fd_pty_slave s.fd_conn b.master_conn b.slave_conn
          b.master_slave lc lp lm;
}

pub shell_quits-Busy : (fds : List ℕ) (s : Daemon) → Busy fds s → Busy fds (shell_quits s)
shell_quits-Busy fds s b = record {
  conn = b.conn;
  opened = b.opened;
  master_conn = b.master_conn;
  slave_conn = b.slave_conn;
  master_slave = b.master_slave;
  quit = refl;
}

-- What the wait gives when the shell is at a stage.
wait_at :
    (typed : Bool) (g : Stage) (fds : List ℕ) (s : Daemon)
    → s.stage ≡ g
    → CanEnd typed g
    → Busy fds s
    → Apart fds s
    → Ends (λ t. Closed fds (close_session t)) (if ended? g then some s else shell_ends typed g s)
wait_at typed Stage.ended fds s e h b a = close_session-Closed fds s b a e
wait_at true Stage.in_loop fds s e h b a =
    close_session-Closed fds (shell_quits s) (shell_quits-Busy fds s b) a refl
wait_at false Stage.in_loop fds s e h b a =
    close_session-Closed fds (shell_quits s) (shell_quits-Busy fds s b) a refl
wait_at true Stage.at_login fds s e h b a =
    close_session-Closed fds (shell_quits s) (shell_quits-Busy fds s b) a refl
wait_at false Stage.at_login fds s e h b a = absurd h

pub term_session-Busy :
    (typed : Bool) (fds : List ℕ) (s : Daemon)
    → Busy fds s
    → Apart fds s
    → CanEnd typed s.stage
    → Ends (Closed fds) (term_session typed s)
unfolding term_session
term_session-Busy typed fds s b a h =
    let s' : Daemon = record s { shell_thread_should_exit = true } in
    let b' : Busy fds s' = record {
      conn = b.conn;
      opened = b.opened;
      master_conn = b.master_conn;
      slave_conn = b.slave_conn;
      master_slave = b.master_slave;
      quit = b.quit;
    } in
    let waits : Ends (λ t. Closed fds (close_session t)) (wait_for_shell typed s') =
      subst
        (λ q.
          Ends (λ t. Closed fds (close_session t))
            (if q then some s' else shell_ends typed s.stage s'))
        (sym b.quit) (wait_at typed s.stage fds s' refl h b' a) in
    subst
      (λ q.
        Ends (Closed fds)
          (if q then some s else (wait_for_shell typed s' >>= λ t. some (close_session t))))
      (sym b.conn)
      (Ends-bind (λ t. Closed fds (close_session t)) (Closed fds) (wait_for_shell typed s')
        (λ t. some (close_session t)) waits (λ t c. c))

pub term_session-Closed :
    (typed : Bool) (fds : List ℕ) (s : Daemon) → Closed fds s → term_session typed s ≡ some s
unfolding term_session
term_session-Closed typed fds s c =
    ap
      (λ n.
        if n == 0
        then some s
        else (wait_for_shell typed (record s { shell_thread_should_exit = true }) >>= λ t.
            some (close_session t)))
      c.conn
