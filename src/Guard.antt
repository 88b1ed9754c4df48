-- ===== src/Guard.antt =====
-- The guard of programs, simple_apps/guard.c: what it keeps of a program, how it starts, watches and
-- restarts it. The system calls are a parameter.
pub mod Argv
pub mod Tables
pub mod Visit
pub mod Rounds
pub mod Lost
pub mod Start
pub mod Setup
pub mod Toy
mod Tests
use linux_dev_framework.Base.{
  ltb, leb, ◌==◌, if◌then◌else◌, ltb→lt, lt→ltb, leb→le, ==_iff, ==_refl, Bool-cases, Option-cases,
  ◌>>=◌, some_inj, tests, length, get_elem?, get_or, set, take, drop, replicate, all, length-append,
  length-set, get_elem?-set_self, get_elem?-set_ne, get_elem?-lt, take-append-drop, take-length,
  length-take, length-drop, length-replicate, get_elem?-none, get_elem?-append_left,
  get_elem?-append_right, get_elem?-replicate, chars, token, strtok, Free, token-word, strtok-word,
  digits, decimal, digit?, number_from, signed, blank?, atoi, ℕ, zero, suc, ◌+◌, ◌-◌, ◌*◌, ◌/◌, ◌%◌,
  ◌^◌, ◌≤◌, ◌<◌, min, max, ◌≡◌, refl, sym, ap, ap₂, ◌∙◌, subst, fun_ext, ◌≢◌, ◌↔◌, ◌⊎◌, inl, inr,
  Bool, true, false, not, ◌&&◌, ◌||◌, Option, none, some, List, [], ◌∷◌, ◌++◌, map, append_assoc,
  append-nil, arith,
}
use linux_dev_framework.StringUtils.{streq}

-- What `waitpid` with WNOHANG and WUNTRACED gives: -1, 0, or the child that changed its state.
pub data Wait : Type 0 where
  failed : Wait
  nothing : Wait
  changed : (child : ℕ) → Wait

-- The system calls that the program makes. A process number is none for INVALID_PID, and `fork` gives
-- the parent's result, none when it fails.
pub record Kernel (World : Type 0) : Type 0 where
  pub fork : World → Option ℕ × World
  pub waitpid : Option ℕ → World → Wait × World
  pub kill : Option ℕ → (signal : ℕ) → World → World
  pub nano_sleep : (seconds : ℕ) → World → World
  pub reboot : World → World

abbrev pub sigint : ℕ
sigint = 2

abbrev pub sigkill : ℕ
sigkill = 9

pub data RestoreMode : Type 0 where
  machine : RestoreMode
  process : RestoreMode

pub record ProcessItem : Type 0 where
  pub bin_path : List ℕ
  pub args : List ℕ
  pub argv : List (List ℕ)
  pub restore_mode : RestoreMode
  pub pid : Option ℕ

-- What a step of the main loop leaves: the list goes on being watched, or the guard exits.
pub data Outcome (World : Type 0) : Type 0 where
  watching : List ProcessItem → World → Outcome World
  exits : (code : ℕ) → List ProcessItem → World → Outcome World

abbrev same_pid : ℕ → Option ℕ → Bool
same_pid q none = false
same_pid q (some p) = q == p

abbrev reports : Wait → Option ℕ → Bool
reports failed pid = false
reports nothing pid = false
reports (changed q) pid = same_pid q pid

module _ {World : Type 0} (k : Kernel World) where
  unfoldable pub kill_process : Option ℕ → World → World
  kill_process pid w =
      k.kill pid sigkill (k.nano_sleep 1 (k.kill pid sigint (k.nano_sleep 1 (k.kill pid sigint w))))

  abbrev pub forked : ProcessItem → Option ℕ × World → ProcessItem × World
  forked item (none, w) = (item, w)
  forked item (some p, w) = (record item { pid = some p }, w)

  unfoldable pub start_process : ProcessItem → World → ProcessItem × World
  start_process item w = forked item (k.fork w)

  unfoldable pub process_exited : ProcessItem → World → Bool × World
  process_exited item w = let (answer, w') = k.waitpid item.pid w in (reports answer item.pid, w')

  abbrev pub kill_valid : Option ℕ → World → World
  kill_valid none w = w
  kill_valid (some p) w = kill_process (some p) w

  unfoldable pub kill_process_list : List ProcessItem → World → List ProcessItem × World
  kill_process_list [] w = ([], w)
  kill_process_list (item ∷ list) w =
      let (killed, w') = kill_process_list list (kill_valid item.pid w) in
      (record item { pid = none } ∷ killed, w')

  unfoldable pub restart_system : List ProcessItem → World → List ProcessItem × World
  restart_system list w = let (killed, w') = kill_process_list list w in (killed, k.reboot w')

  -- The end of `restart_process` for an entry behind `before` that has been killed: the whole list is
  -- killed in the mode `machine`.
  abbrev pub restart_as :
      RestoreMode
      → (before : List ProcessItem) → ProcessItem
      → (behind : List ProcessItem) → World
      → Outcome World ⊎ (ProcessItem × World)
  restart_as machine before item behind w =
      let (killed, w') = restart_system (before ++ item ∷ behind) w in inl (exits 1 killed w')
  restart_as process before item behind w = inr (start_process item w)

  unfoldable pub restart_process :
      (before : List ProcessItem)
      → ProcessItem
      → (behind : List ProcessItem) → World
      → Outcome World ⊎ (ProcessItem × World)
  restart_process before item behind w =
      restart_as item.restore_mode before (record item { pid = none }) behind
        (kill_valid item.pid w)

  -- The walk over the list in the main loop, with the entries that it has passed.
  abbrev pub after_restart :
      ((before : List ProcessItem) → World → Outcome World)
      → (before : List ProcessItem) → Outcome World ⊎ (ProcessItem × World)
      → Outcome World
  after_restart next before (inl o) = o
  after_restart next before (inr (item, w)) = next (before ++ item ∷ []) w

  unfoldable pub watch : (before list : List ProcessItem) → World → Outcome World
  watch before [] w = watching before w
  watch before (item ∷ list) w =
      let (exited, w') = process_exited item w in
      elim exited [
        | true ↦ after_restart (λ b v. watch b list v) before (restart_process before item list w')
        | false ↦ watch (before ++ item ∷ []) list w'
      ]

  unfoldable pub start_process_list : List ProcessItem → World → List ProcessItem × World
  start_process_list [] w = ([], w)
  start_process_list (item ∷ list) w =
      let (item', w') = start_process item w in
      let (started, w'') = start_process_list list w' in (item' ∷ started, w'')

  -- What is left running is killed when the guard quits.
  unfoldable pub force_quit : List ProcessItem → World → World
  force_quit [] w = w
  force_quit (item ∷ list) w =
      let (exited, w') = process_exited item w in
      force_quit list (if exited then w' else k.kill item.pid sigkill w')

  unfoldable pub quit : List ProcessItem → World → World
  quit list w =
      force_quit list
        (k.nano_sleep 1 (k.kill (some 0) sigint (k.nano_sleep 1 (k.kill (some 0) sigint w))))

  abbrev pub after_round :
      (List ProcessItem → World → Outcome World) → Outcome World → Outcome World
  after_round next (watching list w) = next list (k.nano_sleep 5 w)
  after_round next (exits code list w) = exits code list w

  -- The main loop over the values of `g_need_exit` at its rounds.
  unfoldable pub supervise : (need_exit : List Bool) → List ProcessItem → World → Outcome World
  supervise [] list w = watching list w
  supervise (true ∷ rounds) list w = exits 0 list (quit list w)
  supervise (false ∷ rounds) list w = after_round (supervise rounds) (watch [] list w)

-- A word in front of what is made of the text behind it.
abbrev pub word_then : (List ℕ → List (List ℕ)) → Option (List ℕ × List ℕ) → List (List ℕ)
word_then later none = []
word_then later (some (word, rest)) = word ∷ later rest

-- The arguments that `init_one_process` takes from the text, up to `room` of them.
unfoldable pub args_loop : (room : ℕ) → List ℕ → List (List ℕ)
args_loop zero s = []
args_loop (suc room) s = word_then (args_loop room) (strtok 32 s)

abbrev pub first_arg : (bin_path : List ℕ) → Option (List ℕ × List ℕ) → List (List ℕ)
first_arg bin_path none = bin_path ∷ args_loop 14 []
first_arg bin_path (some (word, rest)) = bin_path ∷ word ∷ args_loop 13 rest

unfoldable pub init_argv : (bin_path args : List ℕ) → List (List ℕ)
init_argv bin_path args = first_arg bin_path (strtok 32 args)

abbrev pub parse_mode : List ℕ → Option RestoreMode
parse_mode s =
    if streq (chars "machine") s
    then some machine
    else if streq (chars "process") s
    then some process
    else none

-- `init_one_process` on the three values of the configuration. Nothing when the guard quits for a
-- wrong mode, dereferences a missing value, or a value fills its array so that no 0 ends it.
unfoldable pub init_one_process : (bin_path args mode : Option (List ℕ)) → Option ProcessItem
init_one_process bin_path args mode = bin_path >>= λ b. args >>= λ a. mode >>= λ m.
    parse_mode m >>= λ r.
    if ltb (length b) 1024 && ltb (length a) 128
    then some
        (record { bin_path = b; args = a; argv = init_argv b a; restore_mode = r; pid = none })
    else none
