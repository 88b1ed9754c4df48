-- ===== src/Guard/Tests.antt =====
-- simple_apps/guard.c on a small kernel.
use linux_dev_framework.Base.{
  ◌>>=◌, some_inj, replicate, chars, ℕ, ◌≡◌, refl, inl, inr, false, Option, none, some, List, [],
  ◌∷◌, arith,
}
use linux_dev_framework.Guard.{
  RestoreMode, ProcessItem, Outcome, init_one_process, watch, supervise, process_exited,
  restart_process, restart_system, kill_process_list,
}
use linux_dev_framework.Guard.Tables.{Life, Pairs, Each, Table, SameProgram}
use linux_dev_framework.Config.{Var}
use linux_dev_framework.Config.Store.{Store}
use linux_dev_framework.Guard.Rounds.{supervise-Table}
use linux_dev_framework.Guard.Lost.{Lost, items, supervise-Lost}
use linux_dev_framework.Guard.Toy.{Toy, toy_life, toy, toy-Forks, toy-Lawful, put}

-- Two programs, the first of which is down, and one with no process.
abbrev prog : ℕ → Option ℕ → ProcessItem
prog name pid = record {
  bin_path = name ∷ [];
  args = [];
  argv = (name ∷ []) ∷ [];
  restore_mode = RestoreMode.process;
  pid = pid;
}

abbrev two : List ProcessItem
two = prog 97 (some 5) ∷ prog 98 (some 6) ∷ []

abbrev start : Toy
start = record { next = 7; states = put 5 Life.down (λ q. Life.alive) }

two-Table : Table (toy_life start) two
unfolding toy_life
two-Table = (
  record { number = 5; has = refl; known = inr refl },
  (λ e. absurd (omega (arith, some_inj e)), tt),
  (record { number = 6; has = refl; known = inl refl }, tt, tt),
)

two-process : Each (λ i. i.restore_mode ≡ RestoreMode.process) two
two-process = (refl, (refl, tt))

supervise-Table_example :
    (list' : List ProcessItem) × (w' : Toy) × (supervise toy (replicate 3 false) two start
      ≡ Outcome.watching list' w')
    × Table (toy_life w') list'
    × Pairs SameProgram two list'
supervise-Table_example =
    supervise-Table toy toy_life toy-Lawful toy-Forks 3 two start two-process two-Table

supervise-Lost_example :
    Pairs Lost
      (prog 97 none ∷ two)
      (items (supervise toy (false ∷ false ∷ []) (prog 97 none ∷ two) start))
supervise-Lost_example = supervise-Lost toy (false ∷ false ∷ []) (prog 97 none ∷ two) start

abbrev boot : List ProcessItem
boot = record (prog 97 (some 5)) { restore_mode = RestoreMode.machine } ∷ []

gave_up :
    (items (watch toy [] boot start))
    ≡ record (prog 97 none) { restore_mode = RestoreMode.machine } ∷ []
unfolding watch toy_life process_exited restart_process restart_system kill_process_list
gave_up = refl

abbrev var : List ℕ → List ℕ → Var
var name value = record { name = name; value = value }

-- process_num="1" bin_path_0="a" args_0="-d" restore_mode_0="process"
abbrev small : Store
small = record {
  vars =
      var (chars "process_num") (chars "1")
      ∷ var (chars "bin_path_0") (97 ∷ [])
      ∷ var (chars "args_0") (45 ∷ 100 ∷ [])
      ∷ var (chars "restore_mode_0") (chars "process")
      ∷ [];
  ga_values_backup = none;
}

abbrev one : List ProcessItem
one =
    record {
      bin_path = 97 ∷ [];
      args = 45 ∷ 100 ∷ [];
      argv = (97 ∷ []) ∷ (45 ∷ 100 ∷ []) ∷ [];
      restore_mode = RestoreMode.process;
      pid = none;
    }
    ∷ []

wrong_mode : init_one_process (some (97 ∷ [])) (some []) (some (chars "machines")) ≡ none
unfolding init_one_process
wrong_mode = refl

mode_of : Option ProcessItem → Option RestoreMode
mode_of o = o >>= λ i. some i.restore_mode

by_process :
    mode_of (init_one_process (some (97 ∷ [])) (some []) (some (chars "process")))
    ≡ some RestoreMode.process
unfolding init_one_process mode_of
by_process = refl
