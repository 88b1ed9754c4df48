-- ===== src/Guard/Tables.antt =====
-- What simple_apps/guard.c relies on of the kernel, and how a table of programs is related to it.
use linux_dev_framework.Base.{ℕ, ◌≡◌, ◌≢◌, ◌⊎◌, some, List, [], ◌∷◌, ◌++◌}
use linux_dev_framework.Guard.{Wait, Kernel, ProcessItem}

-- A process number has not been given yet, its process has been reaped, runs, or has ended and waits
-- for its parent.
pub data Life : Type 0 where
  unused : Life
  gone : Life
  alive : Life
  down : Life

-- What may become of a process while the guard does not reap it.
pub data Kept (a b : Life) : Type 0 where
  same : b ≡ a → Kept a b
  dies : a ≡ Life.alive → b ≡ Life.down → Kept a b

-- What the system calls promise of the children of the guard, as long as no number is given twice.
-- While the guard sleeps, its children may go down.
pub record Lawful {World : Type 0} (k : Kernel World) (life : World → ℕ → Life) : Type 0 where
  pub wait_down :
      (w : World) (p : ℕ) → life w p ≡ Life.down → (k.waitpid (some p) w).0 ≡ Wait.changed p
  pub wait_reaps :
      (w : World) (p : ℕ) → life w p ≡ Life.down → life (k.waitpid (some p) w).1 p ≡ Life.gone
  pub wait_alive :
      (w : World) (p : ℕ) → life w p ≡ Life.alive → (k.waitpid (some p) w).0 ≡ Wait.nothing
  pub wait_same :
      (w : World) (p : ℕ) → life w p ≡ Life.alive → life (k.waitpid (some p) w).1 p ≡ Life.alive
  pub wait_other : (w : World) (p q : ℕ) → q ≢ p → life (k.waitpid (some p) w).1 q ≡ life w q
  pub kill_gone :
      (w : World) (p s : ℕ) → life w p ≡ Life.gone → life (k.kill (some p) s w) p ≡ Life.gone
  pub kill_other : (w : World) (p s q : ℕ) → q ≢ p → life (k.kill (some p) s w) q ≡ life w q
  pub sleeps : (w : World) (n q : ℕ) → Kept (life w q) (life (k.nano_sleep n w) q)
  pub fork_new : (w : World) (p : ℕ) → (k.fork w).0 ≡ some p → life w p ≡ Life.unused
  pub fork_alive : (w : World) (p : ℕ) → (k.fork w).0 ≡ some p → life (k.fork w).1 p ≡ Life.alive
  pub fork_other : (w : World) (q : ℕ) → life w q ≢ Life.unused → life (k.fork w).1 q ≡ life w q

abbrev pub Known : Life → Type 0
Known a = (a ≡ Life.alive) ⊎ (a ≡ Life.down)

-- Every fork gives a process.
abbrev pub Forks : {World : Type 0} → Kernel World → Type 0
Forks {World} k = (w : World) → (p : ℕ) × ((k.fork w).0 ≡ some p)

-- The two lists have the same length, and their entries are related.
abbrev pub Pairs :
    (ProcessItem → ProcessItem → Type 0) → List ProcessItem → List ProcessItem → Type 0
Pairs R [] [] = Unit
Pairs R [] (j ∷ l) = ⊥
Pairs R (i ∷ k) [] = ⊥
Pairs R (i ∷ k) (j ∷ l) = R i j × Pairs R k l

abbrev pub Each : (ProcessItem → Type 0) → List ProcessItem → Type 0
Each P [] = Unit
Each P (i ∷ l) = P i × Each P l

-- No entry has the process number.
abbrev pub Apart : ℕ → List ProcessItem → Type 0
Apart q l = Each (λ i. i.pid ≢ some q) l

-- The entry has a process that runs or waits to be reaped.
pub record Tracked (life : ℕ → Life) (i : ProcessItem) : Type 0 where
  pub number : ℕ
  pub has : i.pid ≡ some number
  pub known : Known (life number)

-- All entries are tracked, and no two have the same process.
abbrev pub Table : (ℕ → Life) → List ProcessItem → Type 0
Table life [] = Unit
Table life (i ∷ l) = (t : Tracked life i) × Apart t.number l × Table life l

-- The same program, with a new process if the old one was down.
pub record Renewed (life : ℕ → Life) (i j : ProcessItem) : Type 0 where
  pub same_path : j.bin_path ≡ i.bin_path
  pub same_argv : j.argv ≡ i.argv
  pub same_mode : j.restore_mode ≡ i.restore_mode
  pub renews : (p : ℕ) → i.pid ≡ some p → life p ≡ Life.down → j.pid ≢ some p

-- The same program.
abbrev pub SameProgram : ProcessItem → ProcessItem → Type 0
SameProgram i j = (j.bin_path ≡ i.bin_path) × (j.argv ≡ i.argv) × (j.restore_mode ≡ i.restore_mode)

pub Pairs-append :
    (R : ProcessItem → ProcessItem → Type 0) (a b c d : List ProcessItem)
    → Pairs R a b
    → Pairs R c d
    → Pairs R (a ++ c) (b ++ d)
Pairs-append R [] [] c d p q = q
Pairs-append R [] (j ∷ b) c d p q = absurd p
Pairs-append R (i ∷ a) [] c d p q = absurd p
Pairs-append R (i ∷ a) (j ∷ b) c d (r, p) q = (r, Pairs-append R a b c d p q)
