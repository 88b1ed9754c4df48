-- ===== src/Guard/Start.antt =====
-- The start of the programs in simple_apps/guard.c, and the main loop behind it.
use linux_dev_framework.Base.{ℕ, ◌≡◌, List}
use linux_dev_framework.Guard.{ProcessItem}
use linux_dev_framework.Guard.Tables.{Life, Known, Pairs, Apart, Table, SameProgram}

record Started (f g : ℕ → Life) (l l' : List ProcessItem) : Type 0 where
  others : (q : ℕ) → Known (f q) → (g q ≡ f q) × Apart q l'
  table : Table g l'
  programs : Pairs SameProgram l l'
