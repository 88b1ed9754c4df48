-- ===== src/Guard/Lost.antt =====
-- What simple_apps/guard.c does with a program that has no process, and how it gives up.
use linux_dev_framework.Base.{
  ◌≡◌, refl, sym, subst, ◌≢◌, Bool, true, false, none, List, [], ◌∷◌, ◌++◌, append_assoc,
  append-nil,
}
use linux_dev_framework.Guard.{
  Wait, Kernel, RestoreMode, ProcessItem, Outcome, reports, kill_valid, start_process,
  process_exited, kill_process_list, restart_system, restart_process, restart_as, watch, supervise,
  after_restart, after_round,
}
use linux_dev_framework.Guard.Tables.{Pairs, Each, Pairs-append}

-- The table that is left.
abbrev pub items : {World : Type 0} → Outcome World → List ProcessItem
items (Outcome.watching l w) = l
items (Outcome.exits code l w) = l

-- The entry had no process and has none.
abbrev pub Lost : ProcessItem → ProcessItem → Type 0
Lost i j = i.pid ≡ none → j.pid ≡ none

reports-none : (a : Wait) → reports a none ≡ false
reports-none Wait.failed = refl
reports-none Wait.nothing = refl
reports-none (Wait.changed q) = refl

Lost-trans : (a b c : List ProcessItem) → Pairs Lost a b → Pairs Lost b c → Pairs Lost a c
Lost-trans [] [] [] p q = tt
Lost-trans [] [] (z ∷ c) p q = absurd q
Lost-trans [] (y ∷ b) c p q = absurd p
Lost-trans (x ∷ a) [] c p q = absurd p
Lost-trans (x ∷ a) (y ∷ b) [] p q = absurd q
Lost-trans (x ∷ a) (y ∷ b) (z ∷ c) (p, ps) (q, qs) = (λ h. q (p h), Lost-trans a b c ps qs)

Lost-refl : (a : List ProcessItem) → Pairs Lost a a
Lost-refl [] = tt
Lost-refl (x ∷ a) = (λ h. h, Lost-refl a)

-- The guard has exited with code 1 after it killed what its table held and rebooted.
abbrev pub GivesUp : {World : Type 0} → Kernel World → Outcome World → Type 0
GivesUp k (Outcome.watching l w) = Unit
GivesUp {World} k (Outcome.exits code l w) =
    (code ≡ 1) × Each (λ i. i.pid ≡ none) l × ((v : World) × (w ≡ k.reboot v))

module _ {World : Type 0} (k : Kernel World) where
  killed-none :
      (l : List ProcessItem) (w : World)
      → Each (λ i. i.pid ≡ none) (kill_process_list k l w).0
        × Pairs Lost l (kill_process_list k l w).0
  unfolding kill_process_list
  killed-none [] w = (tt, tt)
  killed-none (i ∷ l) w =
      let (a, b) = killed-none l (kill_valid k i.pid w) in ((refl, a), (λ h. refl, b))

  process_exited-pid :
      (i : ProcessItem) (w : World) → (process_exited k i w).0 ≡ true → i.pid ≢ none
  unfolding process_exited
  process_exited-pid i w e n =
      let f : reports (k.waitpid i.pid w).0 i.pid ≡ false = rw n (reports-none _) in cc

  -- What holds of the end of a walk.
  abbrev Ends : List ProcessItem → Outcome World → Type 0
  Ends l o = Pairs Lost l (items o) × GivesUp k o

  -- The walk over `l` behind any entries.
  abbrev Walks : List ProcessItem → Type 0
  Walks l = (a b : List ProcessItem) (w : World) → Pairs Lost a b → Ends (a ++ l) (watch k b l w)

  restart_as-Ends :
      (m : RestoreMode) (a b : List ProcessItem) (i j : ProcessItem) (l : List ProcessItem)
      (w : World)
      → i.pid ≢ none
      → j.pid ≡ none
      → Walks l
      → Pairs Lost a b
      → Ends (a ++ i ∷ l) (after_restart k (λ c v. watch k c l v) b (restart_as k m b j l w))
  unfolding restart_system
  restart_as-Ends RestoreMode.machine a b i j l w n e walks p =
      let (none_left, pairs) = killed-none (b ++ j ∷ l) w in
      (
        Lost-trans (a ++ i ∷ l) (b ++ j ∷ l) (kill_process_list k (b ++ j ∷ l) w).0
            (Pairs-append Lost a b (i ∷ l) (j ∷ l) p (λ h. e, Lost-refl l)) pairs,
        (refl, none_left, ((kill_process_list k (b ++ j ∷ l) w).1, refl)),
      )
  restart_as-Ends RestoreMode.process a b i j l w n e walks p =
      let (j', v) = start_process k j w in
      subst (λ x. Ends x (watch k (b ++ j' ∷ []) l v)) (append_assoc a (i ∷ []) l)
        (walks (a ++ i ∷ []) (b ++ j' ∷ []) v
          (Pairs-append Lost a b (i ∷ []) (j' ∷ []) p (λ h. absurd (n h), tt)))

  one_visit :
      (e : Bool) (a b : List ProcessItem) (i : ProcessItem) (l : List ProcessItem) (w : World)
      → (e ≡ true → i.pid ≢ none)
      → Walks l
      → Pairs Lost a b
      → Ends (a ++ i ∷ l) (elim e as (λ x. Outcome World) [
        | true ↦ after_restart k (λ c v. watch k c l v) b (restart_process k b i l w)
        | false ↦ watch k (b ++ i ∷ []) l w
      ])
  unfolding restart_process
  one_visit true a b i l w n walks p =
      restart_as-Ends i.restore_mode a b i (record i { pid = none }) l (kill_valid k i.pid w)
        (n refl) refl walks p
  one_visit false a b i l w n walks p =
      subst (λ x. Ends x (watch k (b ++ i ∷ []) l w)) (append_assoc a (i ∷ []) l)
        (walks (a ++ i ∷ []) (b ++ i ∷ []) w
          (Pairs-append Lost a b (i ∷ []) (i ∷ []) p (λ h. h, tt)))

  watch-Ends : (l : List ProcessItem) → Walks l
  unfolding watch
  watch-Ends [] a b w p = (subst (λ x. Pairs Lost x b) (sym (append-nil a)) p, tt)
  watch-Ends (i ∷ l) a b w p =
      one_visit (process_exited k i w).0 a b i l (process_exited k i w).1 (process_exited-pid i w)
        (watch-Ends l) p

  -- A round of the main loop gives up only with code 1, after it rebooted and with no process left in
  -- the table.
  pub watch-GivesUp : (list : List ProcessItem) (w : World) → GivesUp k (watch k [] list w)
  watch-GivesUp list w = (watch-Ends list [] [] w tt).1

  after_round-Lost :
      (l : List ProcessItem) (o : Outcome World) (next : List ProcessItem → World → Outcome World)
      → ((l' : List ProcessItem) (w : World) → Pairs Lost l' (items (next l' w)))
      → Pairs Lost l (items o)
      → Pairs Lost l (items (after_round k next o))
  after_round-Lost l (Outcome.watching l' w) next later p =
      Lost-trans l l' (items (next l' (k.nano_sleep 5 w))) p (later l' (k.nano_sleep 5 w))
  after_round-Lost l (Outcome.exits code l' w) next later p = p

  -- A program that has no process, as after a failed fork, never gets one: whatever the system calls
  -- give, in any number of rounds, the entry stays without a process.
  pub supervise-Lost :
      (need_exit : List Bool) (list : List ProcessItem) (w : World)
      → Pairs Lost list (items (supervise k need_exit list w))
  unfolding supervise
  supervise-Lost [] list w = Lost-refl list
  supervise-Lost (true ∷ rounds) list w = Lost-refl list
  supervise-Lost (false ∷ rounds) list w =
      after_round-Lost list (watch k [] list w) (supervise k rounds) (supervise-Lost rounds)
        (watch-Ends list [] [] w tt).0
