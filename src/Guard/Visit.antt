-- ===== src/Guard/Visit.antt =====
-- One visit of an entry in the main loop of simple_apps/guard.c.
use linux_dev_framework.Base.{
  ==_refl, some_inj, ℕ, ◌≡◌, refl, sym, ap, ◌∙◌, subst, ◌≢◌, inl, inr, Bool, true, false, Option,
  none, some, List, [], ◌∷◌, ◌++◌, append_assoc, append-nil,
}
use linux_dev_framework.Guard.{
  Kernel, RestoreMode, ProcessItem, Outcome, reports, forked, kill_valid, kill_process,
  start_process, process_exited, restart_process, watch, restart_as, after_restart,
}
use linux_dev_framework.Guard.Tables.{Life, Kept, Known, Lawful, Forks, Each, Tracked, Renewed}

abbrev pub Process : ProcessItem → Type 0
Process i = i.restore_mode ≡ RestoreMode.process

module _ {World : Type 0} (k : Kernel World) where
  -- What one visit makes of an entry that is restored alone.
  abbrev pub revisit : Bool → ProcessItem → World → ProcessItem × World
  revisit true i w = start_process k (record i { pid = none }) (kill_valid k i.pid w)
  revisit false i w = (i, w)

  unfoldable pub visit : ProcessItem → World → ProcessItem × World
  visit i w = revisit (process_exited k i w).0 i (process_exited k i w).1

  unfoldable pub refresh : List ProcessItem → World → List ProcessItem × World
  refresh [] w = ([], w)
  refresh (i ∷ l) w = ((visit i w).0 ∷ (refresh l (visit i w).1).0, (refresh l (visit i w).1).1)

  watch-step :
      (e : Bool) (before : List ProcessItem) (i : ProcessItem) (l : List ProcessItem) (w : World)
      → Process i
      → elim e as (λ x. Outcome World) [
        | true ↦ after_restart k (λ b v. watch k b l v) before (restart_process k before i l w)
        | false ↦ watch k (before ++ i ∷ []) l w
      ]
        ≡ watch k (before ++ (revisit e i w).0 ∷ []) l (revisit e i w).1
  unfolding restart_process
  watch-step true before i l w h =
      ap
        (λ m.
          after_restart k (λ b v. watch k b l v) before
            (restart_as k m before (record i { pid = none }) l (kill_valid k i.pid w)))
        h
  watch-step false before i l w h = refl

  pub watch-refresh :
      (before l : List ProcessItem) (w : World)
      → Each Process l
      → watch k before l w ≡ Outcome.watching (before ++ (refresh l w).0) (refresh l w).1
  unfolding watch refresh visit
  watch-refresh before [] w h = rw (append-nil before) refl
  watch-refresh before (i ∷ l) w (h, hs) =
      watch-step (process_exited k i w).0 before i l (process_exited k i w).1 h
      ∙ watch-refresh (before ++ (visit i w).0 ∷ []) l (visit i w).1 hs
      ∙ ap (λ b. Outcome.watching b (refresh l (visit i w).1).1)
          (append_assoc before ((visit i w).0 ∷ []) (refresh l (visit i w).1).0)

pub Kept-trans : {a b c : Life} → Kept a b → Kept b c → Kept a c
Kept-trans (Kept.same e) (Kept.same f) = Kept.same (f ∙ e)
Kept-trans (Kept.same e) (Kept.dies f g) = Kept.dies (sym e ∙ f) g
Kept-trans (Kept.dies e f) (Kept.same g) = Kept.dies e (g ∙ f)
Kept-trans (Kept.dies e f) (Kept.dies g h) = cc

pub Kept-down : {a b : Life} → Kept a b → a ≡ Life.down → b ≡ Life.down
Kept-down (Kept.same e) d = e ∙ d
Kept-down (Kept.dies e f) d = f

Kept-gone : {a b : Life} → Kept a b → a ≡ Life.gone → b ≡ Life.gone
Kept-gone (Kept.same e) d = e ∙ d
Kept-gone (Kept.dies e f) d = cc

pub Kept-Known : {a b : Life} → Kept a b → Known a → Known b
Kept-Known (Kept.same e) (inl x) = inl (e ∙ x)
Kept-Known (Kept.same e) (inr x) = inr (e ∙ x)
Kept-Known (Kept.dies e f) x = inr f

pub Known-ne-unused : (a : Life) → Known a → a ≢ Life.unused
Known-ne-unused a (inl x) e = cc
Known-ne-unused a (inr x) e = cc

-- An entry with the process `p` is visited: the other processes are kept, and the entry is tracked
-- by a process that none of them has.
pub record Visited (f g : ℕ → Life) (p : ℕ) (i j : ProcessItem) : Type 0 where
  pub others : (q : ℕ) → q ≢ p → Known (f q) → Kept (f q) (g q)
  pub tracked : Tracked g j
  pub fresh : (q : ℕ) → q ≢ p → Known (f q) → j.pid ≢ some q
  pub renewed : Renewed f i j

module _ {World : Type 0} (k : Kernel World) (life : World → ℕ → Life) (law : Lawful k life) where
  kill_process-Kept :
      (w : World) (p q : ℕ) → q ≢ p → Kept (life w q) (life (kill_process k (some p) w) q)
  unfolding kill_process
  kill_process-Kept w p q h =
      let killed = λ (v : World) (s : ℕ). Kept.same (law.kill_other v p s q h) in
      Kept-trans (killed _ _) (
        Kept-trans (law.sleeps _ 1 q)
          (Kept-trans (killed _ _) (Kept-trans (law.sleeps _ 1 q) (killed _ _))))

  kill_process-gone :
      (w : World) (p : ℕ) → life w p ≡ Life.gone → life (kill_process k (some p) w) p ≡ Life.gone
  unfolding kill_process
  kill_process-gone w p h = law.kill_gone _ p _ (
      Kept-gone (law.sleeps _ 1 p)
        (law.kill_gone _ p _ (Kept-gone (law.sleeps _ 1 p) (law.kill_gone w p _ h))))

  -- A fork for an entry whose process is gone.
  forked-Visited :
      (w v : World) (p new : ℕ) (i : ProcessItem) (r : Option ℕ × World)
      → i.pid ≡ some p
      → ((q : ℕ) → q ≢ p → Known (life w q) → Kept (life w q) (life v q))
      → life v p ≡ Life.gone
      → r.0 ≡ some new
      → life v new ≡ Life.unused
      → life r.1 new ≡ Life.alive
      → ((q : ℕ) → life v q ≢ Life.unused → life r.1 q ≡ life v q)
      → Visited
          (life w)
          (life (forked k (record i { pid = none }) r).1)
          p
          i
          (forked k (record i { pid = none }) r).0
  forked-Visited w v p new i (none, u) has before over e unused alive after = cc
  forked-Visited w v p new i (some x, u) has before over e unused alive after =
      let same : x ≡ new = some_inj e in
      record {
        others = λ q h n.
            Kept-trans (before q h n)
              (Kept.same (after q (Known-ne-unused (life v q) (Kept-Known (before q h n) n))));
        tracked = record { number = x; has = refl; known = inl (ap (life u) same ∙ alive) };
        fresh = λ q h n y.
            Known-ne-unused (life v q) (Kept-Known (before q h n) n)
              (ap (life v) (sym (some_inj y) ∙ same) ∙ unused);
        renewed = record {
          same_path = refl;
          same_argv = refl;
          same_mode = refl;
          renews = λ z hz d y.
              let a : z ≡ p = some_inj (sym hz ∙ has) in
              let b : z ≡ new = sym (some_inj y) ∙ same in
              let c : life v p ≡ life v new = ap (life v) (sym a ∙ b) in cc (c, over, unused);
        };
      }

  visit_alive :
      (w : World) (p : ℕ) (i : ProcessItem)
      → i.pid ≡ some p
      → life w p ≡ Life.alive
      → Visited (life w) (life (visit k i w).1) p i (visit k i w).0
  unfolding visit process_exited
  visit_alive w p i has a =
      let quiet : reports (k.waitpid i.pid w).0 i.pid ≡ false =
        rw has (ap (λ x. reports x (some p)) (law.wait_alive w p a)) in
      subst
        (λ e.
          Visited (life w) (life (revisit k e i (k.waitpid i.pid w).1).1) p i
            (revisit k e i (k.waitpid i.pid w).1).0)
        (sym quiet)
        (subst (λ x. Visited (life w) (life (k.waitpid x w).1) p i i) (sym has)
          (record {
            others = λ q h n. Kept.same (law.wait_other w p q h);
            tracked = record { number = p; has = has; known = inl (law.wait_same w p a) };
            fresh = λ q h n y. h (some_inj (sym y ∙ has));
            renewed = record {
              same_path = refl;
              same_argv = refl;
              same_mode = refl;
              renews = λ z hz d y.
                  let b : z ≡ p = some_inj (sym hz ∙ has) in
                  let c : life w z ≡ life w p = ap (life w) b in cc (c, a, d);
            };
          }))

  module _ (forks : Forks k) where
    restarted :
        (w v : World) (p : ℕ) (i : ProcessItem)
        → i.pid ≡ some p
        → ((q : ℕ) → q ≢ p → life v q ≡ life w q)
        → life v p ≡ Life.gone
        → Visited (life w) (life (revisit k true i v).1) p i (revisit k true i v).0
    unfolding start_process
    restarted w v p i has other reaped =
        let v' = kill_process k (some p) v in
        let (new, e) = forks v' in
        subst
          (λ x.
            Visited (life w) (life (start_process k (record i { pid = none }) (kill_valid k x v)).1)
              p i (start_process k (record i { pid = none }) (kill_valid k x v)).0)
          (sym has)
          (forked-Visited w v' p new i (k.fork v') has
            (λ q h n. Kept-trans (Kept.same (other q h)) (kill_process-Kept v p q h))
            (kill_process-gone v p reaped) e (law.fork_new v' new e) (law.fork_alive v' new e)
            (law.fork_other v'))

    visit_down :
        (w : World) (p : ℕ) (i : ProcessItem)
        → i.pid ≡ some p
        → life w p ≡ Life.down
        → Visited (life w) (life (visit k i w).1) p i (visit k i w).0
    unfolding visit process_exited
    visit_down w p i has d =
        let report : reports (k.waitpid i.pid w).0 i.pid ≡ true =
          rw has (ap (λ x. reports x (some p)) (law.wait_down w p d) ∙ ==_refl p) in
        subst
          (λ e.
            Visited (life w) (life (revisit k e i (k.waitpid i.pid w).1).1) p i
              (revisit k e i (k.waitpid i.pid w).1).0)
          (sym report)
          (subst
            (λ x.
              Visited (life w) (life (revisit k true i (k.waitpid x w).1).1) p i
                (revisit k true i (k.waitpid x w).1).0)
            (sym has)
            (restarted w (k.waitpid (some p) w).1 p i has (λ q h. law.wait_other w p q h)
              (law.wait_reaps w p d)))

    pub visit-Visited :
        (w : World) (i : ProcessItem) (t : Tracked (life w) i)
        → Visited (life w) (life (visit k i w).1) t.number i (visit k i w).0
    visit-Visited w i t = elim t.known [
      | inl a ↦ visit_alive w t.number i t.has a
      | inr d ↦ visit_down w t.number i t.has d
    ]
