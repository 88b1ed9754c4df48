-- ===== src/Guard/Toy.antt =====
-- A small kernel for the tests of simple_apps/guard.c.
use linux_dev_framework.Base.{
  ltb, ◌==◌, if◌then◌else◌, ==_refl, Bool-cases, some_inj, ℕ, ◌+◌, ◌≡◌, refl, sym, ap, ◌∙◌, ◌≢◌,
  inl, inr, Bool, true, false, Option, none, some, arith,
}
use linux_dev_framework.Guard.{Wait, Kernel}
use linux_dev_framework.Guard.Tables.{Life, Kept, Lawful, Forks}

-- Numbers below `next` are in use; a process ends only when it is killed.
pub record Toy : Type 0 where
  pub next : ℕ
  pub states : ℕ → Life

unfoldable pub toy_life : Toy → ℕ → Life
toy_life w p = if ltb p w.next then w.states p else Life.unused

abbrev pub put : ℕ → Life → (ℕ → Life) → ℕ → Life
put p x f q = if q == p then x else f q

abbrev pub wait_for : ℕ → Life → Toy → Wait × Toy
wait_for p Life.unused w = (Wait.failed, w)
wait_for p Life.gone w = (Wait.failed, w)
wait_for p Life.alive w = (Wait.nothing, w)
wait_for p Life.down w = (Wait.changed p, record w { states = put p Life.gone w.states })

abbrev pub killed : Life → Life
killed Life.alive = Life.down
killed x = x

abbrev pub toy_wait : Option ℕ → Toy → Wait × Toy
toy_wait none w = (Wait.failed, w)
toy_wait (some p) w = wait_for p (toy_life w p) w

abbrev pub toy_kill : Option ℕ → (signal : ℕ) → Toy → Toy
toy_kill none s w = w
toy_kill (some p) s w = record w {
  states = put p (if s == 9 then killed (w.states p) else w.states p) w.states;
}

abbrev pub toy : Kernel Toy
toy = record {
  fork = λ w. (some w.next, record { next = w.next + 1; states = put w.next Life.alive w.states });
  waitpid = toy_wait;
  kill = toy_kill;
  nano_sleep = λ n w. w;
  reboot = λ w. w;
}

pub toy-Forks : Forks toy
toy-Forks w = (w.next, refl)

toy_wait-eq : (w : Toy) (p : ℕ) (x : Life) → toy_life w p ≡ x → toy_wait (some p) w ≡ wait_for p x w
toy_wait-eq w p x e = ap (λ y. wait_for p y w) e

toy_life-put :
    (w : Toy) (p q : ℕ) (x : Life)
    → q ≢ p
    → toy_life (record w { states = put p x w.states }) q ≡ toy_life w q
unfolding toy_life
toy_life-put w p q x h = ground arith

wait_for-other :
    (w : Toy) (p q : ℕ) (x : Life) → q ≢ p → toy_life (wait_for p x w).1 q ≡ toy_life w q
wait_for-other w p q Life.unused h = refl
wait_for-other w p q Life.gone h = refl
wait_for-other w p q Life.alive h = refl
wait_for-other w p q Life.down h = toy_life-put w p q Life.gone h

reaped :
    (w : Toy) (p : ℕ) → toy_life w p ≡ Life.down → toy_life (wait_for p Life.down w).1 p ≡ Life.gone
unfolding toy_life
reaped w p h = ground arith

killed_gone : (b : Bool) (x : Life) → x ≡ Life.gone → (if b then killed x else x) ≡ Life.gone
killed_gone true x h = ap killed h
killed_gone false x h = h

stays_gone :
    (w : Toy) (p s : ℕ) → toy_life w p ≡ Life.gone → toy_life (toy_kill (some p) s w) p ≡ Life.gone
unfolding toy_life
stays_gone w p s h = elim (Bool-cases (ltb p w.next)) [
  | inl below ↦
      let g : w.states p ≡ Life.gone = rw below at h in
      rw (below, ==_refl p) (killed_gone (s == 9) (w.states p) g)
  | inr above ↦ let g : Life.unused ≡ Life.gone = rw above at h in cc
]

forked_alive : (w : Toy) → toy_life (toy.fork w).1 w.next ≡ Life.alive
unfolding toy_life
forked_alive w = ground arith

forked_other :
    (w : Toy) (q : ℕ) → toy_life w q ≢ Life.unused → toy_life (toy.fork w).1 q ≡ toy_life w q
unfolding toy_life
forked_other w q h = ground arith

next_unused : (w : Toy) → toy_life w w.next ≡ Life.unused
unfolding toy_life
next_unused w = ground arith

pub toy-Lawful : Lawful toy toy_life
toy-Lawful = record {
  wait_down = λ w p h. ap (λ x. x.0) (toy_wait-eq w p Life.down h);
  wait_reaps = λ w p h. ap (λ x. toy_life x.1 p) (toy_wait-eq w p Life.down h) ∙ reaped w p h;
  wait_alive = λ w p h. ap (λ x. x.0) (toy_wait-eq w p Life.alive h);
  wait_same = λ w p h. ap (λ x. toy_life x.1 p) (toy_wait-eq w p Life.alive h) ∙ h;
  wait_other = λ w p q h. wait_for-other w p q (toy_life w p) h;
  kill_gone = λ w p s h. stays_gone w p s h;
  kill_other = λ w p s q h. toy_life-put w p q _ h;
  sleeps = λ w n q. Kept.same refl;
  fork_new = λ w p e. ap (toy_life w) (sym (some_inj e)) ∙ next_unused w;
  fork_alive = λ w p e. ap (toy_life (toy.fork w).1) (sym (some_inj e)) ∙ forked_alive w;
  fork_other = λ w q h. forked_other w q h;
}
