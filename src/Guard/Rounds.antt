-- ===== src/Guard/Rounds.antt =====
-- The rounds of simple_apps/guard.c over a table of programs that are restored one by one.
use linux_dev_framework.Base.{
  replicate, ℕ, zero, suc, ◌≡◌, refl, sym, ap, ◌∙◌, ◌≢◌, inr, false, some, List, [], ◌∷◌,
}
use linux_dev_framework.Guard.{Kernel, ProcessItem, Outcome, watch, supervise, after_round}
use linux_dev_framework.Guard.Tables.{
  Life, Kept, Known, Lawful, Forks, Pairs, Each, Apart, Tracked, Table, Renewed, SameProgram,
}
use linux_dev_framework.Guard.Visit.{
  Process, visit, refresh, watch-refresh, Kept-trans, Kept-down, Kept-Known, Visited, visit-Visited,
}

-- What a walk over the list leaves.
record Refreshed (f g : ℕ → Life) (l l' : List ProcessItem) : Type 0 where
  others : (q : ℕ) → Known (f q) → Apart q l → Kept (f q) (g q) × Apart q l'
  table : Table g l'
  renewed : Pairs (Renewed f) l l'

-- All processes but `p` are kept.
abbrev Beside : ℕ → (f g : ℕ → Life) → Type 0
Beside p f g = (q : ℕ) → q ≢ p → Known (f q) → Kept (f q) (g q)

Table-Beside :
    (p : ℕ) (f g : ℕ → Life) (l : List ProcessItem)
    → Beside p f g
    → Apart p l
    → Table f l
    → Table g l
Table-Beside p f g [] b a t = tt
Table-Beside p f g (i ∷ l) b (n, a) (t, s, u) = (
  record {
    number = t.number;
    has = t.has;
    known = Kept-Known (b t.number (λ e. n (t.has ∙ ap some e)) t.known) t.known;
  },
  s,
  Table-Beside p f g l b a u,
)

Renewed-Beside :
    (p : ℕ) (f g : ℕ → Life) (l l' : List ProcessItem)
    → Beside p f g
    → Apart p l
    → Pairs (Renewed g) l l'
    → Pairs (Renewed f) l l'
Renewed-Beside p f g [] [] b a r = tt
Renewed-Beside p f g [] (j ∷ l') b a r = absurd r
Renewed-Beside p f g (i ∷ l) [] b a r = absurd r
Renewed-Beside p f g (i ∷ l) (j ∷ l') b (n, a) (r, rs) = (
  record {
    same_path = r.same_path;
    same_argv = r.same_argv;
    same_mode = r.same_mode;
    renews = λ z hz d. r.renews z hz (Kept-down (b z (λ e. n (hz ∙ ap some e)) (inr d)) d);
  },
  Renewed-Beside p f g l l' b a rs,
)

-- The processes of a table are other than the one that a visited entry now has.
Apart-fresh :
    (f : ℕ → Life) (p x : ℕ) (j : ProcessItem) (l : List ProcessItem)
    → ((q : ℕ) → q ≢ p → Known (f q) → j.pid ≢ some q)
    → j.pid ≡ some x
    → Apart p l
    → Table f l
    → Apart x l
Apart-fresh f p x j [] fresh has a t = tt
Apart-fresh f p x j (i ∷ l) fresh has (n, a) (t, s, u) = (
  λ e. fresh t.number (λ y. n (t.has ∙ ap some y)) t.known (has ∙ sym e ∙ t.has),
  Apart-fresh f p x j l fresh has a u,
)

Refreshed-step :
    (f g h : ℕ → Life) (i j : ProcessItem) (l l' : List ProcessItem) (t : Tracked f i)
    → Visited f g t.number i j
    → Apart t.number l
    → Table f l
    → Refreshed g h l l'
    → Refreshed f h (i ∷ l) (j ∷ l')
Refreshed-step f g h i j l l' t v a u r =
    let x = v.tracked in
    let (kept, apart) =
      r.others x.number x.known (Apart-fresh f t.number x.number j l v.fresh x.has a u) in
    record {
      others = λ q n (away, aways).
          let ne : q ≢ t.number = λ e. away (t.has ∙ ap some (sym e)) in
          let once = v.others q ne n in
          let (later, rest) = r.others q (Kept-Known once n) aways in
          (Kept-trans once later, (v.fresh q ne n, rest));
      table = (
        record { number = x.number; has = x.has; known = Kept-Known kept x.known },
        apart,
        r.table,
      );
      renewed = (v.renewed, Renewed-Beside t.number f g l l' v.others a r.renewed);
    }

Process-Pairs :
    (f : ℕ → Life) (l l' : List ProcessItem)
    → Pairs (Renewed f) l l'
    → Each Process l
    → Each Process l' × Pairs SameProgram l l'
Process-Pairs f [] [] r h = (tt, tt)
Process-Pairs f [] (j ∷ l') r h = absurd r
Process-Pairs f (i ∷ l) [] r h = absurd r
Process-Pairs f (i ∷ l) (j ∷ l') (r, rs) (h, hs) =
    let (hs', same) = Process-Pairs f l l' rs hs in
    ((r.same_mode ∙ h, hs'), ((r.same_path, r.same_argv, r.same_mode), same))

pub SameProgram-trans :
    (a b c : List ProcessItem)
    → Pairs SameProgram a b
    → Pairs SameProgram b c
    → Pairs SameProgram a c
SameProgram-trans [] [] [] p q = tt
SameProgram-trans [] [] (z ∷ c) p q = absurd q
SameProgram-trans [] (y ∷ b) c p q = absurd p
SameProgram-trans (x ∷ a) [] c p q = absurd p
SameProgram-trans (x ∷ a) (y ∷ b) [] p q = absurd q
SameProgram-trans (x ∷ a) (y ∷ b) (z ∷ c) ((p, p', p''), ps) ((q, q', q''), qs) =
    ((q ∙ p, q' ∙ p', q'' ∙ p''), SameProgram-trans a b c ps qs)

SameProgram-refl : (a : List ProcessItem) → Pairs SameProgram a a
SameProgram-refl [] = tt
SameProgram-refl (x ∷ a) = ((refl, refl, refl), SameProgram-refl a)

module _ {World : Type 0} (k : Kernel World) (life : World → ℕ → Life) (law : Lawful k life)
    (forks : Forks k) where
  refresh-Refreshed :
      (l : List ProcessItem) (w : World)
      → Table (life w) l
      → Refreshed (life w) (life (refresh k l w).1) l (refresh k l w).0
  unfolding refresh
  refresh-Refreshed [] w t = record {
    others = λ q n a. (Kept.same refl, tt);
    table = tt;
    renewed = tt;
  }
  refresh-Refreshed (i ∷ l) w (t, a, u) =
      let v = visit-Visited k life law forks w i t in
      Refreshed-step (life w) (life (visit k i w).1) (life (refresh k l (visit k i w).1).1) i
        (visit k i w).0 l (refresh k l (visit k i w).1).0 t v a u
        (refresh-Refreshed l (visit k i w).1
          (Table-Beside t.number (life w) (life (visit k i w).1) l v.others a u))

  pub watch-Renewed :
      (list : List ProcessItem) (w : World)
      → Each Process list
      → Table (life w) list
      → (list' : List ProcessItem) × (w' : World) × (watch k [] list w ≡ Outcome.watching list' w')
        × Table (life w') list'
        × Pairs (Renewed (life w)) list list'
  watch-Renewed list w h t =
      let r = refresh-Refreshed list w t in
      ((refresh k list w).0, (refresh k list w).1, watch-refresh k [] list w h, r.table, r.renewed)

  Table-sleep :
      (l : List ProcessItem) (w : World) (n : ℕ)
      → Table (life w) l
      → Table (life (k.nano_sleep n w)) l
  Table-sleep [] w n t = tt
  Table-sleep (i ∷ l) w n (t, s, u) = (
    record { number = t.number; has = t.has; known = Kept-Known (law.sleeps w n t.number) t.known },
    s,
    Table-sleep l w n u,
  )

  -- Under the same conditions the main loop never exits, however many rounds without a request to
  -- exit it makes: it goes on watching the same programs in the same order, each with a process of
  -- its own that runs or waits to be reaped.
  pub supervise-Table :
      (rounds : ℕ) (list : List ProcessItem) (w : World)
      → Each Process list
      → Table (life w) list
      → (list' : List ProcessItem) × (w' : World) × (supervise k (replicate rounds false) list w
          ≡ Outcome.watching list' w')
        × Table (life w') list'
        × Pairs SameProgram list list'
  unfolding supervise
  supervise-Table zero list w h t = (list, w, refl, t, SameProgram-refl list)
  supervise-Table (suc rounds) list w h t =
      let (list1, w1, e, t1, r) = watch-Renewed list w h t in
      let (h1, same1) = Process-Pairs (life w) list list1 r h in
      let (list2, w2, e2, t2, same2) =
        supervise-Table rounds list1 (k.nano_sleep 5 w1) h1 (Table-sleep list1 w1 5 t1) in
      (
        list2,
        w2,
        ap (after_round k (supervise k (replicate rounds false))) e ∙ e2,
        t2,
        SameProgram-trans list list1 list2 same1 same2,
      )
