-- ===== src/Telnetd/History.antt =====
-- The command history of libs/app_utils/src/telnetd4dbg.c.
use linux_dev_framework.Base.{
  ltb, ◌==◌, if◌then◌else◌, lt→ltb, ==_refl, Bool-cases, length, get_elem?, drop, ℕ, zero, suc, ◌+◌,
  ◌-◌, ◌≤◌, ◌<◌, ◌≡◌, refl, sym, ap, ap₂, ◌∙◌, subst, inl, inr, true, false, some, List, [], ◌∷◌,
  ◌++◌, arith,
}
use linux_dev_framework.StringUtils.Buffer.{read, read_same, read_shift}
use linux_dev_framework.Telnetd.{
  HistoryCmd, Shell, max_history_cmd_num, forget_oldest, put_cmd, append_cmd, show_cmd,
  update_histotry_cmds, history_cmd_roll_prev,
}

-- The commands that are remembered, oldest first.
abbrev pub commands : Shell → List (List ℕ)
commands s = read (λ i. (s.histotry_cmds i).name) 0 s.cur_histotry_cmds_num

-- The array is not overrun, the place in it is one of its entries or the end, and every entry has
-- its length beside it.
pub record Good (s : Shell) : Type 0 where
  pub room : s.cur_histotry_cmds_num ≤ max_history_cmd_num
  pub place : s.cur_histotry_cmds_roll_idx ≤ s.cur_histotry_cmds_num
  pub lengths :
      (i : ℕ)
      → i < s.cur_histotry_cmds_num
      → (s.histotry_cmds i).len ≡ length (s.histotry_cmds i).name

read_snoc {ℓ} : {A : Type ℓ} (f : ℕ → A) (i n : ℕ) → read f i (n + 1) ≡ read f i n ++ f (i + n) ∷ []
read_snoc f i zero = ap (λ j. f j ∷ []) (omega arith)
read_snoc f i (suc n) =
    ap (λ k. read f i k) {y = suc (n + 1)} (omega arith)
    ∙ ap (λ l. f i ∷ l)
        (read_snoc f (i + 1) n ∙ ap (λ j. read f (i + 1) n ++ f j ∷ []) (omega arith))

-- `append_cmd` on an array with room, whose first entries are `l`.
appended :
    (cmd : List ℕ) (h : ℕ → HistoryCmd) (num : ℕ) (s : Shell) (l : List (List ℕ))
    → num < max_history_cmd_num
    → read (λ i. (h i).name) 0 num ≡ l
    → ((i : ℕ) → i < num → (h i).len ≡ length (h i).name)
    → Good (append_cmd cmd h num s) × (commands (append_cmd cmd h num s) ≡ l ++ cmd ∷ [])
appended cmd h num s l small e lens =
    let c : HistoryCmd = record { name = cmd; len = length cmd } in
    let f : ℕ → List ℕ = λ i. (put_cmd num c h i).name in
    (
      record {
        room = omega (arith, small);
        place = omega arith;
        lengths = λ i lt. elim (Bool-cases (i == num)) [
          | inl y ↦ rw y refl
          | inr n ↦ rw n (lens i (ground (arith, n, lt)))
        ];
      },
      read_snoc f 0 num
          ∙ ap₂ (λ x y. x ++ y ∷ [])
              (read_same (λ i. (h i).name) f 0 num
                  (λ x lo hi. let n : (x == num) ≡ false = ground (arith, hi) in rw n refl)
                ∙ e)
              (ap f {y = num} (omega arith) ∙ rw (==_refl num) refl),
    )

forget_oldest-later : (h : ℕ → HistoryCmd) (i : ℕ) → i < 127 → forget_oldest h i ≡ h (i + 1)
forget_oldest-later h i l = let y : ltb i 127 ≡ true = lt→ltb i 127 l in rw y refl

forget_oldest-names :
    (h : ℕ → HistoryCmd) (n : ℕ)
    → n ≤ 127
    → read (λ i. (forget_oldest h i).name) 0 n ≡ drop 1 (read (λ i. (h i).name) 0 (suc n))
forget_oldest-names h n l = sym (
    read_shift (λ i. (forget_oldest h i).name) (λ i. (h i).name) 0 n
      (λ x lo hi. ap (λ c. c.name) (sym (forget_oldest-later h x (omega (arith, l, hi))))))

-- In a good shell `update_histotry_cmds` puts the command behind the others, forgetting the oldest
-- when 128 are there, and the shell stays good with its place at the end.
pub update_histotry_cmds-Good :
    (cmd : List ℕ) (s : Shell)
    → Good s
    → Good (update_histotry_cmds cmd s)
      × (commands (update_histotry_cmds cmd s)
          ≡ (if s.cur_histotry_cmds_num == max_history_cmd_num
              then drop 1 (commands s)
              else commands s)
            ++ cmd ∷ [])
      × ((update_histotry_cmds cmd s).cur_histotry_cmds_roll_idx
          ≡ (update_histotry_cmds cmd s).cur_histotry_cmds_num)
unfolding update_histotry_cmds
update_histotry_cmds-Good cmd s g =
    elim (Bool-cases (s.cur_histotry_cmds_num == max_history_cmd_num)) [
      | inr n ↦
          let (a, b) =
            appended cmd s.histotry_cmds s.cur_histotry_cmds_num s (commands s)
              (ground (arith, n, g.room)) refl g.lengths in
          rw n (a, b, refl)
      | inl y ↦
          let full : s.cur_histotry_cmds_num ≡ 128 = ground (arith, y) in
          let (a, b) =
            appended cmd (forget_oldest s.histotry_cmds) (s.cur_histotry_cmds_num - 1) s
              (drop 1 (commands s)) (omega (arith, full)) (names full)
              (λ i l.
                rw (forget_oldest-later s.histotry_cmds i (omega (arith, full, l)))
                  (g.lengths (i + 1) (omega (arith, l)))) in
          rw y (a, b, refl)
    ]
  where
    names :
        s.cur_histotry_cmds_num ≡ 128
        → read (λ i. (forget_oldest s.histotry_cmds i).name) 0 (s.cur_histotry_cmds_num - 1)
          ≡ drop 1 (commands s)
    names full =
        forget_oldest-names s.histotry_cmds (s.cur_histotry_cmds_num - 1) (omega (arith, full))
        ∙ ap (λ n. drop 1 (read (λ i. (s.histotry_cmds i).name) 0 n))
            {x = suc (s.cur_histotry_cmds_num - 1)} (omega (arith, full))

abbrev pub prev_times : ℕ → Shell → Shell
prev_times zero s = s
prev_times (suc k) s = history_cmd_roll_prev (prev_times k s)

prev-eq :
    (s : Shell)
    → 0 < s.cur_histotry_cmds_num
    → 0 < s.cur_histotry_cmds_roll_idx
    → history_cmd_roll_prev s ≡ show_cmd (s.cur_histotry_cmds_roll_idx - 1) s
unfolding history_cmd_roll_prev
prev-eq s a b =
    rw (lt→ltb 0 s.cur_histotry_cmds_num a, lt→ltb 0 s.cur_histotry_cmds_roll_idx b) refl

-- The history stays while one goes back, and the place moves.
abbrev Back : ℕ → Shell → Shell → Type 0
Back k s t =
    (t.cur_histotry_cmds_roll_idx + k ≡ s.cur_histotry_cmds_roll_idx)
    × (t.histotry_cmds ≡ s.histotry_cmds)
    × (t.cur_histotry_cmds_num ≡ s.cur_histotry_cmds_num)

prev_times-Back :
    (k : ℕ) (s : Shell) → Good s → k ≤ s.cur_histotry_cmds_roll_idx → Back k s (prev_times k s)
prev_times-Back zero s g h = (omega arith, refl, refl)
prev_times-Back (suc k) s g h =
    let (place, cmds, num) = prev_times-Back k s g (omega (arith, h)) in
    subst (Back (suc k) s)
      (sym (prev-eq (prev_times k s) (omega (arith, num, h, g.place)) (omega (arith, place, h))))
      (omega (arith, place, h), cmds, num)

get_elem?-read {ℓ} :
    {A : Type ℓ} (f : ℕ → A) (i n j : ℕ) → j < n → get_elem? (read f i n) j ≡ some (f (i + j))
get_elem?-read f i zero j h = absurd (omega (arith, h))
get_elem?-read f i (suc n) zero h = ap (λ x. some (f x)) (omega arith)
get_elem?-read f i (suc n) (suc j) h =
    get_elem?-read f (i + 1) n j (omega (arith, h)) ∙ ap (λ x. some (f x)) (omega arith)

-- Going back `k` times in a good shell, from a place that far from the oldest, shows the command
-- `k` before the place, and its length, and moves the place there; the history stays.
pub prev_times-shows :
    (k : ℕ) (s : Shell)
    → Good s
    → suc k ≤ s.cur_histotry_cmds_roll_idx
    → let t = prev_times (suc k) s in
      (t.cur_histotry_cmds_roll_idx + suc k ≡ s.cur_histotry_cmds_roll_idx)
      × (get_elem? (commands s) t.cur_histotry_cmds_roll_idx ≡ some t.shell_buf)
      × (t.shell_buf_cur_len ≡ length t.shell_buf)
      × (commands t ≡ commands s)
prev_times-shows k s g h =
    let t : Shell = prev_times k s in
    let idx : ℕ = t.cur_histotry_cmds_roll_idx - 1 in
    let (place, cmds, num) = prev_times-Back k s g (omega (arith, h)) in
    let inside : idx < s.cur_histotry_cmds_num = omega (arith, place, h, g.place) in
    let e = prev-eq t (omega (arith, num, h, g.place)) (omega (arith, place, h)) in
    rw e (
      omega (arith, place, h),
      get_elem?-read (λ i. (s.histotry_cmds i).name) 0 s.cur_histotry_cmds_num idx inside
          ∙ ap (λ j. some (s.histotry_cmds j).name) {y = idx} (omega arith)
          ∙ ap (λ (c : ℕ → HistoryCmd). some (c idx).name) (sym cmds),
      subst (λ c. (c idx).len ≡ length (c idx).name) (sym cmds) (g.lengths idx inside),
      ap₂ (λ (c : ℕ → HistoryCmd) n. read (λ i. (c i).name) 0 n) cmds num,
    )
