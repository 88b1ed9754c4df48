-- ===== src/Draws/Counts.antt =====
-- What simple_apps/fucai_3d.c counts.
use linux_dev_framework.Base.{
  ◌==◌, ◌>>=◌, some_inj, length, get_elem?, set, length-set, get_elem?-lt, ℕ, zero, suc, ◌+◌, ◌*◌,
  ◌≤◌, ◌<◌, ◌≡◌, refl, ap, ◌∙◌, Option, some, List, [], ◌∷◌, arith,
}
use linux_dev_framework.Draws.{
  CmbStat, one_if, same_pair_cnt, cmb_is_zusan, cmb_is_zuliu, parse_single_cmb, loop, collect_stat,
}

abbrev pub total : List ℕ → ℕ
total [] = 0
total (n ∷ l) = n + total l

total-set : (l : List ℕ) (i n : ℕ) → get_elem? l i ≡ some n → total (set l i (n + 1)) ≡ total l + 1
total-set [] i n h = cc
total-set (x ∷ l) zero n h = omega (arith, some_inj h)
total-set (x ∷ l) (suc i) n h = omega (arith, total-set l i n h)

-- The counter of the sums has its size, and the step counts so many draws and no draw twice.
abbrev pub Counts : (draws : ℕ) → CmbStat → Option CmbStat → Type 0
Counts c s o =
    (s' : CmbStat) × (o ≡ some s')
    × (length s'.hezhi_cnt ≡ 28)
    × (total s'.hezhi_cnt ≡ total s.hezhi_cnt + c)
    × (s'.zusan_cnt + s'.zuliu_cnt ≤ s.zusan_cnt + s.zuliu_cnt + c)

parse_single_cmb-Counts :
    (i j k : ℕ) (s : CmbStat)
    → i < 10
    → j < 10
    → k < 10
    → length s.hezhi_cnt ≡ 28
    → Counts 1 s (parse_single_cmb i j k s)
unfolding parse_single_cmb cmb_is_zusan cmb_is_zuliu
parse_single_cmb-Counts i j k s p q r size =
    let (n, e) = get_elem?-lt s.hezhi_cnt (i + j + k) (omega (arith, p, q, r, size)) in
    (
      record {
        zusan_cnt = s.zusan_cnt + one_if (same_pair_cnt i j k == 1);
        zuliu_cnt = s.zuliu_cnt + one_if (same_pair_cnt i j k == 0);
        hezhi_cnt = set s.hezhi_cnt (i + j + k) (n + 1);
      },
      rw e refl,
      length-set s.hezhi_cnt (i + j + k) (n + 1) ∙ size,
      total-set s.hezhi_cnt (i + j + k) n e,
      ground arith,
    )

loop-Counts :
    (c n i : ℕ) (f : ℕ → CmbStat → Option CmbStat) (s : CmbStat)
    → ((m : ℕ) (t : CmbStat) → m < i + n → length t.hezhi_cnt ≡ 28 → Counts c t (f m t))
    → length s.hezhi_cnt ≡ 28
    → Counts (n * c) s (loop n i f s)
loop-Counts c zero i f s step size = (s, refl, size, omega arith, omega arith)
loop-Counts c (suc n) i f s step size =
    let (s1, e1, size1, t1, z1) = step i s (omega arith) size in
    let (s2, e2, size2, t2, z2) =
      loop-Counts c n (i + 1) f s1 (λ m t below. step m t (omega (arith, below))) size1 in
    let more : suc n * c ≡ c + n * c = grind arith in
    (
      s2,
      ap (λ o. o >>= loop n (i + 1) f) e1 ∙ e2,
      size2,
      omega (arith, t1, t2, more),
      omega (arith, z1, z2, more),
    )

-- From any counters, `collect_stat` stays inside the 28 counters of the sums, which it increases by
-- 1000 in all; and it counts no draw both as a pair and as three different digits.
pub collect_stat-Counts : (s : CmbStat) → length s.hezhi_cnt ≡ 28 → Counts 1000 s (collect_stat s)
unfolding collect_stat
collect_stat-Counts s size =
    loop-Counts 100 10 0 _ s
      (λ i t p.
        loop-Counts 10 10 0 _ t
          (λ j u q. loop-Counts 1 10 0 _ u (λ k v r. parse_single_cmb-Counts i j k v p q r)))
      size
