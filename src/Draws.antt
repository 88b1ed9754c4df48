-- ===== src/Draws.antt =====
-- The statistics of the draws of three digits, simple_apps/fucai_3d.c.
pub mod Counts
mod Tests
use linux_dev_framework.Base.{
  ltb, leb, ◌==◌, if◌then◌else◌, ltb→lt, lt→ltb, leb→le, ==_iff, ==_refl, Bool-cases, Option-cases,
  ◌>>=◌, some_inj, tests, length, get_elem?, get_or, set, take, drop, replicate, all, length-append,
  length-set, get_elem?-set_self, get_elem?-set_ne, get_elem?-lt, take-append-drop, take-length,
  length-take, length-drop, length-replicate, get_elem?-none, get_elem?-append_left,
  get_elem?-append_right, get_elem?-replicate, chars, token, strtok, Free, token-word, token-last,
  strtok-last, strtok-word, digits, decimal, digit?, digit_of, number_from, strchr, strrchr,
  magnitude, strtol, strtoul16, signed, blank?, atoi, number_from-digits, digits-first,
  strtol-decimal, strchr-first, strchr-none, Free-append, strrchr-end, digits-append, digits-Free,
  ℕ, zero, suc, ◌+◌, ◌-◌, ◌*◌, ◌/◌, ◌%◌, ◌^◌, ◌≤◌, ◌<◌, min, max, ◌≡◌, refl, sym, ap, ap₂, ◌∙◌,
  subst, fun_ext, ◌≢◌, ◌↔◌, ◌⊎◌, inl, inr, Bool, true, false, not, ◌&&◌, ◌||◌, Option, none, some,
  List, [], ◌∷◌, ◌++◌, map, append_assoc, append-nil, arith,
}

abbrev pub total_hezhi_nr : ℕ
total_hezhi_nr = 28

abbrev pub single_pos_dgt_nr : ℕ
single_pos_dgt_nr = 10

pub record CmbStat : Type 0 where
  pub zusan_cnt : ℕ
  pub zuliu_cnt : ℕ
  pub hezhi_cnt : List ℕ

abbrev pub gt_cmb_stat : CmbStat
gt_cmb_stat = record { zusan_cnt = 0; zuliu_cnt = 0; hezhi_cnt = replicate total_hezhi_nr 0 }

abbrev pub one_if : Bool → ℕ
one_if b = if b then 1 else 0

unfoldable pub same_pair_cnt : (i j k : ℕ) → ℕ
same_pair_cnt i j k = one_if (i == j) + one_if (i == k) + one_if (j == k)

unfoldable pub cmb_is_zusan : (i j k : ℕ) → Bool
cmb_is_zusan i j k = same_pair_cnt i j k == 1

unfoldable pub cmb_is_zuliu : (i j k : ℕ) → Bool
cmb_is_zuliu i j k = same_pair_cnt i j k == 0

abbrev pub hezhi_of_cmb : (i j k : ℕ) → ℕ
hezhi_of_cmb i j k = i + j + k

-- Nothing when the sum is not an index of `hezhi_cnt`.
unfoldable pub parse_single_cmb : (i j k : ℕ) → CmbStat → Option CmbStat
parse_single_cmb i j k s = get_elem? s.hezhi_cnt (hezhi_of_cmb i j k) >>= λ n. some (record {
  zusan_cnt = s.zusan_cnt + one_if (cmb_is_zusan i j k);
  zuliu_cnt = s.zuliu_cnt + one_if (cmb_is_zuliu i j k);
  hezhi_cnt = set s.hezhi_cnt (hezhi_of_cmb i j k) (n + 1);
})

-- A loop of `n` rounds from `i` on.
abbrev pub loop : (n i : ℕ) → (ℕ → CmbStat → Option CmbStat) → CmbStat → Option CmbStat
loop zero i f s = some s
loop (suc n) i f s = f i s >>= loop n (i + 1) f

unfoldable pub collect_stat : CmbStat → Option CmbStat
collect_stat s =
    loop single_pos_dgt_nr 0
      (λ i. loop single_pos_dgt_nr 0 (λ j. loop single_pos_dgt_nr 0 (λ k. parse_single_cmb i j k)))
      s
