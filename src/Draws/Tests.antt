-- ===== src/Draws/Tests.antt =====
-- simple_apps/fucai_3d.c as its main runs it.
use linux_dev_framework.Base.{ℕ, ◌≡◌, refl, Option, none, some}
use linux_dev_framework.Draws.{
  CmbStat, same_pair_cnt, cmb_is_zusan, cmb_is_zuliu, parse_single_cmb, collect_stat, gt_cmb_stat,
}

abbrev kinds : Option CmbStat → Option (ℕ × ℕ)
kinds none = none
kinds (some s) = some (s.zusan_cnt, s.zuliu_cnt)

all_draws : kinds (collect_stat gt_cmb_stat) ≡ some (270, 720)
unfolding collect_stat parse_single_cmb cmb_is_zusan cmb_is_zuliu same_pair_cnt
all_draws = refl
