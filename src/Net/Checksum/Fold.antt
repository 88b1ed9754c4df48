-- ===== src/Net/Checksum/Fold.antt =====
-- The folding loop of `csum` in libs/app_utils/src/net.c keeps the sum modulo 65535.
use mathlib.Core.WellFounded.{Acc}
use linux_dev_framework.Base.{ℕ, ◌+◌, ◌/◌, ◌%◌, ◌^◌, ◌<◌, ◌≡◌, ◌↔◌, arith}
use linux_dev_framework.Base.Order.{lt_wf}
use linux_dev_framework.Net.Checksum.{fold, fold_acc}

fold_acc_lem :
    (s : ℕ) (w : Acc ◌<◌ s)
    → (fold_acc s w < 2 ^ 16)
      × (fold_acc s w % 65535 ≡ s % 65535)
      × ((fold_acc s w ≡ 0) → s ≡ 0)
      × (s < 2 ^ 16 → fold_acc s w ≡ s)
unfolding fold_acc
fold_acc_lem s (Acc.intro _ smaller) = grind (
  arith,
  λ (p : s % 2 ^ 16 + s / 2 ^ 16 < s).
      fold_acc_lem (s % 2 ^ 16 + s / 2 ^ 16) (smaller (s % 2 ^ 16 + s / 2 ^ 16) p),
)

-- The loop ends in 16 bits, in the class of the sum modulo 65535, and in 0 for the sum 0 alone.
pub fold_lem : (s : ℕ) → (fold s < 2 ^ 16) × (fold s % 65535 ≡ s % 65535) × ((fold s ≡ 0) ↔ (s ≡ 0))
unfolding fold
fold_lem s =
    let (low, same, back, small) = fold_acc_lem s (lt_wf.apply s) in
    (low, same, (back, λ e. omega (arith, small, e)))
