-- ===== src/Net/Checksum.antt =====
-- `csum` of libs/app_utils/src/net.c, the Internet checksum.
pub mod Fold
pub mod Words
use mathlib.Core.WellFounded.{Acc, WellFounded}
use mathlib.Core.Logic.{dite}
use native.Mathlib.Decide.{dec_lt}
use linux_dev_framework.Base.{
  ltb, leb, ◌==◌, if◌then◌else◌, ltb→lt, lt→ltb, leb→le, ==_iff, ==_refl, Bool-cases, Option-cases,
  ◌>>=◌, some_inj, tests, length, get_elem?, get_or, set, take, drop, replicate, all, length-append,
  length-set, get_elem?-set_self, get_elem?-set_ne, get_elem?-lt, take-append-drop, length-take,
  length-drop, length-replicate, get_elem?-none, get_elem?-append_left, get_elem?-append_right,
  get_elem?-replicate, ℕ, zero, suc, ◌+◌, ◌-◌, ◌*◌, ◌/◌, ◌%◌, ◌^◌, ◌≤◌, ◌<◌, min, max, ◌≡◌, refl,
  sym, ap, ap₂, ◌∙◌, subst, fun_ext, ◌≢◌, ◌↔◌, ◌⊎◌, inl, inr, Bool, true, false, not, ◌&&◌, ◌||◌,
  Option, none, some, List, [], ◌∷◌, ◌++◌, map, append_assoc, append-nil, arith,
}
use linux_dev_framework.Base.Order.{lt_wf}
use linux_dev_framework.Net.Memory.{Mem, load16, swap16}

-- The loop over the pairs of bytes, and the left-over byte. The sum is a 64-bit `long`: it cannot
-- overflow, since `count` is below 2 ^ 31 and each word below 2 ^ 16.
unfoldable pub add_words : Mem → (addr count sum : ℕ) → ℕ
add_words m addr zero sum = sum
add_words m addr (suc zero) sum = sum + m addr * 256
add_words m addr (suc (suc count)) sum = add_words m (addr + 2) count (sum + swap16 (load16 m addr))

fold_acc : (sum : ℕ) → Acc ◌<◌ sum → ℕ
fold_acc sum (Acc.intro _ smaller) =
    dite (dec_lt 65535 sum)
      (λ h.
        fold_acc (sum % 2 ^ 16 + sum / 2 ^ 16)
          (smaller (sum % 2 ^ 16 + sum / 2 ^ 16) (omega arith)))
      (λ _. sum)

-- `while (sum>>16) sum = (sum & 0xffff) + (sum >> 16);`
unfoldable pub fold : ℕ → ℕ
unfolding fold_acc lt_wf dec_lt
fold sum = fold_acc sum (lt_wf.apply sum)

-- `htons(~sum)`, cut to an `unsigned short`, for a folded sum
abbrev pub complement : ℕ → ℕ
complement sum = swap16 (65535 - sum % 2 ^ 16)

-- A `count` that is not positive runs neither loop; it is 0 here.
unfoldable pub csum : Mem → (addr count : ℕ) → ℕ
csum m addr count = complement (fold (add_words m addr count 0))
