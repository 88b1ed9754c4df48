-- ===== src/Net/Ip/Laws.antt =====
-- The IPv4 header checksum of libs/app_utils/src/net.c.
use linux_dev_framework.Base.{
  ◌==◌, ==_refl, ℕ, ◌+◌, ◌*◌, ◌%◌, ◌^◌, ◌≤◌, ◌<◌, ◌≡◌, ap, ap₂, ◌∙◌, true, false, not, arith,
}
use linux_dev_framework.Net.Memory.{
  Mem, IsBytes, load16, store16, load16-store16, store16-IsBytes, store16_twice, store16_back,
}
use linux_dev_framework.Net.Checksum.{csum, add_words, fold, complement}
use linux_dev_framework.Net.Checksum.Words.{sum_verifies, store16_other}
use linux_dev_framework.Net.Ip.{ip_hdr_len, ip_check, ip_update_check, ip_checksum_wrong}

-- The header passes a receiver's test: its words add up to all ones.
abbrev pub HeaderVerifies : Mem → ℕ → Type 0
HeaderVerifies m iph = fold (add_words m iph (ip_hdr_len m iph) 0) ≡ 65535

-- The value of the check field that belongs to the header.
abbrev pub header_check : Mem → ℕ → ℕ
header_check m iph = complement (fold (add_words (store16 m (iph + 10) 0) iph (ip_hdr_len m iph) 0))

-- `ip_check` computes that value and leaves the packet as it was.
pub ip_check-eq : (m : Mem) (iph : ℕ) → IsBytes m → ip_check m iph ≡ (header_check m iph, m)
unfolding ip_check csum
ip_check-eq m iph b =
    ap₂ (λ (c : ℕ) (n : Mem). (c, n))
      (ap (λ n. csum (store16 m (iph + 10) 0) iph (n % 16 * 4))
        (store16_other m (iph + 10) 0 iph (omega arith) (omega arith)))
      (store16_back m (iph + 10) 0 b)

pub ip_update_check-eq :
    (m : Mem) (iph : ℕ)
    → IsBytes m
    → ip_update_check m iph ≡ store16 m (iph + 10) (header_check m iph)
unfolding ip_update_check
ip_update_check-eq m iph b = rw (ip_check-eq m iph b)

header_check-lt : (m : Mem) (iph : ℕ) → header_check m iph < 2 ^ 16
header_check-lt m iph = omega arith

-- After `ip_update_check` a header of 12 bytes or more passes a receiver's test.
pub ip_update_check-HeaderVerifies :
    (m : Mem) (iph : ℕ) → IsBytes m → 3 ≤ m iph % 16 → HeaderVerifies (ip_update_check m iph) iph
ip_update_check-HeaderVerifies m iph b long =
    rw
      (
        ip_update_check-eq m iph b,
        store16_other m (iph + 10) (header_check m iph) iph (omega arith) (omega arith),
      )
      (sum_verifies m iph (ip_hdr_len m iph) 5 (iph + 10) 0 b (omega arith) (omega arith))

-- The check field does not count for its own value.
header_check-update :
    (m : Mem) (iph v : ℕ) → header_check (store16 m (iph + 10) v) iph ≡ header_check m iph
header_check-update m iph v =
    rw
      (store16_twice m (iph + 10) v 0, store16_other m (iph + 10) v iph (omega arith) (omega arith))

-- After `ip_update_check`, `ip_checksum_wrong` says no and leaves the packet as it was.
pub ip_checksum_wrong-update :
    (m : Mem) (iph : ℕ)
    → IsBytes m
    → ip_checksum_wrong (ip_update_check m iph) iph ≡ (false, ip_update_check m iph)
unfolding ip_checksum_wrong
ip_checksum_wrong-update m iph b = rw e (
    ap (λ r. (not (load16 r.1 (iph + 10) == r.0), r.1)) (ip_check-eq n iph bn)
    ∙ ap (λ v. (not v, n)) fits)
  where
    n : Mem
    n = store16 m (iph + 10) (header_check m iph)

    e : ip_update_check m iph ≡ n
    e = ip_update_check-eq m iph b

    bn : IsBytes n
    bn = store16-IsBytes m (iph + 10) (header_check m iph) b

    fits : (load16 n (iph + 10) == header_check n iph) ≡ true
    fits =
        rw
          (
            load16-store16 m (iph + 10) (header_check m iph) (header_check-lt m iph),
            header_check-update m iph (header_check m iph),
          )
          (==_refl (header_check m iph))
