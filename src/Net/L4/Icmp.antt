-- ===== src/Net/L4/Icmp.antt =====
-- The ICMP and IGMP checksum of libs/app_utils/src/net.c.
use linux_dev_framework.Base.{
  ◌==◌, ==_iff, ℕ, ◌+◌, ◌%◌, ◌≤◌, ◌≡◌, refl, sym, ap, ◌∙◌, false, not, arith,
}
use linux_dev_framework.Net.Memory.{
  Mem, IsBytes, load16, store16, load16-store16, store16-IsBytes, store16_twice, store16_back,
}
use linux_dev_framework.Net.Checksum.{csum, add_words, fold, complement}
use linux_dev_framework.Net.Checksum.Words.{sum_verifies}
use linux_dev_framework.Net.Ip.{ip_data, ip_data_len}
use linux_dev_framework.Net.L4.{icmp_igmp_check, icmp_igmp_update_check, icmp_igmp_checksum_wrong}
use linux_dev_framework.Net.L4.Laws.{MessageVerifies, low, hdr_len_same, pkt_len_same}

abbrev pub message_check : Mem → ℕ → ℕ
message_check m iph =
    complement
      (fold (add_words (store16 m (ip_data m iph + 2) 0) (ip_data m iph) (ip_data_len m iph) 0))

abbrev pub icmp_updated : Mem → ℕ → Mem
icmp_updated m iph = store16 m (ip_data m iph + 2) (message_check m iph)

module _ (m : Mem) (iph : ℕ) (b : IsBytes m) (whole : 5 ≤ m iph % 16) where
  far : iph + 20 ≤ ip_data m iph + 2
  far = omega arith

  icmp_igmp_check-eq : icmp_igmp_check m iph ≡ (message_check m iph, m)
  unfolding icmp_igmp_check csum
  icmp_igmp_check-eq =
      rw
        (hdr_len_same m iph (ip_data m iph + 2) 0 far, pkt_len_same m iph (ip_data m iph + 2) 0 far)
        (ap (λ (n : Mem). (message_check m iph, n)) (store16_back m (ip_data m iph + 2) 0 b))

  pub icmp_igmp_update_check-eq : icmp_igmp_update_check m iph ≡ icmp_updated m iph
  unfolding icmp_igmp_update_check
  icmp_igmp_update_check-eq =
      ap (λ (r : ℕ × Mem). store16 r.1 (ip_data m iph + 2) r.0) icmp_igmp_check-eq

  icmp_updated-MessageVerifies : 4 ≤ ip_data_len m iph → MessageVerifies (icmp_updated m iph) iph
  icmp_updated-MessageVerifies fits =
      rw
        (
          hdr_len_same m iph (ip_data m iph + 2) (message_check m iph) far,
          pkt_len_same m iph (ip_data m iph + 2) (message_check m iph) far,
        )
        (sum_verifies m (ip_data m iph) (ip_data_len m iph) 1 (ip_data m iph + 2) 0 b (omega arith)
          (omega arith))

  message_check-updated : message_check (icmp_updated m iph) iph ≡ message_check m iph
  message_check-updated =
      rw
        (
          hdr_len_same m iph (ip_data m iph + 2) (message_check m iph) far,
          pkt_len_same m iph (ip_data m iph + 2) (message_check m iph) far,
          store16_twice m (ip_data m iph + 2) (message_check m iph) 0,
        )
        refl

  icmp_updated-whole : 5 ≤ icmp_updated m iph iph % 16
  icmp_updated-whole =
      rw (low m iph (ip_data m iph + 2) (message_check m iph) far iph (omega arith)) whole

  icmp_updated_stable :
      load16 (icmp_updated m iph) (ip_data (icmp_updated m iph) iph + 2)
      ≡ message_check (icmp_updated m iph) iph
  icmp_updated_stable =
      ap (λ k. load16 (icmp_updated m iph) (iph + k + 2))
        (hdr_len_same m iph (ip_data m iph + 2) (message_check m iph) far)
      ∙ load16-store16 m (ip_data m iph + 2) (message_check m iph) (omega arith)
      ∙ sym message_check-updated

-- After `icmp_igmp_update_check` a message of 4 bytes or more passes a receiver's test.
pub icmp_igmp_update_check-MessageVerifies :
    (m : Mem) (iph : ℕ)
    → IsBytes m
    → 5 ≤ m iph % 16
    → 4 ≤ ip_data_len m iph
    → MessageVerifies (icmp_igmp_update_check m iph) iph
icmp_igmp_update_check-MessageVerifies m iph b whole fits =
    rw (icmp_igmp_update_check-eq m iph b whole) (icmp_updated-MessageVerifies m iph b whole fits)

-- After the update `icmp_igmp_checksum_wrong` says no and leaves the packet as it was.
pub icmp_igmp_checksum_wrong-update :
    (m : Mem) (iph : ℕ)
    → IsBytes m
    → 5 ≤ m iph % 16
    → icmp_igmp_checksum_wrong (icmp_igmp_update_check m iph) iph
      ≡ (false, icmp_igmp_update_check m iph)
unfolding icmp_igmp_checksum_wrong
icmp_igmp_checksum_wrong-update m iph b whole =
    let n : Mem = icmp_updated m iph in
    let bn = store16-IsBytes m (ip_data m iph + 2) (message_check m iph) b in
    rw (icmp_igmp_update_check-eq m iph b whole) (
      ap (λ (r : ℕ × Mem). (not (load16 r.1 (ip_data n iph + 2) == r.0), r.1))
        (icmp_igmp_check-eq n iph bn (icmp_updated-whole m iph b whole))
      ∙ ap (λ v. (not v, n)) ((==_iff _ _).1 (icmp_updated_stable m iph b whole)))
