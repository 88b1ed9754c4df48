-- ===== src/Net/Frame/Update.antt =====
-- `update_check_sum` of libs/app_utils/src/net.c on IPv4 frames.
use linux_dev_framework.Base.{
  ◌==◌, if◌then◌else◌, Bool-cases, ℕ, ◌+◌, ◌%◌, ◌≤◌, ◌<◌, ◌≡◌, refl, sym, ap, ◌∙◌, subst, ◌≢◌, inl,
  inr, true, false, ◌||◌, arith,
}
use linux_dev_framework.Net.Memory.{Mem, IsBytes, store16, store16-IsBytes}
use linux_dev_framework.Net.Checksum.{fold}
use linux_dev_framework.Net.Checksum.Words.{store16_other, add_words_same}
use linux_dev_framework.Net.Ip.{ip_hdr_len, ip_data, ip_data_len, ip_protocol, ip_update_check}
use linux_dev_framework.Net.Ip.Laws.{
  HeaderVerifies, header_check, ip_update_check-eq, ip_update_check-HeaderVerifies,
}
use linux_dev_framework.Net.L4.{tcp_update_check, udp_update_check, icmp_igmp_update_check}
use linux_dev_framework.Net.L4.Laws.{
  SegmentVerifies, MessageVerifies, check_at, segment_check, tcp_update_check-eq,
  udp_update_check-eq, tcp_update_check-SegmentVerifies, udp_update_check-SegmentVerifies,
}
use linux_dev_framework.Net.L4.Icmp.{
  icmp_igmp_update_check-eq, icmp_igmp_update_check-MessageVerifies, message_check,
}
use linux_dev_framework.Net.Frame.{
  eth_type, eth_data, eth_p_ip, eth_p_ipv6, ip_pkt_is_frag, update_check_sum, update_check_sum_v4,
  update_check_sum_v6, update_l4_v4,
}

-- A write behind a verified header leaves it verified.
header_kept :
    (m : Mem) (iph at v : ℕ)
    → 5 ≤ m iph % 16
    → ip_data m iph ≤ at
    → HeaderVerifies m iph
    → HeaderVerifies (store16 m at v) iph
header_kept m iph at v whole far h = rw (store16_other m at v iph (omega arith) (omega arith)) (
    ap fold (
      add_words_same m (store16 m at v) iph (ip_hdr_len m iph) 0
        (λ x lo hi. store16_other m at v x (omega arith) (omega arith)))
    ∙ h)

-- The receiver's test of the data, for the protocols that the code updates.
abbrev pub DataVerifies : (protocol : ℕ) → Mem → ℕ → Type 0
DataVerifies protocol m iph =
    if (protocol == 1) || (protocol == 2)
    then MessageVerifies m iph
    else if (protocol == 6) || (protocol == 17)
    then SegmentVerifies m iph
    else Unit

-- How much data a packet of the protocol needs to hold its check field.
abbrev pub needs : ℕ → ℕ
needs protocol =
    if (protocol == 1) || (protocol == 2)
    then 4
    else if protocol == 6
    then 18
    else if protocol == 17
    then 8
    else 0

module _ (m : Mem) (iph : ℕ) (b : IsBytes m) (whole : 5 ≤ m iph % 16) where
  icmp-Verifies :
      4 ≤ ip_data_len m iph
      → HeaderVerifies m iph
      → HeaderVerifies (icmp_igmp_update_check m iph) iph
        × MessageVerifies (icmp_igmp_update_check m iph) iph
  icmp-Verifies fits h = (
    rw (icmp_igmp_update_check-eq m iph b whole)
        (header_kept m iph (ip_data m iph + 2) (message_check m iph) whole (omega arith) h),
    icmp_igmp_update_check-MessageVerifies m iph b whole fits,
  )

  tcp-Verifies :
      ip_protocol m iph ≡ 6
      → 18 ≤ ip_data_len m iph
      → HeaderVerifies m iph
      → HeaderVerifies (tcp_update_check m iph) iph × SegmentVerifies (tcp_update_check m iph) iph
  tcp-Verifies tcp fits h = (
    rw (tcp_update_check-eq m iph b whole tcp)
        (header_kept m iph (check_at m iph) (segment_check m iph) whole (omega arith) h),
    tcp_update_check-SegmentVerifies m iph b whole tcp fits,
  )

  udp-Verifies :
      ip_protocol m iph ≢ 6
      → 8 ≤ ip_data_len m iph
      → HeaderVerifies m iph
      → HeaderVerifies (udp_update_check m iph) iph × SegmentVerifies (udp_update_check m iph) iph
  udp-Verifies other fits h = (
    rw (udp_update_check-eq m iph b whole other)
        (header_kept m iph (check_at m iph) (segment_check m iph) whole (omega arith) h),
    udp_update_check-SegmentVerifies m iph b whole other fits,
  )

  update_l4_v4-Verifies :
      needs (ip_protocol m iph) ≤ ip_data_len m iph
      → HeaderVerifies m iph
      → HeaderVerifies (update_l4_v4 m iph) iph
        × DataVerifies (ip_protocol m iph) (update_l4_v4 m iph) iph
  update_l4_v4-Verifies fits h = elim (Bool-cases (ip_protocol m iph == 1)) [
    | inl p1 ↦ rw p1 (icmp-Verifies (rw p1 at fits) h)
    | inr n1 ↦ rw n1 (elim (Bool-cases (ip_protocol m iph == 2)) [
      | inl p2 ↦ rw p2 (icmp-Verifies (rw (n1, p2) at fits) h)
      | inr n2 ↦ rw n2 (elim (Bool-cases (ip_protocol m iph == 6)) [
        | inl p6 ↦ rw p6 (tcp-Verifies (ground arith) (rw (n1, n2, p6) at fits) h)
        | inr n6 ↦ rw n6 (elim (Bool-cases (ip_protocol m iph == 17)) [
          | inl p17 ↦ rw p17 (udp-Verifies (ground arith) (rw (n1, n2, n6, p17) at fits) h)
          | inr n17 ↦ rw n17 (h, tt)
        ])
      ])
    ])
  ]

-- The check of the header lies behind the frame's type, and is none of the fields that choose
-- what is updated.
module _ (m : Mem) (eth v : ℕ) where
  abbrev iph : ℕ
  iph = eth_data m eth

  behind : eth + 14 ≤ iph
  behind = ground arith

  away : (y : ℕ) → y < iph + 10 → store16 m (iph + 10) v y ≡ m y
  away y h = store16_other m (iph + 10) v y (omega arith) (omega arith)

  frag_same : ip_pkt_is_frag (store16 m (iph + 10) v) eth ≡ ip_pkt_is_frag m eth
  frag_same =
      rw
        (
          away (eth + 12) (omega (arith, behind)),
          away (eth + 12 + 1) (omega (arith, behind)),
          away (eth + 16) (omega (arith, behind)),
          away (eth + 16 + 1) (omega (arith, behind)),
          away (iph + 6) (omega arith),
          away (iph + 6 + 1) (omega arith),
        )
        refl

  whole_same : store16 m (iph + 10) v iph ≡ m iph
  whole_same = away iph (omega arith)

  length_same : ip_data_len (store16 m (iph + 10) v) iph ≡ ip_data_len m iph
  length_same =
      rw (away iph (omega arith), away (iph + 2) (omega arith), away (iph + 2 + 1) (omega arith))
        refl

  protocol_same : ip_protocol (store16 m (iph + 10) v) iph ≡ ip_protocol m iph
  protocol_same = away (iph + 9) (omega arith)

-- On an IPv4 frame the checksum of the header comes first, and then that of the data, if the frame
-- is no fragment.
update_check_sum-eq :
    (m : Mem) (eth : ℕ)
    → IsBytes m
    → eth_type m eth ≡ 0x0800
    → let n = store16 m (eth_data m eth + 10) (header_check m (eth_data m eth)) in
      update_check_sum m eth ≡ (if ip_pkt_is_frag m eth then n else update_l4_v4 n (eth_data m eth))
unfolding update_check_sum update_check_sum_v4
update_check_sum-eq m eth b ip =
    let iph : ℕ = eth_data m eth in
    let v : ℕ = header_check m iph in
    let branch : Mem → Mem = λ k. if ip_pkt_is_frag k eth then k else update_l4_v4 k iph in
    ap
      (λ t.
        if t == eth_p_ip
        then update_check_sum_v4 m eth
        else if t == eth_p_ipv6
        then update_check_sum_v6 m eth
        else m)
      ip
    ∙ ap branch (ip_update_check-eq m iph b)
    ∙ ap (λ f. if f then store16 m (iph + 10) v else update_l4_v4 (store16 m (iph + 10) v) iph)
        (frag_same m eth v)

-- After `update_check_sum` an IPv4 frame that is no fragment, whose header is whole and whose data
-- has room for its check field, passes a receiver's tests: that of the header, and for ICMP, IGMP,
-- TCP and UDP that of the data.
pub update_check_sum-Verifies :
    (m : Mem) (eth : ℕ)
    → IsBytes m
    → eth_type m eth ≡ 0x0800
    → ip_pkt_is_frag m eth ≡ false
    → 5 ≤ m (eth_data m eth) % 16
    → needs (ip_protocol m (eth_data m eth)) ≤ ip_data_len m (eth_data m eth)
    → HeaderVerifies (update_check_sum m eth) (eth_data m eth)
      × DataVerifies (ip_protocol m (eth_data m eth)) (update_check_sum m eth) (eth_data m eth)
update_check_sum-Verifies m eth b ip no_frag whole fits =
    let iph : ℕ = eth_data m eth in
    let v : ℕ = header_check m iph in
    let n : Mem = store16 m (iph + 10) v in
    let e = ip_update_check-eq m iph b in
    let header = ip_update_check-HeaderVerifies m iph b (omega arith) in
    let both =
      update_l4_v4-Verifies n iph (store16-IsBytes m (iph + 10) v b)
        (subst (λ k. 5 ≤ k % 16) (sym (whole_same m eth v)) whole)
        (subst (λ k. needs (ip_protocol n iph) ≤ k) (sym (length_same m eth v))
          (subst (λ q. needs q ≤ ip_data_len m iph) (sym (protocol_same m eth v)) fits))
        (subst (λ k. HeaderVerifies k iph) e header) in
    subst (λ k. HeaderVerifies k iph × DataVerifies (ip_protocol m iph) k iph)
      (sym (update_check_sum-eq m eth b ip ∙ ap (λ f. if f then n else update_l4_v4 n iph) no_frag))
      (subst
        (λ q. HeaderVerifies (update_l4_v4 n iph) iph × DataVerifies q (update_l4_v4 n iph) iph)
        (protocol_same m eth v) both)

-- Of a fragment only the header's check is written.
pub update_check_sum-frag :
    (m : Mem) (eth : ℕ)
    → IsBytes m
    → eth_type m eth ≡ 0x0800
    → ip_pkt_is_frag m eth ≡ true
    → update_check_sum m eth ≡ ip_update_check m (eth_data m eth)
update_check_sum-frag m eth b ip is_frag =
    let iph : ℕ = eth_data m eth in
    let n : Mem = store16 m (iph + 10) (header_check m iph) in
    update_check_sum-eq m eth b ip
    ∙ ap (λ f. if f then n else update_l4_v4 n iph) is_frag
    ∙ sym (ip_update_check-eq m iph b)
