-- ===== src/Net/L4.antt =====
-- The TCP, UDP, ICMP and IGMP checksums of libs/app_utils/src/net.c, over IPv4 and over IPv6.
pub mod Laws
pub mod Icmp
pub mod Six
use linux_dev_framework.Base.{
  ltb, leb, ◌==◌, if◌then◌else◌, ltb→lt, lt→ltb, leb→le, ==_iff, ==_refl, Bool-cases, Option-cases,
  ◌>>=◌, some_inj, tests, length, get_elem?, get_or, set, take, drop, replicate, all, length-append,
  length-set, get_elem?-set_self, get_elem?-set_ne, get_elem?-lt, take-append-drop, length-take,
  length-drop, length-replicate, get_elem?-none, get_elem?-append_left, get_elem?-append_right,
  get_elem?-replicate, ℕ, zero, suc, ◌+◌, ◌-◌, ◌*◌, ◌/◌, ◌%◌, ◌^◌, ◌≤◌, ◌<◌, min, max, ◌≡◌, refl,
  sym, ap, ap₂, ◌∙◌, subst, fun_ext, ◌≢◌, ◌↔◌, ◌⊎◌, inl, inr, Bool, true, false, not, ◌&&◌, ◌||◌,
  Option, none, some, List, [], ◌∷◌, ◌++◌, map, append_assoc, append-nil, arith,
}
use linux_dev_framework.Net.Memory.{Mem, load16, store16, swap16}
use linux_dev_framework.Net.Checksum.{csum, add_words, fold, complement}
use linux_dev_framework.Net.Ip.{
  ip_data, ip_data_len, ip_data_len16, ip_protocol, ip6_data, ip6_data_len, ip6_nexthdr,
}

abbrev pub ipproto_tcp : ℕ
ipproto_tcp = 6

abbrev pub ipproto_udp : ℕ
ipproto_udp = 17

abbrev pub ipproto_icmpv6 : ℕ
ipproto_icmpv6 = 58

-- `t_tcp_udp_pseudo_hdr` on the stack, by offset: the addresses, 0, the protocol, `htons` of the
-- data's length.
abbrev pub pseudo_hdr : Mem → ℕ → Mem
pseudo_hdr m iph x =
    if ltb x 8
    then m (iph + 12 + x)
    else if x == 8
    then 0
    else if x == 9
    then ip_protocol m iph
    else if x == 10
    then ip_data_len16 m iph / 256
    else ip_data_len16 m iph % 256

-- Where the check field is: at 16 of a TCP header, at 6 of any other, which is taken for UDP.
abbrev pub check_offset : ℕ → ℕ
check_offset protocol = if protocol == ipproto_tcp then 16 else 6

unfoldable pub tcp_udp_checksum : Mem → ℕ → ℕ × Mem
tcp_udp_checksum m iph =
    let at = ip_data m iph + check_offset (ip_protocol m iph) in
    let ori_sum = load16 m at in
    let m1 = store16 m at 0 in
    let sum = add_words (pseudo_hdr m iph) 0 12 0 in
    let sum2 = add_words m1 (ip_data m1 iph) (ip_data_len m1 iph) sum in
    (complement (fold sum2), store16 m1 at ori_sum)

unfoldable pub tcp_update_check : Mem → ℕ → Mem
tcp_update_check m iph =
    let (check, m') = tcp_udp_checksum m iph in store16 m' (ip_data m iph + 16) check

unfoldable pub udp_update_check : Mem → ℕ → Mem
udp_update_check m iph =
    let (check, m') = tcp_udp_checksum m iph in store16 m' (ip_data m iph + 6) check

unfoldable pub tcp_checksum_wrong : Mem → ℕ → Bool × Mem
tcp_checksum_wrong m iph =
    let (check, m') = tcp_udp_checksum m iph in (not (load16 m' (ip_data m iph + 16) == check), m')

unfoldable pub udp_checksum_wrong : Mem → ℕ → Bool × Mem
udp_checksum_wrong m iph =
    let (check, m') = tcp_udp_checksum m iph in (not (load16 m' (ip_data m iph + 6) == check), m')

unfoldable pub icmp_igmp_check : Mem → ℕ → ℕ × Mem
icmp_igmp_check m iph =
    let at = ip_data m iph + 2 in
    let ori_check = load16 m at in
    let m1 = store16 m at 0 in
    let new_check = csum m1 (ip_data m iph) (ip_data_len m1 iph) in
    (new_check, store16 m1 at ori_check)

unfoldable pub icmp_igmp_update_check : Mem → ℕ → Mem
icmp_igmp_update_check m iph =
    let (check, m') = icmp_igmp_check m iph in store16 m' (ip_data m iph + 2) check

unfoldable pub icmp_igmp_checksum_wrong : Mem → ℕ → Bool × Mem
icmp_igmp_checksum_wrong m iph =
    let (check, m') = icmp_igmp_check m iph in (not (load16 m' (ip_data m iph + 2) == check), m')

-- `t_tcp_udp_pseudo_hdr6`: the two addresses, 0, the next header, `htons` of the data's length.
abbrev pub pseudo_hdr6 : Mem → ℕ → Mem
pseudo_hdr6 m ip6h x =
    if ltb x 32
    then m (ip6h + 8 + x)
    else if x == 32
    then 0
    else if x == 33
    then ip6_nexthdr m ip6h
    else if x == 34
    then ip6_data_len m ip6h / 256
    else ip6_data_len m ip6h % 256

-- The check field of the headers that `tcp_udp_checksum6` knows.
abbrev pub check_offset6 : ℕ → Option ℕ
check_offset6 nexthdr =
    if nexthdr == ipproto_tcp
    then some 16
    else if nexthdr == ipproto_udp
    then some 6
    else if nexthdr == ipproto_icmpv6
    then some 2
    else none

-- The sum of a packet whose check field has been zeroed, or left if it is none of the three.
abbrev pub sum6 : (m m1 : Mem) → ℕ → ℕ
sum6 m m1 ip6h =
    add_words m1 (ip6_data ip6h) (ip6_data_len m1 ip6h) (add_words (pseudo_hdr6 m ip6h) 0 36 0)

-- The body of `tcp_udp_checksum6`, given the place of the check field.
abbrev pub checksum6_at : Mem → ℕ → Option ℕ → ℕ × Mem
checksum6_at m ip6h none = (complement (fold (sum6 m m ip6h)), m)
checksum6_at m ip6h (some offset) =
    let at = ip6_data ip6h + offset in
    let m1 = store16 m at 0 in (complement (fold (sum6 m m1 ip6h)), store16 m1 at (load16 m at))

unfoldable pub tcp_udp_checksum6 : Mem → ℕ → ℕ × Mem
tcp_udp_checksum6 m ip6h = checksum6_at m ip6h (check_offset6 (ip6_nexthdr m ip6h))

-- The check field is that of the update function's own header.
abbrev pub update_check6 : (offset : ℕ) → Mem → ℕ → Mem
update_check6 offset m ip6h =
    let (check, m') = tcp_udp_checksum6 m ip6h in store16 m' (ip6_data ip6h + offset) check

unfoldable pub icmp_update_check6 : Mem → ℕ → Mem
icmp_update_check6 m ip6h = update_check6 2 m ip6h

unfoldable pub tcp_update_check6 : Mem → ℕ → Mem
tcp_update_check6 m ip6h = update_check6 16 m ip6h

unfoldable pub udp_update_check6 : Mem → ℕ → Mem
udp_update_check6 m ip6h = update_check6 6 m ip6h

abbrev pub checksum_wrong6 : (offset : ℕ) → Mem → ℕ → Bool × Mem
checksum_wrong6 offset m ip6h =
    let (check, m') = tcp_udp_checksum6 m ip6h in
    (not (load16 m' (ip6_data ip6h + offset) == check), m')

unfoldable pub tcp_checksum_wrong6 : Mem → ℕ → Bool × Mem
tcp_checksum_wrong6 m ip6h = checksum_wrong6 16 m ip6h

unfoldable pub udp_checksum_wrong6 : Mem → ℕ → Bool × Mem
udp_checksum_wrong6 m ip6h = checksum_wrong6 6 m ip6h

unfoldable pub icmp_checksum_wrong6 : Mem → ℕ → Bool × Mem
icmp_checksum_wrong6 m ip6h = checksum_wrong6 2 m ip6h
