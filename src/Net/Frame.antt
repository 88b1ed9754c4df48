-- ===== src/Net/Frame.antt =====
-- Whole Ethernet frames: the type, VLAN tags, fragments, and the checksum and length updates of
-- libs/app_utils/src/net.c and libs/app_utils/api/net.h. A frame is the address of its first byte.
pub mod Update
use Prim.Native.Nat.{bit_and}
use linux_dev_framework.Base.{
  ltb, leb, ◌==◌, if◌then◌else◌, ltb→lt, lt→ltb, leb→le, ==_iff, ==_refl, Bool-cases, Option-cases,
  ◌>>=◌, some_inj, tests, length, get_elem?, get_or, set, take, drop, replicate, all, length-append,
  length-set, get_elem?-set_self, get_elem?-set_ne, get_elem?-lt, take-append-drop, length-take,
  length-drop, length-replicate, get_elem?-none, get_elem?-append_left, get_elem?-append_right,
  get_elem?-replicate, ℕ, zero, suc, ◌+◌, ◌-◌, ◌*◌, ◌/◌, ◌%◌, ◌^◌, ◌≤◌, ◌<◌, min, max, ◌≡◌, refl,
  sym, ap, ap₂, ◌∙◌, subst, fun_ext, ◌≢◌, ◌↔◌, ◌⊎◌, inl, inr, Bool, true, false, not, ◌&&◌, ◌||◌,
  Option, none, some, List, [], ◌∷◌, ◌++◌, map, append_assoc, append-nil, arith,
}
use linux_dev_framework.Net.Memory.{Mem, load16, store16, swap16}
use linux_dev_framework.Net.Ip.{
  ip_data, ip_data_len16, ip_protocol, set_ip_pkt_len, ip_update_check, ip6_data, ip6_data_len,
  ip6_nexthdr, set_ip6_pkt_len,
}
use linux_dev_framework.Net.L4.{
  tcp_update_check, udp_update_check, icmp_igmp_update_check, icmp_update_check6, tcp_update_check6,
  udp_update_check6,
}

abbrev pub eth_p_vlan : ℕ
eth_p_vlan = 0x8100

abbrev pub eth_p_ip : ℕ
eth_p_ip = 0x0800

abbrev pub eth_p_ipv6 : ℕ
eth_p_ipv6 = 0x86dd

abbrev pub eth_is_vlan : Mem → ℕ → Bool
eth_is_vlan m eth = swap16 (load16 m (eth + 12)) == eth_p_vlan

-- The type behind the addresses, or behind the tag.
abbrev pub eth_type : Mem → ℕ → ℕ
eth_type m eth =
    if swap16 (load16 m (eth + 12)) == eth_p_vlan
    then swap16 (load16 m (eth + 16))
    else swap16 (load16 m (eth + 12))

abbrev pub eth_hdr_len : Mem → ℕ → ℕ
eth_hdr_len m eth = if eth_is_vlan m eth then 18 else 14

abbrev pub eth_data : Mem → ℕ → ℕ
eth_data m eth = eth + eth_hdr_len m eth

-- `ntohs(frag_off) & ((1<<14) - 1)`: the offset and the flag that more fragments follow.
abbrev pub ip_pkt_is_frag : Mem → ℕ → Bool
ip_pkt_is_frag m eth =
    if eth_type m eth == eth_p_ip
    then not (swap16 (load16 m (eth_data m eth + 6)) % 2 ^ 14 == 0)
    else if eth_type m eth == eth_p_ipv6
    then ip6_nexthdr m (eth_data m eth) == 44
    else false

abbrev pub ip_pkt_can_frag : Mem → ℕ → Bool
ip_pkt_can_frag m eth =
    if ip_pkt_is_frag m eth
    then false
    else (eth_type m eth == eth_p_ip) || (eth_type m eth == eth_p_ipv6)

-- In units of 8 bytes.
abbrev pub ip_frag_offset : Mem → ℕ → ℕ
ip_frag_offset m eth =
    if eth_type m eth == eth_p_ip
    then swap16 (load16 m (eth_data m eth + 6)) % 2 ^ 13
    else swap16 (load16 m (ip6_data (eth_data m eth) + 2)) / 2 ^ 3

-- The second half of `update_check_sum_v4`.
abbrev pub update_l4_v4 : Mem → ℕ → Mem
update_l4_v4 m iph =
    if ip_protocol m iph == 1
    then icmp_igmp_update_check m iph
    else if ip_protocol m iph == 2
    then icmp_igmp_update_check m iph
    else if ip_protocol m iph == 6
    then tcp_update_check m iph
    else if ip_protocol m iph == 17
    then udp_update_check m iph
    else m

unfoldable pub update_check_sum_v4 : Mem → ℕ → Mem
update_check_sum_v4 m eth =
    let iph = eth_data m eth in
    let m1 = ip_update_check m iph in if ip_pkt_is_frag m1 eth then m1 else update_l4_v4 m1 iph

unfoldable pub update_check_sum_v6 : Mem → ℕ → Mem
update_check_sum_v6 m eth =
    let ip6h = eth_data m eth in
    if ip_pkt_is_frag m eth
    then m
    else if ip6_nexthdr m ip6h == 6
    then tcp_update_check6 m ip6h
    else if ip6_nexthdr m ip6h == 17
    then udp_update_check6 m ip6h
    else if ip6_nexthdr m ip6h == 58
    then icmp_update_check6 m ip6h
    else m

unfoldable pub update_check_sum : Mem → ℕ → Mem
update_check_sum m eth =
    if eth_type m eth == eth_p_ip
    then update_check_sum_v4 m eth
    else if eth_type m eth == eth_p_ipv6
    then update_check_sum_v6 m eth
    else m

-- `len - eth_hdr_len` as the 16 bits that `htons` takes; `len` is not negative.
abbrev pub len16 : Mem → (eth len : ℕ) → ℕ
len16 m eth len = (len + 65536 - eth_hdr_len m eth) % 65536

unfoldable pub update_len_v4 : Mem → (eth len : ℕ) → Mem
update_len_v4 m eth len =
    let iph = eth_data m eth in
    let m1 = store16 m (iph + 2) (swap16 (len16 m eth len)) in
    if ip_protocol m1 iph == 17
    then store16 m1 (ip_data m iph + 4) (swap16 (ip_data_len16 m1 iph))
    else m1

unfoldable pub update_len_v6 : Mem → (eth len : ℕ) → Mem
update_len_v6 m eth len =
    let ip6h = eth_data m eth in
    let m1 = store16 m (ip6h + 4) (swap16 ((len + 2 * 65536 - eth_hdr_len m eth - 40) % 65536)) in
    if ip6_nexthdr m1 ip6h == 17
    then store16 m1 (ip6_data ip6h + 4) (swap16 (ip6_data_len m1 ip6h))
    else m1

unfoldable pub update_len : Mem → (eth len : ℕ) → Mem
update_len m eth len =
    if eth_type m eth == eth_p_ip
    then update_len_v4 m eth len
    else if eth_type m eth == eth_p_ipv6
    then update_len_v6 m eth len
    else m
