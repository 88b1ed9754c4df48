-- ===== src/Net/Ip.antt =====
-- The IPv4 and IPv6 headers of libs/app_utils/api/net.h, and the header checksum of
-- libs/app_utils/src/net.c. A header is its address. A function that zeroes a field and writes it
-- back returns the memory beside its result.
pub mod Laws
use linux_dev_framework.Base.{
  ltb, leb, ◌==◌, if◌then◌else◌, ltb→lt, lt→ltb, leb→le, ==_iff, ==_refl, Bool-cases, Option-cases,
  ◌>>=◌, some_inj, tests, length, get_elem?, get_or, set, take, drop, replicate, all, length-append,
  length-set, get_elem?-set_self, get_elem?-set_ne, get_elem?-lt, take-append-drop, length-take,
  length-drop, length-replicate, get_elem?-none, get_elem?-append_left, get_elem?-append_right,
  get_elem?-replicate, ℕ, zero, suc, ◌+◌, ◌-◌, ◌*◌, ◌/◌, ◌%◌, ◌^◌, ◌≤◌, ◌<◌, min, max, ◌≡◌, refl,
  sym, ap, ap₂, ◌∙◌, subst, fun_ext, ◌≢◌, ◌↔◌, ◌⊎◌, inl, inr, Bool, true, false, not, ◌&&◌, ◌||◌,
  Option, none, some, List, [], ◌∷◌, ◌++◌, map, append_assoc, append-nil, arith,
}
use linux_dev_framework.Net.Memory.{Mem, load16, store16, swap16}
use linux_dev_framework.Net.Checksum.{csum}

-- `iph->ihl` is the low half of the first byte.
abbrev pub ip_hdr_len : Mem → ℕ → ℕ
ip_hdr_len m iph = m iph % 16 * 4

abbrev pub ip_pkt_len : Mem → ℕ → ℕ
ip_pkt_len m iph = swap16 (load16 m (iph + 2))

abbrev pub ip_data : Mem → ℕ → ℕ
ip_data m iph = iph + ip_hdr_len m iph

-- As a count of bytes to go through: 0 where the `int` is negative.
abbrev pub ip_data_len : Mem → ℕ → ℕ
ip_data_len m iph = ip_pkt_len m iph - ip_hdr_len m iph

-- As the 16 bits that `htons` takes of the `int`.
abbrev pub ip_data_len16 : Mem → ℕ → ℕ
ip_data_len16 m iph = (ip_pkt_len m iph + 65536 - ip_hdr_len m iph) % 65536

abbrev pub set_ip_pkt_len : Mem → (iph len : ℕ) → Mem
set_ip_pkt_len m iph len = store16 m (iph + 2) (swap16 (len % 2 ^ 16))

abbrev pub ip_protocol : Mem → ℕ → ℕ
ip_protocol m iph = m (iph + 9)

unfoldable pub ip_check : Mem → ℕ → ℕ × Mem
ip_check m iph =
    let ori_check = load16 m (iph + 10) in
    let m1 = store16 m (iph + 10) 0 in
    let new_check = csum m1 iph (m1 iph % 16 * 4) in (new_check, store16 m1 (iph + 10) ori_check)

unfoldable pub ip_update_check : Mem → ℕ → Mem
ip_update_check m iph = let (check, m') = ip_check m iph in store16 m' (iph + 10) check

unfoldable pub ip_checksum_wrong : Mem → ℕ → Bool × Mem
ip_checksum_wrong m iph =
    let (check, m') = ip_check m iph in (not (load16 m' (iph + 10) == check), m')

-- IPv6: `nexthdr` at 6, the addresses from 8 and from 24, the data behind 40 bytes.
abbrev pub ip6_data : ℕ → ℕ
ip6_data ip6h = ip6h + 40

abbrev pub ip6_data_len : Mem → ℕ → ℕ
ip6_data_len m ip6h = swap16 (load16 m (ip6h + 4))

abbrev pub ip6_pkt_len : Mem → ℕ → ℕ
ip6_pkt_len m ip6h = ip6_data_len m ip6h + 40

abbrev pub set_ip6_pkt_len : Mem → (ip6h len : ℕ) → Mem
set_ip6_pkt_len m ip6h len = store16 m (ip6h + 4) (swap16 ((len + 65536 - 40) % 2 ^ 16))

abbrev pub ip6_nexthdr : Mem → ℕ → ℕ
ip6_nexthdr m ip6h = m (ip6h + 6)
