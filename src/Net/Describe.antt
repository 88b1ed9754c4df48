-- ===== src/Net/Describe.antt =====
-- What a packet is about, as a line of text: get_pkt_desc_info in libs/app_utils/src/net.c.
mod Bounds
mod Tests
use linux_dev_framework.Base.{
  ltb, leb, ◌==◌, if◌then◌else◌, ltb→lt, lt→ltb, leb→le, ==_iff, ==_refl, Bool-cases, Option-cases,
  ◌>>=◌, some_inj, tests, length, get_elem?, get_or, set, take, drop, replicate, all, length-append,
  length-set, get_elem?-set_self, get_elem?-set_ne, get_elem?-lt, take-append-drop, take-length,
  length-take, length-drop, length-replicate, get_elem?-none, get_elem?-append_left,
  get_elem?-append_right, get_elem?-replicate, chars, token, strtok, Free, token-word, token-last,
  strtok-last, strtok-word, strchr, strrchr, strchr-first, strchr-none, Free-append, strrchr-end,
  digits, decimal, digit?, digit_of, number_from, magnitude, strtol, strtoul16, signed, blank?,
  atoi, number_from-digits, digits-first, strtol-decimal, digits-append, digits-Free, ℕ, zero, suc,
  ◌+◌, ◌-◌, ◌*◌, ◌/◌, ◌%◌, ◌^◌, ◌≤◌, ◌<◌, min, max, ◌≡◌, refl, sym, ap, ap₂, ◌∙◌, subst, fun_ext,
  ◌≢◌, ◌↔◌, ◌⊎◌, inl, inr, Bool, true, false, not, ◌&&◌, ◌||◌, Option, none, some, List, [], ◌∷◌,
  ◌++◌, map, append_assoc, append-nil, arith,
}
use linux_dev_framework.Net.Memory.{Mem, load16, swap16}
use linux_dev_framework.Net.Ip.{ip_data, ip_protocol, ip6_data, ip6_nexthdr}
use linux_dev_framework.Net.Frame.{eth_type, eth_data, eth_p_ip, eth_p_ipv6, ip_pkt_is_frag}
use linux_dev_framework.Net.Names.{hex4}
use linux_dev_framework.Net.Text.{ip_n2str, ip6_n2str, mac_n2str}

-- A bit of the flags in a TCP header, and its word.
abbrev pub flag : (flags bit : ℕ) → (word : List ℕ) → List ℕ
flag flags bit word = if flags / bit % 2 == 1 then word else []

abbrev pub flag_words : (flags : ℕ) → List ℕ
flag_words b =
    flag b 128 (chars "cwr ")
    ++ (flag b 64 (chars "ece ")
        ++ (flag b 32 (chars "urg ")
            ++ (flag b 16 (chars "ack ")
                ++ (flag b 8 (chars "psh ")
                    ++ (flag b 4 (chars "rst ")
                        ++ (flag b 2 (chars "syn ") ++ flag b 1 (chars "fin ")))))))

-- `port %hu->%hu` of the ports that a TCP or UDP header begins with.
abbrev pub ports : Mem → (l4 : ℕ) → List ℕ
ports m l4 =
    chars "port "
    ++ (decimal (swap16 (load16 m l4)) ++ (chars "->" ++ decimal (swap16 (load16 m (l4 + 2)))))

abbrev pub tcp_desc : Mem → (l4 : ℕ) → List ℕ
tcp_desc m l4 = ports m l4 ++ (chars "[" ++ (flag_words (m (l4 + 13)) ++ chars "]"))

abbrev pub icmp_desc : Mem → (request reply l4 : ℕ) → List ℕ
icmp_desc m request reply l4 =
    if (m l4 == request) && (m (l4 + 1) == 0)
    then chars "ping request"
    else if (m l4 == reply) && (m (l4 + 1) == 0)
    then chars "ping reply"
    else chars "type " ++ (decimal (m l4) ++ (chars " code " ++ decimal (m (l4 + 1))))

-- `info` is empty before the call, and stays so for another protocol.
unfoldable pub get_pkt_desc_info_v4 : Mem → (eth : ℕ) → List ℕ
get_pkt_desc_info_v4 m eth =
    let iph = eth_data m eth in
    let l4 = ip_data m iph in
    if ip_protocol m iph == 1
    then icmp_desc m 8 0 l4
    else if ip_protocol m iph == 2
    then chars "IGMP"
    else if ip_protocol m iph == 6
    then tcp_desc m l4
    else if ip_protocol m iph == 17
    then ports m l4
    else []

unfoldable pub get_pkt_desc_info_v6 : Mem → (eth : ℕ) → List ℕ
get_pkt_desc_info_v6 m eth =
    let ip6h = eth_data m eth in
    let l4 = ip6_data ip6h in
    if ip6_nexthdr m ip6h == 6
    then tcp_desc m l4
    else if ip6_nexthdr m ip6h == 17
    then ports m l4
    else if ip6_nexthdr m ip6h == 58
    then icmp_desc m 128 129 l4
    else []

abbrev pub who_has : (tip sip : List ℕ) → List ℕ
who_has tip sip = chars "who has " ++ (tip ++ (chars "? tell " ++ sip))

abbrev pub is_at : (sip sha : List ℕ) → List ℕ
is_at sip sha = sip ++ (chars " is at " ++ sha)

-- The addresses stand behind 8 bytes, those of IPv6 with their 16 bytes each.
unfoldable pub arp_desc : Mem → (arp_hdr : ℕ) → List ℕ
arp_desc m arp =
    if swap16 (load16 m (arp + 6)) == 1
    then if m (arp + 5) == 4
      then who_has (ip_n2str m (arp + 24)) (ip_n2str m (arp + 14))
      else if m (arp + 5) == 16
      then who_has (ip6_n2str m (arp + 36)) (ip6_n2str m (arp + 14))
      else []
    else if swap16 (load16 m (arp + 6)) == 2
    then if m (arp + 5) == 4
      then is_at (ip_n2str m (arp + 14)) (mac_n2str m (arp + 8))
      else if m (arp + 5) == 16
      then is_at (ip6_n2str m (arp + 14)) (mac_n2str m (arp + 8))
      else []
    else []

-- Where the type is that of IPv4 or IPv6.
abbrev pub ip_desc : Mem → (eth : ℕ) → List ℕ
ip_desc m eth =
    if ip_pkt_is_frag m eth
    then chars "frag "
    else if eth_type m eth == eth_p_ip
    then get_pkt_desc_info_v4 m eth
    else get_pkt_desc_info_v6 m eth

unfoldable pub get_pkt_desc_info : Mem → (eth : ℕ) → List ℕ
get_pkt_desc_info m eth =
    if eth_type m eth == 2054
    then arp_desc m (eth_data m eth)
    else if eth_type m eth == 32821
    then chars "rarp"
    else if eth_type m eth == 96
    then chars "Ethernet Loopback packet"
    else if eth_type m eth == 512
    then chars "Ethernet Echo packet"
    else if eth_type m eth == 34915
    then chars "PPPoE discovery messages"
    else if eth_type m eth == 34916
    then chars "PPPoE session messages"
    else if not (eth_type m eth == eth_p_ip) && not (eth_type m eth == eth_p_ipv6)
    then chars "eth type:" ++ hex4 (eth_type m eth)
    else ip_desc m eth
