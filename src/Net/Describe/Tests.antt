-- ===== src/Net/Describe/Tests.antt =====
-- Descriptions of packets: a question for an IPv6 address, the longest of them, and a TCP segment.
use linux_dev_framework.Base.{◌==◌, if◌then◌else◌, length, chars, decimal, ◌≡◌, refl, arith}
use linux_dev_framework.Net.Memory.{Mem}
use linux_dev_framework.Net.Text.{ip6_n2str}
use linux_dev_framework.Net.Describe.{get_pkt_desc_info_v4, arp_desc, get_pkt_desc_info}
use linux_dev_framework.Net.Describe.Bounds.{AtMost, get_pkt_desc_info_bound}

-- The operation is 1, and addresses have 16 bytes.
abbrev question : Mem
question a =
    if a == 12
    then 8
    else if a == 13
    then 6
    else if a == 19
    then 16
    else if a == 20
    then 0
    else if a == 21
    then 1
    else 254

-- From port 80 to port 1024, with ack and syn.
abbrev segment : Mem
segment a =
    if a == 12
    then 8
    else if a == 14
    then 69
    else if a == 23
    then 6
    else if a == 35
    then 80
    else if a == 36
    then 4
    else if a == 47
    then 18
    else 0

longest : length (get_pkt_desc_info question 0) ≡ 93
unfolding get_pkt_desc_info arp_desc ip6_n2str
longest = refl

syn_ack : get_pkt_desc_info segment 0 ≡ chars "port 80->1024[ack syn ]"
unfolding get_pkt_desc_info get_pkt_desc_info_v4 decimal
syn_ack = refl

get_pkt_desc_info_bound_example : AtMost 93 (get_pkt_desc_info question 0)
get_pkt_desc_info_bound_example = get_pkt_desc_info_bound question 0 (λ a. ground arith)
