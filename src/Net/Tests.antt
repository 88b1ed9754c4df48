-- ===== src/Net/Tests.antt =====
-- Packets at concrete bytes: a frame of 62 bytes with an IPv4 header of 20 bytes at 14 and 28 bytes
-- of data, and an IPv6 header at 14 with 28 bytes of data.
use linux_dev_framework.Base.{
  ltb, ◌==◌, if◌then◌else◌, ℕ, ◌+◌, ◌-◌, ◌*◌, ◌/◌, ◌%◌, ◌^◌, ◌<◌, ◌≡◌, refl, false, List, ◌∷◌,
  arith,
}
use linux_dev_framework.Net.Memory.{Mem, IsBytes}
use linux_dev_framework.Net.Ip.Laws.{HeaderVerifies}
use linux_dev_framework.Net.L4.{
  udp_update_check, icmp_igmp_update_check, udp_checksum_wrong, icmp_igmp_checksum_wrong,
}
use linux_dev_framework.Net.L4.Laws.{udp_checksum_wrong-update}
use linux_dev_framework.Net.L4.Icmp.{icmp_igmp_checksum_wrong-update}
use linux_dev_framework.Net.Names.{hex_digit, hex4, get_eth_type_name, get_eth_type_value}
use linux_dev_framework.Net.Names.Laws.{get_eth_type_value-name}
use linux_dev_framework.Net.Frame.{update_check_sum}
use linux_dev_framework.Net.Frame.Update.{DataVerifies, update_check_sum-Verifies}

-- The fields that the code reads, and some data; `flags` is the first byte of the fragment field.
abbrev frame : (protocol flags : ℕ) → Mem
frame protocol flags x =
    if x == 12
    then 8
    else if x == 14
    then 69
    else if x == 17
    then 48
    else if x == 20
    then flags % 256
    else if x == 23
    then protocol % 256
    else if x == 26
    then 192
    else if x == 30
    then 10
    else if x == 40
    then 99
    else if x == 52
    then 201
    else 0

frame-IsBytes : (protocol flags : ℕ) → IsBytes (frame protocol flags)
frame-IsBytes protocol flags a = ground arith

abbrev frame6 : (nexthdr : ℕ) → Mem
frame6 nexthdr x =
    if x == 12
    then 134
    else if x == 13
    then 221
    else if x == 14
    then 96
    else if x == 19
    then 28
    else if x == 20
    then nexthdr % 256
    else if x == 22
    then 254
    else if x == 38
    then 253
    else if x == 60
    then 17
    else 0

frame6-IsBytes : (nexthdr : ℕ) → IsBytes (frame6 nexthdr)
frame6-IsBytes nexthdr a = ground arith

udp_checksum_wrong-update_example :
    udp_checksum_wrong (udp_update_check (frame 17 0) 14) 14
    ≡ (false, udp_update_check (frame 17 0) 14)
udp_checksum_wrong-update_example =
    udp_checksum_wrong-update (frame 17 0) 14 (frame-IsBytes 17 0) (omega arith) (omega arith)

icmp_igmp_checksum_wrong-update_example :
    icmp_igmp_checksum_wrong (icmp_igmp_update_check (frame 1 0) 14) 14
    ≡ (false, icmp_igmp_update_check (frame 1 0) 14)
icmp_igmp_checksum_wrong-update_example =
    icmp_igmp_checksum_wrong-update (frame 1 0) 14 (frame-IsBytes 1 0) (omega arith)

update_check_sum-Verifies_example :
    HeaderVerifies (update_check_sum (frame 17 0) 0) 14
    × DataVerifies 17 (update_check_sum (frame 17 0) 0) 14
update_check_sum-Verifies_example =
    update_check_sum-Verifies (frame 17 0) 0 (frame-IsBytes 17 0) refl refl (omega arith)
      (omega arith)

-- What `strtol` makes of `0x` and four digits.
abbrev digit_value : ℕ → ℕ
digit_value c = if ltb c 58 then c - 48 else c - 87

abbrev strtol_4 : List ℕ → ℕ → ℕ
strtol_4 (z ∷ x ∷ a ∷ b ∷ c ∷ d ∷ s) base =
    ((digit_value a * base + digit_value b) * base + digit_value c) * base + digit_value d
strtol_4 s base = 0

digit_value-hex_digit : (d : ℕ) → d < 16 → digit_value (hex_digit d) ≡ d
digit_value-hex_digit d h = ground arith

strtol_4-hex4 : (n : ℕ) → n < 2 ^ 16 → strtol_4 (hex4 n) 16 ≡ n
strtol_4-hex4 n h =
    rw
      (
        digit_value-hex_digit (n / 4096 % 16) (omega arith),
        digit_value-hex_digit (n / 256 % 16) (omega arith),
        digit_value-hex_digit (n / 16 % 16) (omega arith),
        digit_value-hex_digit (n % 16) (omega arith),
      )
      (omega arith)

get_eth_type_value-name_example : get_eth_type_value strtol_4 (get_eth_type_name 0x88cc).1 ≡ 0x88cc
get_eth_type_value-name_example =
    get_eth_type_value-name strtol_4 strtol_4-hex4 0x88cc (omega arith)
