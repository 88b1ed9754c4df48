-- ===== src/Net/Text/Tests.antt =====
-- Addresses of libs/app_utils/src/net.c as texts, on examples.
use linux_dev_framework.Base.{
  replicate, chars, decimal, number_from, ℕ, ◌%◌, ◌≡◌, refl, some, List, [], ◌∷◌, ◌++◌, arith,
}
use linux_dev_framework.Net.Memory.{Mem}
use linux_dev_framework.Net.Text.{bytes_at, join, ip_n2str, mac_n2str, ip6_n2str, ip6_str2n}
use linux_dev_framework.Net.Text.Groups.{Group, group_bytes}
use linux_dev_framework.Net.Text.Six.{ip6_str2n-gap, ip6_str2n-n2str}

abbrev no_inet : List ℕ → ℕ × ℕ × ℕ × ℕ
no_inet s = (0, 0, 0, 0)

abbrev count_up : Mem
count_up a = a % 256

ip6_str2n-n2str_example : ip6_str2n no_inet (ip6_n2str count_up 20) ≡ some (bytes_at 16 count_up 20)
ip6_str2n-n2str_example = ip6_str2n-n2str no_inet count_up 20 (λ a. omega arith)

one : Group (chars "1")
one = record { digits = (refl, tt); some_digit = omega arith; four = omega arith }

fe80 : Group (chars "fe80")
fe80 = record {
  digits = (refl, (refl, (refl, (refl, tt))));
  some_digit = omega arith;
  four = omega arith;
}

-- fe80::1
ip6_str2n-gap_example :
    ip6_str2n no_inet (join 58 (chars "fe80" ∷ []) ++ 58 ∷ 58 ∷ join 58 (chars "1" ∷ []))
    ≡ some (group_bytes (chars "fe80" ∷ []) ++ (replicate 12 0 ++ group_bytes (chars "1" ∷ [])))
ip6_str2n-gap_example =
    ip6_str2n-gap no_inet (chars "fe80" ∷ []) (chars "1" ∷ []) (fe80, tt) (one, tt) (omega arith)

link_local : group_bytes (chars "fe80" ∷ []) ≡ 0xfe ∷ 0x80 ∷ []
unfolding number_from
link_local = refl

dotted : ip_n2str count_up 8 ≡ chars "8.9.10.11"
unfolding ip_n2str decimal
dotted = refl

mac : mac_n2str count_up 8 ≡ chars "08 09 0a 0b 0c 0d"
unfolding mac_n2str
mac = refl
