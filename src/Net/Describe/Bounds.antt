-- ===== src/Net/Describe/Bounds.antt =====
-- How long the description of a packet is that libs/app_utils/src/net.c writes.
use linux_dev_framework.Base.{
  ltb, ◌==◌, if◌then◌else◌, lt→ltb, Bool-cases, length, length-append, chars, digits, decimal, ℕ,
  zero, suc, ◌+◌, ◌*◌, ◌/◌, ◌%◌, ◌≤◌, ◌<◌, max, ◌≡◌, inl, inr, Bool, true, false, List, [], ◌∷◌,
  ◌++◌, arith,
}
use linux_dev_framework.Net.Memory.{Mem, IsBytes, load16, swap16}
use linux_dev_framework.Net.Ip.{ip_data, ip6_data}
use linux_dev_framework.Net.Frame.{eth_type, eth_data}
use linux_dev_framework.Net.Names.{hex4}
use linux_dev_framework.Net.Text.{ip_n2str, ip6_n2str, mac_n2str}
use linux_dev_framework.Net.Describe.{
  flag, flag_words, ports, tcp_desc, icmp_desc, get_pkt_desc_info_v4, get_pkt_desc_info_v6, who_has,
  is_at, arp_desc, get_pkt_desc_info,
}

-- A text of at most so many characters.
pub record AtMost (n : ℕ) (s : List ℕ) : Type 0 where
  pub bound : length s ≤ n

more : {n k : ℕ} → {s : List ℕ} → AtMost n s → n ≤ k → AtMost k s
more h e = record { bound = omega (arith, h.bound, e) }

text : (s : List ℕ) → AtMost (length s) s
text s = record { bound = omega arith }

append_bound : {i j : ℕ} → {a b : List ℕ} → AtMost i a → AtMost j b → AtMost (i + j) (a ++ b)
append_bound {a = a} {b = b} h k = record {
  bound = omega (arith, h.bound, k.bound, length-append a b);
}

if_bound :
    {i j : ℕ}
    → {a b : List ℕ} → (c : Bool) → AtMost i a
    → AtMost j b
    → AtMost (max i j) (if c then a else b)
if_bound true h k = more h (omega arith)
if_bound false h k = more k (omega arith)

abbrev tens : ℕ → ℕ
tens zero = 10
tens (suc k) = 10 * tens k

tenth : (n p : ℕ) → n < 10 * p → n / 10 < p
tenth n p h = omega (arith, h)

digits_bound :
    (k fuel n : ℕ) (behind : List ℕ)
    → n < tens k
    → length (digits fuel n behind) ≤ k + 1 + length behind
digits_bound k zero n behind h = omega arith
digits_bound zero (suc fuel) n behind h =
    let small : ltb n 10 ≡ true = lt→ltb n 10 h in rw small (omega arith)
digits_bound (suc k) (suc fuel) n behind h = elim (Bool-cases (ltb n 10)) [
  | inl y ↦ rw y (omega arith)
  | inr out ↦
      let below : n / 10 < tens k = tenth n (tens k) h in
      rw out (omega (arith, digits_bound k fuel (n / 10) ((48 + n % 10) ∷ behind) below))
]

decimal_bound : (k n : ℕ) → n < tens k → AtMost (k + 1) (decimal n)
unfolding decimal
decimal_bound k n h = record { bound = omega (arith, digits_bound k (suc n) n [] h) }

port_bound : (m : Mem) (a : ℕ) → IsBytes m → AtMost 5 (decimal (swap16 (load16 m a)))
port_bound m a b = decimal_bound 4 _ (omega (arith, b a, b (a + 1)))

byte_bound : (m : Mem) (a : ℕ) → IsBytes m → AtMost 3 (decimal (m a))
byte_bound m a b = decimal_bound 2 (m a) (omega (arith, b a))

then_bound : {j : ℕ} → {s : List ℕ} → (c : ℕ) → AtMost j s → AtMost (1 + j) (c ∷ s)
then_bound c h = record { bound = omega (arith, h.bound) }

ip_n2str_bound : (m : Mem) (a : ℕ) → IsBytes m → AtMost 15 (ip_n2str m a)
unfolding ip_n2str
ip_n2str_bound m a b = append_bound (byte_bound m a b) (
    then_bound 46 (
      append_bound (byte_bound m (a + 1) b) (
        then_bound 46
          (append_bound (byte_bound m (a + 2) b) (then_bound 46 (byte_bound m (a + 3) b))))))

ip6_n2str_bound : (m : Mem) (a : ℕ) → AtMost 39 (ip6_n2str m a)
unfolding ip6_n2str
ip6_n2str_bound m a = record { bound = omega arith }

mac_n2str_bound : (m : Mem) (a : ℕ) → AtMost 17 (mac_n2str m a)
unfolding mac_n2str
mac_n2str_bound m a = record { bound = omega arith }

flag_bound : (flags bit : ℕ) (word : List ℕ) → AtMost (length word) (flag flags bit word)
flag_bound flags bit word = more (if_bound _ (text word) (text [])) (omega arith)

flag_words_bound : (b : ℕ) → AtMost 32 (flag_words b)
flag_words_bound b = append_bound (flag_bound b 128 (chars "cwr ")) (
    append_bound (flag_bound b 64 (chars "ece ")) (
      append_bound (flag_bound b 32 (chars "urg ")) (
        append_bound (flag_bound b 16 (chars "ack ")) (
          append_bound (flag_bound b 8 (chars "psh ")) (
            append_bound (flag_bound b 4 (chars "rst "))
              (append_bound (flag_bound b 2 (chars "syn ")) (flag_bound b 1 (chars "fin "))))))))

ports_bound : (m : Mem) (l4 : ℕ) → IsBytes m → AtMost 17 (ports m l4)
ports_bound m l4 b =
    append_bound (text (chars "port ")) (
      append_bound (port_bound m l4 b) (append_bound (text (chars "->")) (port_bound m (l4 + 2) b)))

tcp_desc_bound : (m : Mem) (l4 : ℕ) → IsBytes m → AtMost 51 (tcp_desc m l4)
tcp_desc_bound m l4 b = append_bound (ports_bound m l4 b) (
    append_bound (text (chars "["))
      (append_bound (flag_words_bound (m (l4 + 13))) (text (chars "]"))))

icmp_desc_bound :
    (m : Mem) (request reply l4 : ℕ) → IsBytes m → AtMost 17 (icmp_desc m request reply l4)
icmp_desc_bound m request reply l4 b = if_bound _ (text (chars "ping request")) (
    if_bound _ (text (chars "ping reply")) (
      append_bound (text (chars "type ")) (
        append_bound (byte_bound m l4 b)
          (append_bound (text (chars " code ")) (byte_bound m (l4 + 1) b)))))

v4_bound : (m : Mem) (eth : ℕ) → IsBytes m → AtMost 51 (get_pkt_desc_info_v4 m eth)
unfolding get_pkt_desc_info_v4
v4_bound m eth b =
    let l4 = ip_data m (eth_data m eth) in
    if_bound _ (icmp_desc_bound m 8 0 l4 b) (
      if_bound _ (text (chars "IGMP"))
        (if_bound _ (tcp_desc_bound m l4 b) (if_bound _ (ports_bound m l4 b) (text []))))

v6_bound : (m : Mem) (eth : ℕ) → IsBytes m → AtMost 51 (get_pkt_desc_info_v6 m eth)
unfolding get_pkt_desc_info_v6
v6_bound m eth b =
    let l4 = ip6_data (eth_data m eth) in
    if_bound _ (tcp_desc_bound m l4 b)
      (if_bound _ (ports_bound m l4 b) (if_bound _ (icmp_desc_bound m 128 129 l4 b) (text [])))

who_has_bound :
    {i j : ℕ}
    → {tip sip : List ℕ} → AtMost i tip
    → AtMost j sip
    → AtMost (15 + i + j) (who_has tip sip)
who_has_bound h k =
    more
      (append_bound (text (chars "who has "))
        (append_bound h (append_bound (text (chars "? tell ")) k)))
      (omega arith)

is_at_bound :
    {i j : ℕ}
    → {sip sha : List ℕ} → AtMost i sip
    → AtMost j sha
    → AtMost (i + 7 + j) (is_at sip sha)
is_at_bound h k = more (append_bound h (append_bound (text (chars " is at ")) k)) (omega arith)

arp_desc_bound : (m : Mem) (arp : ℕ) → IsBytes m → AtMost 93 (arp_desc m arp)
unfolding arp_desc
arp_desc_bound m arp b =
    if_bound (swap16 (load16 m (arp + 6)) == 1)
      (if_bound (m (arp + 5) == 4)
        (who_has_bound (ip_n2str_bound m (arp + 24) b) (ip_n2str_bound m (arp + 14) b))
        (if_bound (m (arp + 5) == 16)
          (who_has_bound (ip6_n2str_bound m (arp + 36)) (ip6_n2str_bound m (arp + 14))) (text [])))
      (if_bound (swap16 (load16 m (arp + 6)) == 2)
        (if_bound (m (arp + 5) == 4)
          (is_at_bound (ip_n2str_bound m (arp + 14) b) (mac_n2str_bound m (arp + 8)))
          (if_bound (m (arp + 5) == 16)
            (is_at_bound (ip6_n2str_bound m (arp + 14)) (mac_n2str_bound m (arp + 8))) (text [])))
        (text []))

-- Whatever the bytes of the packet are, the description that `get_pkt_desc_info` writes has at most
-- 93 characters, for each type, protocol and kind of address.
pub get_pkt_desc_info_bound : (m : Mem) (eth : ℕ) → IsBytes m → AtMost 93 (get_pkt_desc_info m eth)
unfolding get_pkt_desc_info
get_pkt_desc_info_bound m eth b = if_bound _ (arp_desc_bound m (eth_data m eth) b) (
    if_bound _ (text (chars "rarp")) (
      if_bound _ (text (chars "Ethernet Loopback packet")) (
        if_bound _ (text (chars "Ethernet Echo packet")) (
          if_bound _ (text (chars "PPPoE discovery messages")) (
            if_bound _ (text (chars "PPPoE session messages")) (
              if_bound _ (append_bound (text (chars "eth type:")) (text (hex4 (eth_type m eth)))) (
                if_bound _ (text (chars "frag "))
                  (if_bound _ (v4_bound m eth b) (v6_bound m eth b)))))))))
