-- ===== src/Net/Names.antt =====
-- The names of the Ethernet types and of the protocols, from libs/app_utils/src/net.c.
pub mod Laws
use Prim.Native.String.{String}
use linux_dev_framework.Base.{
  ltb, leb, ◌==◌, if◌then◌else◌, ltb→lt, lt→ltb, leb→le, ==_iff, ==_refl, Bool-cases, Option-cases,
  ◌>>=◌, some_inj, tests, length, get_elem?, get_or, set, take, drop, replicate, all, length-append,
  length-set, get_elem?-set_self, get_elem?-set_ne, get_elem?-lt, take-append-drop, take-length,
  length-take, length-drop, length-replicate, get_elem?-none, get_elem?-append_left,
  get_elem?-append_right, get_elem?-replicate, chars, token, strtok, Free, token-word, token-last,
  ℕ, zero, suc, ◌+◌, ◌-◌, ◌*◌, ◌/◌, ◌%◌, ◌^◌, ◌≤◌, ◌<◌, min, max, ◌≡◌, refl, sym, ap, ap₂, ◌∙◌,
  subst, fun_ext, ◌≢◌, ◌↔◌, ◌⊎◌, inl, inr, Bool, true, false, not, ◌&&◌, ◌||◌, Option, none, some,
  List, [], ◌∷◌, ◌++◌, map, append_assoc, append-nil, arith,
}
use linux_dev_framework.StringUtils.{streq}
use linux_dev_framework.Net.Memory.{Mem}
use linux_dev_framework.Net.Ip.{ip_protocol, ip6_nexthdr}
use linux_dev_framework.Net.Frame.{eth_type, eth_data, eth_is_vlan, eth_p_ip, eth_p_ipv6}

pub record EthType : Type 0 where
  pub name : List ℕ
  pub value : ℕ

abbrev entry : String → ℕ → EthType
entry name value = record { name = chars name; value = value }

abbrev pub gat_eth_type : List EthType
gat_eth_type =
    entry "IP" 0x0800
    ∷ entry "ARP" 0x0806
    ∷ entry "RARP" 0x8035
    ∷ entry "IPV6" 0x86dd
    ∷ entry "VLAN" 0x8100
    ∷ entry "PPP_DISC" 0x8863
    ∷ entry "PPP_SESS" 0x8864
    ∷ entry "LOOP" 0x0060
    ∷ entry "ECHO" 0x0200
    ∷ []

-- The loops over the table, from its entry `i` on.
abbrev pub by_value : List EthType → (i type : ℕ) → Option (ℕ × List ℕ)
by_value [] i type = none
by_value (e ∷ table) i type =
    if type == e.value then some (i, e.name) else by_value table (i + 1) type

abbrev pub by_name : List EthType → (name : List ℕ) → Option ℕ
by_name [] name = none
by_name (e ∷ table) name = if streq e.name name then some e.value else by_name table name

abbrev pub hex_digit : ℕ → ℕ
hex_digit d = if ltb d 10 then 48 + d else 87 + d

-- `sprintf("0x%04x", type)` of the 16 bits that a type has.
abbrev pub hex4 : ℕ → List ℕ
hex4 n =
    48
    ∷ 120
    ∷ hex_digit (n / 4096 % 16)
    ∷ hex_digit (n / 256 % 16)
    ∷ hex_digit (n / 16 % 16)
    ∷ hex_digit (n % 16)
    ∷ []

abbrev named : (type : ℕ) → Option (ℕ × List ℕ) → Option ℕ × List ℕ
named type (some (i, name)) = (some i, name)
named type none = (none, hex4 type)

-- The result, where `none` stands for -1, and the text in `info`, which is not NULL.
unfoldable pub get_eth_type_name : (type : ℕ) → Option ℕ × List ℕ
get_eth_type_name type = named type (by_value gat_eth_type 0 type)

abbrev has_char : ℕ → List ℕ → Bool
has_char c [] = false
has_char c (d ∷ s) = (c == d) || has_char c s

-- `strtol` of the C library, by text and base, is a parameter.
module _ (strtol : List ℕ → ℕ → ℕ) where
  unfoldable pub str2int : (info : List ℕ) → ℕ
  str2int info = if has_char 120 info || has_char 88 info then strtol info 16 else strtol info 10

  abbrev or_number : (name : List ℕ) → Option ℕ → ℕ
  unfolding str2int
  or_number name (some value) = value
  or_number name none = str2int name

  unfoldable pub get_eth_type_value : (name : List ℕ) → ℕ
  unfolding or_number
  get_eth_type_value name = or_number name (by_name gat_eth_type name)

abbrev pub protocol_name_map : List (List ℕ)
protocol_name_map =
    chars "HOPOPT"
    ∷ chars "ICMP"
    ∷ chars "IGMP"
    ∷ chars "GGP"
    ∷ chars "IP-ENCAP"
    ∷ chars "ST"
    ∷ chars "TCP"
    ∷ chars "CBT"
    ∷ chars "EGP"
    ∷ chars "IGP"
    ∷ chars "BBN-RCC-MON"
    ∷ chars "NVP-II"
    ∷ chars "PUP"
    ∷ chars "ARGUS"
    ∷ chars "EMCON"
    ∷ chars "XNET"
    ∷ chars "CHAOS"
    ∷ chars "UDP"
    ∷ chars "MUX"
    ∷ chars "DCN-MEAS"
    ∷ chars "HMP"
    ∷ chars "PRM"
    ∷ chars "XNS-IDP"
    ∷ chars "TRUNK-1"
    ∷ chars "TRUNK-2"
    ∷ chars "LEAF-1"
    ∷ chars "LEAF-2"
    ∷ chars "RDP"
    ∷ chars "IRTP"
    ∷ chars "ISO-TP4"
    ∷ chars "NETBLT"
    ∷ chars "MFE-NSP"
    ∷ chars "MERIT-INP"
    ∷ chars "DCCP"
    ∷ chars "3PC"
    ∷ chars "IDPR"
    ∷ chars "XTP"
    ∷ chars "DDP"
    ∷ chars "IDPR-CMTP"
    ∷ chars "TP++"
    ∷ chars "IL"
    ∷ chars "IPv6"
    ∷ chars "SDRP"
    ∷ chars "IPv6-Route"
    ∷ chars "IPv6-Frag"
    ∷ chars "IDRP"
    ∷ chars "RSVP"
    ∷ chars "GRE"
    ∷ chars "DSR"
    ∷ chars "BNA"
    ∷ chars "ESP/IPv6-Crypt"
    ∷ chars "AH/IPv6-Auth"
    ∷ chars "I-NLSP "
    ∷ chars "SWIPE"
    ∷ chars "NARP"
    ∷ chars "MOBILE"
    ∷ chars "TLSP"
    ∷ chars "SKIP"
    ∷ chars "IPv6-ICMP"
    ∷ chars "IPv6-NoNxt"
    ∷ chars "IPv6-Opts"
    ∷ chars "unknown"
    ∷ chars "CFTP"
    ∷ chars "unknown"
    ∷ chars "SAT-EXPAK"
    ∷ chars "KRYPTOLAN"
    ∷ chars "RVD"
    ∷ chars "IPPC"
    ∷ chars "unknown"
    ∷ chars "SAT-MON"
    ∷ chars "VISA"
    ∷ chars "IPCV"
    ∷ chars "CPNX"
    ∷ chars "CPHB"
    ∷ chars "WSN"
    ∷ chars "PVP"
    ∷ chars "BR-SAT-MON"
    ∷ chars "SUN-ND"
    ∷ chars "WB-MON"
    ∷ chars "WB-EXPAK"
    ∷ chars "ISO-IP"
    ∷ chars "VMTP"
    ∷ chars "SECURE-VMTP"
    ∷ chars "VINES"
    ∷ chars "TTP"
    ∷ chars "NSFNET-IGP"
    ∷ chars "DGP"
    ∷ chars "TCF"
    ∷ chars "EIGRP"
    ∷ chars "OSPFIGP"
    ∷ chars "Sprite-RPC"
    ∷ chars "LARP"
    ∷ chars "MTP"
    ∷ chars "AX.25"
    ∷ chars "IPIP"
    ∷ chars "MICP"
    ∷ chars "SCC-SP"
    ∷ chars "ETHERIP"
    ∷ chars "ENCAP"
    ∷ chars "unknown"
    ∷ chars "GMTP"
    ∷ chars "IFMP"
    ∷ chars "PNNI"
    ∷ chars "PIM"
    ∷ chars "ARIS"
    ∷ chars "SCPS"
    ∷ chars "QNX"
    ∷ chars "A/N"
    ∷ chars "IPComp"
    ∷ chars "SNP"
    ∷ chars "Compaq-Peer"
    ∷ chars "IPX-in-IP"
    ∷ chars "VRRP"
    ∷ chars "PGM "
    ∷ chars "unknown"
    ∷ chars "L2TP"
    ∷ chars "DDX"
    ∷ chars "IATP"
    ∷ chars "STP"
    ∷ chars "SRP"
    ∷ chars "UTI"
    ∷ chars "SMP"
    ∷ chars "SM"
    ∷ chars "PTP"
    ∷ chars "ISIS"
    ∷ chars "FIRE"
    ∷ chars "CRTP"
    ∷ chars "CRUDP"
    ∷ chars "SSCOPMCE"
    ∷ chars "IPLT"
    ∷ chars "SPS "
    ∷ chars "PIPE"
    ∷ chars "SCTP"
    ∷ chars "FC"
    ∷ chars "RSVP-E2E-IGNORE"
    ∷ chars "unknown"
    ∷ chars "UDPLite"
    ∷ chars "MPLS-in-IP"
    ∷ chars "manet"
    ∷ chars "HIP"
    ∷ chars "Shim6"
    ∷ chars "WESP"
    ∷ chars "ROHC"
    ∷ []

abbrev beyond_map : (protocol : ℕ) → List ℕ
beyond_map protocol =
    if leb 143 protocol && leb protocol 252
    then chars "Unassigned"
    else if (protocol == 253) || (protocol == 254)
    then chars "experiment"
    else chars "Reserved"

unfoldable pub get_protocol_name : (protocol : ℕ) → List ℕ
get_protocol_name protocol =
    if ltb protocol (length protocol_name_map)
    then get_or protocol_name_map protocol []
    else beyond_map protocol

unfoldable pub get_proto_name : Mem → (eth : ℕ) → List ℕ
unfolding get_protocol_name get_eth_type_name
get_proto_name m eth =
    let type = eth_type m eth in
    let name =
      if type == eth_p_ip
      then get_protocol_name (ip_protocol m (eth_data m eth))
      else if type == eth_p_ipv6
      then get_protocol_name (ip6_nexthdr m (eth_data m eth))
      else (get_eth_type_name type).1 in
    if eth_is_vlan m eth then chars "[VLAN] " ++ name else name
