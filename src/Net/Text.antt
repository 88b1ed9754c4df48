-- ===== src/Net/Text.antt =====
-- Addresses as texts, in libs/app_utils/src/net.c.
pub mod Groups
pub mod Scan
pub mod Six
mod Tests
use linux_dev_framework.Base.{
  ltb, leb, ◌==◌, if◌then◌else◌, ltb→lt, lt→ltb, leb→le, ==_iff, ==_refl, Bool-cases, Option-cases,
  ◌>>=◌, some_inj, tests, length, get_elem?, get_or, set, take, drop, replicate, all, length-append,
  length-set, get_elem?-set_self, get_elem?-set_ne, get_elem?-lt, take-append-drop, take-length,
  length-take, length-drop, length-replicate, get_elem?-none, get_elem?-append_left,
  get_elem?-append_right, get_elem?-replicate, chars, token, strtok, Free, token-word, token-last,
  strtok-last, strtok-word, digits, decimal, digit?, digit_of, number_from, strchr, strrchr,
  magnitude, strtol, strtoul16, signed, blank?, atoi, number_from-digits, digits-first,
  strtol-decimal, strchr-first, strchr-none, Free-append, strrchr-end, digits-append, digits-Free,
  ℕ, zero, suc, ◌+◌, ◌-◌, ◌*◌, ◌/◌, ◌%◌, ◌^◌, ◌≤◌, ◌<◌, min, max, ◌≡◌, refl, sym, ap, ap₂, ◌∙◌,
  subst, fun_ext, ◌≢◌, ◌↔◌, ◌⊎◌, inl, inr, Bool, true, false, not, ◌&&◌, ◌||◌, Option, none, some,
  List, [], ◌∷◌, ◌++◌, map, append_assoc, append-nil, arith,
}
use linux_dev_framework.Net.Memory.{Mem}
use linux_dev_framework.Net.Frame.{eth_type, eth_data, eth_p_ip, eth_p_ipv6}
use linux_dev_framework.Net.Names.{hex_digit}

-- The bytes from an address on.
abbrev pub bytes_at : (n : ℕ) → Mem → ℕ → List ℕ
bytes_at zero m a = []
bytes_at (suc n) m a = m a ∷ bytes_at n m (a + 1)

-- `%02hhx` of a byte.
abbrev pub hex2 : ℕ → List ℕ
hex2 b = hex_digit (b / 16 % 16) ∷ hex_digit (b % 16) ∷ []

-- `ip_n2str`: `ntohl` gives the four bytes in their order.
unfoldable pub ip_n2str : Mem → (field_addr : ℕ) → List ℕ
ip_n2str m a =
    decimal (m a)
    ++ 46 ∷ (decimal (m (a + 1)) ++ 46 ∷ (decimal (m (a + 2)) ++ 46 ∷ decimal (m (a + 3))))

-- Texts with one character between them.
abbrev pub join : (separator : ℕ) → List (List ℕ) → List ℕ
join d [] = []
join d (w ∷ []) = w
join d (w ∷ v ∷ ws) = w ++ d ∷ join d (v ∷ ws)

unfoldable pub mac_n2str : Mem → (field_addr : ℕ) → List ℕ
mac_n2str m a = join 32 (map hex2 (bytes_at 6 m a))

-- Two bytes of an IPv6 address, as four digits.
abbrev pub hex_words : List ℕ → List (List ℕ)
hex_words [] = []
hex_words (b ∷ []) = []
hex_words (b ∷ c ∷ bytes) = (hex2 b ++ hex2 c) ∷ hex_words bytes

unfoldable pub ip6_n2str : Mem → (field_addr : ℕ) → List ℕ
ip6_n2str m a = join 58 (hex_words (bytes_at 16 m a))

abbrev pub isxdigit : ℕ → Bool
isxdigit c = ltb (digit_of c) 16

abbrev pub is_addr_char : ℕ → Bool
is_addr_char c = (c == 58) || (c == 46) || isxdigit c

-- `trim_addr` into an array of 64 bytes; nothing when the text does not fit.
abbrev pub addr_chars : List ℕ → List ℕ
addr_chars [] = []
addr_chars (c ∷ s) = if is_addr_char c then c ∷ addr_chars s else addr_chars s

abbrev pub fits : (size : ℕ) → List ℕ → Option (List ℕ)
fits size s = if ltb (length s) size then some s else none

unfoldable pub trim_addr : (input : List ℕ) → Option (List ℕ)
trim_addr input = fits 64 (addr_chars input)

-- `inet_addr` of the C library as the four bytes that it stores.
module _ (inet_addr : List ℕ → ℕ × ℕ × ℕ × ℕ) where
  abbrev pub v4_part : (before input : List ℕ) → List ℕ
  v4_part before input =
      let (a, b, c, d) = inet_addr (drop (suc (length before)) input) in
      before ++ 58 ∷ (hex2 a ++ hex2 b ++ 58 ∷ (hex2 c ++ hex2 d))

  abbrev pub uniform_at : Option (List ℕ × List ℕ) → (input : List ℕ) → Option (List ℕ)
  uniform_at none input = some input
  uniform_at (some p) input = strrchr 58 input >>= λ before. some (v4_part before input)

  -- An IPv4 address at the end becomes two groups; without a colon the code goes on from a null
  -- pointer.
  unfoldable pub ip6_addr_uniform : (input : List ℕ) → Option (List ℕ)
  ip6_addr_uniform input = uniform_at (strchr 46 input) input

-- `%4s`
abbrev pub pad4 : List ℕ → List ℕ
pad4 w = replicate (4 - length w) 32 ++ w

-- The groups of a text, until a group does not begin with a digit; each takes a round of fuel.
unfoldable pub groups : (fuel : ℕ) → List ℕ → List (List ℕ)
groups zero s = []
groups (suc fuel) [] = []
groups (suc fuel) (c ∷ s) =
    if isxdigit c then (token 58 (c ∷ s)).0 ∷ groups fuel (token 58 (c ∷ s)).1 else []

-- The writes of `ip6_addr_no_mh`: the `i`-th group at `dst + 4 * i`, and its terminator.
abbrev pub write_groups : (i : ℕ) (dst : List ℕ) → List (List ℕ) → List ℕ
write_groups i dst [] = dst
write_groups i dst (w ∷ ws) = write_groups (i + 1) (take (i * 4) dst ++ pad4 w) ws

unfoldable pub ip6_addr_no_mh : (src : List ℕ) → List ℕ
ip6_addr_no_mh src = write_groups 0 [] (groups (suc (length src)) src)

-- `strstr(s, "::")`: the texts before and behind it.
abbrev pub second_colon : List ℕ → Option (List ℕ)
second_colon [] = none
second_colon (c ∷ s) = if c == 58 then some s else none

abbrev pub colons_at : Option (List ℕ) → Option (List ℕ × List ℕ) → Option (List ℕ × List ℕ)
colons_at none later = later
colons_at (some behind) later = some ([], behind)

unfoldable pub strstr_colons : List ℕ → Option (List ℕ × List ℕ)
strstr_colons [] = none
strstr_colons (c ∷ s) =
    colons_at (if c == 58 then second_colon s else none)
      (strstr_colons s >>= λ p. some (c ∷ p.0, p.1))

-- `strtol` with base 16 of two characters that are digits or blanks.
abbrev pub pair_value : ℕ → ℕ → ℕ
pair_value a b =
    if a == 32
    then (if isxdigit b then digit_of b else 0)
    else if isxdigit a
    then (if isxdigit b then digit_of a * 16 + digit_of b else digit_of a)
    else 0

abbrev pub pair_values : List ℕ → List ℕ
pair_values [] = []
pair_values (a ∷ []) = []
pair_values (a ∷ b ∷ s) = pair_value a b ∷ pair_values s

-- `pure_digits` with the groups before and behind the gap; nothing when they do not fit.
abbrev pub place : (hdr tail : List ℕ) → Option (List ℕ)
place hdr tail =
    if leb (length hdr) 32 && leb (length tail) 32
    then some (take (32 - length tail) (hdr ++ replicate (32 - length hdr) 48) ++ tail)
    else none

abbrev pub digits_of : Option (List ℕ × List ℕ) → (str_addr : List ℕ) → Option (List ℕ)
digits_of none str_addr = place (ip6_addr_no_mh str_addr) []
digits_of (some (before, behind)) str_addr = place (ip6_addr_no_mh before) (ip6_addr_no_mh behind)

-- The 16 bytes that `ip6_str2n` writes.
unfoldable pub ip6_str2n : (inet_addr : List ℕ → ℕ × ℕ × ℕ × ℕ) → (info : List ℕ) → Option (List ℕ)
ip6_str2n inet_addr info = trim_addr info >>= λ s. ip6_addr_uniform inet_addr s >>= λ str_addr.
    digits_of (strstr_colons str_addr) str_addr >>= λ pure_digits. some (pair_values pure_digits)

abbrev pub addr_text : Mem → (eth ip_field ip6_field mac_field : ℕ) → List ℕ
addr_text m eth ip_field ip6_field mac_field =
    if eth_type m eth == eth_p_ip
    then ip_n2str m (eth_data m eth + ip_field)
    else if eth_type m eth == eth_p_ipv6
    then ip6_n2str m (eth_data m eth + ip6_field)
    else mac_n2str m (eth + mac_field)

unfoldable pub get_src_addr : Mem → (eth : ℕ) → List ℕ
get_src_addr m eth = addr_text m eth 12 8 6

unfoldable pub get_dst_addr : Mem → (eth : ℕ) → List ℕ
get_dst_addr m eth = addr_text m eth 16 24 0
