-- ===== src/Net/Text/Six.antt =====
-- IPv6 addresses, printed and read by libs/app_utils/src/net.c.
use linux_dev_framework.Base.{
  leb, ◌>>=◌, length, take, replicate, length-append, digit_of, ℕ, zero, suc, ◌+◌, ◌-◌, ◌*◌, ◌/◌,
  ◌%◌, ◌≤◌, ◌<◌, ◌≡◌, refl, sym, ap, ap₂, ◌∙◌, true, none, some, List, [], ◌∷◌, ◌++◌, append_assoc,
  append-nil, arith,
}
use linux_dev_framework.Net.Memory.{Mem, IsBytes}
use linux_dev_framework.Net.Names.{hex_digit}
use linux_dev_framework.Net.Text.{
  bytes_at, hex2, join, hex_words, ip6_n2str, isxdigit, strstr_colons, pair_values, place,
  digits_of, ip6_str2n,
}
use linux_dev_framework.Net.Text.Groups.{
  Group, Groups, group_bytes, group_value, padded, pair_values-padded, length-padded, value4,
  ip6_addr_no_mh-join,
}
use linux_dev_framework.Net.Text.Scan.{
  Clean, Clean-append, Clean-join, ip6_str2n-Clean, strstr-join, length-join,
}

take-append : (n : ℕ) (xs ys : List ℕ) → take (length xs + n) (xs ++ ys) ≡ xs ++ take n ys
take-append n [] ys = ap (λ k. take k ys) (omega arith)
take-append n (x ∷ xs) ys =
    let e : suc (length xs) + n ≡ suc (length xs + n) = omega arith in
    ap (λ k. take k (x ∷ (xs ++ ys))) e ∙ ap (λ l. x ∷ l) (take-append n xs ys)

take-replicate : (n m a : ℕ) → n ≤ m → take n (replicate m a) ≡ replicate n a
take-replicate zero m a h = refl
take-replicate (suc n) zero a h = absurd (omega arith)
take-replicate (suc n) (suc m) a h = ap (λ l. a ∷ l) (take-replicate n m a (omega arith))

place_lem :
    (hdr tail : List ℕ) (gap : ℕ)
    → length hdr + gap + length tail ≡ 32
    → place hdr tail ≡ some (hdr ++ (replicate gap 48 ++ tail))
place_lem hdr tail gap e =
    let a : leb (length hdr) 32 ≡ true = ground (arith, e) in
    let b : leb (length tail) 32 ≡ true = ground (arith, e) in
    let n : 32 - length tail ≡ length hdr + gap = omega (arith, e) in
    rw
      (
        a,
        b,
        n,
        take-append gap hdr (replicate (32 - length hdr) 48),
        take-replicate gap (32 - length hdr) 48 (omega (arith, e)),
      )
      (ap some (append_assoc hdr (replicate gap 48) tail))

pair_values-zeros :
    (n : ℕ) (rest : List ℕ)
    → pair_values (replicate (2 * n) 48 ++ rest) ≡ replicate n 0 ++ pair_values rest
pair_values-zeros zero rest =
    let e : 2 * 0 ≡ 0 = omega arith in ap (λ k. pair_values (replicate k 48 ++ rest)) e
pair_values-zeros (suc n) rest =
    let e : 2 * suc n ≡ suc (suc (2 * n)) = omega arith in
    ap (λ k. pair_values (replicate k 48 ++ rest)) e ∙ ap (λ l. 0 ∷ l) (pair_values-zeros n rest)

pair_values-last : (ks : List (List ℕ)) → Groups ks → pair_values (padded ks) ≡ group_bytes ks
pair_values-last ks k =
    ap pair_values (sym (append-nil (padded ks)))
    ∙ pair_values-padded ks [] k
    ∙ append-nil (group_bytes ks)

-- The bytes of groups that the digit 0 is put between.
placed :
    (gs ks : List (List ℕ)) (gap : ℕ)
    → Groups gs
    → Groups ks
    → 2 * length gs + gap + 2 * length ks ≡ 16
    → place (padded gs) (padded ks) >>= (λ d. some (pair_values d))
      ≡ some (group_bytes gs ++ (replicate gap 0 ++ group_bytes ks))
placed gs ks gap h k e =
    ap (λ o. o >>= λ d. some (pair_values d))
      (place_lem (padded gs) (padded ks) (2 * gap)
        (omega (arith, e, length-padded gs h, length-padded ks k)))
    ∙ ap some (
        pair_values-padded gs (replicate (2 * gap) 48 ++ padded ks) h
        ∙ ap (λ l. group_bytes gs ++ l)
            (pair_values-zeros gap (padded ks)
              ∙ ap (λ l. replicate gap 0 ++ l) (pair_values-last ks k)))

-- Eight groups of one to four digits are read as their sixteen bytes.
pub ip6_str2n-join :
    (inet_addr : List ℕ → ℕ × ℕ × ℕ × ℕ) (gs : List (List ℕ))
    → Groups gs
    → length gs ≡ 8
    → ip6_str2n inet_addr (join 58 gs) ≡ some (group_bytes gs)
unfolding strstr_colons
ip6_str2n-join inet_addr gs h eight =
    let s = join 58 gs in
    let none_found : strstr_colons s ≡ none =
      ap strstr_colons (sym (append-nil s)) ∙ strstr-join gs [] h in
    ip6_str2n-Clean inet_addr s (Clean-join gs h) (omega (arith, eight, length-join gs h))
    ∙ ap (λ o. digits_of o s >>= λ d. some (pair_values d)) none_found
    ∙ ap (λ d. place d [] >>= λ x. some (pair_values x)) (ip6_addr_no_mh-join gs h)
    ∙ placed gs [] 0 h tt (omega (arith, eight))
    ∙ ap some (append-nil (group_bytes gs))

-- Groups before and behind `::` are read as their bytes at the two ends, with zeros between them.
pub ip6_str2n-gap :
    (inet_addr : List ℕ → ℕ × ℕ × ℕ × ℕ) (gs ks : List (List ℕ))
    → Groups gs
    → Groups ks
    → length gs + length ks ≤ 8
    → ip6_str2n inet_addr (join 58 gs ++ 58 ∷ 58 ∷ join 58 ks)
      ≡ some
          (group_bytes gs ++ (replicate (16 - 2 * length gs - 2 * length ks) 0 ++ group_bytes ks))
unfolding strstr_colons
ip6_str2n-gap inet_addr gs ks h k few =
    let s = join 58 gs ++ 58 ∷ 58 ∷ join 58 ks in
    let found : strstr_colons s ≡ some (join 58 gs, join 58 ks) =
      strstr-join gs (58 ∷ 58 ∷ join 58 ks) h
      ∙ ap (λ x. some (x, join 58 ks)) (append-nil (join 58 gs)) in
    let clean : Clean s =
      Clean-append (join 58 gs) _ (Clean-join gs h) (refl, refl, (refl, refl, Clean-join ks k)) in
    ip6_str2n-Clean inet_addr s clean (
      omega (
        arith,
        few,
        length-append (join 58 gs) (58 ∷ 58 ∷ join 58 ks),
        length-join gs h,
        length-join ks k,
      ))
    ∙ ap (λ o. digits_of o s >>= λ d. some (pair_values d)) found
    ∙ ap₂ (λ d e. place d e >>= λ x. some (pair_values x)) (ip6_addr_no_mh-join gs h)
        (ip6_addr_no_mh-join ks k)
    ∙ placed gs ks (16 - 2 * length gs - 2 * length ks) h k (omega (arith, few))

digit_of-hex_digit : (d : ℕ) → d < 16 → digit_of (hex_digit d) ≡ d
digit_of-hex_digit d h = ground (arith, h)

hex2-Group : (b c : ℕ) → Group (hex2 b ++ hex2 c)
hex2-Group b c =
    let digit = λ (n : ℕ) (h : n < 16).
      (let e = digit_of-hex_digit n h in
        let t : isxdigit (hex_digit n) ≡ true = ground (arith, e, h) in t) in
    record {
      digits = (
        digit (b / 16 % 16) (omega arith),
        (
          digit (b % 16) (omega arith),
          (digit (c / 16 % 16) (omega arith), (digit (c % 16) (omega arith), tt)),
        ),
      );
      some_digit = omega arith;
      four = omega arith;
    }

-- The four digits of two bytes stand for them.
hex2_value : (b c : ℕ) → b < 256 → c < 256 → group_value (hex2 b ++ hex2 c) ≡ b * 256 + c
hex2_value b c p q =
    let (d0, (d1, (d2, (d3, t)))) = (hex2-Group b c).digits in
    value4 (hex_digit (b / 16 % 16)) (hex_digit (b % 16)) (hex_digit (c / 16 % 16))
      (hex_digit (c % 16)) d0 d1 d2 d3
    ∙ rw
        (
          digit_of-hex_digit (b / 16 % 16) (omega arith),
          digit_of-hex_digit (b % 16) (omega arith),
          digit_of-hex_digit (c / 16 % 16) (omega arith),
          digit_of-hex_digit (c % 16) (omega arith),
        )
        (omega (arith, p, q))

abbrev Bytes : List ℕ → Type 0
Bytes [] = Unit
Bytes (b ∷ bytes) = (b < 256) × Bytes bytes

-- An even number of bytes.
abbrev Even : List ℕ → Type 0
Even [] = Unit
Even (b ∷ []) = ⊥
Even (b ∷ c ∷ bytes) = Even bytes

hex_words-Bytes :
    (bytes : List ℕ)
    → Bytes bytes
    → Even bytes
    → Groups (hex_words bytes) × (group_bytes (hex_words bytes) ≡ bytes)
hex_words-Bytes [] h e = (tt, refl)
hex_words-Bytes (b ∷ []) h e = absurd e
hex_words-Bytes (b ∷ c ∷ bytes) (p, (q, h)) e =
    let (gs, same) = hex_words-Bytes bytes h e in
    let v = hex2_value b c p q in
    (
      (hex2-Group b c, gs),
      ap (λ n. (n / 256) ∷ (n % 256) ∷ group_bytes (hex_words bytes)) v
          ∙ ap (λ l. ((b * 256 + c) / 256) ∷ ((b * 256 + c) % 256) ∷ l) same
          ∙ ap₂ (λ x y. x ∷ y ∷ bytes) (omega (arith, p, q)) (omega (arith, p, q)),
    )

bytes_at-Bytes : (n : ℕ) (m : Mem) (a : ℕ) → IsBytes m → Bytes (bytes_at n m a)
bytes_at-Bytes zero m a h = tt
bytes_at-Bytes (suc n) m a h = (h a, bytes_at-Bytes n m (a + 1) h)

-- The text that `ip6_n2str` makes of an address is read back by `ip6_str2n` as its sixteen bytes.
pub ip6_str2n-n2str :
    (inet_addr : List ℕ → ℕ × ℕ × ℕ × ℕ) (m : Mem) (field_addr : ℕ)
    → IsBytes m
    → ip6_str2n inet_addr (ip6_n2str m field_addr) ≡ some (bytes_at 16 m field_addr)
unfolding ip6_n2str
ip6_str2n-n2str inet_addr m a h =
    let bytes = bytes_at 16 m a in
    let (gs, same) = hex_words-Bytes bytes (bytes_at-Bytes 16 m a h) tt in
    ip6_str2n-join inet_addr (hex_words bytes) gs refl ∙ ap some same
