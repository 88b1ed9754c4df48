-- ===== src/Net/Text/Scan.antt =====
-- The characters of an IPv6 address and the search for its gap, in libs/app_utils/src/net.c.
use linux_dev_framework.Base.{
  ltb, ◌==◌, if◌then◌else◌, lt→ltb, ◌>>=◌, length, length-append, Free, strchr-none, ℕ, ◌*◌, ◌≤◌,
  ◌<◌, ◌≡◌, refl, sym, ap, ◌∙◌, true, false, Option, none, some, List, [], ◌∷◌, ◌++◌, append_assoc,
  arith,
}
use linux_dev_framework.Net.Text.{
  join, isxdigit, is_addr_char, addr_chars, trim_addr, ip6_addr_uniform, colons_at, strstr_colons,
  pair_values, digits_of, ip6_str2n,
}
use linux_dev_framework.Net.Text.Groups.{Digits, Group, Groups, xdigit-ne-colon, xdigit-ne-dot}

-- Only digits and colons.
abbrev pub Clean : List ℕ → Type 0
Clean [] = Unit
Clean (c ∷ s) = (is_addr_char c ≡ true) × ((c == 46) ≡ false) × Clean s

pub Clean-append : (s t : List ℕ) → Clean s → Clean t → Clean (s ++ t)
Clean-append [] t a b = b
Clean-append (c ∷ s) t (h, n, a) b = (h, n, Clean-append s t a b)

xdigit-is-addr : (c : ℕ) → isxdigit c ≡ true → is_addr_char c ≡ true
xdigit-is-addr c h = rw (xdigit-ne-colon c h, xdigit-ne-dot c h, h) refl

Clean-Digits : (g : List ℕ) → Digits g → Clean g
Clean-Digits [] d = tt
Clean-Digits (c ∷ g) (h, d) = (xdigit-is-addr c h, xdigit-ne-dot c h, Clean-Digits g d)

pub Clean-join : (gs : List (List ℕ)) → Groups gs → Clean (join 58 gs)
Clean-join [] h = tt
Clean-join (g ∷ []) (p, h) = Clean-Digits g p.digits
Clean-join (g ∷ k ∷ gs) (p, h) =
    Clean-append g (58 ∷ join 58 (k ∷ gs)) (Clean-Digits g p.digits)
      (refl, refl, Clean-join (k ∷ gs) h)

addr_chars-Clean : (s : List ℕ) → Clean s → addr_chars s ≡ s
addr_chars-Clean [] h = refl
addr_chars-Clean (c ∷ s) (a, b, h) = rw (a, addr_chars-Clean s h) refl

Clean-Free : (s : List ℕ) → Clean s → Free 46 s
Clean-Free [] h = tt
Clean-Free (c ∷ s) (a, b, h) = (b, Clean-Free s h)

-- Of a short text of digits and colons all is kept.
pub ip6_str2n-Clean :
    (inet_addr : List ℕ → ℕ × ℕ × ℕ × ℕ) (s : List ℕ)
    → Clean s
    → length s < 64
    → ip6_str2n inet_addr s
      ≡ digits_of (strstr_colons s) s >>= λ pure_digits. some (pair_values pure_digits)
unfolding ip6_str2n trim_addr ip6_addr_uniform
ip6_str2n-Clean inet_addr s h short =
    let small : ltb (length s) 64 ≡ true = lt→ltb _ _ short in
    rw (addr_chars-Clean s h) (rw (small, strchr-none 46 s (Clean-Free s h)) refl)

abbrev prepend : List ℕ → List ℕ × List ℕ → Option (List ℕ × List ℕ)
prepend s p = some (s ++ p.0, p.1)

prepend-twice :
    (o : Option (List ℕ × List ℕ)) (s t : List ℕ)
    → (o >>= prepend t) >>= prepend s ≡ o >>= prepend (s ++ t)
prepend-twice none s t = refl
prepend-twice (some p) s t = ap (λ x. some (x, p.1)) (sym (append_assoc s t p.0))

prepend-none : (o : Option (List ℕ × List ℕ)) → o ≡ o >>= prepend []
prepend-none none = refl
prepend-none (some p) = refl

strstr-Digits : (g t : List ℕ) → Digits g → strstr_colons (g ++ t) ≡ strstr_colons t >>= prepend g
unfolding strstr_colons
strstr-Digits [] t d = prepend-none (strstr_colons t)
strstr-Digits (c ∷ g) t (h, d) =
    let n = xdigit-ne-colon c h in
    rw (n, strstr-Digits g t d) (prepend-twice (strstr_colons t) (c ∷ []) g)

-- A single colon does not stop the search.
strstr-colon :
    (g t : List ℕ)
    → Group g
    → strstr_colons (58 ∷ (g ++ t)) ≡ strstr_colons (g ++ t) >>= prepend (58 ∷ [])
unfolding strstr_colons
strstr-colon [] t p = absurd (omega (arith, p.some_digit))
strstr-colon (c ∷ g) t p =
    ap
      (λ b.
        colons_at (if b then some (g ++ t) else none)
          (strstr_colons (c ∷ (g ++ t)) >>= prepend (58 ∷ [])))
      (xdigit-ne-colon c p.digits.0)

join-split :
    (g : List ℕ) (gs : List (List ℕ)) (t : List ℕ) → (u : List ℕ) × (join 58 (g ∷ gs) ++ t ≡ g ++ u)
join-split g [] t = (t, refl)
join-split g (k ∷ gs) t = (58 ∷ (join 58 (k ∷ gs) ++ t), append_assoc g (58 ∷ join 58 (k ∷ gs)) t)

-- The search goes on behind groups.
pub strstr-join :
    (gs : List (List ℕ)) (t : List ℕ)
    → Groups gs
    → strstr_colons (join 58 gs ++ t) ≡ strstr_colons t >>= prepend (join 58 gs)
strstr-join [] t h = prepend-none (strstr_colons t)
strstr-join (g ∷ []) t (p, h) = strstr-Digits g t p.digits
strstr-join (g ∷ k ∷ gs) t (p, (q, h)) =
    let j = join 58 (k ∷ gs) in
    let (u, e) = join-split k gs t in
    let step : strstr_colons (58 ∷ (j ++ t)) ≡ strstr_colons t >>= prepend (58 ∷ j) =
      ap (λ x. strstr_colons (58 ∷ x)) e
      ∙ strstr-colon k u q
      ∙ ap (λ x. strstr_colons x >>= prepend (58 ∷ [])) (sym e)
      ∙ ap (λ o. o >>= prepend (58 ∷ [])) (strstr-join (k ∷ gs) t (q, h))
      ∙ prepend-twice (strstr_colons t) (58 ∷ []) j in
    ap strstr_colons (append_assoc g (58 ∷ j) t)
    ∙ strstr-Digits g (58 ∷ (j ++ t)) p.digits
    ∙ ap (λ o. o >>= prepend g) step
    ∙ prepend-twice (strstr_colons t) g (58 ∷ j)

pub length-join : (gs : List (List ℕ)) → Groups gs → length (join 58 gs) ≤ 5 * length gs
length-join [] h = omega arith
length-join (g ∷ []) (p, h) = omega (arith, p.four)
length-join (g ∷ k ∷ gs) (p, h) =
    omega (arith, p.four, length-append g (58 ∷ join 58 (k ∷ gs)), length-join (k ∷ gs) h)
