-- ===== src/Net/Text/Groups.antt =====
-- The groups of an IPv6 address, read by libs/app_utils/src/net.c.
use linux_dev_framework.Base.{
  ◌==◌, ltb→lt, length, take, replicate, length-append, take-length, length-replicate, Free,
  token-word, token-last, digit_of, number_from, ℕ, zero, suc, ◌+◌, ◌-◌, ◌*◌, ◌/◌, ◌%◌, ◌≤◌, ◌<◌,
  ◌≡◌, refl, sym, ap, ap₂, ◌∙◌, subst, true, false, List, [], ◌∷◌, ◌++◌, append_assoc, append-nil,
  arith,
}
use linux_dev_framework.Net.Text.{
  join, isxdigit, pad4, groups, write_groups, ip6_addr_no_mh, pair_value, pair_values,
}

-- One to four digits.
abbrev pub Digits : List ℕ → Type 0
Digits [] = Unit
Digits (c ∷ s) = (isxdigit c ≡ true) × Digits s

pub record Group (g : List ℕ) : Type 0 where
  pub digits : Digits g
  pub some_digit : 0 < length g
  pub four : length g ≤ 4

abbrev pub Groups : List (List ℕ) → Type 0
Groups [] = Unit
Groups (g ∷ gs) = Group g × Groups gs

-- The two bytes of a group.
abbrev pub group_value : List ℕ → ℕ
group_value g = number_from 16 0 g

abbrev pub group_bytes : List (List ℕ) → List ℕ
group_bytes [] = []
group_bytes (g ∷ gs) = (group_value g / 256) ∷ (group_value g % 256) ∷ group_bytes gs

abbrev pub padded : List (List ℕ) → List ℕ
padded [] = []
padded (g ∷ gs) = pad4 g ++ padded gs

pub xdigit-ne-colon : (c : ℕ) → isxdigit c ≡ true → (c == 58) ≡ false
xdigit-ne-colon c h = ground (arith, h)

pub xdigit-ne-dot : (c : ℕ) → isxdigit c ≡ true → (c == 46) ≡ false
xdigit-ne-dot c h = ground (arith, h)

xdigit-ne-blank : (c : ℕ) → isxdigit c ≡ true → (c == 32) ≡ false
xdigit-ne-blank c h = ground (arith, h)

pub Digits-Free : (g : List ℕ) → Digits g → Free 58 g
Digits-Free [] d = tt
Digits-Free (c ∷ g) (h, d) = (xdigit-ne-colon c h, Digits-Free g d)

pair_value-digits :
    (a b : ℕ)
    → isxdigit a ≡ true
    → isxdigit b ≡ true
    → pair_value a b ≡ digit_of a * 16 + digit_of b
pair_value-digits a b p q = rw (xdigit-ne-blank a p, p, q) refl

pair_value-one : (b : ℕ) → isxdigit b ≡ true → pair_value 32 b ≡ digit_of b
pair_value-one b q = rw q refl

-- The digits of a group as a number.
value1 : (a : ℕ) → isxdigit a ≡ true → group_value (a ∷ []) ≡ digit_of a
unfolding number_from
value1 a p = rw p (omega arith)

value2 :
    (a b : ℕ)
    → isxdigit a ≡ true
    → isxdigit b ≡ true
    → group_value (a ∷ b ∷ []) ≡ digit_of a * 16 + digit_of b
unfolding number_from
value2 a b p q = rw (p, q) (omega arith)

value3 :
    (a b c : ℕ)
    → isxdigit a ≡ true
    → isxdigit b ≡ true
    → isxdigit c ≡ true
    → group_value (a ∷ b ∷ c ∷ []) ≡ digit_of a * 256 + digit_of b * 16 + digit_of c
unfolding number_from
value3 a b c p q r = rw (p, q, r) (omega arith)

pub value4 :
    (a b c d : ℕ)
    → isxdigit a ≡ true
    → isxdigit b ≡ true
    → isxdigit c ≡ true
    → isxdigit d ≡ true
    → group_value (a ∷ b ∷ c ∷ d ∷ [])
      ≡ (digit_of a * 16 + digit_of b) * 256 + (digit_of c * 16 + digit_of d)
unfolding number_from
value4 a b c d p q r s = rw (p, q, r, s) (omega arith)

digit_bound : (a : ℕ) → isxdigit a ≡ true → digit_of a < 16
digit_bound a h = ltb→lt (digit_of a) 16 h

two_bytes :
    (x y v : ℕ) (rest : List ℕ)
    → y < 256
    → v ≡ x * 256 + y
    → x ∷ y ∷ rest ≡ (v / 256) ∷ (v % 256) ∷ rest
two_bytes x y v rest small e =
    ap₂ (λ a b. a ∷ b ∷ rest) (omega (arith, small, e)) (omega (arith, small, e))

-- The bytes of a group are read back from its digits, padded to four.
pair_values-pad4 :
    (g rest : List ℕ)
    → Group g
    → pair_values (pad4 g ++ rest)
      ≡ (group_value g / 256) ∷ (group_value g % 256) ∷ pair_values rest
pair_values-pad4 [] rest h = absurd (omega (arith, h.some_digit))
pair_values-pad4 (a ∷ []) rest h =
    let (p, t) = h.digits in
    ap (λ y. 0 ∷ y ∷ pair_values rest) (pair_value-one a p)
    ∙ two_bytes 0 (digit_of a) _ (pair_values rest) (omega (arith, digit_bound a p))
        (value1 a p ∙ omega arith)
pair_values-pad4 (a ∷ b ∷ []) rest h =
    let (p, (q, t)) = h.digits in
    ap (λ y. 0 ∷ y ∷ pair_values rest) (pair_value-digits a b p q)
    ∙ two_bytes 0 (digit_of a * 16 + digit_of b) _ (pair_values rest)
        (omega (arith, digit_bound a p, digit_bound b q)) (value2 a b p q ∙ omega arith)
pair_values-pad4 (a ∷ b ∷ c ∷ []) rest h =
    let (p, (q, (r, t))) = h.digits in
    ap₂ (λ x y. x ∷ y ∷ pair_values rest) (pair_value-one a p) (pair_value-digits b c q r)
    ∙ two_bytes (digit_of a) (digit_of b * 16 + digit_of c) _ (pair_values rest)
        (omega (arith, digit_bound b q, digit_bound c r)) (value3 a b c p q r ∙ omega arith)
pair_values-pad4 (a ∷ b ∷ c ∷ d ∷ []) rest h =
    let (p, (q, (r, (s, t)))) = h.digits in
    ap₂ (λ x y. x ∷ y ∷ pair_values rest) (pair_value-digits a b p q) (pair_value-digits c d r s)
    ∙ two_bytes (digit_of a * 16 + digit_of b) (digit_of c * 16 + digit_of d) _ (pair_values rest)
        (omega (arith, digit_bound c r, digit_bound d s)) (value4 a b c d p q r s)
pair_values-pad4 (a ∷ b ∷ c ∷ d ∷ e ∷ g) rest h = absurd (omega (arith, h.four))

pub pair_values-padded :
    (gs : List (List ℕ)) (rest : List ℕ)
    → Groups gs
    → pair_values (padded gs ++ rest) ≡ group_bytes gs ++ pair_values rest
pair_values-padded [] rest h = refl
pair_values-padded (g ∷ gs) rest (p, h) =
    ap pair_values (append_assoc (pad4 g) (padded gs) rest)
    ∙ pair_values-pad4 g (padded gs ++ rest) p
    ∙ ap (λ l. (group_value g / 256) ∷ (group_value g % 256) ∷ l) (pair_values-padded gs rest h)

length-pad4 : (g : List ℕ) → length g ≤ 4 → length (pad4 g) ≡ 4
length-pad4 g h = omega (
  arith,
  h,
  length-append (replicate (4 - length g) 32) g,
  length-replicate {A = ℕ} (4 - length g) 32,
)

pub length-padded : (gs : List (List ℕ)) → Groups gs → length (padded gs) ≡ 4 * length gs
length-padded [] h = omega arith
length-padded (g ∷ gs) (p, h) =
    omega (arith, length-append (pad4 g) (padded gs), length-pad4 g p.four, length-padded gs h)

take-all : (n : ℕ) (l : List ℕ) → length l ≡ n → take n l ≡ l
take-all n l e = subst (λ k. take k l ≡ l) e (take-length l)

-- The writes leave the padded groups one after the other.
write_groups-padded :
    (i : ℕ) (dst : List ℕ) (gs : List (List ℕ))
    → length dst ≡ i * 4
    → Groups gs
    → write_groups i dst gs ≡ dst ++ padded gs
write_groups-padded i dst [] e h = sym (append-nil dst)
write_groups-padded i dst (g ∷ gs) e (p, h) =
    ap (λ d. write_groups (i + 1) (d ++ pad4 g) gs) (take-all (i * 4) dst e)
    ∙ write_groups-padded (i + 1) (dst ++ pad4 g) gs
        (omega (arith, e, length-append dst (pad4 g), length-pad4 g p.four)) h
    ∙ append_assoc dst (pad4 g) (padded gs)

groups-last : (fuel : ℕ) (g : List ℕ) → Group g → groups (suc (suc fuel)) g ≡ g ∷ []
unfolding groups
groups-last fuel [] p = absurd (omega (arith, p.some_digit))
groups-last fuel (c ∷ g) p =
    let (h, d) = p.digits in rw (h, token-last 58 (c ∷ g) (Digits-Free (c ∷ g) p.digits)) refl

groups-first :
    (fuel : ℕ) (g rest : List ℕ)
    → Group g
    → groups (suc fuel) (g ++ 58 ∷ rest) ≡ g ∷ groups fuel rest
unfolding groups
groups-first fuel [] rest p = absurd (omega (arith, p.some_digit))
groups-first fuel (c ∷ g) rest p =
    let (h, d) = p.digits in
    rw (h, token-word 58 (c ∷ g) rest refl (Digits-Free (c ∷ g) p.digits)) refl

-- The groups of a text are the ones that it joins.
groups-join :
    (fuel : ℕ) (gs : List (List ℕ)) → Groups gs → length gs < fuel → groups fuel (join 58 gs) ≡ gs
unfolding groups
groups-join zero gs h fuel = absurd (omega arith)
groups-join (suc fuel) [] h more = refl
groups-join (suc zero) (g ∷ []) (p, h) more = absurd (omega arith)
groups-join (suc (suc fuel)) (g ∷ []) (p, h) more = groups-last fuel g p
groups-join (suc fuel) (g ∷ k ∷ gs) (p, h) more =
    groups-first fuel g (join 58 (k ∷ gs)) p
    ∙ ap (λ l. g ∷ l) (groups-join fuel (k ∷ gs) h (omega arith))

length-join : (gs : List (List ℕ)) → Groups gs → length gs ≤ length (join 58 gs)
length-join [] h = omega arith
length-join (g ∷ []) (p, h) = omega (arith, p.some_digit)
length-join (g ∷ k ∷ gs) (p, h) =
    omega (arith, p.some_digit, length-append g (58 ∷ join 58 (k ∷ gs)), length-join (k ∷ gs) h)

-- What `ip6_addr_no_mh` makes of the groups of a text.
pub ip6_addr_no_mh-join : (gs : List (List ℕ)) → Groups gs → ip6_addr_no_mh (join 58 gs) ≡ padded gs
unfolding ip6_addr_no_mh
ip6_addr_no_mh-join gs h =
    ap (write_groups 0 [])
      (groups-join (suc (length (join 58 gs))) gs h (omega (arith, length-join gs h)))
    ∙ write_groups-padded 0 [] gs (omega arith) h
