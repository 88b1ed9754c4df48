-- ===== src/Net/Names/Laws.antt =====
-- Names and numbers of Ethernet types, and the protocols' names, in libs/app_utils/src/net.c.
use linux_dev_framework.Base.{
  ◌==◌, Bool-cases, Option-cases, some_inj, ℕ, ◌+◌, ◌^◌, ◌<◌, ◌≡◌, refl, sym, ap, subst, inl, inr,
  Bool, true, false, not, ◌&&◌, ◌||◌, some, List, [], ◌∷◌, arith,
}
use linux_dev_framework.StringUtils.{streq}
use linux_dev_framework.StringUtils.Text.{streq_refl, streq-eq}
use linux_dev_framework.Net.Names.{
  EthType, gat_eth_type, by_value, by_name, hex4, get_eth_type_name, get_eth_type_value, str2int,
}

abbrev named_in : List ℕ → List EthType → Bool
named_in name [] = false
named_in name (e ∷ table) = streq e.name name || named_in name table

-- No two entries have one name.
abbrev Apart : List EthType → Type 0
Apart [] = Unit
Apart (e ∷ table) =
    ((name : List ℕ) → named_in name table ≡ true → streq e.name name ≡ false) × Apart table

by_value-by_name :
    (table : List EthType) (i type j : ℕ) (name : List ℕ)
    → Apart table
    → by_value table i type ≡ some (j, name)
    → (by_name table name ≡ some type) × (named_in name table ≡ true)
by_value-by_name [] i type j name a h = absurd cc
by_value-by_name (e ∷ table) i type j name a h = elim (Bool-cases (type == e.value)) [
  | inl y ↦
      let f : some (i, e.name) ≡ some (j, name) = rw y at h in
      let g : e.name ≡ name = ap (λ p. p.1) (some_inj f) in
      let same : type ≡ e.value = ground (arith, y) in
      let head : streq e.name name ≡ true =
        subst (λ n. streq e.name n ≡ true) g (streq_refl e.name) in
      rw head (ap some (sym same), refl)
  | inr n ↦
      let (r, k) = by_value-by_name table (i + 1) type j name a.1 (rw n at h) in
      rw (a.0 name k) (r, k)
]

apart_if :
    (own : List ℕ) (table : List EthType)
    → named_in own table ≡ false
    → (name : List ℕ) → named_in name table ≡ true
    → streq own name ≡ false
apart_if own table free name h = elim (Bool-cases (streq own name)) [
  | inl y ↦
      let f : named_in own table ≡ true =
        subst (λ n. named_in n table ≡ true) (sym (streq-eq own name y)) h in
      absurd cc
  | inr n ↦ n
]

abbrev apart : List EthType → Bool
apart [] = true
apart (e ∷ table) = not (named_in e.name table) && apart table

apart-Apart : (table : List EthType) → apart table ≡ true → Apart table
apart-Apart [] h = tt
apart-Apart (e ∷ table) h = elim (Bool-cases (named_in e.name table)) [
  | inl y ↦ let f : false ≡ true = rw y at h in absurd cc
  | inr n ↦ (apart_if e.name table n, apart-Apart table (rw n at h))
]

-- Whatever `get_eth_type_name` stores for a type of 16 bits, a name of the table or the number in hexadecimal,
-- `get_eth_type_value` reads back as the type, when `strtol` reads those numbers right.
pub get_eth_type_value-name :
    (strtol : List ℕ → ℕ → ℕ)
    → ((n : ℕ) → n < 2 ^ 16 → strtol (hex4 n) 16 ≡ n)
    → (type : ℕ) → type < 2 ^ 16
    → get_eth_type_value strtol (get_eth_type_name type).1 ≡ type
unfolding get_eth_type_value get_eth_type_name str2int
get_eth_type_value-name strtol reads type small =
    elim (Option-cases (by_value gat_eth_type 0 type)) [
      | inl e ↦ rw e (reads type small)
      | inr ((i, name), e) ↦
          let (found, k) =
            by_value-by_name gat_eth_type 0 type i name (apart-Apart gat_eth_type refl) e in
          rw (e, found) refl
    ]
