-- ===== src/Symbols/Table.antt =====
-- The table of symbols of libs/app_utils/src/symbol_utils.c: how it is read, and what is found in it.
use linux_dev_framework.Base.{
  ltb, leb, ◌==◌, ◌>>=◌, get_or, strtok, digit?, strtoul16, ℕ, ◌+◌, ◌%◌, ◌^◌, ◌≤◌, ◌<◌, ◌≡◌, sym,
  ap, subst, ◌≢◌, ◌⊎◌, inl, inr, Bool, true, false, not, ◌&&◌, Option, some, List, [], ◌∷◌, ◌++◌,
  arith,
}
use linux_dev_framework.StringUtils.{is_new_line}
use linux_dev_framework.Symbols.{Symbol, addr2symbol}

-- The parts of a line that `nm -S` prints for a symbol with a size.
pub record Line : Type 0 where
  pub addr : List ℕ
  pub size : List ℕ
  pub kind : List ℕ
  pub name : List ℕ

abbrev pub print_line : Line → List ℕ
print_line l = l.addr ++ 32 ∷ (l.size ++ 32 ∷ (l.kind ++ 32 ∷ (l.name ++ 10 ∷ [])))

-- A part of a line: not empty, with no space, line end or terminator.
abbrev pub Plain : List ℕ → Type 0
Plain [] = Unit
Plain (c ∷ s) = ((c == 32) ≡ false) × ((is_new_line c) ≡ false) × (c ≢ 0) × Plain s

abbrev pub Part : List ℕ → Type 0
Part [] = ⊥
Part (c ∷ s) = Plain (c ∷ s)

abbrev pub starts_with_digit : List ℕ → Bool
starts_with_digit s = digit? (get_or s 0 0)

pub record WellFormed (l : Line) : Type 0 where
  pub addr_part : Part l.addr
  pub addr_digit : starts_with_digit l.addr ≡ true
  pub size_part : Part l.size
  pub size_digit : starts_with_digit l.size ≡ true
  pub kind_part : Part l.kind
  pub name_part : Part l.name

abbrev pub symbol_of : Line → Symbol
symbol_of l = record { name = l.name; addr = strtoul16 l.addr; size = strtoul16 l.size }

abbrev pub Lines : List Line → Type 0
Lines [] = Unit
Lines (l ∷ ls) = WellFormed l × Lines ls

abbrev stays : ℕ → Bool
stays c = not (is_new_line c)

abbrev body : Line → List ℕ
body l = l.addr ++ 32 ∷ (l.size ++ 32 ∷ (l.kind ++ 32 ∷ l.name))

abbrev kind_and_name : (addr size : List ℕ) → Option (List ℕ × List ℕ) → Option Symbol
kind_and_name addr size t = t >>= λ k. strtok 32 k.1 >>= λ n.
    some (record { name = n.0; addr = strtoul16 addr; size = strtoul16 size })

-- The range of addresses of a symbol.
abbrev pub InRange : ℕ → Symbol → Type 0
InRange a s = (s.addr ≤ a) × (a < s.addr + s.size)

abbrev pub AllSymbols : (Symbol → Type 0) → List Symbol → Type 0
AllSymbols P [] = Unit
AllSymbols P (s ∷ tab) = P s × AllSymbols P tab

-- No address is in the ranges of two symbols, and no range goes beyond the last address.
abbrev pub Disjoint : List Symbol → Type 0
Disjoint [] = Unit
Disjoint (s ∷ tab) =
    (s.addr + s.size < 2 ^ 64)
    × AllSymbols (λ t. (t.addr + t.size ≤ s.addr) ⊎ (s.addr + s.size ≤ t.addr)) tab
    × Disjoint tab

abbrev pub In : Symbol → List Symbol → Type 0
In s [] = ⊥
In s (t ∷ tab) = (t ≡ s) ⊎ In s tab

apart : (P : Symbol → Type 0) (s : Symbol) (tab : List Symbol) → AllSymbols P tab → In s tab → P s
apart P s [] h i = absurd i
apart P s (t ∷ tab) (p, h) (inl e) = subst P e p
apart P s (t ∷ tab) (p, h) (inr i) = apart P s tab h i

-- In a table of disjoint ranges, an address in the range of a symbol of the table leads to it.
pub addr2symbol-In :
    (tab : List Symbol) (s : Symbol) (a : ℕ)
    → Disjoint tab
    → In s tab
    → InRange a s
    → addr2symbol tab a ≡ some s
unfolding addr2symbol
addr2symbol-In [] s a d i r = absurd i
addr2symbol-In (t ∷ tab) s a (fits, away, d) (inl e) (lo, hi) =
    let lo' : t.addr ≤ a = subst (λ x. x.addr ≤ a) (sym e) lo in
    let hi' : a < t.addr + t.size = subst (λ x. a < x.addr + x.size) (sym e) hi in
    let b : leb t.addr a ≡ true = ground (arith, lo') in
    let c : ltb a ((t.addr + t.size) % 2 ^ 64) ≡ true = ground (arith, hi', fits) in
    rw (b, c) (ap some e)
addr2symbol-In (t ∷ tab) s a (fits, away, d) (inr i) (lo, hi) =
    let out = apart (λ x. (x.addr + x.size ≤ t.addr) ⊎ (t.addr + t.size ≤ x.addr)) s tab away i in
    let n : (leb t.addr a && ltb a ((t.addr + t.size) % 2 ^ 64)) ≡ false =
      ground (arith, out, fits, lo, hi) in
    rw n (addr2symbol-In tab s a d i (lo, hi))
