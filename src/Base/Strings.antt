-- ===== src/Base/Strings.antt =====
-- Texts as lists of character codes, and `strtok` of the C library.
use Prim.Native.Char.{code}
use Prim.Native.String.{String}
use Prim.Native.Nat.{ℕ}
use mathlib.Core.Path.{◌≡◌, refl, ap}
use mathlib.Core.Bool.{true, false}
use mathlib.Core.List.{List, [], ◌∷◌, ◌++◌}
use mathlib.Core.Option.{Option, none, some}
use linux_dev_framework.Base.Tests.{◌==◌, if◌then◌else◌, ◌>>=◌}

-- The characters of an ASCII text.
abbrev pub chars : String → List ℕ
chars String.[] = []
chars (String.◌∷◌ c s) = code c ∷ chars s

-- A token up to the delimiter, and the text behind the delimiter.
unfoldable pub token : (delimiter : ℕ) → List ℕ → List ℕ × List ℕ
token d [] = ([], [])
token d (c ∷ s) = if c == d then ([], s) else (c ∷ (token d s).0, (token d s).1)

-- `strtok` with one delimiter: the next token and the text that the next call goes on from.
unfoldable pub strtok : (delimiter : ℕ) → List ℕ → Option (List ℕ × List ℕ)
strtok d [] = none
strtok d (c ∷ s) = if c == d then strtok d s else some (token d (c ∷ s))

-- No character of the text is the delimiter.
abbrev pub Free : (delimiter : ℕ) → List ℕ → Type 0
Free d [] = Unit
Free d (c ∷ s) = ((c == d) ≡ false) × Free d s

pub token-word :
    (d : ℕ) (w rest : List ℕ) → (d == d) ≡ true → Free d w → token d (w ++ d ∷ rest) ≡ (w, rest)
unfolding token
token-word d [] rest e f = rw e refl
token-word d (c ∷ w) rest e (n, f) = rw (n, token-word d w rest e f) refl

pub token-last : (d : ℕ) (w : List ℕ) → Free d w → token d w ≡ (w, [])
unfolding token
token-last d [] f = refl
token-last d (c ∷ w) (n, f) = rw (n, token-last d w f) refl

pub strtok-last : (d c : ℕ) (w : List ℕ) → Free d (c ∷ w) → strtok d (c ∷ w) ≡ some (c ∷ w, [])
unfolding strtok
strtok-last d c w (n, f) = rw n (ap some (token-last d (c ∷ w) (n, f)))

pub strtok-word :
    (d c : ℕ) (w rest : List ℕ)
    → (d == d) ≡ true
    → Free d (c ∷ w)
    → strtok d (c ∷ (w ++ d ∷ rest)) ≡ some (c ∷ w, rest)
unfolding strtok
strtok-word d c w rest e (n, f) = rw n (ap some (token-word d (c ∷ w) rest e (n, f)))

-- A text that `strchr` finds a character in: what stands before it and behind it.
unfoldable pub strchr : (c : ℕ) → List ℕ → Option (List ℕ × List ℕ)
strchr c [] = none
strchr c (x ∷ s) = if x == c then some ([], s) else strchr c s >>= λ p. some (x ∷ p.0, p.1)

-- `strrchr` up to what it finds.
unfoldable pub strrchr : (c : ℕ) → List ℕ → Option (List ℕ)
strrchr c [] = none
strrchr c (x ∷ s) = elim (strrchr c s) [
  | none ↦ if x == c then some [] else none
  | some before ↦ some (x ∷ before)
]

pub strchr-first :
    (d : ℕ) (w rest : List ℕ)
    → (d == d) ≡ true
    → Free d w
    → strchr d (w ++ d ∷ rest) ≡ some (w, rest)
unfolding strchr
strchr-first d [] rest e f = rw e refl
strchr-first d (c ∷ w) rest e (n, f) = rw (n, strchr-first d w rest e f) refl

pub strchr-none : (d : ℕ) (w : List ℕ) → Free d w → strchr d w ≡ none
unfolding strchr
strchr-none d [] f = refl
strchr-none d (c ∷ w) (n, f) = rw (n, strchr-none d w f) refl

pub Free-append : (d : ℕ) (v w : List ℕ) → Free d v → Free d w → Free d (v ++ w)
Free-append d [] w f g = g
Free-append d (c ∷ v) w (n, f) g = (n, Free-append d v w f g)

-- What is found last with nothing behind it.
pub strrchr-end : (d : ℕ) (w : List ℕ) → (d == d) ≡ true → strrchr d (w ++ d ∷ []) ≡ some w
unfolding strrchr
strrchr-end d [] e = rw e refl
strrchr-end d (c ∷ w) e = rw (strrchr-end d w e) refl
