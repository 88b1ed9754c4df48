-- ===== src/PeerServer/Lists.antt =====
-- Lists of requests of simple_apps/p2p_server.c: what is kept of them, and their buffers.
use linux_dev_framework.Base.{
  ◌==◌, ==_refl, Bool-cases, some_inj, length, ℕ, ◌+◌, ◌≡◌, refl, sym, ap, ◌∙◌, subst, ◌⊎◌, inl,
  inr, Bool, true, false, some, List, [], ◌∷◌, ◌++◌, arith,
}
use linux_dev_framework.PeerServer.{ConnReq, first_of, keep, unlink}

abbrev pub Each : (ConnReq → Type 0) → List ConnReq → Type 0
Each P [] = Unit
Each P (c ∷ l) = P c × Each P l

-- No entry stands in the buffer.
abbrev pub Free : (buffer : ℕ) → List ConnReq → Type 0
Free b l = Each (λ c. (c.buffer == b) ≡ false) l

-- No two entries stand in one buffer.
abbrev pub Distinct : List ConnReq → Type 0
Distinct [] = Unit
Distinct (c ∷ l) = Free c.buffer l × Distinct l

abbrev pub Within : ConnReq → List ConnReq → Type 0
Within c [] = ⊥
Within c (d ∷ l) = (d ≡ c) ⊎ Within c l

pub keep-append : (p : ConnReq → Bool) (a b : List ConnReq) → keep p (a ++ b) ≡ keep p a ++ keep p b
keep-append p [] b = refl
keep-append p (c ∷ a) b = elim (Bool-cases (p c)) [
  | inl y ↦ rw (y, keep-append p a b) refl
  | inr out ↦ rw (out, keep-append p a b) refl
]

-- Two selections can change places.
pub keep-keep : (p q : ConnReq → Bool) (l : List ConnReq) → keep p (keep q l) ≡ keep q (keep p l)
keep-keep p q [] = refl
keep-keep p q (c ∷ l) = elim (Bool-cases (p c)) [
  | inl y ↦ elim (Bool-cases (q c)) [
    | inl z ↦ rw (z, y) (rw z (ap (λ m. c ∷ m) (keep-keep p q l)))
    | inr out ↦ rw (y, out) (keep-keep p q l)
  ]
  | inr out ↦ elim (Bool-cases (q c)) [
    | inl z ↦ rw (out, z, out) (keep-keep p q l)
    | inr more ↦ rw (out, more) (keep-keep p q l)
  ]
]

-- What is looked for among entries that pass a weaker test is what is looked for among all.
pub first_of-keep :
    (p q : ConnReq → Bool) (l : List ConnReq)
    → ((c : ConnReq) → p c ≡ true → q c ≡ true)
    → first_of p (keep q l) ≡ first_of p l
first_of-keep p q [] h = refl
first_of-keep p q (c ∷ l) h = elim (Bool-cases (q c)) [
  | inl y ↦ elim (Bool-cases (p c)) [
    | inl z ↦ rw (y, z) refl
    | inr out ↦ rw (y, out) (first_of-keep p q l h)
  ]
  | inr n ↦ elim (Bool-cases (p c)) [
    | inl z ↦ let e : false ≡ true = sym n ∙ h c z in cc
    | inr out ↦ rw (n, out) (first_of-keep p q l h)
  ]
]

pub first_of-Within :
    (p : ConnReq → Bool) (l : List ConnReq) (c : ConnReq)
    → first_of p l ≡ some c
    → Within c l × (p c ≡ true)
first_of-Within p [] c e = cc
first_of-Within p (d ∷ l) c e = elim (Bool-cases (p d)) [
  | inl y ↦ let f : d ≡ c = some_inj (rw y at e) in (inl f, ap p (sym f) ∙ y)
  | inr out ↦ let (i, z) = first_of-Within p l c (rw out at e) in (inr i, z)
]

Each-keep :
    (P : ConnReq → Type 0) (p : ConnReq → Bool) (l : List ConnReq) → Each P l → Each P (keep p l)
Each-keep P p [] h = tt
Each-keep P p (c ∷ l) (a, h) = elim (Bool-cases (p c)) [
  | inl y ↦ rw y ((a, Each-keep P p l h))
  | inr out ↦ rw out (Each-keep P p l h)
]

pub Free-keep : (b : ℕ) (p : ConnReq → Bool) (l : List ConnReq) → Free b l → Free b (keep p l)
Free-keep b p l h = Each-keep (λ c. (c.buffer == b) ≡ false) p l h

pub Distinct-keep : (p : ConnReq → Bool) (l : List ConnReq) → Distinct l → Distinct (keep p l)
Distinct-keep p [] h = tt
Distinct-keep p (c ∷ l) (a, h) = elim (Bool-cases (p c)) [
  | inl y ↦ rw y ((Free-keep c.buffer p l a, Distinct-keep p l h))
  | inr out ↦ rw out (Distinct-keep p l h)
]

pub Free-unlink : (b : ℕ) (l : List ConnReq) → Free b (unlink b l)
Free-unlink b [] = tt
Free-unlink b (c ∷ l) = elim (Bool-cases (c.buffer == b)) [
  | inl y ↦ rw y (Free-unlink b l)
  | inr out ↦ rw out ((out, Free-unlink b l))
]

unlink-Free : (b : ℕ) (l : List ConnReq) → Free b l → unlink b l ≡ l
unlink-Free b [] h = refl
unlink-Free b (c ∷ l) (a, h) = rw (a, unlink-Free b l h) refl

Each-Within : (P : ConnReq → Type 0) (l : List ConnReq) (c : ConnReq) → Each P l → Within c l → P c
Each-Within P [] c h i = absurd i
Each-Within P (x ∷ l) c (a, h) (inl e) = subst P e a
Each-Within P (x ∷ l) c (a, h) (inr i) = Each-Within P l c h i

Each-append :
    (P : ConnReq → Type 0) (l : List ConnReq) (c : ConnReq) → Each P l → P c → Each P (l ++ c ∷ [])
Each-append P [] c h a = (a, tt)
Each-append P (x ∷ l) c (b, h) a = (b, Each-append P l c h a)

==_swap : (a b : ℕ) → (a == b) ≡ false → (b == a) ≡ false
==_swap a b h = ground (arith, h)

-- Taking an entry out makes the list shorter by one.
pub length-unlink :
    (c : ConnReq) (l : List ConnReq)
    → Distinct l
    → Within c l
    → length (unlink c.buffer l) + 1 ≡ length l
length-unlink c [] d i = absurd i
length-unlink c (x ∷ l) (free, d) (inl e) =
    let same : (x.buffer == c.buffer) ≡ true =
      ap (λ y. y.buffer == c.buffer) e ∙ ==_refl c.buffer in
    let gone : unlink c.buffer l ≡ l =
      unlink-Free c.buffer l (subst (λ y. Free y.buffer l) e free) in
    rw (same, gone) (omega arith)
length-unlink c (x ∷ l) (free, d) (inr i) =
    let other : (x.buffer == c.buffer) ≡ false =
      ==_swap c.buffer x.buffer (Each-Within (λ y. (y.buffer == x.buffer) ≡ false) l c free i) in
    rw other (omega (arith, length-unlink c l d i))

pub Distinct-append :
    (l : List ConnReq) (c : ConnReq) → Distinct l → Free c.buffer l → Distinct (l ++ c ∷ [])
Distinct-append [] c d f = (tt, tt)
Distinct-append (x ∷ l) c (free, d) (a, f) = (
  Each-append (λ y. (y.buffer == x.buffer) ≡ false) l c free (==_swap x.buffer c.buffer a),
  Distinct-append l c d f,
)
