-- ===== src/IoUtils/Whole.antt =====
-- What `write_certain_bytes` and `read_certain_bytes` of libs/app_utils/src/io_utils.c move.
use linux_dev_framework.Base.{
  length, take, drop, ℕ, zero, suc, ◌+◌, ◌≤◌, min, ◌≡◌, refl, sym, ap, ◌∙◌, subst, ◌↔◌, true, false,
  Option, none, some, List, [], ◌∷◌, ◌++◌, arith,
}
use linux_dev_framework.IoUtils.{
  Call, again, failed, did, Done, write_loop, write_certain_bytes, read_loop, read_certain_bytes,
  reliable,
}

take-nil : (k : ℕ) → take {A = ℕ} k [] ≡ []
take-nil zero = refl
take-nil (suc k) = refl

take-append-take : (n k : ℕ) (s : List ℕ) → take n s ++ take k (drop n s) ≡ take (n + k) s
take-append-take zero k s = ap (λ j. take j s) (omega arith)
take-append-take (suc n) k [] = take-nil k ∙ sym (take-nil (suc n + k))
take-append-take (suc n) k (c ∷ s) =
    ap (λ l. c ∷ l) (take-append-take n k s)
    ∙ ap (λ j. take j (c ∷ s)) {x = suc (n + k)} (omega arith)

-- The bytes that moved are the first of those there were, as many as are counted, and success means
-- that there are `count` of them, failure that there are fewer.
abbrev pub Moves : (bytes : List ℕ) (count : ℕ) → Done → Type 0
Moves bytes count d =
    (d.moved ≡ take d.finished bytes)
    × (d.finished ≤ count)
    × (d.success ≡ true ↔ d.finished ≡ count)

abbrev pub IfDone : (Done → Type 0) → Option Done → Type 0
IfDone p none = Unit
IfDone p (some d) = p d

write_loop-Moves :
    (calls : List Call) (buf : List ℕ) (left count : ℕ) (d : Done)
    → d.moved ≡ take d.finished buf
    → d.finished + left ≡ count
    → IfDone (Moves buf count) (write_loop calls buf left d)
unfolding write_loop
write_loop-Moves [] buf zero count d m e = (m, omega (arith, e), (λ t. omega (arith, e), λ t. refl))
write_loop-Moves [] buf (suc left) count d m e = tt
write_loop-Moves (call ∷ calls) buf zero count d m e =
    (m, omega (arith, e), (λ t. omega (arith, e), λ t. refl))
write_loop-Moves (again ∷ calls) buf (suc left) count d m e =
    write_loop-Moves calls buf (suc left) count d m e
write_loop-Moves (failed ∷ calls) buf (suc left) count d m e =
    (m, omega (arith, e), (λ t. absurd cc, λ t. absurd (omega (arith, e, t))))
write_loop-Moves (did n ∷ calls) buf (suc left) count d m e =
    write_loop-Moves calls buf _ count _
      (ap (λ l. l ++ take (min n (suc left)) (drop d.finished buf)) m
        ∙ take-append-take d.finished (min n (suc left)) buf)
      (omega (arith, e))

read_loop-Moves :
    (calls : List Call) (incoming : List ℕ) (left count : ℕ) (d : Done)
    → d.moved ≡ take d.finished incoming
    → d.finished + left ≡ count
    → IfDone (Moves incoming count) (read_loop calls incoming left d)
unfolding read_loop
read_loop-Moves [] incoming zero count d m e =
    (m, omega (arith, e), (λ t. omega (arith, e), λ t. refl))
read_loop-Moves [] incoming (suc left) count d m e = tt
read_loop-Moves (call ∷ calls) incoming zero count d m e =
    (m, omega (arith, e), (λ t. omega (arith, e), λ t. refl))
read_loop-Moves (again ∷ calls) incoming (suc left) count d m e =
    read_loop-Moves calls incoming (suc left) count d m e
read_loop-Moves (failed ∷ calls) incoming (suc left) count d m e =
    (m, omega (arith, e), (λ t. absurd cc, λ t. absurd (omega (arith, e, t))))
read_loop-Moves (did zero ∷ calls) incoming (suc left) count d m e =
    (m, omega (arith, e), (λ t. absurd cc, λ t. absurd (omega (arith, e, t))))
read_loop-Moves (did (suc n) ∷ calls) incoming (suc left) count d m e =
    read_loop-Moves calls incoming _ count _
      (ap (λ l. l ++ take (min (suc n) (suc left)) (drop d.finished incoming)) m
        ∙ take-append-take d.finished (min (suc n) (suc left)) incoming)
      (omega (arith, e))

-- How many calls move something.
abbrev pub moving : List Call → ℕ
moving [] = 0
moving (did (suc n) ∷ calls) = suc (moving calls)
moving (call ∷ calls) = moving calls

write_loop-some :
    (calls : List Call) (buf : List ℕ) (left : ℕ) (d : Done)
    → left ≤ moving calls
    → (r : Done) × (write_loop calls buf left d ≡ some r)
unfolding write_loop
write_loop-some [] buf zero d h = (_, refl)
write_loop-some [] buf (suc left) d h = absurd (omega (arith, h))
write_loop-some (call ∷ calls) buf zero d h = (_, refl)
write_loop-some (again ∷ calls) buf (suc left) d h = write_loop-some calls buf (suc left) d h
write_loop-some (failed ∷ calls) buf (suc left) d h = (_, refl)
write_loop-some (did zero ∷ calls) buf (suc left) d h =
    write_loop-some calls buf _ _ (omega (arith, h))
write_loop-some (did (suc n) ∷ calls) buf (suc left) d h =
    write_loop-some calls buf _ _ (omega (arith, h))

read_loop-some :
    (calls : List Call) (incoming : List ℕ) (left : ℕ) (d : Done)
    → left ≤ moving calls
    → (r : Done) × (read_loop calls incoming left d ≡ some r)
unfolding read_loop
read_loop-some [] incoming zero d h = (_, refl)
read_loop-some [] incoming (suc left) d h = absurd (omega (arith, h))
read_loop-some (call ∷ calls) incoming zero d h = (_, refl)
read_loop-some (again ∷ calls) incoming (suc left) d h =
    read_loop-some calls incoming (suc left) d h
read_loop-some (failed ∷ calls) incoming (suc left) d h = (_, refl)
read_loop-some (did zero ∷ calls) incoming (suc left) d h = (_, refl)
read_loop-some (did (suc n) ∷ calls) incoming (suc left) d h =
    read_loop-some calls incoming _ _ (omega (arith, h))

-- Given as many calls that take something as there are bytes, however they are broken up by short
-- writes, interruptions and errors, `write_certain_bytes` ends: it has written the first bytes of
-- the buffer, each once and in order, and returns 0 exactly when it has written all.
pub write_certain_bytes-Moves :
    (calls : List Call) (buf : List ℕ)
    → length buf ≤ moving calls
    → (r : Done) × (write_certain_bytes calls buf ≡ some r) × Moves buf (length buf) r
unfolding write_certain_bytes
write_certain_bytes-Moves calls buf h =
    let start : Done = record { success = false; finished = 0; moved = [] } in
    let (r, e) = write_loop-some calls buf (length buf) start h in
    (
      r,
      e,
      subst (IfDone (Moves buf (length buf))) e
          (write_loop-Moves calls buf (length buf) (length buf) start refl (omega arith)),
    )

-- Given as many calls that give something as bytes are asked for, `read_certain_bytes` ends: it has
-- stored the first of the incoming bytes, each once and in order, and returns 0 exactly when it
-- has stored all that were asked for.
pub read_certain_bytes-Moves :
    (calls : List Call) (incoming : List ℕ) (count : ℕ)
    → count ≤ moving calls
    → (r : Done) × (read_certain_bytes calls incoming count ≡ some r) × Moves incoming count r
unfolding read_certain_bytes
read_certain_bytes-Moves calls incoming count h =
    let start : Done = record { success = false; finished = 0; moved = [] } in
    let (r, e) = read_loop-some calls incoming count start h in
    (
      r,
      e,
      subst (IfDone (Moves incoming count)) e
          (read_loop-Moves calls incoming count count start refl (omega arith)),
    )

-- The loops try again in place what `reliable` tries again before it returns.
write_loop-reliable :
    (calls : List Call) (buf : List ℕ) (left n : ℕ) (later : List Call) (d : Done)
    → reliable calls ≡ some (some n, later)
    → write_loop calls buf (suc left) d ≡ write_loop (did n ∷ later) buf (suc left) d
unfolding write_loop reliable
write_loop-reliable [] buf left n later d e = absurd cc
write_loop-reliable (again ∷ calls) buf left n later d e =
    write_loop-reliable calls buf left n later d e
write_loop-reliable (failed ∷ calls) buf left n later d e = absurd cc
write_loop-reliable (did k ∷ calls) buf left n later d e =
    let f : k ≡ n = cc in let g : calls ≡ later = cc in rw (f, g) refl
