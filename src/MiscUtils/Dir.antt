-- ===== src/MiscUtils/Dir.antt =====
-- The directory that get_self_dir of libs/app_utils/src/misc_utils.c gives.
use linux_dev_framework.Base.{
  leb, ◌==◌, if◌then◌else◌, length, get_or, take, length-append, Free, ℕ, zero, suc, ◌+◌, ◌≤◌, ◌<◌,
  min, ◌≡◌, refl, sym, ap, ◌∙◌, true, false, none, some, List, [], ◌∷◌, ◌++◌, append_assoc, arith,
}
use linux_dev_framework.MiscUtils.{get_self_path, back_to_slash, dir_of, get_self_dir}

get_or-behind : (d rest : List ℕ) (i : ℕ) → get_or (d ++ rest) (length d + i) 0 ≡ get_or rest i 0
get_or-behind [] rest i = let e : 0 + i ≡ i = omega arith in ap (λ n. get_or rest n 0) e
get_or-behind (c ∷ d) rest i =
    let e : suc (length d) + i ≡ suc (length d + i) = omega arith in
    ap (λ n. get_or (c ∷ (d ++ rest)) n 0) e ∙ get_or-behind d rest i

get_or-Free : (w : List ℕ) (k : ℕ) → Free 47 w → k < length w → (get_or w k 0 == 47) ≡ false
get_or-Free [] k h lt = absurd (omega (arith, lt))
get_or-Free (c ∷ w) zero h lt = h.0
get_or-Free (c ∷ w) (suc k) h lt = get_or-Free w k h.1 (omega (arith, lt))

back_to_slash-last :
    (d w : List ℕ) (k : ℕ)
    → Free 47 w
    → k ≤ length w
    → back_to_slash (d ++ 47 ∷ w) (suc (length d + k)) ≡ length d + 1
unfolding back_to_slash
back_to_slash-last d w zero h le =
    let found : (get_or (d ++ 47 ∷ w) (length d + 0) 0 == 47) ≡ true =
      ap (λ c. c == 47) (get_or-behind d (47 ∷ w) 0) in
    rw found (omega arith)
back_to_slash-last d w (suc k) h le =
    let other : (get_or (d ++ 47 ∷ w) (length d + suc k) 0 == 47) ≡ false =
      ap (λ c. c == 47) (get_or-behind d (47 ∷ w) (suc k))
      ∙ get_or-Free w k h (omega (arith, le)) in
    let e : length d + suc k ≡ suc (length d + k) = omega arith in
    rw other (ap (back_to_slash (d ++ 47 ∷ w)) e ∙ back_to_slash-last d w k h (omega (arith, le)))

take-front : (d rest : List ℕ) → take (length d) (d ++ rest) ≡ d
take-front [] rest = refl
take-front (c ∷ d) rest = ap (λ l. c ∷ l) (take-front d rest)

-- For a program at a path of fewer than 1024 characters, `get_self_dir` gives the path up to its last
-- slash, and the slash, when that and its terminator fit in the buffer.
pub get_self_dir-dir :
    (d w : List ℕ) (buf_len : ℕ)
    → Free 47 w
    → length (d ++ 47 ∷ w) < 1024
    → length d + 1 < buf_len
    → get_self_dir (some (d ++ 47 ∷ w)) buf_len ≡ some (d ++ 47 ∷ [])
unfolding get_self_dir get_self_path
get_self_dir-dir d w buf_len h short fits =
    let path : List ℕ = d ++ 47 ∷ w in
    let whole : leb 1024 (min (length path) 1024) ≡ false = ground (arith, short) in
    let size : length path ≡ suc (length d + length w) = omega (arith, length-append d (47 ∷ w)) in
    let found : back_to_slash path (length path) ≡ length d + 1 =
      ap (back_to_slash path) size ∙ back_to_slash-last d w (length w) h (omega arith) in
    let some_dir : (length d + 1 == 0) ≡ false = ground arith in
    let room : leb buf_len (length d + 1) ≡ false = ground (arith, fits) in
    let len : length d + 1 ≡ length (d ++ 47 ∷ []) = omega (arith, length-append d (47 ∷ [])) in
    ap (λ b. dir_of (if b then none else some path) buf_len) whole
    ∙ ap (λ n. if n == 0 then none else (if leb buf_len n then none else some (take n path))) found
    ∙ ap
        (λ b.
          if b
          then none
          else (if leb buf_len (length d + 1) then none else some (take (length d + 1) path)))
        some_dir
    ∙ ap (λ b. if b then none else some (take (length d + 1) path)) room
    ∙ ap (λ n. some (take n path)) len
    ∙ ap (λ l. some (take (length (d ++ 47 ∷ [])) l)) (sym (append_assoc d (47 ∷ []) w))
    ∙ ap some (take-front (d ++ 47 ∷ []) w)
