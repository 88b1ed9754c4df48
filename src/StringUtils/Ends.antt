-- ===== src/StringUtils/Ends.antt =====
-- `str_trim` of libs/app_utils/src/string_utils.c.
use linux_dev_framework.Base.{
  ◌==◌, if◌then◌else◌, Bool-cases, length, length-append, ℕ, zero, suc, ◌+◌, ◌-◌, ◌≡◌, refl, sym,
  ap, ◌∙◌, subst, inl, inr, true, false, Option, none, some, List, [], ◌∷◌, ◌++◌, append_assoc,
  arith,
}
use linux_dev_framework.StringUtils.{
  isgraph, c_str, trim_head, trim_tail, trim_rest, str_trim_len, str_trim,
}
use linux_dev_framework.StringUtils.Text.{
  NoZero, from_first, to_last, push_front, c_str-append_zero, get_or-append, set-append,
  to_last-snoc_yes, to_last-snoc_no, last_split, NoZero-append_left,
}

trim_head_lem :
    (pre s rest : List ℕ)
    → trim_head (pre ++ (s ++ rest)) (length pre) (length s) ≡ length (from_first isgraph s)
unfolding trim_head
trim_head_lem pre [] rest = refl
trim_head_lem pre (c ∷ s) rest =
    rw (get_or-append pre (s ++ rest) c) (elim (Bool-cases (isgraph c)) [
      | inl g ↦ rw g refl
      | inr n ↦ rw n (
          subst (λ l. trim_head l (length pre + 1) (length s) ≡ length (from_first isgraph s))
            (append_assoc pre (c ∷ []) (s ++ rest))
            (subst
              (λ k.
                trim_head ((pre ++ c ∷ []) ++ (s ++ rest)) k (length s)
                ≡ length (from_first isgraph s))
              (length-append pre (c ∷ [])) (trim_head_lem (pre ++ c ∷ []) s rest)))
    ])

-- What the second loop does at the last of the characters.
trim_tail-snoc :
    (pre r rest : List ℕ) (d : ℕ)
    → trim_tail (pre ++ (r ++ d ∷ rest)) (length pre + length r) (suc (length r)) ≡ (
        if isgraph d
        then (suc (length r), pre ++ (r ++ d ∷ rest))
        else trim_tail (pre ++ (r ++ 0 ∷ rest)) (length pre + length r - 1) (length r))
unfolding trim_tail
trim_tail-snoc pre r rest d =
    rw
      (
        sym (append_assoc pre r (d ∷ rest)),
        sym (append_assoc pre r (0 ∷ rest)),
        sym (length-append pre r),
        get_or-append (pre ++ r) rest d,
        set-append (pre ++ r) rest d 0,
      )
      refl

-- The second loop on an array that holds `pre` and then `s`, which starts with a character that
-- stays.
abbrev TailTrims : (pre s : List ℕ) → ℕ × List ℕ → Type 0
TailTrims pre s (left, t) =
    (left ≡ length (to_last isgraph s)) × (c_str t ≡ pre ++ to_last isgraph s)

trim_tail_last :
    (pre r rest : List ℕ) (d : ℕ)
    → NoZero (pre ++ (r ++ d ∷ []))
    → (isgraph d ≡ false
        → TailTrims pre r
            (trim_tail (pre ++ (r ++ 0 ∷ 0 ∷ rest)) (length pre + length r - 1) (length r)))
    → TailTrims pre
        (r ++ d ∷ [])
        (trim_tail (pre ++ (r ++ d ∷ 0 ∷ rest)) (length pre + length r) (suc (length r)))
trim_tail_last pre r rest d h ih =
    subst (TailTrims pre (r ++ d ∷ [])) (sym (trim_tail-snoc pre r (0 ∷ rest) d))
      (elim (Bool-cases (isgraph d)) [
        | inl g ↦
            rw (g, to_last-snoc_yes isgraph r d g)
              (
                omega (arith, length-append r (d ∷ [])),
                ap (λ l. c_str (pre ++ l)) (sym (append_assoc r (d ∷ []) (0 ∷ rest)))
                    ∙ ap c_str (sym (append_assoc pre (r ++ d ∷ []) (0 ∷ rest)))
                    ∙ c_str-append_zero (pre ++ (r ++ d ∷ [])) rest h,
              )
        | inr n ↦ rw (n, to_last-snoc_no isgraph r d n) (ih n)
      ])

trim_tail_lem :
    (pre : List ℕ) (n c : ℕ) (s rest : List ℕ)
    → length s ≡ n
    → isgraph c ≡ true
    → NoZero (pre ++ (c ∷ s))
    → TailTrims pre (c ∷ s) (trim_tail (pre ++ (c ∷ s ++ 0 ∷ rest)) (length pre + n) (suc n))
trim_tail_lem pre zero c [] rest len g h = trim_tail_last pre [] rest c h (λ n. cc)
trim_tail_lem pre (suc m) c [] rest len g h = absurd (omega (arith, len))
trim_tail_lem pre zero c (x ∷ s) rest len g h = absurd (omega (arith, len))
trim_tail_lem pre (suc m) c (x ∷ s) rest len g h =
    let (r, d, f) = last_split x s in
    let here : length r ≡ m = omega (arith, len, ap length f, length-append r (d ∷ [])) in
    let h' : NoZero (pre ++ (c ∷ r ++ d ∷ [])) = subst (λ l. NoZero (pre ++ (c ∷ l))) f h in
    let h'' : NoZero (pre ++ (c ∷ r)) =
      NoZero-append_left (pre ++ (c ∷ r)) (d ∷ [])
        (subst NoZero (sym (append_assoc pre (c ∷ r) (d ∷ []))) h') in
    let ih = trim_tail_lem pre m c r (0 ∷ rest) here g h'' in
    subst
      (λ l.
        TailTrims pre (c ∷ l)
          (trim_tail (pre ++ (c ∷ l ++ 0 ∷ rest)) (length pre + suc m) (suc (suc m))))
      (sym f)
      (rw (append_assoc r (d ∷ []) (0 ∷ rest)) (
        subst
          (λ k.
            TailTrims pre (c ∷ r ++ d ∷ [])
              (trim_tail (pre ++ (c ∷ r ++ d ∷ 0 ∷ rest)) (length pre + suc k) (suc (suc k))))
          here
          (trim_tail_last pre (c ∷ r) rest d h' (λ no_graph.
            let e : length pre + m ≡ length pre + suc (length r) - 1 = omega (arith, here) in
            subst
              (λ k.
                TailTrims pre (c ∷ r)
                  (trim_tail (pre ++ (c ∷ r ++ 0 ∷ 0 ∷ rest)) k (suc (length r))))
              e
              (subst
                (λ k.
                  TailTrims pre (c ∷ r)
                    (trim_tail (pre ++ (c ∷ r ++ 0 ∷ 0 ∷ rest)) (length pre + m) (suc k)))
                (sym here) ih)))))

push_front-yes : (c : ℕ) (s : List ℕ) → isgraph c ≡ true → push_front isgraph c s ≡ c ∷ s
push_front-yes c [] h = rw h refl
push_front-yes c (d ∷ s) h = refl

push_front-behind :
    (c : ℕ) (pre : List ℕ) (g : ℕ) (s : List ℕ)
    → push_front isgraph c (pre ++ (g ∷ s)) ≡ c ∷ (pre ++ (g ∷ s))
push_front-behind c [] g s = refl
push_front-behind c (d ∷ pre) g s = refl

-- The front that the first loop passes, and what is behind it.
front :
    (s : List ℕ) (g : ℕ) (r : List ℕ)
    → from_first isgraph s ≡ g ∷ r
    → (pre : List ℕ) × (s ≡ pre ++ (g ∷ r))
      × (isgraph g ≡ true)
      × (to_last isgraph s ≡ pre ++ to_last isgraph (g ∷ r))
front [] g r e = absurd cc
front (c ∷ s) g r e = elim (Bool-cases (isgraph c)) [
  | inl y ↦
      let f : c ∷ s ≡ g ∷ r = rw y at e in
      let same : c ≡ g = cc in ([], f, subst (λ k. isgraph k ≡ true) same y, ap (to_last isgraph) f)
  | inr n ↦
      let (pre, f, y, t) = front s g r (rw n at e) in
      let u : to_last isgraph (g ∷ r) ≡ g ∷ to_last isgraph r =
        push_front-yes g (to_last isgraph r) y in
      (
        c ∷ pre,
        ap (λ l. c ∷ l) f,
        y,
        ap (push_front isgraph c) (t ∙ ap (λ l. pre ++ l) u)
            ∙ push_front-behind c pre g (to_last isgraph r)
            ∙ ap (λ l. c ∷ (pre ++ l)) (sym u),
      )
]

-- What `str_trim` makes of a string: nothing when no character is graphic; else the end is cut off
-- in `output`, and the result is the length without the end and without the front.
abbrev pub trimmed : (s graphic : List ℕ) → ℕ × Option (List ℕ)
trimmed s [] = (0, none)
trimmed s (c ∷ r) = (length (to_last isgraph (c ∷ r)), some (to_last isgraph s))

abbrev result_of : ℕ × List ℕ → ℕ × Option (List ℕ)
result_of (left, t) = if left == 0 then (0, none) else (left, some (c_str t))

trim_rest_some :
    (pre r : List ℕ) (g : ℕ) (x : ℕ × List ℕ) {out : List ℕ}
    → isgraph g ≡ true
    → out ≡ pre ++ to_last isgraph (g ∷ r)
    → TailTrims pre (g ∷ r) x
    → result_of x ≡ (length (to_last isgraph (g ∷ r)), some out)
trim_rest_some pre r g (left, t) y o (a, b) =
    let u = push_front-yes g (to_last isgraph r) y in
    let z : (length (g ∷ to_last isgraph r) == 0) ≡ false = ground arith in rw (a, b, o, u, z) refl

trim_rest_lem :
    (s stale : List ℕ) (n : ℕ) (f : List ℕ)
    → suc n ≡ length s
    → NoZero s
    → from_first isgraph s ≡ f
    → trim_rest (s ++ 0 ∷ stale) n (length f) ≡ trimmed s f
trim_rest_lem s stale n [] len h e = refl
trim_rest_lem s stale n (g ∷ r) len h e =
    let (pre, f, y, t) = front s g r e in
    let place : length pre + length r ≡ n =
      omega (arith, len, ap length f, length-append pre (g ∷ r)) in
    let tail = trim_tail_lem pre (length r) g r stale refl y (subst NoZero f h) in
    let same : pre ++ (g ∷ r ++ 0 ∷ stale) ≡ s ++ 0 ∷ stale =
      sym (append_assoc pre (g ∷ r) (0 ∷ stale)) ∙ ap (λ l. l ++ 0 ∷ stale) (sym f) in
    trim_rest_some pre r g (trim_tail (s ++ 0 ∷ stale) n (suc (length r))) y t (
      subst (λ l. TailTrims pre (g ∷ r) (trim_tail l n (suc (length r)))) same
        (subst
          (λ k. TailTrims pre (g ∷ r) (trim_tail (pre ++ (g ∷ r ++ 0 ∷ stale)) k (suc (length r))))
          place tail))

-- `str_trim` stores nothing, and returns 0, when no character is graphic. Otherwise it stores the
-- string without what follows the last graphic character, and returns the length of what is
-- between the first and the last graphic one: what precedes the first is stored and not counted.
pub str_trim-eq :
    (input stale : List ℕ)
    → NoZero input
    → str_trim input stale ≡ trimmed input (from_first isgraph input)
unfolding str_trim str_trim_len
str_trim-eq [] stale h = refl
str_trim-eq (c ∷ s) stale h =
    ap (trim_rest (c ∷ s ++ 0 ∷ stale) (length s)) (trim_head_lem [] (c ∷ s) (0 ∷ stale))
    ∙ trim_rest_lem (c ∷ s) stale (length s) (from_first isgraph (c ∷ s)) refl h refl
