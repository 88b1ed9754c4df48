-- ===== src/Editor/Edits.antt =====
-- The keys of simple_apps/vi_style_input_test.c that change the text.
use linux_dev_framework.Base.{
  ltb, leb, ◌==◌, ==_refl, Bool-cases, ℕ, suc, ◌+◌, ◌-◌, ◌≤◌, ◌<◌, ◌≡◌, refl, sym, ap, ◌∙◌, subst,
  fun_ext, inl, inr, true, false, ◌||◌, List, [], ◌∷◌, arith,
}
use linux_dev_framework.StringUtils.{Buf, insert_char, delete_char}
use linux_dev_framework.StringUtils.Buffer.{
  read, length-read, insert_at, remove_at, insert_char-read, delete_char-read,
}
use linux_dev_framework.Editor.{
  Editor, Written, max_line_len, cur_line_len, put_at, set_line, backspace_proc, delete_proc,
  normal_key_input_proc, right_if, cursor_right,
}
use linux_dev_framework.Editor.Doc.{doc, change, press, Inv, Shows, rub_out, del, typed}
use linux_dev_framework.Editor.Moves.{still}

put_at_same {ℓ} : {A : Type ℓ} (i : ℕ) (v : A) (f : ℕ → A) → put_at i v f i ≡ v
put_at_same i v f = rw (==_refl i) refl

-- The current line becomes `line`, whose first `len` bytes are `l`.
changed :
    (s : Editor) (line : Buf) (len col : ℕ) (os : List Written) (l : List ℕ)
    → Inv s
    → read line 0 len ≡ l
    → line len ≡ 0
    → ((x : ℕ) → max_line_len < x → line x ≡ s.some_data_for_edit s.cur_line x)
    → len ≤ max_line_len
    → col ≤ len
    → Shows s (set_line s line len col os) (change l col (doc s))
changed s line len col os l i r z out fits c = record {
  inv = record {
    row_in = i.row_in;
    col_in = rw (==_refl s.cur_line) c;
    fits = λ k. elim (Bool-cases (k == s.cur_line)) [ inl y ↦ rw y fits | inr n ↦ rw n (i.fits k) ];
    ended = λ k. elim (Bool-cases (k == s.cur_line)) [ inl y ↦ rw y z | inr n ↦ rw n (i.ended k) ];
  };
  same =
      ap (λ (ls : ℕ → List ℕ). (record { lines = ls; row = s.cur_line; col = col }))
        (fun_ext (λ k. elim (Bool-cases (k == s.cur_line)) [ inl y ↦ rw y r | inr n ↦ rw n refl ]));
  exits = refl;
  inside = λ k x h. elim (Bool-cases (k == s.cur_line)) [
    | inl y ↦
        let e : k ≡ s.cur_line = ground (arith, y) in
        rw y (elim h [
          | inl far ↦ absurd (omega (arith, far, e, i.row_in))
          | inr far ↦ out x far ∙ ap (λ j. s.some_data_for_edit j x) (sym e)
        ])
    | inr n ↦ rw n refl
  ];
}

pub normal_key_input_proc-Shows :
    (s : Editor) (c : ℕ) → Inv s → Shows s (normal_key_input_proc c s) (press (typed c) (doc s))
unfolding normal_key_input_proc
normal_key_input_proc-Shows s c i =
    let len : ℕ = cur_line_len s in
    let old : Buf = s.some_data_for_edit s.cur_line in
    let whole = length-read old 0 len in
    let (r, z, out) = insert_char-read old c s.cur_col len i.col_in in
    elim (Bool-cases (leb max_line_len len)) [
      | inl y ↦ rw (whole, y) (still s i)
      | inr n ↦
          let small : len < max_line_len = ground (arith, n) in
          rw (whole, n)
            (changed s (insert_char old c s.cur_col len) (len + 1) (s.cur_col + 1)
              (cursor_right (s.cur_col + 1) ∷ []) (insert_at s.cur_col c (read old 0 len)) i
              (ap (read (insert_char old c s.cur_col len) 0) {y = suc len} (omega arith) ∙ r) z
              (λ x far. out x (omega (arith, far, small))) (omega (arith, small))
              (omega (arith, i.col_in)))
    ]

-- One character out of the current line.
deleted :
    (s : Editor) (idx col : ℕ)
    → Inv s
    → idx < cur_line_len s
    → col < cur_line_len s
    → Shows s
        (set_line s
          (delete_char (s.some_data_for_edit s.cur_line) idx (cur_line_len s))
          (cur_line_len s - 1)
          col
          (right_if col))
        (change
          (remove_at idx (read (s.some_data_for_edit s.cur_line) 0 (cur_line_len s)))
          col
          (doc s))
deleted s idx col i h c =
    let len : ℕ = cur_line_len s in
    let old : Buf = s.some_data_for_edit s.cur_line in
    let e : suc (len - 1) ≡ len = omega (arith, h) in
    let (r, z, out) = delete_char-read old idx (len - 1) (omega (arith, h)) in
    let fits : len ≤ max_line_len = i.fits s.cur_line in
    changed s (delete_char old idx len) (len - 1) col (right_if col)
      (remove_at idx (read old 0 len)) i
      (subst (λ k. read (delete_char old idx k) 0 (len - 1) ≡ remove_at idx (read old 0 k)) e r)
      (subst (λ k. delete_char old idx k (len - 1) ≡ 0) e z)
      (λ x far. subst (λ k. delete_char old idx k x ≡ old x) e (out x (omega (arith, fits, far))))
      (omega (arith, fits)) (omega (arith, c))

pub backspace_proc-Shows : (s : Editor) → Inv s → Shows s (backspace_proc s) (press rub_out (doc s))
unfolding backspace_proc
backspace_proc-Shows s i = elim (Bool-cases (s.cur_col == 0)) [
  | inl y ↦
      let stop : (leb (cur_line_len s) 0 || ltb s.cur_col 1) ≡ true = ground (arith, y) in
      rw (y, stop) (still s i)
  | inr n ↦
      let go : (leb (cur_line_len s) 0 || ltb s.cur_col 1) ≡ false = ground (arith, n, i.col_in) in
      rw (n, go)
        (deleted s (s.cur_col - 1) (s.cur_col - 1) i (ground (arith, n, i.col_in))
          (ground (arith, n, i.col_in)))
]

pub delete_proc-Shows : (s : Editor) → Inv s → Shows s (delete_proc s) (press del (doc s))
unfolding delete_proc
delete_proc-Shows s i =
    let whole = length-read (s.some_data_for_edit s.cur_line) 0 (cur_line_len s) in
    elim (Bool-cases (leb (cur_line_len s) s.cur_col)) [
      | inl y ↦
          let stop : (leb (cur_line_len s) 0 || leb (cur_line_len s) s.cur_col) ≡ true =
            ground (arith, y) in
          rw (whole, stop, y) (still s i)
      | inr n ↦
          let go : (leb (cur_line_len s) 0 || leb (cur_line_len s) s.cur_col) ≡ false =
            ground (arith, n) in
          rw (whole, go, n)
            (deleted s s.cur_col s.cur_col i (ground (arith, n)) (ground (arith, n)))
    ]
