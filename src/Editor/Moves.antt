-- ===== src/Editor/Moves.antt =====
-- The cursor movements of simple_apps/vi_style_input_test.c.
use linux_dev_framework.Base.{
  ltb, leb, ◌==◌, leb→le, Bool-cases, tests, ℕ, ◌+◌, ◌-◌, ◌≤◌, ◌<◌, ◌≡◌, refl, ap₂, inl, inr, true,
  false, List, [], ◌∷◌, ◌++◌, arith,
}
use linux_dev_framework.StringUtils.Buffer.{length-read}
use linux_dev_framework.Editor.{
  Editor, max_line_nr, cur_line_len, adjust_cursor, move_cursor_up, move_cursor_down,
  move_cursor_left, move_cursor_right, cursor_up, cursor_down,
}
use linux_dev_framework.Editor.Doc.{
  Doc, doc, go_to, press, Inv, Shows, to_up, to_down, to_left, to_right,
}

-- Two documents of the same lines.
doc_eq :
    {ls : ℕ → List ℕ} {r c r' c' : ℕ}
    → r ≡ r'
    → c ≡ c'
    → (◌≡◌ {A = Doc}
        (record { lines = ls; row = r; col = c })
        (record { lines = ls; row = r'; col = c' }))
doc_eq {ls} e f = ap₂ (λ r c. (record { lines = ls; row = r; col = c })) e f

pub still : (s : Editor) → Inv s → Shows s s (doc s)
still s i = record { inv = i; same = refl; exits = refl; inside = λ l x h. refl }

-- `adjust_cursor` in a row that need not have the column.
adjusted :
    (s : Editor) (row : ℕ)
    → row < max_line_nr
    → Inv s
    → (os : _)
    → Shows s (adjust_cursor (record s { cur_line = row; output = os })) (go_to row (doc s))
unfolding adjust_cursor
adjusted s row small i os = elim (Bool-cases (leb s.cur_col (s.line_data_len row))) [
  | inl y ↦ rw y (record {
    inv = record {
      row_in = small;
      col_in = leb→le s.cur_col (s.line_data_len row) y;
      fits = i.fits;
      ended = i.ended;
    };
    same =
        doc_eq refl
          (omega (tests, y, length-read (s.some_data_for_edit row) 0 (s.line_data_len row)));
    exits = refl;
    inside = λ l x h. refl;
  })
  | inr n ↦ rw n (record {
    inv = record { row_in = small; col_in = omega arith; fits = i.fits; ended = i.ended };
    same =
        doc_eq refl
          (rw (length-read (s.some_data_for_edit row) 0 (s.line_data_len row)) (ground (arith, n)));
    exits = refl;
    inside = λ l x h. refl;
  })
]

pub move_cursor_up-Shows : (s : Editor) → Inv s → Shows s (move_cursor_up s) (press to_up (doc s))
unfolding move_cursor_up
move_cursor_up-Shows s i = elim (Bool-cases (s.cur_line == 0)) [
  | inl y ↦ let top : ltb s.cur_line 1 ≡ true = ground (arith, y) in rw (y, top) (still s i)
  | inr n ↦
      let below : ltb s.cur_line 1 ≡ false = ground (arith, n) in
      rw (n, below)
        (adjusted s (s.cur_line - 1) (omega (arith, i.row_in)) i (s.output ++ cursor_up 1 ∷ []))
]

pub move_cursor_down-Shows :
    (s : Editor) → Inv s → Shows s (move_cursor_down s) (press to_down (doc s))
unfolding move_cursor_down
move_cursor_down-Shows s i = elim (Bool-cases (s.cur_line + 1 == max_line_nr)) [
  | inl y ↦
      let bottom : leb (max_line_nr - 1) s.cur_line ≡ true = ground (arith, y) in
      rw (y, bottom) (still s i)
  | inr n ↦
      let above : leb (max_line_nr - 1) s.cur_line ≡ false = ground (arith, n, i.row_in) in
      rw (n, above)
        (adjusted s (s.cur_line + 1) (ground (arith, n, i.row_in)) i
          (s.output ++ cursor_down 1 ∷ []))
]

-- The cursor at another place of its row.
moved :
    (s : Editor) (col : ℕ)
    → Inv s
    → col ≤ cur_line_len s
    → (os : _) (col' : ℕ) → col ≡ col'
    → Shows s (record s { cur_col = col; output = os }) (record (doc s) { col = col' })
moved s col i h os col' e = record {
  inv = record { row_in = i.row_in; col_in = h; fits = i.fits; ended = i.ended };
  same = doc_eq refl e;
  exits = refl;
  inside = λ l x o. refl;
}

pub move_cursor_left-Shows :
    (s : Editor) → Inv s → Shows s (move_cursor_left s) (press to_left (doc s))
unfolding move_cursor_left
move_cursor_left-Shows s i = elim (Bool-cases (leb s.cur_col 0)) [
  | inl y ↦ rw y (moved s s.cur_col i i.col_in s.output (s.cur_col - 1) (omega (tests, y)))
  | inr n ↦ rw n (moved s (s.cur_col - 1) i (omega (arith, i.col_in)) _ (s.cur_col - 1) refl)
]

pub move_cursor_right-Shows :
    (s : Editor) → Inv s → Shows s (move_cursor_right s) (press to_right (doc s))
unfolding move_cursor_right
move_cursor_right-Shows s i =
    let len = length-read (s.some_data_for_edit s.cur_line) 0 (cur_line_len s) in
    elim (Bool-cases (leb (cur_line_len s) s.cur_col)) [
      | inl y ↦ rw (y, len) (moved s s.cur_col i i.col_in s.output _ (omega (tests, y, i.col_in)))
      | inr n ↦ rw (n, len) (moved s (s.cur_col + 1) i (ground (arith, n)) _ _ (ground (arith, n)))
    ]
