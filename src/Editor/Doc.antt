-- ===== src/Editor/Doc.antt =====
-- What the editor of simple_apps/vi_style_input_test.c is about, without arrays and terminal: lines
-- of text, and a place in one of them.
use linux_dev_framework.Base.{
  leb, ◌==◌, if◌then◌else◌, length, ℕ, ◌+◌, ◌-◌, ◌≤◌, ◌<◌, min, ◌≡◌, ◌⊎◌, List,
}
use linux_dev_framework.StringUtils.Buffer.{read, insert_at, remove_at}
use linux_dev_framework.Editor.{Editor, max_line_len, max_line_nr, cur_line_len, put_at}

pub record Doc : Type 0 where
  pub lines : ℕ → List ℕ
  pub row : ℕ
  pub col : ℕ

abbrev pub doc : Editor → Doc
doc s = record {
  lines = λ l. read (s.some_data_for_edit l) 0 (s.line_data_len l);
  row = s.cur_line;
  col = s.cur_col;
}

pub data Key : Type 0 where
  typed : ℕ → Key
  to_up : Key
  to_down : Key
  to_left : Key
  to_right : Key
  rub_out : Key
  del : Key
  escape : Key
  ignored : Key
  unknown : Key

-- The line's end is as far right as the cursor goes.
abbrev pub go_to : (row : ℕ) → Doc → Doc
go_to row d = record d { row = row; col = min d.col (length (d.lines row)) }

abbrev pub change : List ℕ → (col : ℕ) → Doc → Doc
change line col d = record d { lines = put_at d.row line d.lines; col = col }

abbrev pub press : Key → Doc → Doc
press (typed c) d =
    if leb max_line_len (length (d.lines d.row))
    then d
    else change (insert_at d.col c (d.lines d.row)) (d.col + 1) d
press to_up d = if d.row == 0 then d else go_to (d.row - 1) d
press to_down d = if d.row + 1 == max_line_nr then d else go_to (d.row + 1) d
press to_left d = record d { col = d.col - 1 }
press to_right d = record d { col = min (d.col + 1) (length (d.lines d.row)) }
press rub_out d =
    if d.col == 0 then d else change (remove_at (d.col - 1) (d.lines d.row)) (d.col - 1) d
press del d =
    if leb (length (d.lines d.row)) d.col
    then d
    else change (remove_at d.col (d.lines d.row)) d.col d
press escape d = d
press ignored d = d
press unknown d = d

-- The cursor is in the text, every line fits, and its terminator is in place.
pub record Inv (s : Editor) : Type 0 where
  pub row_in : s.cur_line < max_line_nr
  pub col_in : s.cur_col ≤ cur_line_len s
  pub fits : (l : ℕ) → s.line_data_len l ≤ max_line_len
  pub ended : (l : ℕ) → s.some_data_for_edit l (s.line_data_len l) ≡ 0

-- Nothing is written outside the array of lines.
abbrev pub Inside : Editor → Editor → Type 0
Inside s t =
    (l x : ℕ)
    → (max_line_nr ≤ l) ⊎ (max_line_len < x)
    → t.some_data_for_edit l x ≡ s.some_data_for_edit l x

-- `t` is a good state of the editor, and what `d` says of the text.
pub record Shows (s t : Editor) (d : Doc) : Type 0 where
  pub inv : Inv t
  pub same : doc t ≡ d
  pub exits : t.need_exit ≡ s.need_exit
  pub inside : Inside s t
