-- ===== src/Editor.antt =====
-- The line editor of simple_apps/vi_style_input_test.c: ten lines of at most sixty characters.
pub mod Doc
pub mod Moves
pub mod Edits
pub mod Input
pub mod Loop
mod Tests
use linux_dev_framework.Base.{
  ltb, leb, ◌==◌, if◌then◌else◌, ltb→lt, lt→ltb, leb→le, ==_iff, ==_refl, Bool-cases, Option-cases,
  ◌>>=◌, some_inj, tests, length, get_elem?, get_or, set, take, drop, replicate, all, length-append,
  length-set, get_elem?-set_self, get_elem?-set_ne, get_elem?-lt, take-append-drop, length-take,
  length-drop, length-replicate, get_elem?-none, get_elem?-append_left, get_elem?-append_right,
  get_elem?-replicate, ℕ, zero, suc, ◌+◌, ◌-◌, ◌*◌, ◌/◌, ◌%◌, ◌^◌, ◌≤◌, ◌<◌, min, max, ◌≡◌, refl,
  sym, ap, ap₂, ◌∙◌, subst, fun_ext, ◌≢◌, ◌↔◌, ◌⊎◌, inl, inr, Bool, true, false, not, ◌&&◌, ◌||◌,
  Option, none, some, List, [], ◌∷◌, ◌++◌, map, append_assoc, append-nil, arith,
}
use linux_dev_framework.StringUtils.{Buf, c_str, insert_char, delete_char}
use linux_dev_framework.StringUtils.Buffer.{read}

abbrev pub max_line_len : ℕ
max_line_len = 60

abbrev pub max_line_nr : ℕ
max_line_nr = 10

-- What is written to the terminal: text, a carriage return, and the cursor movements of
-- libs/app_utils/api/screen_ops.h.
pub data Written : Type 0 where
  carriage_return : Written
  text : List ℕ → Written
  cursor_up : ℕ → Written
  cursor_down : ℕ → Written
  cursor_left : ℕ → Written
  cursor_right : ℕ → Written

-- `the_edit_ctx`, `need_exit`, and what has been written so far.
pub record Editor : Type 0 where
  pub some_data_for_edit : ℕ → Buf
  pub cur_line : ℕ
  pub cur_col : ℕ
  pub line_data_len : ℕ → ℕ
  pub need_exit : Bool
  pub output : List Written

abbrev pub cur_line_len : Editor → ℕ
cur_line_len s = s.line_data_len s.cur_line

abbrev pub put_at {ℓ} : {A : Type ℓ} → ℕ → A → (ℕ → A) → ℕ → A
put_at i v f j = if j == i then v else f j

-- `MOVE_CURSOR_RIGHT`, guarded by `if (cur_col>0)`
abbrev pub right_if : ℕ → List Written
right_if zero = []
right_if (suc n) = cursor_right (suc n) ∷ []

unfoldable pub adjust_cursor : Editor → Editor
adjust_cursor s = if leb s.cur_col (cur_line_len s) then s else record s {
  cur_col = cur_line_len s;
  output = s.output ++ (carriage_return ∷ right_if (cur_line_len s));
}

unfoldable pub move_cursor_up : Editor → Editor
move_cursor_up s =
    if ltb s.cur_line 1
    then s
    else adjust_cursor
        (record s { cur_line = s.cur_line - 1; output = s.output ++ cursor_up 1 ∷ [] })

unfoldable pub move_cursor_down : Editor → Editor
move_cursor_down s =
    if leb (max_line_nr - 1) s.cur_line
    then s
    else adjust_cursor
        (record s { cur_line = s.cur_line + 1; output = s.output ++ cursor_down 1 ∷ [] })

unfoldable pub move_cursor_left : Editor → Editor
move_cursor_left s =
    if leb s.cur_col 0
    then s
    else record s { cur_col = s.cur_col - 1; output = s.output ++ cursor_left 1 ∷ [] }

unfoldable pub move_cursor_right : Editor → Editor
move_cursor_right s =
    if leb (cur_line_len s) s.cur_col
    then s
    else record s { cur_col = s.cur_col + 1; output = s.output ++ cursor_right 1 ∷ [] }

-- `printf("\r%s\r%s\r", empty_line, line)`
abbrev pub redraw : Buf → List Written
redraw line =
    carriage_return
    ∷ text (replicate max_line_len 32)
    ∷ carriage_return
    ∷ text (c_str (read line 0 (max_line_len + 1)))
    ∷ carriage_return
    ∷ []

-- The current line with another content, and the cursor in it.
abbrev pub set_line : Editor → (line : Buf) → (len col : ℕ) → List Written → Editor
set_line s line len col move = record s {
  some_data_for_edit = put_at s.cur_line line s.some_data_for_edit;
  line_data_len = put_at s.cur_line len s.line_data_len;
  cur_col = col;
  output = s.output ++ (redraw line ++ move);
}

unfoldable pub backspace_proc : Editor → Editor
backspace_proc s =
    if leb (cur_line_len s) 0 || ltb s.cur_col 1
    then s
    else let line =
        delete_char (s.some_data_for_edit s.cur_line) (s.cur_col - 1) (cur_line_len s) in
      set_line s line (cur_line_len s - 1) (s.cur_col - 1) (right_if (s.cur_col - 1))

unfoldable pub delete_proc : Editor → Editor
delete_proc s =
    if leb (cur_line_len s) 0 || leb (cur_line_len s) s.cur_col
    then s
    else let line = delete_char (s.some_data_for_edit s.cur_line) s.cur_col (cur_line_len s) in
      set_line s line (cur_line_len s - 1) s.cur_col (right_if s.cur_col)

unfoldable pub normal_key_input_proc : (c : ℕ) → Editor → Editor
normal_key_input_proc c s =
    if leb max_line_len (cur_line_len s)
    then s
    else let line = insert_char (s.some_data_for_edit s.cur_line) c s.cur_col (cur_line_len s) in
      set_line s line (cur_line_len s + 1) (s.cur_col + 1) (cursor_right (s.cur_col + 1) ∷ [])

unfoldable pub special_key_input_proc : (c : ℕ) → Editor → Editor
special_key_input_proc c s =
    if c == 0x1b
    then record s { need_exit = true }
    else if c == 0x0a
    then move_cursor_down s
    else if c == 0x08
    then backspace_proc s
    else if c == 0x7f
    then backspace_proc s
    else s

-- `input` is the array that `read` fills, with what stands behind the bytes read. `none` is
-- `abort`. The function keys do nothing.
unfoldable pub virtual_key_input_proc : (input : Buf) → Editor → Option Editor
virtual_key_input_proc input s =
    if not (input 0 == 0x1b)
    then none
    else if not (input 1 == 0x5b)
    then some s
    else if input 2 == 0x41
    then some (move_cursor_up s)
    else if input 2 == 0x42
    then some (move_cursor_down s)
    else if input 2 == 0x44
    then some (move_cursor_left s)
    else if input 2 == 0x43
    then some (move_cursor_right s)
    else if (input 2 == 0x33) && (input 3 == 0x7e)
    then some (delete_proc s)
    else some s

unfoldable pub input_proc : (input : Buf) (len : ℕ) → Editor → Option Editor
input_proc input len s =
    if leb 3 len
    then virtual_key_input_proc input s
    else if not (len == 1)
    then none
    else if ltb 31 (input 0) && ltb (input 0) 127
    then some (normal_key_input_proc (input 0) s)
    else some (special_key_input_proc (input 0) s)

-- The results of `read`, in order: `(len, input)`, where 0 stands for an error as well.
-- At their end the loop waits.
unfoldable pub input_proc_loop : List (ℕ × Buf) → Editor → Option Editor
input_proc_loop [] s = some s
input_proc_loop ((len, input) ∷ reads) s =
    if s.need_exit
    then some s
    else if len == 0
    then input_proc_loop reads s
    else do s' ← input_proc input len s; input_proc_loop reads s'
