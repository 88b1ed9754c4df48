-- ===== src/Editor/Tests.antt =====
-- simple_apps/vi_style_input_test.c from its first state on: the static arrays are zero.
use linux_dev_framework.Base.{◌>>=◌, get_or, ℕ, ◌≡◌, refl, false, some, List, [], ◌∷◌, arith}
use linux_dev_framework.StringUtils.{Buf}
use linux_dev_framework.Editor.{Editor, input_proc, input_proc_loop}
use linux_dev_framework.Editor.Doc.{Inv, doc}
use linux_dev_framework.Editor.Input.{key, Answers, input_proc-Answers}
use linux_dev_framework.Editor.Loop.{doc_loop, Agrees, input_proc_loop-Agrees}

abbrev blank : Editor
blank = record {
  some_data_for_edit = λ l x. 0;
  cur_line = 0;
  cur_col = 0;
  line_data_len = λ l. 0;
  need_exit = false;
  output = [];
}

blank-Inv : Inv blank
blank-Inv = record {
  row_in = omega arith;
  col_in = omega arith;
  fits = λ l. omega arith;
  ended = λ l. refl;
}

abbrev bytes : List ℕ → Buf
bytes s i = get_or s i 0

-- "h", "i", the cursor to the left, backspace, escape
abbrev session : List (ℕ × Buf)
session =
    (1, bytes (104 ∷ []))
    ∷ (1, bytes (105 ∷ []))
    ∷ (0, bytes [])
    ∷ (3, bytes (27 ∷ 91 ∷ 68 ∷ []))
    ∷ (1, bytes (8 ∷ []))
    ∷ (1, bytes (27 ∷ []))
    ∷ []

input_proc-Answers_example :
    Answers blank (key (bytes (104 ∷ [])) 1) (input_proc (bytes (104 ∷ [])) 1 blank)
input_proc-Answers_example = input_proc-Answers blank (bytes (104 ∷ [])) 1 blank-Inv

input_proc_loop-Agrees_example :
    Agrees blank (input_proc_loop session blank) (doc_loop session false (doc blank))
input_proc_loop-Agrees_example = input_proc_loop-Agrees session blank blank-Inv

-- What is left is "i".
session_text :
    ◌>>=◌ {B = List ℕ} (doc_loop session false (doc blank)) (λ d. some (d.lines 0))
    ≡ some (105 ∷ [])
session_text = refl
