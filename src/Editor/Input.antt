-- ===== src/Editor/Input.antt =====
-- The input of simple_apps/vi_style_input_test.c: which bytes are which key.
use linux_dev_framework.Base.{
  ltb, leb, ◌==◌, if◌then◌else◌, Bool-cases, ℕ, ◌≡◌, refl, inl, inr, Bool, true, false, not, ◌&&◌,
  ◌||◌, Option, none, some,
}
use linux_dev_framework.StringUtils.{Buf}
use linux_dev_framework.Editor.{Editor, special_key_input_proc, virtual_key_input_proc, input_proc}
use linux_dev_framework.Editor.Doc.{
  Doc, doc, Key, press, Inv, Inside, Shows, typed, to_up, to_down, to_left, to_right, rub_out, del,
  escape, ignored, unknown,
}
use linux_dev_framework.Editor.Moves.{
  still, move_cursor_up-Shows, move_cursor_down-Shows, move_cursor_left-Shows,
  move_cursor_right-Shows,
}
use linux_dev_framework.Editor.Edits.{
  normal_key_input_proc-Shows, backspace_proc-Shows, delete_proc-Shows,
}

abbrev pub special_key : ℕ → Key
special_key c =
    if c == 0x1b
    then escape
    else if c == 0x0a
    then to_down
    else if (c == 0x08) || (c == 0x7f)
    then rub_out
    else ignored

-- The key of an escape sequence, by its second, third and fourth byte.
abbrev pub sequence_key : (b c d : ℕ) → Key
sequence_key b c d =
    if not (b == 0x5b)
    then ignored
    else if c == 0x41
    then to_up
    else if c == 0x42
    then to_down
    else if c == 0x44
    then to_left
    else if c == 0x43
    then to_right
    else if (c == 0x33) && (d == 0x7e)
    then del
    else ignored

-- Three bytes or more are an escape sequence, and one is a character.
abbrev pub key : Buf → (len : ℕ) → Key
key input len =
    if leb 3 len
    then (if input 0 == 0x1b then sequence_key (input 1) (input 2) (input 3) else unknown)
    else if not (len == 1)
    then unknown
    else if ltb 31 (input 0) && ltb (input 0) 127
    then typed (input 0)
    else special_key (input 0)

abbrev pub press? : Key → Doc → Option Doc
press? unknown d = none
press? k d = some (press k d)

abbrev pub asks_exit : Key → Bool → Bool
asks_exit escape e = true
asks_exit k e = e

-- `o` is `abort` exactly when `p` is none; otherwise it is a good state that shows `p`, with
-- `need_exit` as given and no byte written outside the array of lines.
abbrev pub AnswersTo : Editor → (need_exit : Bool) → Option Editor → Option Doc → Type 0
AnswersTo s e none none = Unit
AnswersTo s e (some t) (some d) = Inv t × (doc t ≡ d) × (t.need_exit ≡ e) × Inside s t
AnswersTo s e o p = ⊥

abbrev pub Answers : Editor → Key → Option Editor → Type 0
Answers s k o = AnswersTo s (asks_exit k s.need_exit) o (press? k (doc s))

shown :
    (s : Editor) {t : Editor} {d : Doc}
    → Shows s t d
    → Inv t × (doc t ≡ d) × (t.need_exit ≡ s.need_exit) × Inside s t
shown s h = (h.inv, h.same, h.exits, h.inside)

special_key-Answers :
    (s : Editor) (c : ℕ) → Inv s → Answers s (special_key c) (some (special_key_input_proc c s))
unfolding special_key_input_proc
special_key-Answers s c i = elim (Bool-cases (c == 0x1b)) [
  | inl y ↦ rw y (
    record { row_in = i.row_in; col_in = i.col_in; fits = i.fits; ended = i.ended },
    refl,
    refl,
    λ l x h. refl,
  )
  | inr a ↦ rw a (elim (Bool-cases (c == 0x0a)) [
    | inl y ↦ rw y (shown s (move_cursor_down-Shows s i))
    | inr b ↦ rw b (elim (Bool-cases (c == 0x08)) [
      | inl y ↦ rw y (shown s (backspace_proc-Shows s i))
      | inr d ↦ rw d (elim (Bool-cases (c == 0x7f)) [
        | inl y ↦ rw y (shown s (backspace_proc-Shows s i))
        | inr e ↦ rw e (shown s (still s i))
      ])
    ])
  ])
]

sequence_key-Answers :
    (s : Editor) (input : Buf)
    → Inv s
    → input 0 == 0x1b ≡ true
    → Answers s (sequence_key (input 1) (input 2) (input 3)) (virtual_key_input_proc input s)
unfolding virtual_key_input_proc
sequence_key-Answers s input i z = rw z (elim (Bool-cases (input 1 == 0x5b)) [
  | inr n ↦ rw n (shown s (still s i))
  | inl b ↦ rw b (elim (Bool-cases (input 2 == 0x41)) [
    | inl y ↦ rw y (shown s (move_cursor_up-Shows s i))
    | inr n1 ↦ rw n1 (elim (Bool-cases (input 2 == 0x42)) [
      | inl y ↦ rw y (shown s (move_cursor_down-Shows s i))
      | inr n2 ↦ rw n2 (elim (Bool-cases (input 2 == 0x44)) [
        | inl y ↦ rw y (shown s (move_cursor_left-Shows s i))
        | inr n3 ↦ rw n3 (elim (Bool-cases (input 2 == 0x43)) [
          | inl y ↦ rw y (shown s (move_cursor_right-Shows s i))
          | inr n4 ↦ rw n4 (elim (Bool-cases ((input 2 == 0x33) && (input 3 == 0x7e))) [
            | inl y ↦ rw y (shown s (delete_proc-Shows s i))
            | inr n5 ↦ rw n5 (shown s (still s i))
          ])
        ])
      ])
    ])
  ])
])

aborts :
    (s : Editor) (input : Buf)
    → input 0 == 0x1b ≡ false
    → Answers s unknown (virtual_key_input_proc input s)
unfolding virtual_key_input_proc
aborts s input n = rw n tt

-- In a good state `input_proc` aborts on input that is no key. Otherwise the state stays good, the
-- text and the place in it are those that the key gives, escape and nothing else asks for the
-- exit, and no byte outside the array of lines is written.
pub input_proc-Answers :
    (s : Editor) (input : Buf) (len : ℕ)
    → Inv s
    → Answers s (key input len) (input_proc input len s)
unfolding input_proc
input_proc-Answers s input len i = elim (Bool-cases (leb 3 len)) [
  | inl y ↦ rw y (elim (Bool-cases (input 0 == 0x1b)) [
    | inl z ↦ rw z (sequence_key-Answers s input i z)
    | inr n ↦ rw n (aborts s input n)
  ])
  | inr n ↦ rw n (elim (Bool-cases (len == 1)) [
    | inr m ↦ rw m tt
    | inl y ↦ rw y (elim (Bool-cases (ltb 31 (input 0) && ltb (input 0) 127)) [
      | inl z ↦ rw z (shown s (normal_key_input_proc-Shows s (input 0) i))
      | inr z ↦ rw z (special_key-Answers s (input 0) i)
    ])
  ])
]
