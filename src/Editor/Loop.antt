-- ===== src/Editor/Loop.antt =====
-- The input loop of simple_apps/vi_style_input_test.c.
use linux_dev_framework.Base.{
  ◌==◌, if◌then◌else◌, Bool-cases, ◌>>=◌, ℕ, ◌≡◌, refl, ◌∙◌, subst, inl, inr, Bool, true, false,
  Option, none, some, List, [], ◌∷◌,
}
use linux_dev_framework.StringUtils.{Buf}
use linux_dev_framework.Editor.{Editor, input_proc, input_proc_loop}
use linux_dev_framework.Editor.Doc.{Doc, doc, Inv, Inside}
use linux_dev_framework.Editor.Input.{key, press?, asks_exit, AnswersTo, input_proc-Answers}

-- The loop on documents, until a key asks for the exit.
abbrev pub doc_loop : List (ℕ × Buf) → (need_exit : Bool) → Doc → Option Doc
doc_loop [] e d = some d
doc_loop ((len, input) ∷ reads) true d = some d
doc_loop ((len, input) ∷ reads) false d =
    if len == 0
    then doc_loop reads false d
    else press? (key input len) d >>= doc_loop reads (asks_exit (key input len) false)

abbrev pub Agrees : Editor → Option Editor → Option Doc → Type 0
Agrees s none none = Unit
Agrees s (some t) (some d) = Inv t × (doc t ≡ d) × Inside s t
Agrees s o p = ⊥

agrees_from :
    (s t : Editor) (o : Option Editor) (p : Option Doc) → Inside s t → Agrees t o p → Agrees s o p
agrees_from s t none none f a = tt
agrees_from s t none (some d) f a = a
agrees_from s t (some u) none f a = a
agrees_from s t (some u) (some d) f (i, e, g) = (i, e, λ l x h. g l x h ∙ f l x h)

-- The loop behind a key, given what it does from any good state.
after :
    (reads : List (ℕ × Buf)) (s : Editor) (e : Bool) (o : Option Editor) (p : Option Doc)
    → ((t : Editor)
        → Inv t
        → Agrees t (input_proc_loop reads t) (doc_loop reads t.need_exit (doc t)))
    → AnswersTo s e o p
    → Agrees s (o >>= input_proc_loop reads) (p >>= doc_loop reads e)
after reads s e none none later a = tt
after reads s e none (some d) later a = absurd a
after reads s e (some t) none later a = absurd a
after reads s e (some t) (some d) later (i, same, exits, f) =
    agrees_from s t (input_proc_loop reads t) (doc_loop reads e d) f (
      subst (λ k. Agrees t (input_proc_loop reads t) (doc_loop reads k d)) exits
        (subst (λ x. Agrees t (input_proc_loop reads t) (doc_loop reads t.need_exit x)) same
          (later t i)))

-- One round of the loop.
one_round :
    (reads : List (ℕ × Buf)) (s : Editor) (len : ℕ) (input : Buf) (e : Bool)
    → Inv s
    → ((t : Editor)
        → Inv t
        → Agrees t (input_proc_loop reads t) (doc_loop reads t.need_exit (doc t)))
    → s.need_exit ≡ e
    → Agrees s
        (if e
          then some s
          else if len == 0
          then input_proc_loop reads s
          else input_proc input len s >>= input_proc_loop reads)
        (doc_loop ((len, input) ∷ reads) e (doc s))
one_round reads s len input true i later y = (i, refl, λ l x h. refl)
one_round reads s len input false i later n = elim (Bool-cases (len == 0)) [
  | inl y ↦
      rw y
        (subst (λ e. Agrees s (input_proc_loop reads s) (doc_loop reads e (doc s))) n (later s i))
  | inr m ↦ rw m (
      after reads s (asks_exit (key input len) false) (input_proc input len s)
        (press? (key input len) (doc s)) later
        (subst
          (λ e.
            AnswersTo s (asks_exit (key input len) e) (input_proc input len s)
              (press? (key input len) (doc s)))
          n (input_proc-Answers s input len i)))
]

-- From a good state the loop on any sequence of inputs agrees with the loop on documents: it
-- aborts when that one meets no key, and otherwise stops in a good state that shows the same
-- document, with no byte outside the array of lines written.
pub input_proc_loop-Agrees :
    (reads : List (ℕ × Buf)) (s : Editor)
    → Inv s
    → Agrees s (input_proc_loop reads s) (doc_loop reads s.need_exit (doc s))
unfolding input_proc_loop
input_proc_loop-Agrees [] s i = (i, refl, λ l x h. refl)
input_proc_loop-Agrees ((len, input) ∷ reads) s i =
    one_round reads s len input s.need_exit i (input_proc_loop-Agrees reads) refl
