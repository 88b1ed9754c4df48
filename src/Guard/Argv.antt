-- ===== src/Guard/Argv.antt =====
-- The argument vector that simple_apps/guard.c makes of a text.
use linux_dev_framework.Base.{
  length, take, strtok, Free, strtok-word, ℕ, zero, suc, ◌+◌, ◌≤◌, ◌≡◌, refl, ap, ◌∙◌, none, some,
  List, [], ◌∷◌, ◌++◌, arith,
}
use linux_dev_framework.Guard.{args_loop, word_then, first_arg, init_argv}

-- The words with a space behind each.
abbrev pub spaced : List (List ℕ) → List ℕ
spaced [] = []
spaced (w ∷ ws) = w ++ 32 ∷ spaced ws

-- Each is a word: not empty, and with no space.
abbrev pub Words : List (List ℕ) → Type 0
Words [] = Unit
Words ([] ∷ ws) = ⊥
Words ((c ∷ w) ∷ ws) = Free 32 (c ∷ w) × Words ws

args_loop-spaced :
    (room : ℕ) (ws : List (List ℕ)) → Words ws → args_loop room (spaced ws) ≡ take room ws
unfolding args_loop strtok
args_loop-spaced zero ws h = refl
args_loop-spaced (suc room) [] h = refl
args_loop-spaced (suc room) ([] ∷ ws) h = absurd h
args_loop-spaced (suc room) ((c ∷ w) ∷ ws) (f, h) =
    ap (word_then (args_loop room)) (strtok-word 32 c w (spaced ws) refl f)
    ∙ ap (λ l. (c ∷ w) ∷ l) (args_loop-spaced room ws h)

-- Of words that spaces end, the argument vector holds the path and the first 14 words in order.
pub init_argv-spaced :
    (bin_path : List ℕ) (ws : List (List ℕ))
    → Words ws
    → init_argv bin_path (spaced ws) ≡ bin_path ∷ take 14 ws
unfolding init_argv args_loop strtok
init_argv-spaced bin_path [] h = refl
init_argv-spaced bin_path ([] ∷ ws) h = absurd h
init_argv-spaced bin_path ((c ∷ w) ∷ ws) (f, h) =
    ap (first_arg bin_path) (strtok-word 32 c w (spaced ws) refl f)
    ∙ ap (λ l. bin_path ∷ (c ∷ w) ∷ l) (args_loop-spaced 13 ws h)

args_loop_bound : (room : ℕ) (s : List ℕ) → length (args_loop room s) ≤ room
unfolding args_loop
args_loop_bound zero s = omega arith
args_loop_bound (suc room) s =
    elim (strtok 32 s) as (λ o. length (word_then (args_loop room) o) ≤ suc room) [
      | none ↦ omega arith
      | some (word, rest) ↦ omega (arith, args_loop_bound room rest)
    ]

-- The vector and the null pointer behind it fit into the 16 entries of `argv`, whatever the text.
pub init_argv_bounds : (bin_path args : List ℕ) → length (init_argv bin_path args) + 1 ≤ 16
unfolding init_argv
init_argv_bounds bin_path args =
    elim (strtok 32 args) as (λ o. length (first_arg bin_path o) + 1 ≤ 16) [
      | none ↦ omega (arith, args_loop_bound 14 [])
      | some (word, rest) ↦ omega (arith, args_loop_bound 13 rest)
    ]
