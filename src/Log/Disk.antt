-- ===== src/Log/Disk.antt =====
-- The files of libs/app_utils/src/log.c, when the current one is the last of them.
use linux_dev_framework.Base.{
  ==_refl, length, length-append, ℕ, ◌+◌, ◌≡◌, refl, sym, ap, ◌∙◌, true, false, List, [], ◌∷◌, ◌++◌,
  append_assoc, append-nil,
}
use linux_dev_framework.StringUtils.{streq}
use linux_dev_framework.Log.{File, open_trunc, append_to, size_of}

-- No file has the name.
abbrev pub Unused : (name : List ℕ) → List File → Type 0
Unused n [] = Unit
Unused n (f ∷ disk) = (streq n f.name ≡ false) × Unused n disk

-- Every file in turn.
abbrev pub contents : List File → List ℕ
contents [] = []
contents (f ∷ disk) = f.content ++ contents disk

-- The file with the name is the last, and the only one.
pub record Current (n : List ℕ) (disk : List File) : Type 0 where
  pub before : List File
  pub content : List ℕ
  pub unused : Unused n before
  pub split : disk ≡ before ++ record { name = n; content = content } ∷ []

pub streq-same : (s : List ℕ) → streq s s ≡ true
streq-same [] = refl
streq-same (c ∷ s) = rw (==_refl c, streq-same s) refl

open_trunc-Unused :
    (n : List ℕ) (disk : List File)
    → Unused n disk
    → open_trunc n disk ≡ disk ++ record { name = n; content = [] } ∷ []
unfolding open_trunc
open_trunc-Unused n [] u = refl
open_trunc-Unused n (f ∷ disk) (a, u) = rw (a, open_trunc-Unused n disk u) refl

open_trunc-last :
    (n content : List ℕ) (before : List File)
    → Unused n before
    → open_trunc n (before ++ record { name = n; content = content } ∷ [])
      ≡ before ++ record { name = n; content = [] } ∷ []
unfolding open_trunc
open_trunc-last n content [] u = rw (streq-same n) refl
open_trunc-last n content (f ∷ before) (a, u) = rw (a, open_trunc-last n content before u) refl

append_to-last :
    (n bytes content : List ℕ) (before : List File)
    → Unused n before
    → append_to n bytes (before ++ record { name = n; content = content } ∷ [])
      ≡ before ++ record { name = n; content = content ++ bytes } ∷ []
unfolding append_to
append_to-last n bytes content [] u = rw (streq-same n) refl
append_to-last n bytes content (f ∷ before) (a, u) =
    rw (a, append_to-last n bytes content before u) refl

size_of-last :
    (n content : List ℕ) (before : List File)
    → Unused n before
    → size_of n (before ++ record { name = n; content = content } ∷ []) ≡ length content
unfolding size_of
size_of-last n content [] u = rw (streq-same n) refl
size_of-last n content (f ∷ before) (a, u) = rw a (size_of-last n content before u)

contents-last :
    (n content : List ℕ) (before : List File)
    → contents (before ++ record { name = n; content = content } ∷ []) ≡ contents before ++ content
contents-last n content [] = append-nil content
contents-last n content (f ∷ before) =
    ap (λ l. f.content ++ l) (contents-last n content before)
    ∙ sym (append_assoc f.content (contents before) content)

-- A file with a new name is the current one, and nothing is lost.
pub open_trunc-Current :
    (n : List ℕ) (disk : List File)
    → Unused n disk
    → Current n (open_trunc n disk)
      × (contents (open_trunc n disk) ≡ contents disk)
      × (size_of n (open_trunc n disk) ≡ 0)
open_trunc-Current n disk u =
    let e = open_trunc-Unused n disk u in
    (
      record { before = disk; content = []; unused = u; split = e },
      ap contents e ∙ contents-last n [] disk ∙ append-nil (contents disk),
      ap (size_of n) e ∙ size_of-last n [] disk u,
    )

-- What is written comes behind all that was.
pub append_to-Current :
    (n bytes : List ℕ) (disk : List File)
    → Current n disk
    → Current n (append_to n bytes disk)
      × (contents (append_to n bytes disk) ≡ contents disk ++ bytes)
      × (size_of n (append_to n bytes disk) ≡ size_of n disk + length bytes)
append_to-Current n bytes disk c =
    let e = ap (append_to n bytes) c.split ∙ append_to-last n bytes c.content c.before c.unused in
    (
      record { before = c.before; content = c.content ++ bytes; unused = c.unused; split = e },
      ap contents e
          ∙ contents-last n (c.content ++ bytes) c.before
          ∙ sym (append_assoc (contents c.before) c.content bytes)
          ∙ ap (λ l. l ++ bytes) (sym (ap contents c.split ∙ contents-last n c.content c.before)),
      ap (size_of n) e
          ∙ size_of-last n (c.content ++ bytes) c.before c.unused
          ∙ length-append c.content bytes
          ∙ ap (λ k. k + length bytes)
              (sym (ap (size_of n) c.split ∙ size_of-last n c.content c.before c.unused)),
    )

-- A file that is opened again is empty.
pub open_trunc-again :
    (n : List ℕ) (disk : List File) (c : Current n disk)
    → Current n (open_trunc n disk) × (contents (open_trunc n disk) ≡ contents c.before)
open_trunc-again n disk c =
    let e = ap (open_trunc n) c.split ∙ open_trunc-last n c.content c.before c.unused in
    (
      record { before = c.before; content = []; unused = c.unused; split = e },
      ap contents e ∙ contents-last n [] c.before ∙ append-nil (contents c.before),
    )
