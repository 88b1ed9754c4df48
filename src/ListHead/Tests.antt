-- ===== src/ListHead/Tests.antt =====
-- list.h at concrete inputs: a head at 1 and the nodes 2, 3 and 4.
use linux_dev_framework.Base.{ℕ, ◌≡◌, refl, ◌↔◌, Bool, true, List, [], ◌∷◌, ◌++◌}
use linux_dev_framework.ListHead.{Links, init_list_head, list_add, list_del, list_empty}
use linux_dev_framework.ListHead.Ring.{Ring, list_empty_iff}
use linux_dev_framework.ListHead.Insert.{init_list_head-Ring, list_add-Ring}
use linux_dev_framework.ListHead.Remove.{list_del-Ring}

abbrev blank : Links
blank = record { next = λ a. 0; prev = λ a. 0 }

abbrev start : Links
start = init_list_head 1 blank

two-Ring : Ring (list_add 3 1 (list_add 2 1 start)) 1 (3 ∷ 2 ∷ [])
two-Ring = list_add-Ring 3 (list_add-Ring 2 (init_list_head-Ring blank 1) refl) refl

list_del-Ring_example : Ring (list_del 3 (list_add 3 1 (list_add 2 1 start))) 1 (2 ∷ [])
list_del-Ring_example = list_del-Ring 3 [] (2 ∷ []) two-Ring

abbrev collect : ℕ → List ℕ → Bool × List ℕ
collect x seen = (true, seen ++ x ∷ [])

list_empty_iff_example :
    (list_empty 1 (list_add 3 1 (list_add 2 1 start)) ≡ true) ↔ (◌≡◌ {A = List ℕ} (3 ∷ 2 ∷ []) [])
list_empty_iff_example = list_empty_iff two-Ring
