-- ===== src/PcQueue/Spec.antt =====
-- What libs/app_utils/src/pc_queue.c promises: a queue of at most `cap` items, oldest first.
use linux_dev_framework.Base.{
  ℕ, Option, none, some, List, [], ◌∷◌, ◌++◌, ◌==◌, if◌then◌else◌, length,
}

pub record Item : Type 0 where
  pub payload : ℕ
  pub para_int : ℕ
  pub para : ℕ

-- 1 and no change if the queue is full, else 0 and the item at the end.
unfoldable pub enq : ℕ → List Item → Item → ℕ × List Item
enq cap xs x = if length xs == cap then (1, xs) else (0, xs ++ x ∷ [])

unfoldable pub deq : List Item → Option Item × List Item
deq [] = (none, [])
deq (x ∷ xs) = (some x, xs)
