-- ===== src/ListHead.antt =====
-- The doubly linked ring of libs/app_utils/api/list.h. Nodes are addresses; the memory is what
-- each address holds in its two pointers. A function that writes returns the new memory, and
-- makes the writes in the order of the source, each of which sees the ones before it.
pub mod Ring
pub mod Insert
pub mod Remove
pub mod Walk
mod Tests
use linux_dev_framework.Base.{
  ltb, leb, ◌==◌, if◌then◌else◌, ltb→lt, lt→ltb, leb→le, ==_iff, ==_refl, Bool-cases, Option-cases,
  ◌>>=◌, some_inj, tests, length, get_elem?, get_or, set, take, drop, replicate, all, length-append,
  length-set, get_elem?-set_self, get_elem?-set_ne, get_elem?-lt, take-append-drop, length-take,
  length-drop, length-replicate, get_elem?-none, get_elem?-append_left, get_elem?-append_right,
  get_elem?-replicate, ℕ, zero, suc, ◌+◌, ◌-◌, ◌*◌, ◌/◌, ◌%◌, ◌^◌, ◌≤◌, ◌<◌, min, max, ◌≡◌, refl,
  sym, ap, ap₂, ◌∙◌, subst, fun_ext, ◌≢◌, ◌↔◌, ◌⊎◌, inl, inr, Bool, true, false, not, ◌&&◌, ◌||◌,
  Option, none, some, List, [], ◌∷◌, ◌++◌, map, append_assoc, append-nil, arith,
}

-- `struct list_head`, at every address
pub record Links : Type 0 where
  pub next : ℕ → ℕ
  pub prev : ℕ → ℕ

-- `*p = v` for one pointer field
abbrev pub put : (ℕ → ℕ) → ℕ → ℕ → ℕ → ℕ
put f p v a = if a == p then v else f a

abbrev pub set_next : ℕ → ℕ → Links → Links
set_next p v m = record m { next = put m.next p v }

abbrev pub set_prev : ℕ → ℕ → Links → Links
set_prev p v m = record m { prev = put m.prev p v }

-- `INIT_LIST_HEAD`
unfoldable pub init_list_head : ℕ → Links → Links
init_list_head p m = set_prev p p (set_next p p m)

-- `__list_add`
unfoldable pub list_add_between : (new prev next : ℕ) → Links → Links
list_add_between new prev next m =
    set_next prev new (set_prev new prev (set_next new next (set_prev next new m)))

unfoldable pub list_add : (new head : ℕ) → Links → Links
list_add new head m = list_add_between new head (m.next head) m

unfoldable pub list_add_tail : (new head : ℕ) → Links → Links
list_add_tail new head m = list_add_between new (m.prev head) head m

-- `__list_del`
unfoldable pub list_del_between : (prev next : ℕ) → Links → Links
list_del_between prev next m = set_next prev next (set_prev next prev m)

unfoldable pub list_del : ℕ → Links → Links
list_del entry m = list_del_between (m.prev entry) (m.next entry) m

unfoldable pub list_move_tail : (list head : ℕ) → Links → Links
list_move_tail list head m =
    list_add_tail list head (list_del_between (m.prev list) (m.next list) m)

unfoldable pub list_empty : ℕ → Links → Bool
list_empty head m = m.next head == head

-- `list_for_each (pos, head)` from `pos`, with a body that may break: the body gives the new state
-- and whether the loop goes on. `none` means that the fuel ran out.
unfoldable pub list_for_each {ℓ} :
    {S : Type ℓ} → ℕ → Links → (head pos : ℕ) → (ℕ → S → Bool × S) → S → Option S
list_for_each zero m head pos body s = none
list_for_each (suc k) m head pos body s =
    let (go_on, s') = body pos s in
    let rest = list_for_each k m head (m.next pos) body s' in
    if pos == head then some s else if go_on then rest else some s'
