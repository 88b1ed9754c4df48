-- ===== src/PcQueue/Deq.antt =====
-- The consumer's side of pc_queue.c.
use linux_dev_framework.Base.{
  ℕ, suc, ◌+◌, ◌%◌, ◌<◌, ◌≡◌, ◌≢◌, sym, ◌∙◌, ap, Bool, Option, none, some, List, [], ◌∷◌, arith,
  if◌then◌else◌, length, get_elem?, set, length-set, get_elem?-set_self, get_elem?-set_ne,
  get_elem?-lt, get_elem?-none, some_inj,
}
use native.Mathlib.Decide.{ℕ_discrete}
use linux_dev_framework.PcQueue.{Entry, PcQue, Out, advance, pc_que_outq_try}
use linux_dev_framework.PcQueue.Spec.{Item, deq}
use linux_dev_framework.PcQueue.Holds.{Slot, Holds, place-lt, place_next, wrap_cases}
use linux_dev_framework.PcQueue.Enq.{valid_of}

abbrev after_deq : PcQue → Entry → PcQue
after_deq q e = record q {
  pt_c_ptr = advance q q.pt_c_ptr;
  p_at_entries = set q.p_at_entries q.pt_c_ptr (record e { valid = 0 });
}

-- The entry that the consumer looks at.
module _ {q : PcQue} {xs : List Item} (h : Holds q xs) where
  c_place : q.pt_c_ptr ≡ (q.pt_c_ptr + 0) % q.nr_entry
  c_place = omega (arith, h, wrap_cases q.pt_c_ptr 0 q.nr_entry)

  c_entry : (e : Entry) → get_elem? q.p_at_entries q.pt_c_ptr ≡ some e → Slot (get_elem? xs 0) e
  c_entry e at = h.slots 0 e (omega (arith, h)) (ap (get_elem? q.p_at_entries) (sym c_place) ∙ at)

  advance_c : advance q q.pt_c_ptr ≡ (q.pt_c_ptr + 1) % q.nr_entry
  advance_c = ground (arith, h, wrap_cases q.pt_c_ptr 1 q.nr_entry)

module _ {q : PcQue} {x : Item} {xs : List Item} (h : Holds q (x ∷ xs)) where
  next_place : (k : ℕ) → (advance q q.pt_c_ptr + k) % q.nr_entry ≡ (q.pt_c_ptr + suc k) % q.nr_entry
  next_place k = ap (λ i. (i + k) % q.nr_entry) (advance_c h) ∙ place_next q.pt_c_ptr k q.nr_entry

  slots_deq :
      (e : Entry) (k : ℕ) (f : Entry)
      → k < q.nr_entry
      → get_elem? (after_deq q e).p_at_entries ((advance q q.pt_c_ptr + k) % q.nr_entry) ≡ some f
      → Slot (get_elem? xs k) f
  slots_deq e k f lt at = elim (ℕ_discrete (suc k) q.nr_entry) [
    | yes last ↦
        let here : (q.pt_c_ptr + suc k) % q.nr_entry ≡ q.pt_c_ptr =
          omega (arith, h, wrap_cases q.pt_c_ptr (suc k) q.nr_entry) in
        let wiped : f ≡ record e { valid = 0 } = some_inj (
          sym at
          ∙ ap (get_elem? (after_deq q e).p_at_entries) (next_place k ∙ here)
          ∙ get_elem?-set_self q.p_at_entries q.pt_c_ptr _ (omega (arith, h))) in
        rw (get_elem?-none xs k (omega (arith, h))) (ap valid_of wiped)
    | no more ↦
        let other : q.pt_c_ptr ≢ (q.pt_c_ptr + suc k) % q.nr_entry =
          omega (arith, h, wrap_cases q.pt_c_ptr (suc k) q.nr_entry) in
        h.slots (suc k) f (omega arith) (
          sym (get_elem?-set_ne q.p_at_entries q.pt_c_ptr _ (record e { valid = 0 }) other)
          ∙ ap (get_elem? (after_deq q e).p_at_entries) (sym (next_place k))
          ∙ at)
  ]

  after_deq-Holds : (e : Entry) → Holds (after_deq q e) xs
  after_deq-Holds e = record {
    storage = length-set q.p_at_entries q.pt_c_ptr (record e { valid = 0 }) ∙ h.storage;
    head = h.head;
    tail = h.tail;
    c_in = ground (arith, h, advance_c h, place-lt q.pt_c_ptr 1 q.nr_entry);
    fits = omega (arith, h);
    p_at = h.p_at ∙ sym (next_place (length xs));
    slots = slots_deq e;
  }

-- What a caller of `pc_que_outq_try` sees of an item.
abbrev pub reply : (want_int want_para : Bool) → Option Item → Out
reply want_int want_para none = record { ret = 0; out_int = none; out_para = none }
reply want_int want_para (some x) = record {
  ret = x.payload;
  out_int = if want_int then some x.para_int else none;
  out_para = if want_para then some x.para else none;
}

-- `pc_que_outq_try` on a queue that holds `xs` never reads outside the storage. It returns NULL
-- and changes nothing when the queue is empty; else it returns the oldest item's data, stores that
-- item's two parameters through the pointers that are not NULL, and leaves the other items.
pub outq_refines :
    {q : PcQue} {xs : List Item} (want_int want_para : Bool)
    → Holds q xs
    → (q' : PcQue) × (pc_que_outq_try q want_int want_para
        ≡ some (reply want_int want_para (deq xs).0, q'))
      × Holds q' (deq xs).1
unfolding pc_que_outq_try deq
outq_refines {q} {xs = []} want_int want_para h =
    let (e, at) = get_elem?-lt q.p_at_entries q.pt_c_ptr (omega (arith, h)) in
    (q, ground (arith, at, c_entry h e at), h)
outq_refines {q} {xs = x ∷ xs} want_int want_para h =
    let (e, at) = get_elem?-lt q.p_at_entries q.pt_c_ptr (omega (arith, h)) in
    (after_deq q e, ground (arith, at, c_entry h e at), after_deq-Holds h e)
