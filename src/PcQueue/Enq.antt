-- ===== src/PcQueue/Enq.antt =====
-- The producer's side of pc_queue.c.
use linux_dev_framework.Base.{
  ℕ, suc, ◌+◌, ◌%◌, ◌<◌, ◌≡◌, ◌≢◌, sym, ◌∙◌, ap, subst, inl, inr, some, List, [], ◌∷◌, ◌++◌, arith,
  ◌==◌, length, get_elem?, set, length-append, length-set, get_elem?-set_self, get_elem?-set_ne,
  get_elem?-lt, get_elem?-none, get_elem?-append_left, get_elem?-append_right, Bool-cases, some_inj,
}
use native.Mathlib.Decide.{ℕ_discrete, dec_lt}
use linux_dev_framework.PcQueue.{Entry, PcQue, advance, pc_que_enq_try}
use linux_dev_framework.PcQueue.Spec.{Item, enq}
use linux_dev_framework.PcQueue.Holds.{live, Slot, Holds, place_injective, place-lt, wrap_cases}

abbrev pub valid_of : Entry → ℕ
valid_of e = e.valid

abbrev pub after_enq : PcQue → Item → PcQue
after_enq q x = record q {
  pt_p_ptr = advance q q.pt_p_ptr;
  p_at_entries = set q.p_at_entries q.pt_p_ptr (live x);
}

-- The entry that the producer looks at: the next free one, or the oldest item of a full queue.
module _ {q : PcQue} {xs : List Item} (h : Holds q xs) where
  p_in : q.pt_p_ptr < length q.p_at_entries
  p_in = omega (arith, h, place-lt q.pt_c_ptr (length xs) q.nr_entry)

  entry_of_full :
      length xs ≡ q.nr_entry
      → (e : Entry) → get_elem? q.p_at_entries q.pt_p_ptr ≡ some e
      → e.valid ≡ 1
  entry_of_full full e at =
      let (x, first) = get_elem?-lt xs 0 (omega (arith, h)) in
      let start : q.pt_p_ptr ≡ (q.pt_c_ptr + 0) % q.nr_entry = omega (
        arith,
        h,
        wrap_cases q.pt_c_ptr (length xs) q.nr_entry,
        wrap_cases q.pt_c_ptr 0 q.nr_entry,
      ) in
      ap valid_of (
        subst (λ o. Slot o e) first
          (h.slots 0 e (omega (arith, h)) (ap (get_elem? q.p_at_entries) (sym start) ∙ at)))

  entry_of_room :
      length xs < q.nr_entry
      → (e : Entry) → get_elem? q.p_at_entries q.pt_p_ptr ≡ some e
      → e.valid ≡ 0
  entry_of_room room e at =
      subst (λ o. Slot o e) (get_elem?-none xs (length xs) (omega arith))
        (h.slots (length xs) e room (ap (get_elem? q.p_at_entries) (sym h.p_at) ∙ at))

  -- The producer's pointer moves one place round.
  advance_p :
      length xs < q.nr_entry → advance q q.pt_p_ptr ≡ (q.pt_c_ptr + suc (length xs)) % q.nr_entry
  advance_p room = ground (
    arith,
    h,
    wrap_cases q.pt_c_ptr (length xs) q.nr_entry,
    wrap_cases q.pt_c_ptr (suc (length xs)) q.nr_entry,
  )

  slot_new : (x : Item) → get_elem? (xs ++ x ∷ []) (length xs) ≡ some x
  slot_new x = ap (get_elem? (xs ++ x ∷ [])) (omega arith) ∙ get_elem?-append_right xs (x ∷ []) 0

  slot_old : (x : Item) (k : ℕ) → k ≢ length xs → get_elem? (xs ++ x ∷ []) k ≡ get_elem? xs k
  slot_old x k ne = elim (dec_lt k (length xs)) [
    | yes lt ↦ get_elem?-append_left xs (x ∷ []) k lt
    | no ge ↦
        get_elem?-none (xs ++ x ∷ []) k (omega (arith, length-append xs (x ∷ [])))
        ∙ sym (get_elem?-none xs k (omega arith))
  ]

  slots_enq :
      (x : Item)
      → length xs < q.nr_entry
      → (k : ℕ) (e : Entry) → k < q.nr_entry
      → get_elem? (set q.p_at_entries q.pt_p_ptr (live x)) ((q.pt_c_ptr + k) % q.nr_entry) ≡ some e
      → Slot (get_elem? (xs ++ x ∷ []) k) e
  slots_enq x room k e lt at = elim (ℕ_discrete k (length xs)) [
    | yes here ↦
        let place : (q.pt_c_ptr + k) % q.nr_entry ≡ q.pt_p_ptr =
          ap (λ i. (q.pt_c_ptr + i) % q.nr_entry) here ∙ sym h.p_at in
        rw (here, slot_new x)
          (some_inj (
            sym at
            ∙ ap (get_elem? (set q.p_at_entries q.pt_p_ptr (live x))) place
            ∙ get_elem?-set_self q.p_at_entries q.pt_p_ptr (live x) p_in))
    | no away ↦
        let other : q.pt_p_ptr ≢ (q.pt_c_ptr + k) % q.nr_entry = λ same. away (
          place_injective q.pt_c_ptr k (length xs) q.nr_entry h.c_in lt room (sym same ∙ h.p_at)) in
        rw (slot_old x k away)
          (h.slots k e lt (sym (get_elem?-set_ne q.p_at_entries q.pt_p_ptr _ (live x) other) ∙ at))
  ]

  after_enq-Holds : (x : Item) → length xs < q.nr_entry → Holds (after_enq q x) (xs ++ x ∷ [])
  after_enq-Holds x room = record {
    storage = length-set q.p_at_entries q.pt_p_ptr (live x) ∙ h.storage;
    head = h.head;
    tail = h.tail;
    c_in = h.c_in;
    fits = omega (arith, length-append xs (x ∷ []));
    p_at =
        advance_p room
        ∙ ap (λ n. (q.pt_c_ptr + n) % q.nr_entry) (omega (arith, length-append xs (x ∷ [])));
    slots = λ k e. slots_enq x room k e;
  }

-- `pc_que_enq_try` on a queue that holds `xs` never reads outside the storage, returns the status
-- of the bounded queue (1 when it is full) and leaves the queue holding what that queue then holds.
pub enq_refines :
    {q : PcQue} {xs : List Item} (x : Item)
    → Holds q xs
    → (q' : PcQue) × (pc_que_enq_try q x.payload x.para_int x.para
        ≡ some ((enq q.nr_entry xs x).0, q'))
      × Holds q' (enq q.nr_entry xs x).1
unfolding pc_que_enq_try enq
enq_refines {q} {xs} x h =
    let (e, at) = get_elem?-lt q.p_at_entries q.pt_p_ptr (p_in h) in
    elim (Bool-cases (length xs == q.nr_entry)) [
      | inl full ↦ rw full (q, ground (arith, at, entry_of_full h (ground arith) e at), h)
      | inr room ↦ rw room (
        after_enq q x,
        ground (arith, at, entry_of_room h (ground (arith, h)) e at),
        after_enq-Holds h x (ground (arith, h)),
      )
    ]
