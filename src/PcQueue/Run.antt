-- ===== src/PcQueue/Run.antt =====
-- pc_queue.c, from the creation of a queue through any sequence of calls.
use linux_dev_framework.Base.{
  ℕ, ◌+◌, ◌%◌, ◌≤◌, ◌<◌, ◌≡◌, refl, ◌∙◌, ap, subst, inl, inr, Bool, Option, some, List, [], ◌∷◌,
  arith, Bool-cases, some_inj, length-replicate, get_elem?-replicate, ◌-◌, ◌/◌, ◌>>=◌,
}
use linux_dev_framework.PcQueue.{
  PcQue, Out, pc_que_enq_try, pc_que_outq_try, create_pc_que, fresh, zero_entry, to_size_t,
  total_size,
}
use linux_dev_framework.PcQueue.Spec.{Item, enq, deq}
use linux_dev_framework.PcQueue.Holds.{Holds}
use linux_dev_framework.PcQueue.Enq.{valid_of}
use linux_dev_framework.PcQueue.Enq.{enq_refines}
use linux_dev_framework.PcQueue.Deq.{outq_refines, reply}

fresh_room : (size : ℕ) → size ≤ 67108862 → (to_size_t (total_size size) - 48) / 32 ≡ size
fresh_room size small = ground arith

fresh-Holds : (size : ℕ) → 0 < size → size ≤ 67108862 → Holds (fresh size) []
fresh-Holds size pos small = record {
  storage =
      length-replicate ((to_size_t (total_size size) - 48) / 32) zero_entry ∙ fresh_room size small;
  head = refl;
  tail = omega arith;
  c_in = pos;
  fits = omega arith;
  p_at = omega arith;
  slots = λ k e lt at. ap valid_of (
      get_elem?-replicate ((to_size_t (total_size size) - 48) / 32) ((0 + k) % size) zero_entry e
        at);
}

-- A size that neither overflows `total_size` nor is zero gives an empty queue of that capacity.
pub create_pc_que-Holds :
    (malloc : ℕ → Bool) (size : ℕ) {q : PcQue}
    → 0 < size
    → size ≤ 67108862
    → create_pc_que malloc size ≡ some q
    → Holds q [] × (q.nr_entry ≡ size)
unfolding create_pc_que
create_pc_que-Holds malloc size pos small made =
    elim (Bool-cases (malloc (to_size_t (total_size size)))) [
      | inl given ↦
          subst (λ q. Holds q [] × (q.nr_entry ≡ size)) (some_inj (rw given at made))
            (fresh-Holds size pos small, refl)
      | inr refused ↦ ground arith
    ]

-- A call of a client of the queue, and what it returns.
pub data Call : Type 0 where
  put : Item → Call
  get : (want_int want_para : Bool) → Call

pub data Reply : Type 0 where
  status : ℕ → Reply
  item : Out → Reply

-- The calls in order; `none` if one of them reads outside the storage.
unfoldable pub run : PcQue → List Call → Option (List Reply)
run q [] = some []
run q (put x ∷ cs) = pc_que_enq_try q x.payload x.para_int x.para >>= λ (s, q').
    run q' cs >>= λ rs. some (status s ∷ rs)
run q (get want_int want_para ∷ cs) =
    pc_que_outq_try q want_int want_para >>= λ (o, q'). run q' cs >>= λ rs. some (item o ∷ rs)

-- The same calls on the bounded queue.
unfoldable pub run_spec : ℕ → List Item → List Call → List Reply
run_spec cap xs [] = []
run_spec cap xs (put x ∷ cs) = let (s, xs') = enq cap xs x in status s ∷ run_spec cap xs' cs
run_spec cap xs (get want_int want_para ∷ cs) =
    let (o, xs') = deq xs in item (reply want_int want_para o) ∷ run_spec cap xs' cs

cap_enq :
    (q q' : PcQue) (x : Item) (s : ℕ)
    → pc_que_enq_try q x.payload x.para_int x.para ≡ some (s, q')
    → q'.nr_entry ≡ q.nr_entry
unfolding pc_que_enq_try
cap_enq q q' x s h = ground arith

cap_outq :
    (q q' : PcQue) (want_int want_para : Bool) (o : Out)
    → pc_que_outq_try q want_int want_para ≡ some (o, q')
    → q'.nr_entry ≡ q.nr_entry
unfolding pc_que_outq_try
cap_outq q q' want_int want_para o h = ground arith

-- No sequence of calls tells a queue that holds `xs` from the bounded queue of `xs`: the statuses,
-- the data and the parameters that come back are the same, and no call reads outside the storage.
pub run_refines :
    (cs : List Call) {q : PcQue} {xs : List Item}
    → Holds q xs
    → run q cs ≡ some (run_spec q.nr_entry xs cs)
unfolding run run_spec
run_refines [] h = refl
run_refines (put x ∷ cs) {q} h =
    let (q', e, h') = enq_refines x h in rw (e, run_refines cs h', cap_enq q q' x _ e)
run_refines (get want_int want_para ∷ cs) {q} h =
    let (q', e, h') = outq_refines want_int want_para h in
    rw (e, run_refines cs h', cap_outq q q' want_int want_para _ e)
