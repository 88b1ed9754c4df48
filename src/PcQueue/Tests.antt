-- ===== src/PcQueue/Tests.antt =====
-- pc_queue.c at concrete inputs.
use linux_dev_framework.Base.{◌≡◌, refl, true, false, some, List, [], ◌∷◌, arith}
use linux_dev_framework.PcQueue.{fresh, create_pc_que, pc_que_enq_try, pc_que_outq_try}
use linux_dev_framework.PcQueue.Spec.{Item, enq, deq}
use linux_dev_framework.PcQueue.Holds.{Holds}
use linux_dev_framework.PcQueue.Run.{
  create_pc_que-Holds, Call, put, get, run, run_spec, run_refines,
}

abbrev first : Item
first = record { payload = 7; para_int = 1; para = 0 }

abbrev second : Item
second = record { payload = 8; para_int = 2; para = 9 }

abbrev calls : List Call
calls = put first ∷ put second ∷ put first ∷ get true false ∷ put first ∷ get true true ∷ []

run_wraps : run (fresh 2) calls ≡ some (run_spec 2 [] calls)
unfolding run run_spec pc_que_enq_try pc_que_outq_try enq deq
run_wraps = refl

fresh_two-Holds : Holds (fresh 2) []
unfolding create_pc_que
fresh_two-Holds = (create_pc_que-Holds (λ n. true) 2 (omega arith) (omega arith) refl).0

run_refines_example : run (fresh 2) calls ≡ some (run_spec 2 [] calls)
run_refines_example = run_refines calls fresh_two-Holds
