-- ===== src/Ke/Dpc/Examples.antt =====
-- The theorems on dpc.cpp at a queue of one call, and a system that is a count.
use nboxkrnl.Prelude.{
  ℕ, ◌+◌, ◌≡◌, refl, arith, true, false, some, [], ◌∷◌, ◌++◌, not, if◌then◌else◌, ◌==◌,
}
use nboxkrnl.Ke.Dpc.{Dpc, Prcb, insert_queue_dpc, remove_queue_dpc, execute_dpc_queue}
use nboxkrnl.Ke.Dpc.Queue.{
  contains, IsLinked, insert_queue_dpc-IsLinked, remove_queue_dpc-insert_queue_dpc, run_calls,
  calls, execute_dpc_queue-run_calls,
}

abbrev sample : Prcb
sample = record {
  dpc_list = 7 ∷ [];
  routine_active = false;
  interrupt_requested = true;
  dispatch_requested = true;
  dpcs = λ d. record {
    inserted = 7 == d;
    deferred_routine = 100;
    deferred_context = d;
    system_argument1 = 1;
    system_argument2 = 2;
  };
}

sample-IsLinked : IsLinked sample
sample-IsLinked = record { flagged = λ d. ground arith; distinct = ground arith }

insert_queue_dpc-IsLinked_example :
    let (p', queued) = insert_queue_dpc sample 8 3 4 in
    IsLinked p'
    × (queued ≡ not (contains 8 sample.dpc_list))
    × (p'.dpc_list
        ≡ (if contains 8 sample.dpc_list then sample.dpc_list else sample.dpc_list ++ (8 ∷ [])))
insert_queue_dpc-IsLinked_example = insert_queue_dpc-IsLinked sample 8 3 4 sample-IsLinked

remove_queue_dpc-insert_queue_dpc_example :
    let (p', removed) = remove_queue_dpc sample 7 in
    (removed ≡ true) × (contains 7 p'.dpc_list ≡ false) × (insert_queue_dpc p' 7 3 4 ≡ (p', false))
remove_queue_dpc-insert_queue_dpc_example =
    remove_queue_dpc-insert_queue_dpc sample 7 3 4 sample-IsLinked refl

-- A routine that adds its context to the count.
abbrev count_context : ℕ → Dpc → ℕ → ℕ
count_context d x w = w + x.deferred_context

execute_dpc_queue-run_calls_example :
    (q : Prcb) × (execute_dpc_queue (calls count_context) 2 (sample, 5)
      ≡ some (q, run_calls count_context sample.dpcs sample.dpc_list 5))
    × (q.dpc_list ≡ [])
    × (q.interrupt_requested ≡ false)
    × IsLinked q
execute_dpc_queue-run_calls_example =
    execute_dpc_queue-run_calls count_context 2 sample 5 sample-IsLinked (omega arith)
