-- ===== src/Ke/DeviceQueue/Examples.antt =====
-- The theorems on device_queue.cpp at a busy queue of two requests.
use nboxkrnl.Prelude.{
  ℕ, ◌≤◌, ◌<◌, ◌≡◌, refl, arith, true, false, some, List, [], ◌∷◌, ◌++◌, ◌⊎◌, if◌then◌else◌, ◌==◌,
}
use nboxkrnl.Ke.DeviceQueue.{DeviceQueue, initialize, insert_by_key, remove_by_key, last_key}
use nboxkrnl.Ke.DeviceQueue.Order.{IsPlaced, IsSorted, IsChosen, insert_by_key-IsPlaced}
use nboxkrnl.Ke.DeviceQueue.Withdraw.{remove_by_key-IsChosen}
use nboxkrnl.Ke.DeviceQueue.Busy.{
  Call, inserts, inserts_by_key, removes, removes_by_key_if_busy, run, IsConsistent,
  run-initialize-IsConsistent,
}

-- Entries 1 and 2 have the sort keys 10 and 20.
abbrev sample : DeviceQueue
sample = record {
  busy = true;
  device_list = 1 ∷ 2 ∷ [];
  sort_key = λ e. if e == 1 then 10 else 20;
  inserted = λ e. e == 1;
}

insert_by_key-IsPlaced_example :
    let (q', result) = insert_by_key sample 3 15 in
    (result ≡ true)
    × IsPlaced q'.sort_key 15 3 sample.device_list q'.device_list
    × IsSorted q'.sort_key q'.device_list
insert_by_key-IsPlaced_example =
    insert_by_key-IsPlaced sample 3 15 refl (ground arith) (ground arith)

remove_by_key-IsChosen_example :
    let (q', result) = remove_by_key sample 15 in
    (e : ℕ) × (result ≡ some e)
    × (q'.inserted e ≡ false)
    × ((before : List ℕ) × (after : List ℕ) × (sample.device_list ≡ before ++ (e ∷ after))
        × (q'.device_list ≡ before ++ after))
    × ((last_key sample.sort_key 1 (2 ∷ []) ≤ 15) × (e ≡ 1)
        ⊎ (15 < last_key sample.sort_key 1 (2 ∷ [])) × IsChosen sample.sort_key 15 (1 ∷ 2 ∷ []) e)
remove_by_key-IsChosen_example = remove_by_key-IsChosen sample 15 1 (2 ∷ []) refl

abbrev calls : List Call
calls = inserts 1 ∷ inserts 2 ∷ inserts_by_key 3 5 ∷ removes ∷ removes_by_key_if_busy 4 ∷ []

run-initialize-IsConsistent_example : IsConsistent (run (initialize sample) calls)
run-initialize-IsConsistent_example = run-initialize-IsConsistent sample calls
