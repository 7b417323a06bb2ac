-- ===== src/Ke/DeviceQueue.antt =====
-- nboxkrnl/ke/device_queue.cpp: the queue of the requests that wait for a device. An entry is named
-- by its address, a number; the fields `SortKey` and `Inserted` of the entries are part of the
-- state. The routines run at DISPATCH_LEVEL on one processor, so each one is a single step.
pub mod Order
pub mod Busy
pub mod Withdraw
mod Examples
use nboxkrnl.Prelude.{
  ℕ, Bool, true, false, Option, none, some, List, [], ◌∷◌, ◌++◌, not, ◌||◌, ltb, leb, ◌==◌,
  if◌then◌else◌,
}

-- The list runs from `DeviceListHead.Flink` to `DeviceListHead.Blink`.
pub record DeviceQueue : Type 0 where
  pub busy : Bool
  pub device_list : List ℕ
  pub sort_key : ℕ → ℕ
  pub inserted : ℕ → Bool

-- A write to a field of one entry.
abbrev pub write {ℓ} : {A : Type ℓ} → (ℕ → A) → ℕ → A → ℕ → A
write f e x d = if d == e then x else f d

unfoldable pub is_empty : List ℕ → Bool
is_empty [] = true
is_empty (e ∷ es) = false

-- `RemoveEntryList`.
unfoldable pub unlink : ℕ → List ℕ → List ℕ
unlink e [] = []
unlink e (d ∷ ds) = if d == e then ds else d ∷ unlink e ds

unfoldable pub initialize : DeviceQueue → DeviceQueue
initialize q = record q { busy = false; device_list = [] }

unfoldable pub insert : DeviceQueue → ℕ → DeviceQueue × Bool
insert q e =
    if not q.busy then (record q { busy = true; inserted = write q.inserted e false }, false) else (
      record q { device_list = q.device_list ++ (e ∷ []); inserted = write q.inserted e true },
      true,
    )

-- The sort key of the last entry, with the first entry and the others apart.
unfoldable pub last_key : (ℕ → ℕ) → ℕ → List ℕ → ℕ
last_key key e [] = key e
last_key key e (d ∷ ds) = last_key key d ds

-- The do-while loop: the new entry goes before the first one with a greater key. The loop has no
-- test for the end of the list; the model puts the entry there.
unfoldable pub insert_before_greater : (ℕ → ℕ) → ℕ → ℕ → List ℕ → List ℕ
insert_before_greater key sort_key e [] = e ∷ []
insert_before_greater key sort_key e (d ∷ ds) =
    let rest = insert_before_greater key sort_key e ds in
    if leb (key d) sort_key then d ∷ rest else e ∷ d ∷ ds

unfoldable pub place_by_key : (ℕ → ℕ) → ℕ → ℕ → List ℕ → List ℕ
place_by_key key sort_key e [] = e ∷ []
place_by_key key sort_key e (d ∷ ds) =
    if ltb sort_key (last_key key d ds)
    then insert_before_greater key sort_key e (d ∷ ds)
    else (d ∷ ds) ++ (e ∷ [])

unfoldable pub insert_by_key : DeviceQueue → ℕ → ℕ → DeviceQueue × Bool
insert_by_key q e sort_key =
    let key = write q.sort_key e sort_key in
    if not q.busy then (record q { busy = true; sort_key = key }, false) else (
      record q { sort_key = key; device_list = place_by_key key sort_key e q.device_list },
      true,
    )

unfoldable pub remove_head : DeviceQueue → List ℕ → DeviceQueue × Option ℕ
remove_head q [] = (record q { busy = false }, none)
remove_head q (e ∷ es) =
    (record q { device_list = es; inserted = write q.inserted e false }, some e)

unfoldable pub remove : DeviceQueue → DeviceQueue × Option ℕ
remove q = remove_head q q.device_list

-- The `while (TRUE)` loop of the removals by key; `none` is a walk past the end of the list.
unfoldable pub find_by_key : (ℕ → ℕ) → ℕ → List ℕ → Option ℕ
find_by_key key sort_key [] = none
find_by_key key sort_key (d ∷ ds) =
    let rest = find_by_key key sort_key ds in if leb sort_key (key d) then some d else rest

-- The choice of the entry in a list with first entry `d`.
unfoldable pub choose_by_key : (ℕ → ℕ) → ℕ → ℕ → List ℕ → Option ℕ
choose_by_key key sort_key d ds =
    if leb (last_key key d ds) sort_key then some d else find_by_key key sort_key (d ∷ ds)

unfoldable pub take_out : DeviceQueue → Option ℕ → DeviceQueue × Option ℕ
take_out q none = (q, none)
take_out q (some e) =
    (record q { device_list = unlink e q.device_list; inserted = write q.inserted e false }, some e)

unfoldable pub remove_chosen : DeviceQueue → ℕ → List ℕ → DeviceQueue × Option ℕ
remove_chosen q sort_key [] = (record q { busy = false }, none)
remove_chosen q sort_key (d ∷ ds) = take_out q (choose_by_key q.sort_key sort_key d ds)

unfoldable pub remove_by_key : DeviceQueue → ℕ → DeviceQueue × Option ℕ
remove_by_key q sort_key = remove_chosen q sort_key q.device_list

unfoldable pub remove_by_key_if_busy : DeviceQueue → ℕ → DeviceQueue × Option ℕ
remove_by_key_if_busy q sort_key =
    if not q.busy || is_empty q.device_list
    then (record q { busy = false }, none)
    else remove_chosen q sort_key q.device_list

unfoldable pub remove_entry : DeviceQueue → ℕ → DeviceQueue × Bool
remove_entry q e =
    if q.inserted e
    then (
      record q { inserted = write q.inserted e false; device_list = unlink e q.device_list },
      true,
    )
    else (q, false)
