-- ===== src/Ke/DeviceQueue/Busy.antt =====
-- The busy flag of device_queue.cpp over any sequence of calls, and the order in which a driver gets
-- its requests back.
use nboxkrnl.Prelude.{
  ℕ, zero, suc, ◌<◌, ◌≡◌, refl, ap, arith, true, false, Option, none, some, List, [], ◌∷◌, ◌++◌,
  length, Bool-cases, inl, inr, ◌⊎◌, map, sym, ◌∙◌, append-nil, append_assoc,
}
use nboxkrnl.Ke.DeviceQueue.{
  DeviceQueue, write, initialize, insert, insert_by_key, remove, remove_head, remove_by_key,
  remove_by_key_if_busy, choose_by_key, take_out, remove_chosen, remove_entry, unlink, is_empty,
}

pub data Call : Type 0 where
  inserts removes_entry removes_by_key removes_by_key_if_busy : ℕ → Call
  inserts_by_key : ℕ → ℕ → Call
  removes : Call

unfoldable pub step : DeviceQueue → Call → DeviceQueue
step q (inserts e) = (insert q e).0
step q (inserts_by_key e k) = (insert_by_key q e k).0
step q removes = (remove q).0
step q (removes_by_key k) = (remove_by_key q k).0
step q (removes_by_key_if_busy k) = (remove_by_key_if_busy q k).0
step q (removes_entry e) = (remove_entry q e).0

unfoldable pub run : DeviceQueue → List Call → DeviceQueue
run q [] = q
run q (c ∷ cs) = run (step q c) cs

-- No request waits for a device that is not busy.
abbrev pub IsConsistent : DeviceQueue → Type 0
IsConsistent q = (q.busy ≡ true) ⊎ (q.device_list ≡ [])

take_out-IsConsistent :
    (q : DeviceQueue) (o : Option ℕ) → IsConsistent q → IsConsistent (take_out q o).0
unfolding take_out unlink
take_out-IsConsistent q none h = h
take_out-IsConsistent q (some e) (inl b) = inl b
take_out-IsConsistent q (some e) (inr p) = inr (rw p)

remove_chosen-IsConsistent :
    (q : DeviceQueue) (k : ℕ) (es : List ℕ)
    → q.device_list ≡ es
    → IsConsistent q
    → IsConsistent (remove_chosen q k es).0
unfolding remove_chosen
remove_chosen-IsConsistent q k [] p h = inr p
remove_chosen-IsConsistent q k (d ∷ ds) p h =
    take_out-IsConsistent q (choose_by_key q.sort_key k d ds) h

remove_head-IsConsistent :
    (q : DeviceQueue) (es : List ℕ)
    → q.device_list ≡ es
    → IsConsistent q
    → IsConsistent (remove_head q es).0
unfolding remove_head
remove_head-IsConsistent q [] p h = inr p
remove_head-IsConsistent q (e ∷ es) p h = ground arith

is_empty-eq : (es : List ℕ) → is_empty es ≡ true → es ≡ []
unfolding is_empty
is_empty-eq [] h = refl
is_empty-eq (e ∷ es) h = cc

remove_by_key_if_busy-IsConsistent :
    (q : DeviceQueue) (k : ℕ) → IsConsistent q → IsConsistent (remove_by_key_if_busy q k).0
unfolding remove_by_key_if_busy
remove_by_key_if_busy-IsConsistent q k h =
    ground (arith, is_empty-eq q.device_list, remove_chosen-IsConsistent q k q.device_list refl h)

remove_entry-IsConsistent :
    (q : DeviceQueue) (e : ℕ) → IsConsistent q → IsConsistent (remove_entry q e).0
unfolding remove_entry unlink
remove_entry-IsConsistent q e h = elim (Bool-cases (q.inserted e)) [
  | inl i ↦ rw (i, remove_entry) (elim h [ inl b ↦ inl b | inr p ↦ inr (rw p) ])
  | inr i ↦ rw (i, remove_entry) h
]

-- Every call keeps the busy flag consistent with the list.
step-IsConsistent : (q : DeviceQueue) (c : Call) → IsConsistent q → IsConsistent (step q c)
unfolding step
step-IsConsistent q (inserts e) h = unfold insert in (ground arith)
step-IsConsistent q (inserts_by_key e k) h = unfold insert_by_key in (ground arith)
step-IsConsistent q removes h = unfold remove in (remove_head-IsConsistent q q.device_list refl h)
step-IsConsistent q (removes_by_key k) h =
    unfold remove_by_key in (remove_chosen-IsConsistent q k q.device_list refl h)
step-IsConsistent q (removes_by_key_if_busy k) h = remove_by_key_if_busy-IsConsistent q k h
step-IsConsistent q (removes_entry e) h = remove_entry-IsConsistent q e h

run-IsConsistent : (q : DeviceQueue) (cs : List Call) → IsConsistent q → IsConsistent (run q cs)
unfolding run
run-IsConsistent q [] h = h
run-IsConsistent q (c ∷ cs) h = run-IsConsistent (step q c) cs (step-IsConsistent q c h)

-- From an initialized queue, no sequence of calls leaves a request waiting while the device is idle.
pub run-initialize-IsConsistent :
    (q : DeviceQueue) (cs : List Call) → IsConsistent (run (initialize q) cs)
unfolding initialize
run-initialize-IsConsistent q cs = run-IsConsistent _ cs (inr refl)

abbrev drain_next :
    (DeviceQueue → List ℕ × DeviceQueue) → DeviceQueue × Option ℕ → List ℕ × DeviceQueue
drain_next rest (q, none) = ([], q)
drain_next rest (q, some e) = (e ∷ (rest q).0, (rest q).1)

-- A driver that takes requests until there is none; `fuel` bounds its calls.
unfoldable pub drain : ℕ → DeviceQueue → List ℕ × DeviceQueue
drain zero q = ([], q)
drain (suc fuel) q = drain_next (drain fuel) (remove q)

remove_of_list : (q : DeviceQueue) (es : List ℕ) → q.device_list ≡ es → remove q ≡ remove_head q es
unfolding remove
remove_of_list q es p = ap (remove_head q) p

drain_lem :
    (fuel : ℕ) (q : DeviceQueue) (es : List ℕ)
    → q.device_list ≡ es
    → length es < fuel
    → ((drain fuel q).0 ≡ es)
      × ((drain fuel q).1.device_list ≡ [])
      × ((drain fuel q).1.busy ≡ false)
unfolding drain remove_head
drain_lem zero q es p h = elim h [ ]
drain_lem (suc fuel) q [] p h = rw (remove_of_list q [] p) (refl, p, refl)
drain_lem (suc fuel) q (e ∷ es) p h = rw (remove_of_list q (e ∷ es) p) (
    let (x, y, z) =
      drain_lem fuel (record q { device_list = es; inserted = write q.inserted e false }) es refl
        (omega arith) in
    (ap (λ ds. e ∷ ds) x, y, z))

insert_busy :
    (q : DeviceQueue) (e : ℕ)
    → q.busy ≡ true
    → ((insert q e).0.device_list ≡ q.device_list ++ (e ∷ [])) × ((insert q e).0.busy ≡ true)
unfolding insert
insert_busy q e b = ground arith

run-inserts :
    (q : DeviceQueue) (es : List ℕ)
    → q.busy ≡ true
    → (run q (map inserts es)).device_list ≡ q.device_list ++ es
unfolding run step
run-inserts q [] b = sym (append-nil q.device_list)
run-inserts q (e ∷ es) b =
    let (l, b') = insert_busy q e b in
    run-inserts (insert q e).0 es b'
    ∙ ap (λ ds. ds ++ es) l
    ∙ append_assoc q.device_list (e ∷ []) es

-- The first request of an initialized queue starts at once. Those made while the device is busy come
-- back in the order in which they were made, after which the device is idle.
drain-inserts :
    (q : DeviceQueue) (e : ℕ) (es : List ℕ) (fuel : ℕ)
    → length es < fuel
    → let (started, queued) = insert (initialize q) e in
      let (taken, q') = drain fuel (run started (map inserts es)) in
      (queued ≡ false) × (taken ≡ es) × (q'.device_list ≡ []) × (q'.busy ≡ false)
unfolding insert initialize
drain-inserts q e es fuel h =
    let started = (insert (initialize q) e).0 in
    let (x, y, z) =
      drain_lem fuel (run started (map inserts es)) es (run-inserts started es refl) h in
    (refl, x, y, z)
