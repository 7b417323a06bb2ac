-- ===== src/Ke/DeviceQueue/Withdraw.antt =====
-- Taking entries out of the queue of device_queue.cpp: by key, and a given one.
use nboxkrnl.Prelude.{
  ℕ, ◌≤◌, ◌<◌, ◌≡◌, refl, ap, arith, true, false, some, List, [], ◌∷◌, ◌++◌, leb, inl, inr, ◌⊎◌,
  ◌∙◌, Bool-cases, append-nil, NotIn,
}
use nboxkrnl.Ke.DeviceQueue.{
  DeviceQueue, insert, remove_by_key, last_key, choose_by_key, take_out, remove_chosen,
  remove_entry, unlink,
}
use nboxkrnl.Ke.DeviceQueue.Order.{AllUnder, IsChosen, find_by_key-IsChosen}

AllUnder-NotIn : (key : ℕ → ℕ) (k e : ℕ) (es : List ℕ) → AllUnder key k es → k ≤ key e → NotIn e es
AllUnder-NotIn key k e [] u h = tt
AllUnder-NotIn key k e (d ∷ ds) u h = (not_same, AllUnder-NotIn key k e ds u.1 h)
  where
    not_same : ¬ (d ≡ e)
    not_same p = let same = ap key p in absurd (omega arith)

unlink-middle : (e : ℕ) (xs ys : List ℕ) → NotIn e xs → unlink e (xs ++ (e ∷ ys)) ≡ xs ++ ys
unfolding unlink
unlink-middle e [] ys n = ground arith
unlink-middle e (x ∷ xs) ys n = ground (arith, unlink-middle e xs ys)

-- `KeRemoveByKeyDeviceQueue` on a queue that is not empty returns an entry and takes it out, with the
-- others in their order. Where the last key is at most the given one, that is the first entry;
-- otherwise it is the first entry whose key is not below the given one.
pub remove_by_key-IsChosen :
    (q : DeviceQueue) (k d : ℕ) (ds : List ℕ)
    → q.device_list ≡ d ∷ ds
    → let (q', result) = remove_by_key q k in
      (e : ℕ) × (result ≡ some e)
      × (q'.inserted e ≡ false)
      × ((before : List ℕ) × (after : List ℕ) × (q.device_list ≡ before ++ (e ∷ after))
          × (q'.device_list ≡ before ++ after))
      × ((last_key q.sort_key d ds ≤ k) × (e ≡ d)
          ⊎ (k < last_key q.sort_key d ds) × IsChosen q.sort_key k (d ∷ ds) e)
unfolding remove_by_key remove_chosen choose_by_key take_out
remove_by_key-IsChosen q k d ds p = elim (Bool-cases (leb (last_key q.sort_key d ds) k)) [
  | inl c ↦ rw ((p, remove_by_key)) (
      rw ((c, remove_by_key)) (
        d,
        refl,
        ground arith,
        ([], ds, refl, unfold unlink in (ground arith)),
        inl (ground arith, refl),
      ))
  | inr c ↦
      let (e, f, (xs, ys, s, u, g)) = find_by_key-IsChosen q.sort_key k d ds (ground arith) in
      rw ((p, remove_by_key)) (
        rw ((c, remove_by_key)) (
          rw ((f, remove_by_key)) (
            e,
            refl,
            ground arith,
            (xs, ys, s, rw s (unlink-middle e xs ys (AllUnder-NotIn q.sort_key k e xs u g))),
            inr (ground arith, (xs, ys, s, u, g)),
          )))
]

unlink-last : (e : ℕ) (es : List ℕ) → NotIn e es → unlink e (es ++ (e ∷ [])) ≡ es
unlink-last e es n = unlink-middle e es [] n ∙ append-nil es

-- On a busy queue, `KeRemoveEntryDeviceQueue` of an entry that `KeInsertDeviceQueue` has just queued
-- reports that it was queued, restores the list, and a second call reports that it was not.
remove_entry-insert :
    (q : DeviceQueue) (e : ℕ)
    → q.busy ≡ true
    → NotIn e q.device_list
    → let (q', queued) = insert q e in
      let (q'', removed) = remove_entry q' e in
      (queued ≡ true)
      × (removed ≡ true)
      × (q''.device_list ≡ q.device_list)
      × ((remove_entry q'' e).1 ≡ false)
unfolding remove_entry insert
remove_entry-insert q e b n = ground (arith, unlink-last e q.device_list n)
