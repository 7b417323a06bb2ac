-- ===== src/Ke/DeviceQueue/Order.antt =====
-- The order by sort keys of device_queue.cpp.
use nboxkrnl.Prelude.{
  ℕ, ◌≤◌, ◌<◌, ◌≡◌, refl, ap, arith, true, some, List, [], ◌∷◌, ◌++◌, ltb, leb, inl, inr, sym,
  append-nil, Bool-cases, subst, NotIn,
}
use nboxkrnl.Ke.DeviceQueue.{
  DeviceQueue, write, insert_by_key, last_key, insert_before_greater, place_by_key, find_by_key,
}

module _ (key : ℕ → ℕ) where
  abbrev pub AllAtMost : ℕ → List ℕ → Type 0
  AllAtMost k [] = Unit {0}
  AllAtMost k (e ∷ es) = (key e ≤ k) × AllAtMost k es

  abbrev pub AllOver : ℕ → List ℕ → Type 0
  AllOver k [] = Unit {0}
  AllOver k (e ∷ es) = (k < key e) × AllOver k es

  abbrev pub AllUnder : ℕ → List ℕ → Type 0
  AllUnder k [] = Unit {0}
  AllUnder k (e ∷ es) = (key e < k) × AllUnder k es

  -- No entry has a key below that of an earlier one.
  abbrev pub AllFrom : ℕ → List ℕ → Type 0
  AllFrom k [] = Unit {0}
  AllFrom k (e ∷ es) = (k ≤ key e) × AllFrom k es

  abbrev pub IsSorted : List ℕ → Type 0
  IsSorted [] = Unit {0}
  IsSorted (e ∷ es) = AllFrom (key e) es × IsSorted es

  AllOver-AllFrom : (k j : ℕ) (es : List ℕ) → k < j → AllFrom j es → AllOver k es
  AllOver-AllFrom k j [] h a = tt
  AllOver-AllFrom k j (e ∷ es) h a = (omega arith, AllOver-AllFrom k j es h a.1)

  AllAtMost-last_key :
      (e : ℕ) (es : List ℕ) (k : ℕ)
      → IsSorted (e ∷ es)
      → last_key key e es ≤ k
      → AllAtMost k (e ∷ es)
  unfolding last_key
  AllAtMost-last_key e [] k s h = (h, tt)
  AllAtMost-last_key e (d ∷ ds) k s h =
      let rest = AllAtMost-last_key d ds k s.1 h in (omega arith, rest)

  -- Where a new entry with key `k` stands: after all keys up to `k` and before all greater ones.
  abbrev pub IsPlaced : ℕ → ℕ → List ℕ → List ℕ → Type 0
  IsPlaced k e es fs =
      (before : List ℕ) × (after : List ℕ) × (es ≡ before ++ after)
      × (fs ≡ before ++ (e ∷ after))
      × AllAtMost k before
      × AllOver k after

  insert_before_greater-IsPlaced :
      (k e : ℕ) (es : List ℕ) → IsSorted es → IsPlaced k e es (insert_before_greater key k e es)
  unfolding insert_before_greater
  insert_before_greater-IsPlaced k e [] s = ([], [], refl, refl, tt, tt)
  insert_before_greater-IsPlaced k e (d ∷ ds) s = elim (Bool-cases (leb (key d) k)) [
    | inl c ↦
        let (xs, ys, p, q, lo, hi) = insert_before_greater-IsPlaced k e ds s.1 in
        (
          d ∷ xs,
          ys,
          ap (λ es. d ∷ es) p,
          rw (c, insert_before_greater) (ap (λ es. d ∷ es) q),
          (ground arith, lo),
          hi,
        )
    | inr c ↦ (
      [],
      d ∷ ds,
      refl,
      rw (c, insert_before_greater),
      tt,
      (ground arith, AllOver-AllFrom k (key d) ds (ground arith) s.0),
    )
  ]

  place_by_key-IsPlaced :
      (k e : ℕ) (es : List ℕ) → IsSorted es → IsPlaced k e es (place_by_key key k e es)
  unfolding place_by_key
  place_by_key-IsPlaced k e [] s = ([], [], refl, refl, tt, tt)
  place_by_key-IsPlaced k e (d ∷ ds) s = elim (Bool-cases (ltb k (last_key key d ds))) [
    | inl c ↦ rw (c, place_by_key) (insert_before_greater-IsPlaced k e (d ∷ ds) s)
    | inr c ↦
        rw (c, place_by_key)
          (
            d ∷ ds,
            [],
            sym (append-nil (d ∷ ds)),
            refl,
            AllAtMost-last_key d ds k s (ground arith),
            tt,
          )
  ]

  AllFrom-around :
      (j k e : ℕ) (xs ys : List ℕ)
      → key e ≡ k
      → j ≤ k
      → AllFrom j (xs ++ ys)
      → AllFrom j (xs ++ (e ∷ ys))
  AllFrom-around j k e [] ys p h a = (omega arith, a)
  AllFrom-around j k e (x ∷ xs) ys p h a = (a.0, AllFrom-around j k e xs ys p h a.1)

  AllOver-AllFrom_key : (j k : ℕ) (es : List ℕ) → j ≡ k → AllOver k es → AllFrom j es
  AllOver-AllFrom_key j k [] p a = tt
  AllOver-AllFrom_key j k (e ∷ es) p a = (omega arith, AllOver-AllFrom_key j k es p a.1)

  IsSorted-around :
      (k e : ℕ) (xs ys : List ℕ)
      → key e ≡ k
      → IsSorted (xs ++ ys)
      → AllAtMost k xs
      → AllOver k ys
      → IsSorted (xs ++ (e ∷ ys))
  IsSorted-around k e [] ys p s lo hi = (AllOver-AllFrom_key (key e) k ys p hi, s)
  IsSorted-around k e (x ∷ xs) ys p s lo hi =
      (AllFrom-around (key x) k e xs ys p lo.0 s.0, IsSorted-around k e xs ys p s.1 lo.1 hi)

  -- The removal by key: the entry it takes, and what stands before it.
  abbrev pub IsChosen : ℕ → List ℕ → ℕ → Type 0
  IsChosen k es e =
      (before : List ℕ) × (after : List ℕ) × (es ≡ before ++ (e ∷ after))
      × AllUnder k before
      × (k ≤ key e)

  pub find_by_key-IsChosen :
      (k d : ℕ) (ds : List ℕ)
      → k < last_key key d ds
      → (e : ℕ) × (find_by_key key k (d ∷ ds) ≡ some e) × IsChosen k (d ∷ ds) e
  unfolding find_by_key last_key
  find_by_key-IsChosen k d [] h = (d, ground arith, ([], [], refl, tt, omega arith))
  find_by_key-IsChosen k d (c ∷ cs) h = elim (Bool-cases (leb k (key d))) [
    | inl t ↦ (d, rw (t, find_by_key), ([], c ∷ cs, refl, tt, ground arith))
    | inr t ↦
        let (e, f, (xs, ys, p, u, g)) = find_by_key-IsChosen k c cs h in
        (e, rw (t, find_by_key) f, (d ∷ xs, ys, ap (λ es. d ∷ es) p, (ground arith, u), g))
  ]

-- A write to an entry that is not queued leaves the order of the queue.
AllFrom-write :
    (key : ℕ → ℕ) (e k j : ℕ) (es : List ℕ)
    → NotIn e es
    → AllFrom key j es
    → AllFrom (write key e k) j es
AllFrom-write key e k j [] n a = tt
AllFrom-write key e k j (d ∷ ds) n a = ground (arith, AllFrom-write key e k j ds)

IsSorted-write :
    (key : ℕ → ℕ) (e k : ℕ) (es : List ℕ)
    → NotIn e es
    → IsSorted key es
    → IsSorted (write key e k) es
IsSorted-write key e k [] n s = tt
IsSorted-write key e k (d ∷ ds) n s =
    ground (arith, AllFrom-write key e k (key d) ds n.1 s.0, IsSorted-write key e k ds)

-- On a busy queue in the order of the keys, `KeInsertByKeyDeviceQueue` of an entry that is not queued
-- reports an insertion, puts the entry behind all entries with keys up to its own and before all with
-- greater keys, and leaves the queue in order.
pub insert_by_key-IsPlaced :
    (q : DeviceQueue) (e k : ℕ)
    → q.busy ≡ true
    → NotIn e q.device_list
    → IsSorted q.sort_key q.device_list
    → let (q', result) = insert_by_key q e k in
      (result ≡ true)
      × IsPlaced q'.sort_key k e q.device_list q'.device_list
      × IsSorted q'.sort_key q'.device_list
unfolding insert_by_key
insert_by_key-IsPlaced q e k b n s =
    let s' = IsSorted-write q.sort_key e k q.device_list n s in
    let key = write q.sort_key e k in
    let placed = place_by_key-IsPlaced key k e q.device_list s' in
    let (xs, ys, p, f, lo, hi) = placed in
    rw (b, insert_by_key)
      (
        refl,
        placed,
        rw f (IsSorted-around key k e xs ys (ground arith) (subst (IsSorted key) p s') lo hi),
      )
