-- ===== src/Ex/ReadWriteLock/Exclusion.antt =====
-- The invariant of the lock of nboxkrnl/ex/rwlock.cpp and of its threads: exclusion, and no wakeup is
-- lost.
use nboxkrnl.Prelude.{
  ℕ, suc, ◌+◌, ◌-◌, ◌%◌, ◌^◌, ◌≡◌, ◌<◌, ◌≤◌, ◌⊎◌, inl, inr, refl, arith, Bool-cases, ◌==◌, List, [],
  ◌∷◌, ◌++◌, ltb, ap, ◌∙◌,
}
use nboxkrnl.Prelude.Words.{increment, decrement}
use nboxkrnl.Ex.ReadWriteLock.{
  acquire_exclusive, acquire_shared, release, pass_on, wake_writer, wake_readers,
}
use nboxkrnl.Ex.ReadWriteLock.Threads.{
  Threads, Step, Reachable, acquires_exclusive, acquires_shared, waits_for_event,
  waits_for_semaphore, writer_releases, reader_releases, sets_event, releases_semaphore, at_start,
  after, count, writer_in, reader_in, writer_waits, reader_waits, released_by, semaphore_released,
}

-- The units of the calls of KeReleaseSemaphore that are under way.
abbrev pub total : List ℕ → ℕ
total [] = 0
total (n ∷ ns) = n + total ns

total-middle :
    (before behind : List ℕ) (n : ℕ) → total (before ++ (n ∷ behind)) ≡ n + total (before ++ behind)
total-middle [] behind n = refl
total-middle (m ∷ ms) behind n = omega (arith, total-middle ms behind n)

-- A signal that no thread has taken yet, and one that a thread is about to give, count as a holder.
abbrev pub granted_writers : Threads → ℕ
granted_writers s = s.writers + (s.lock.writer_event + s.event_calls)

abbrev pub granted_readers : Threads → ℕ
granted_readers s = s.readers + (s.lock.reader_semaphore + total s.semaphore_calls)

abbrev pub IsCounted : Threads → Type 0
IsCounted s =
    (count s ≤ 2 ^ 31)
    × (s.lock.readers_entry_count ≡ granted_readers s)
    × (s.entering_writers + s.listed_writers
        ≡ s.lock.writers_waiting_count + (s.lock.writer_event + s.event_calls))
    × (s.entering_readers + s.listed_readers
        ≡ s.lock.readers_waiting_count + (s.lock.reader_semaphore + total s.semaphore_calls))
    × ((s.lock.writer_event ≡ 0) ⊎ (s.listed_writers ≡ 0))
    × ((s.lock.reader_semaphore ≡ 0) ⊎ (s.listed_readers ≡ 0))

abbrev pub IsExclusive : Threads → Type 0
IsExclusive s =
    (granted_writers s ≤ 1)
    × ((granted_writers s ≡ 0) ⊎ (granted_readers s ≡ 0))
    × ((0 < granted_writers s + granted_readers s)
        ⊎ (s.lock.writers_waiting_count + s.lock.readers_waiting_count ≡ 0))
    × ((granted_readers s ≡ 0)
        ⊎ (s.lock.readers_waiting_count ≡ 0)
        ⊎ (0 < s.lock.writers_waiting_count))

abbrev pub IsGuarded : Threads → Type 0
IsGuarded s = (s.lock.lock_count ≡ (count s + (2 ^ 32 - 1)) % 2 ^ 32) × IsCounted s × IsExclusive s

increment_count : (n : ℕ) → n < 2 ^ 31 → increment ((n + (2 ^ 32 - 1)) % 2 ^ 32) ≡ n
increment_count n h = omega arith

decrement_count :
    (n : ℕ) → n < 2 ^ 31 → decrement ((suc n + (2 ^ 32 - 1)) % 2 ^ 32) ≡ (n + (2 ^ 32 - 1)) % 2 ^ 32
decrement_count n h = omega arith

acquires_exclusive-IsGuarded :
    (s : Threads)
    → count s < 2 ^ 31
    → IsGuarded s
    → IsGuarded (writer_in s (acquire_exclusive s.lock))
unfolding acquire_exclusive
acquires_exclusive-IsGuarded s l h =
    let c : increment s.lock.lock_count ≡ count s = rw (h.0) (increment_count (count s) l) in
    elim (Bool-cases (count s == 0)) [
      | inl e ↦ rw (c, acquire_exclusive) (rw (e, acquire_exclusive) (ground arith))
      | inr e ↦ rw (c, acquire_exclusive) (rw (e, acquire_exclusive) (ground arith))
    ]

acquires_shared-IsGuarded :
    (s : Threads) → count s < 2 ^ 31 → IsGuarded s → IsGuarded (reader_in s (acquire_shared s.lock))
unfolding acquire_shared
acquires_shared-IsGuarded s l h =
    let c : increment s.lock.lock_count ≡ count s = rw (h.0) (increment_count (count s) l) in
    elim (Bool-cases (count s == 0)) [
      | inl e ↦ rw (c, acquire_shared) (rw (e, acquire_shared) (ground arith))
      | inr e ↦ elim (Bool-cases (s.lock.readers_entry_count == 0)) [
        | inl d ↦ rw (c, acquire_shared) (rw (e, d, acquire_shared) (ground arith))
        | inr d ↦ elim (Bool-cases (s.lock.writers_waiting_count == 0)) [
          | inl w ↦ rw (c, acquire_shared) (rw (e, d, w, acquire_shared) (ground arith))
          | inr w ↦ rw (c, acquire_shared) (rw (e, d, w, acquire_shared) (ground arith))
        ]
      ]
    ]

-- The holder that leaves is a writer or a reader; `s` is the threads without it.
releases-IsGuarded :
    (s : Threads) (w r : ℕ)
    → IsGuarded (record s { writers = w + s.writers; readers = r + s.readers })
    → w + r ≡ 1
    → IsGuarded (released_by s (release s.lock))
unfolding release pass_on wake_readers wake_writer
releases-IsGuarded s w r h one =
    let c : decrement s.lock.lock_count ≡ (count s + (2 ^ 32 - 1)) % 2 ^ 32 = omega arith in
    elim (Bool-cases ((count s + (2 ^ 32 - 1)) % 2 ^ 32 == 2 ^ 32 - 1)) [
      | inl e ↦ rw (c, release) (rw (e, release) (ground arith))
      | inr e ↦ elim (Bool-cases (s.lock.readers_entry_count == 0)) [
        | inl d ↦ elim (Bool-cases (s.lock.readers_waiting_count == 0)) [
          | inl w ↦ rw (c, release) (rw (e, d, w, release) (ground arith))
          | inr w ↦ rw (c, release) (rw (e, d, w, release) (ground arith))
        ]
        | inr d ↦ elim (Bool-cases (decrement s.lock.readers_entry_count == 0)) [
          | inl w ↦ rw (c, release) (rw (e, d, w, release) (ground arith))
          | inr w ↦ rw (c, release) (rw (e, d, w, release) (ground arith))
        ]
      ]
    ]

writer_waits-IsGuarded :
    (s : Threads) (others : ℕ)
    → s.entering_writers ≡ suc others
    → IsGuarded s
    → IsGuarded (writer_waits s others)
unfolding writer_waits
writer_waits-IsGuarded s n e h = elim (Bool-cases (0 == s.lock.writer_event)) [
  | inl p ↦ rw (p, writer_waits) (ground arith)
  | inr p ↦ rw (p, writer_waits) (ground arith)
]

reader_waits-IsGuarded :
    (s : Threads) (others : ℕ)
    → s.entering_readers ≡ suc others
    → IsGuarded s
    → IsGuarded (reader_waits s others)
unfolding reader_waits
reader_waits-IsGuarded s n e h = elim (Bool-cases (0 == s.lock.reader_semaphore)) [
  | inl p ↦ rw (p, reader_waits) (ground arith)
  | inr p ↦ rw (p, reader_waits) (ground arith)
]

semaphore_released-IsGuarded :
    (s : Threads) (before : List ℕ) (units : ℕ) (behind : List ℕ)
    → s.semaphore_calls ≡ before ++ (units ∷ behind)
    → IsGuarded s
    → IsGuarded (semaphore_released (record s { semaphore_calls = before ++ behind }) units)
unfolding semaphore_released
semaphore_released-IsGuarded s before units behind e h =
    let all : total s.semaphore_calls ≡ units + total (before ++ behind) =
      ap total e ∙ total-middle before behind units in
    elim (Bool-cases (0 == s.lock.reader_semaphore)) [
      | inl p ↦ elim (Bool-cases (ltb units s.listed_readers)) [
        | inl q ↦ rw (p, semaphore_released) (rw (q, semaphore_released) (ground (arith, all)))
        | inr q ↦ rw (p, semaphore_released) (rw (q, semaphore_released) (ground (arith, all)))
      ]
      | inr p ↦ rw (p, semaphore_released) (ground (arith, all))
    ]

Step-IsGuarded : {s t : Threads} → Step s t → IsGuarded s → IsGuarded t
Step-IsGuarded (acquires_exclusive s l) h = acquires_exclusive-IsGuarded s l h
Step-IsGuarded (acquires_shared s l) h = acquires_shared-IsGuarded s l h
Step-IsGuarded (waits_for_event s n e) h = writer_waits-IsGuarded s n e h
Step-IsGuarded (waits_for_semaphore s n e) h = reader_waits-IsGuarded s n e h
Step-IsGuarded (writer_releases s n e) h =
    releases-IsGuarded (record s { writers = n }) 1 0 (ground arith) refl
Step-IsGuarded (reader_releases s n e) h =
    releases-IsGuarded (record s { readers = n }) 0 1 (ground arith) refl
Step-IsGuarded (sets_event s n e l) h = ground arith
Step-IsGuarded (releases_semaphore s before units behind e) h =
    semaphore_released-IsGuarded s before units behind e h

Reachable-IsGuarded : {s : Threads} → Reachable s → IsGuarded s
Reachable-IsGuarded at_start = ground arith
Reachable-IsGuarded (after r t) = Step-IsGuarded t (Reachable-IsGuarded r)

-- In every state that threads reach by acquiring and releasing the reader-writer lock, without a call of
-- KeSetEvent that finds a writer on the wait list of the event, at most one thread holds the lock as a writer, and
-- then no thread holds it as a reader. Interrupts are enabled again before a thread waits or signals.
pub Reachable-excludes :
    (s : Threads) → Reachable s → (s.writers ≤ 1) × ((s.writers ≡ 0) ⊎ (s.readers ≡ 0))
Reachable-excludes s r = let h = Reachable-IsGuarded r in ground (arith, h)

-- In every such state where a thread is on a wait list of the reader-writer lock, a thread holds the lock, or a
-- thread is about to give a signal, or a signal is there for a thread that is about to wait. Each signal that is
-- there has a thread that is about to wait for it.
pub Reachable-not_stuck :
    (s : Threads)
    → Reachable s
    → ((s.listed_writers + s.listed_readers ≡ 0)
        ⊎ (0 < s.writers + s.readers)
        ⊎ (0 < s.event_calls + total s.semaphore_calls)
        ⊎ (s.lock.writer_event ≡ 1) × (0 < s.entering_writers)
        ⊎ (0 < s.lock.reader_semaphore) × (0 < s.entering_readers))
      × (s.lock.writer_event ≤ s.entering_writers)
      × (s.lock.reader_semaphore ≤ s.entering_readers)
Reachable-not_stuck s r = let h = Reachable-IsGuarded r in ground (arith, h)
