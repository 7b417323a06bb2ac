-- ===== src/Ex/ReadWriteLock/Examples.antt =====
-- A run of the lock of nboxkrnl/ex/rwlock.cpp: a reader waits for a writer, which then leaves and signals it.
use nboxkrnl.Prelude.{◌≡◌, ◌≤◌, ◌<◌, ◌⊎◌, ◌+◌, [], refl, arith}
use nboxkrnl.Ex.ReadWriteLock.{
  acquire_exclusive, acquire_shared, release, pass_on, wake_readers, wake_writer,
}
use nboxkrnl.Ex.ReadWriteLock.Threads.{
  Threads, start, writer_in, reader_in, reader_waits, released_by, semaphore_released, Reachable,
  at_start, after, acquires_exclusive, acquires_shared, waits_for_semaphore, writer_releases,
  releases_semaphore,
}
use nboxkrnl.Ex.ReadWriteLock.Exclusion.{total, Reachable-excludes, Reachable-not_stuck}

abbrev written : Threads
written = writer_in start (acquire_exclusive start.lock)

abbrev contended : Threads
contended = reader_in written (acquire_shared written.lock)

abbrev listed : Threads
listed = reader_waits contended 0

abbrev left : Threads
left = released_by (record listed { writers = 0 }) (release listed.lock)

abbrev handed : Threads
handed = semaphore_released (record left { semaphore_calls = [] }) 1

listed-Reachable : Reachable listed
unfolding acquire_exclusive acquire_shared
listed-Reachable =
    after
      (after (after at_start (acquires_exclusive start (ground arith)))
        (acquires_shared written (ground arith)))
      (waits_for_semaphore contended 0 refl)

left-Reachable : Reachable left
unfolding acquire_exclusive acquire_shared reader_waits
left-Reachable = after listed-Reachable (writer_releases listed 0 refl)

handed-Reachable : Reachable handed
unfolding acquire_exclusive acquire_shared reader_waits release pass_on wake_readers wake_writer
handed-Reachable = after left-Reachable (releases_semaphore left [] 1 [] refl)

Reachable-excludes_example : (handed.writers ≤ 1) × ((handed.writers ≡ 0) ⊎ (handed.readers ≡ 0))
Reachable-excludes_example = Reachable-excludes handed handed-Reachable

Reachable-not_stuck_example :
    ((left.listed_writers + left.listed_readers ≡ 0)
      ⊎ (0 < left.writers + left.readers)
      ⊎ (0 < left.event_calls + total left.semaphore_calls)
      ⊎ (left.lock.writer_event ≡ 1) × (0 < left.entering_writers)
      ⊎ (0 < left.lock.reader_semaphore) × (0 < left.entering_readers))
    × (left.lock.writer_event ≤ left.entering_writers)
    × (left.lock.reader_semaphore ≤ left.entering_readers)
Reachable-not_stuck_example = Reachable-not_stuck left left-Reachable
