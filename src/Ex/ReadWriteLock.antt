-- ===== src/Ex/ReadWriteLock.antt =====
-- nboxkrnl/ex/rwlock.cpp: the reader-writer lock. Each routine runs with interrupts disabled up to its
-- wait or its signal; the part up to there is one function, and the wait or the signal is a step of its own. LONG and ULONG are words below 2 ^ 32, and the LONG -1 is
-- 2 ^ 32 - 1. Of the event and the semaphore the model has the `SignalState`.
pub mod Threads
pub mod Exclusion
mod Examples
use nboxkrnl.Prelude.{
  ℕ, ◌+◌, ◌-◌, ◌%◌, ◌^◌, Bool, true, false, ◌==◌, ◌&&◌, ◌||◌, not, if◌then◌else◌,
}
use nboxkrnl.Prelude.Words.{increment, decrement}

pub record ReadWriteLock : Type 0 where
  pub lock_count : ℕ
  pub writers_waiting_count : ℕ
  pub readers_waiting_count : ℕ
  pub readers_entry_count : ℕ
  pub writer_event : ℕ
  pub reader_semaphore : ℕ

abbrev pub initialize : ReadWriteLock
initialize = record {
  lock_count = 2 ^ 32 - 1;
  writers_waiting_count = 0;
  readers_waiting_count = 0;
  readers_entry_count = 0;
  writer_event = 0;
  reader_semaphore = 0;
}

-- The second component says whether the caller goes on to wait for the event.
unfoldable pub acquire_exclusive : ReadWriteLock → ReadWriteLock × Bool
acquire_exclusive l =
    let count = increment l.lock_count in
    if not (count == 0)
    then (
      record l { lock_count = count; writers_waiting_count = increment l.writers_waiting_count },
      true,
    )
    else (record l { lock_count = count }, false)

-- The second component says whether the caller goes on to wait for the semaphore.
unfoldable pub acquire_shared : ReadWriteLock → ReadWriteLock × Bool
acquire_shared l =
    let must_wait_on_active_write = l.readers_entry_count == 0 in
    let must_wait_on_a_queued_write =
      not (l.readers_entry_count == 0) && not (l.writers_waiting_count == 0) in
    let must_wait = must_wait_on_active_write || must_wait_on_a_queued_write in
    let count = increment l.lock_count in
    if not (count == 0) && must_wait
    then (
      record l { lock_count = count; readers_waiting_count = increment l.readers_waiting_count },
      true,
    )
    else (
      record l { lock_count = count; readers_entry_count = increment l.readers_entry_count },
      false,
    )

-- What a release has still to do once interrupts are enabled: nothing, KeSetEvent, or KeReleaseSemaphore with a number
-- of units.
pub data Call : Type 0 where
  no_call calls_set_event : Call
  calls_release_semaphore : ℕ → Call

-- The last lines of `ExReleaseReadWriteLock`.
unfoldable pub wake_writer : ReadWriteLock → ReadWriteLock × Call
wake_writer l =
    (record l { writers_waiting_count = decrement l.writers_waiting_count }, calls_set_event)

-- The branch in which all readers that wait are let in.
unfoldable pub wake_readers : ReadWriteLock → ReadWriteLock × Call
wake_readers l = (
  record l { readers_entry_count = l.readers_waiting_count; readers_waiting_count = 0 },
  calls_release_semaphore l.readers_waiting_count,
)

-- `ExReleaseReadWriteLock` once the lock count is decremented and the lock has other users.
unfoldable pub pass_on : ReadWriteLock → ReadWriteLock × Call
pass_on l =
    if l.readers_entry_count == 0
    then if not (l.readers_waiting_count == 0) then wake_readers l else wake_writer l
    else let left = record l { readers_entry_count = decrement l.readers_entry_count } in
      if not (left.readers_entry_count == 0) then (left, no_call) else wake_writer left

-- `ExReleaseReadWriteLock` while interrupts are disabled, and the call that follows.
unfoldable pub release : ReadWriteLock → ReadWriteLock × Call
release l =
    let left = record l { lock_count = decrement l.lock_count } in
    if left.lock_count == 2 ^ 32 - 1
    then (record left { readers_entry_count = 0 }, no_call)
    else pass_on left
