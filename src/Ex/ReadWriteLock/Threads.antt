-- ===== src/Ex/ReadWriteLock/Threads.antt =====
-- The threads around the lock of nboxkrnl/ex/rwlock.cpp, and the steps that they take. Interrupts are enabled again
-- before a routine waits or signals, so a thread may be on its way to the wait or to the signal while others go on.
-- The waits and the signals are those of nboxkrnl/ke: wait.cpp, semaphore.cpp and event.cpp.
use nboxkrnl.Prelude.{
  ℕ, suc, ◌+◌, ◌-◌, ◌^◌, ◌≡◌, ◌<◌, Bool, true, false, List, [], ◌∷◌, ◌++◌, ltb, ◌==◌, if◌then◌else◌,
}
use nboxkrnl.Ex.ReadWriteLock.{
  ReadWriteLock, Call, no_call, calls_set_event, calls_release_semaphore, initialize,
  acquire_exclusive, acquire_shared, release,
}

-- The numbers of the threads that hold the lock, that have enabled interrupts and go on to wait, and that are on the
-- wait list of the event or of the semaphore. `event_calls` counts the threads that go on to KeSetEvent, and
-- `semaphore_calls` has the units of those that go on to KeReleaseSemaphore.
pub record Threads : Type 0 where
  pub lock : ReadWriteLock
  pub writers : ℕ
  pub readers : ℕ
  pub entering_writers : ℕ
  pub entering_readers : ℕ
  pub listed_writers : ℕ
  pub listed_readers : ℕ
  pub event_calls : ℕ
  pub semaphore_calls : List ℕ

abbrev pub count : Threads → ℕ
count s =
    s.writers
    + s.readers
    + (s.entering_writers + s.listed_writers)
    + (s.entering_readers + s.listed_readers)

abbrev pub writer_in : Threads → ReadWriteLock × Bool → Threads
writer_in s (l, true) = record s { lock = l; entering_writers = suc s.entering_writers }
writer_in s (l, false) = record s { lock = l; writers = suc s.writers }

abbrev pub reader_in : Threads → ReadWriteLock × Bool → Threads
reader_in s (l, true) = record s { lock = l; entering_readers = suc s.entering_readers }
reader_in s (l, false) = record s { lock = l; readers = suc s.readers }

-- The wait of a writer for the event, with `others` on their way: it resets the event, or goes on the list.
unfoldable pub writer_waits : Threads → ℕ → Threads
writer_waits s others =
    if 0 == s.lock.writer_event
    then record s { entering_writers = others; listed_writers = suc s.listed_writers }
    else record s {
      entering_writers = others;
      lock = record s.lock { writer_event = 0 };
      writers = suc s.writers;
    }

-- The wait of a reader for the semaphore.
unfoldable pub reader_waits : Threads → ℕ → Threads
reader_waits s others =
    if 0 == s.lock.reader_semaphore
    then record s { entering_readers = others; listed_readers = suc s.listed_readers }
    else record s {
      entering_readers = others;
      lock = record s.lock { reader_semaphore = s.lock.reader_semaphore - 1 };
      readers = suc s.readers;
    }

-- A holder, already left out of `s`, runs the release up to the call.
abbrev pub released_by : Threads → ReadWriteLock × Call → Threads
released_by s (l, no_call) = record s { lock = l }
released_by s (l, calls_set_event) = record s { lock = l; event_calls = suc s.event_calls }
released_by s (l, calls_release_semaphore n) = record s {
  lock = l;
  semaphore_calls = n ∷ s.semaphore_calls;
}

-- KeReleaseSemaphore: where the count was 0, the readers on the list take units first.
unfoldable pub semaphore_released : Threads → ℕ → Threads
semaphore_released s units =
    let woken = if ltb units s.listed_readers then units else s.listed_readers in
    if 0 == s.lock.reader_semaphore
    then record s {
      lock = record s.lock { reader_semaphore = units - woken };
      listed_readers = s.listed_readers - woken;
      readers = s.readers + woken;
    }
    else record s { lock = record s.lock { reader_semaphore = s.lock.reader_semaphore + units } }

-- There are fewer than 2 ^ 31 threads. KeSetEvent takes the head of a wait list that is not empty for a wait block, so
-- that nothing can be said of what it does there: `sets_event` is its step where no writer is on the list, and where
-- one is, KeSetEvent has no step.
pub data Step : Threads → Threads → Type 0 where
  acquires_exclusive :
      (s : Threads) → count s < 2 ^ 31 → Step s (writer_in s (acquire_exclusive s.lock))
  acquires_shared : (s : Threads) → count s < 2 ^ 31 → Step s (reader_in s (acquire_shared s.lock))
  waits_for_event :
      (s : Threads) (others : ℕ) → s.entering_writers ≡ suc others → Step s (writer_waits s others)
  waits_for_semaphore :
      (s : Threads) (others : ℕ) → s.entering_readers ≡ suc others → Step s (reader_waits s others)
  writer_releases :
      (s : Threads) (others : ℕ)
      → s.writers ≡ suc others
      → Step s (released_by (record s { writers = others }) (release s.lock))
  reader_releases :
      (s : Threads) (others : ℕ)
      → s.readers ≡ suc others
      → Step s (released_by (record s { readers = others }) (release s.lock))
  sets_event :
      (s : Threads) (others : ℕ)
      → s.event_calls ≡ suc others
      → s.listed_writers ≡ 0
      → Step s (record s { lock = record s.lock { writer_event = 1 }; event_calls = others })
  releases_semaphore :
      (s : Threads) (before : List ℕ) (units : ℕ) (behind : List ℕ)
      → s.semaphore_calls ≡ before ++ (units ∷ behind)
      → Step s (semaphore_released (record s { semaphore_calls = before ++ behind }) units)

abbrev pub start : Threads
start = record {
  lock = initialize;
  writers = 0;
  readers = 0;
  entering_writers = 0;
  entering_readers = 0;
  listed_writers = 0;
  listed_readers = 0;
  event_calls = 0;
  semaphore_calls = [];
}

pub data Reachable : Threads → Type 0 where
  at_start : Reachable start
  after : {s t : Threads} → Reachable s → Step s t → Reachable t
