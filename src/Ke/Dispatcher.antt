-- ===== src/Ke/Dispatcher.antt =====
-- The dispatcher objects of nboxkrnl/ke: KiWaitTest, KiUnwaitThread and KeWaitForSingleObject of wait.cpp, and the
-- routines of semaphore.cpp, mutant.cpp and event.cpp. A signal state is a LONG as its bits, a number below
-- 2 ^ 32. The routines hold the dispatcher lock, so each one, up to the switch to another thread, is
-- one step. KeWaitForMultipleObjects is not implemented in the source, so every wait is for one object,
-- with the wait type WaitAny and the wait key 0.
pub mod Wakes
pub mod Semaphores
pub mod Counts
pub mod Mutants
pub mod Ownership
pub mod Exclusion
pub mod Events
mod Examples
use nboxkrnl.Prelude.{
  ℕ, ◌+◌, ◌%◌, ◌^◌, Bool, true, false, not, ◌&&◌, ◌||◌, Option, none, some, List, [], ◌∷◌, ◌++◌,
  ltb, ◌==◌, if◌then◌else◌,
}
use nboxkrnl.Prelude.Words.{increment, decrement}
use nboxkrnl.Ke.DeviceQueue.{is_empty, unlink, write}

pub data ObjectType : Type 0 where
  notification_event synchronization_event mutant semaphore : ObjectType

-- The fields of KEVENT, KSEMAPHORE and KMUTANT, with the threads on the wait list in its order. `listed` says
-- that the mutant is on the list of a thread, `wait_status` is a field of the threads, and `unwaited` has the
-- threads that KiUnwaitThread has given to the scheduler, the last one at the end.
pub record Dispatcher : Type 0 where
  pub type : ObjectType
  pub signal_state : ℕ
  pub wait_list : List ℕ
  pub limit : ℕ
  pub owner_thread : Option ℕ
  pub abandoned : Bool
  pub listed : Bool
  pub wait_status : ℕ → ℕ
  pub unwaited : List ℕ

pub data Exception : Type 0 where
  semaphore_limit_exceeded mutant_limit_exceeded mutant_not_owned mutant_abandoned : Exception

pub data Outcome : Type 0 where
  returned : ℕ → Outcome
  raised : Exception → Outcome

abbrev pub is_positive : ℕ → Bool
is_positive s = ltb 0 s && ltb s (2 ^ 31)

-- `<` on LONGs.
abbrev pub signed_lt : ℕ → ℕ → Bool
signed_lt a b = ltb ((a + 2 ^ 31) % 2 ^ 32) ((b + 2 ^ 31) % 2 ^ 32)

abbrev pub status_abandoned : ℕ
status_abandoned = 0x80

abbrev pub mutant_limit : ℕ
mutant_limit = 0x80000000

abbrev pub is_thread : Option ℕ → ℕ → Bool
is_thread none t = false
is_thread (some o) t = o == t

unfoldable pub wait_satisfy_mutant : Dispatcher → ℕ → Dispatcher
wait_satisfy_mutant d t =
    let state = decrement d.signal_state in
    if state == 0
    then record d {
      signal_state = state;
      owner_thread = some t;
      listed = true;
      abandoned = false;
      wait_status = if d.abandoned then write d.wait_status t status_abandoned else d.wait_status;
    }
    else record d { signal_state = state }

-- The type decides, as in the tests on `Header.Type`.
unfoldable pub satisfy_by_type : ObjectType → Dispatcher → ℕ → Dispatcher
unfolding wait_satisfy_mutant
satisfy_by_type notification_event d t = d
satisfy_by_type synchronization_event d t = record d { signal_state = 0 }
satisfy_by_type semaphore d t = record d { signal_state = decrement d.signal_state }
satisfy_by_type mutant d t = wait_satisfy_mutant d t

unfoldable pub wait_satisfy_any : Dispatcher → ℕ → Dispatcher
unfolding satisfy_by_type
wait_satisfy_any d t = satisfy_by_type d.type d t

-- `KiUnwaitThread`, but for the priority and the timer of the thread.
unfoldable pub unwait_thread : Dispatcher → ℕ → Dispatcher
unfolding unlink
unwait_thread d t = record d { wait_list = unlink t d.wait_list; unwaited = d.unwaited ++ (t ∷ []) }

-- The loop of `KiWaitTest` over the entries from one on.
unfoldable pub wait_test_from : List ℕ → Dispatcher → Dispatcher
unfolding unwait_thread wait_satisfy_any
wait_test_from [] d = d
wait_test_from (t ∷ ts) d =
    let rest = wait_test_from ts (unwait_thread (wait_satisfy_any d t) t) in
    if is_positive d.signal_state then rest else d

unfoldable pub wait_test : Dispatcher → Dispatcher
unfolding wait_test_from
wait_test d = wait_test_from d.wait_list d

-- The timeout of a wait: none, of length 0, one that is over when its timer is inserted, or a later one.
pub data Timeout : Type 0 where
  never zero_length expired pending : Timeout

pub data WaitResult : Type 0 where
  satisfied : ℕ → WaitResult
  timed_out : WaitResult
  user_apc : WaitResult
  limit_exceeded : WaitResult
  waits : WaitResult

-- The part of `KeWaitForSingleObject` behind the tests on the object.
unfoldable pub begin_wait : Dispatcher → ℕ → Bool → Timeout → Dispatcher × WaitResult
begin_wait d t apc_pending never =
    if apc_pending then (d, user_apc) else (record d { wait_list = d.wait_list ++ (t ∷ []) }, waits)
begin_wait d t apc_pending zero_length = if apc_pending then (d, user_apc) else (d, timed_out)
begin_wait d t apc_pending expired = if apc_pending then (d, user_apc) else (d, timed_out)
begin_wait d t apc_pending pending =
    if apc_pending then (d, user_apc) else (record d { wait_list = d.wait_list ++ (t ∷ []) }, waits)

unfoldable pub wait_by_type : ObjectType → Dispatcher → ℕ → Bool → Timeout → Dispatcher × WaitResult
unfolding begin_wait wait_satisfy_mutant
wait_by_type mutant d t apc_pending timeout =
    if is_positive d.signal_state || is_thread d.owner_thread t
    then (if d.signal_state == mutant_limit
        then (d, limit_exceeded)
        else let d' = wait_satisfy_mutant d t in (d', satisfied (d'.wait_status t)))
    else begin_wait d t apc_pending timeout
wait_by_type semaphore d t apc_pending timeout =
    if is_positive d.signal_state
    then (record d { signal_state = decrement d.signal_state }, satisfied 0)
    else begin_wait d t apc_pending timeout
wait_by_type synchronization_event d t apc_pending timeout =
    if is_positive d.signal_state
    then (record d { signal_state = 0 }, satisfied 0)
    else begin_wait d t apc_pending timeout
wait_by_type notification_event d t apc_pending timeout =
    if is_positive d.signal_state then (d, satisfied 0) else begin_wait d t apc_pending timeout

-- `KeWaitForSingleObject` up to the switch to another thread; `apc_pending` says that the wait is in user mode
-- and a user APC is pending.
unfoldable pub wait_for_single_object : Dispatcher → ℕ → Bool → Timeout → Dispatcher × WaitResult
unfolding wait_by_type
wait_for_single_object d t apc_pending timeout =
    wait_by_type d.type (record d { wait_status = write d.wait_status t 0 }) t apc_pending timeout

unfoldable pub initialize_semaphore : Dispatcher → ℕ → ℕ → Dispatcher
initialize_semaphore d count limit = record d {
  type = semaphore;
  signal_state = count;
  wait_list = [];
  limit = limit;
}

unfoldable pub release_semaphore : Dispatcher → ℕ → Dispatcher × Outcome
unfolding wait_test
release_semaphore d adjustment =
    let new_state = (d.signal_state + adjustment) % 2 ^ 32 in
    if signed_lt d.limit new_state || signed_lt new_state d.signal_state
    then (d, raised semaphore_limit_exceeded)
    else (let d' = record d { signal_state = new_state } in
        (
          if d.signal_state == 0 && not (is_empty d.wait_list) then wait_test d' else d',
          returned d.signal_state,
        ))

unfoldable pub initialize_mutant : Dispatcher → ℕ → Bool → Dispatcher
initialize_mutant d t initial_owner =
    if initial_owner
    then record d {
      type = mutant;
      wait_list = [];
      abandoned = false;
      signal_state = 0;
      owner_thread = some t;
      listed = true;
    }
    else record d {
      type = mutant;
      wait_list = [];
      abandoned = false;
      signal_state = 1;
      owner_thread = none;
    }

-- The part of `KeReleaseMutant` behind the new signal state, with the old one.
unfoldable pub released : Dispatcher → ℕ → Dispatcher
unfolding wait_test
released d old_state =
    if d.signal_state == 1
    then (let d' = record d {
      listed = if is_positive old_state then d.listed else false;
      owner_thread = none;
    } in
        if not (is_empty d.wait_list) then wait_test d' else d')
    else d

unfoldable pub release_mutant : Dispatcher → ℕ → Bool → Dispatcher × Outcome
unfolding released
release_mutant d t abandoned =
    if abandoned
    then (
      released (record d { signal_state = 1; abandoned = true }) d.signal_state,
      returned d.signal_state,
    )
    else if not (is_thread d.owner_thread t)
    then (d, raised (if d.abandoned then mutant_abandoned else mutant_not_owned))
    else (
      released (record d { signal_state = increment d.signal_state }) d.signal_state,
      returned d.signal_state,
    )

unfoldable pub initialize_event : Dispatcher → Bool → Bool → Dispatcher
initialize_event d synchronization signalled = record d {
  type = if synchronization then synchronization_event else notification_event;
  signal_state = if signalled then 1 else 0;
  wait_list = [];
}

unfoldable pub pulse_event : Dispatcher → Dispatcher × ℕ
unfolding wait_test
pulse_event d =
    let d' =
      if d.signal_state == 0 && not (is_empty d.wait_list)
      then wait_test (record d { signal_state = 1 })
      else d in
    (record d' { signal_state = 0 }, d.signal_state)

unfoldable pub reset_event : Dispatcher → Dispatcher × ℕ
reset_event d = (record d { signal_state = 0 }, d.signal_state)

-- `KeSetEventBoostPriority` readies the first thread that waits; the call that would unlink it is commented out.
unfoldable pub boost_first : List ℕ → Dispatcher → Dispatcher
boost_first [] d = record d { signal_state = 1 }
boost_first (t ∷ ts) d = record d { unwaited = d.unwaited ++ (t ∷ []) }

unfoldable pub set_event_boost_priority : Dispatcher → Dispatcher
unfolding boost_first
set_event_boost_priority d = boost_first d.wait_list d
