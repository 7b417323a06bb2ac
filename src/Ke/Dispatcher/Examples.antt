-- ===== src/Ke/Dispatcher/Examples.antt =====
-- The theorems on the dispatcher objects at a semaphore of two, a mutant and an event with threads that wait.
use nboxkrnl.Prelude.{
  ◌-◌, ◌^◌, ◌+◌, ◌≡◌, refl, arith, true, false, none, some, [], ◌∷◌, leb, ◌==◌, if◌then◌else◌,
}
use nboxkrnl.Ke.DeviceQueue.{write}
use nboxkrnl.Ke.Dispatcher.{
  initialize_semaphore, initialize_mutant, synchronization_event, mutant, semaphore, Dispatcher,
  returned, raised, semaphore_limit_exceeded, mutant_abandoned, mutant_not_owned, never,
  release_semaphore, pulse_event, release_mutant,
}
use nboxkrnl.Ke.Dispatcher.Wakes.{woken}
use nboxkrnl.Ke.Dispatcher.Semaphores.{after_release, release_semaphore-wakes}
use nboxkrnl.Ke.Dispatcher.Counts
use nboxkrnl.Ke.Dispatcher.Counts.{IsBalanced, Reachable-IsBalanced}
use nboxkrnl.Ke.Dispatcher.Mutants.{signal_at, handed_over, release_mutant-hands_over}
use nboxkrnl.Ke.Dispatcher.Ownership
use nboxkrnl.Ke.Dispatcher.Ownership.{IsExclusive}
use nboxkrnl.Ke.Dispatcher.Exclusion.{Reachable-IsExclusive}
use nboxkrnl.Ke.Dispatcher.Events.{pulsed, unpulsed, pulse_event-wakes}

abbrev pool : Dispatcher
pool = record {
  type = semaphore;
  signal_state = 0;
  wait_list = 7 ∷ 8 ∷ 9 ∷ [];
  limit = 4;
  owner_thread = none;
  abandoned = false;
  listed = false;
  wait_status = λ _. 0;
  unwaited = [];
}

release_semaphore-wakes_example : release_semaphore pool 2 ≡ (
    if leb (0 + 2) 4
    then (after_release pool 2, returned 0)
    else (pool, raised semaphore_limit_exceeded))
release_semaphore-wakes_example =
    release_semaphore-wakes pool 2
      (record {
        type_is = refl;
        limit_lt = omega arith;
        within = omega arith;
        no_lost_wake = omega arith;
      })
      (omega arith)

-- Thread 7 takes the one unit, thread 8 waits, and a release of two wakes it.
abbrev used : Counts.Account
used =
    Counts.release
      (Counts.wait
        (Counts.wait (record { object = initialize_semaphore pool 1 4; granted = 0; released = 0 })
          7 false never)
        8 false never)
      2

used-Reachable : Counts.Reachable pool 1 4 used
used-Reachable =
    Counts.was_released 2 (omega arith)
      (Counts.waited 8 false never (Counts.waited 7 false never Counts.initialized))

Reachable-IsBalanced_example : IsBalanced 1 used
Reachable-IsBalanced_example =
    Reachable-IsBalanced pool 1 4 used (omega arith) (omega arith) used-Reachable

-- Thread 7 has taken the mutant twice, and threads 8 and 9 wait for it.
abbrev held : Dispatcher
held = record {
  type = mutant;
  signal_state = 2 ^ 32 - 1;
  wait_list = 8 ∷ 9 ∷ [];
  limit = 0;
  owner_thread = some 7;
  abandoned = false;
  listed = true;
  wait_status = λ _. 0;
  unwaited = [];
}

release_mutant-hands_over_example : release_mutant held 7 false ≡ (
    if 7 == 7
    then (
      if 2 == 1
          then handed_over held (8 ∷ 9 ∷ [])
          else record held { signal_state = signal_at (2 - 1) },
      returned (2 ^ 32 - 1),
    )
    else (held, raised (if false then mutant_abandoned else mutant_not_owned)))
release_mutant-hands_over_example = release_mutant-hands_over held 7 7 2 (record {
  type_is = refl;
  owner_is = refl;
  signal_is = refl;
  taken = omega arith;
  within = omega arith;
  listed_is = refl;
})

-- Thread 7 takes its new mutant again, thread 8 waits for it, and tries to release it.
abbrev passed_on : Ownership.Ownership
passed_on =
    Ownership.release
      (Ownership.wait
        (Ownership.wait
          (record { object = initialize_mutant pool 7 true; holds = write (λ _. 0) 7 1 }) 7 false
          never)
        8 false never)
      8 false

passed_on-Reachable : Ownership.Reachable pool passed_on
passed_on-Reachable = Ownership.was_released 8 (
    Ownership.waited 8 false never (Ownership.waited 7 false never (Ownership.initialized_owned 7)))

Reachable-IsExclusive_example : IsExclusive passed_on
Reachable-IsExclusive_example = Reachable-IsExclusive pool passed_on passed_on-Reachable

abbrev bell : Dispatcher
bell = record pool { type = synchronization_event }

pulse_event-wakes_example : pulse_event bell ≡ (
  if 0 == 0
      then woken bell 0 (pulsed true (7 ∷ 8 ∷ 9 ∷ [])) (unpulsed true (7 ∷ 8 ∷ 9 ∷ []))
      else record bell { signal_state = 0 },
  0,
)
pulse_event-wakes_example = pulse_event-wakes bell true refl
