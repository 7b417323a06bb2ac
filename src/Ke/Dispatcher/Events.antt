-- ===== src/Ke/Dispatcher/Events.antt =====
-- The events of event.cpp with the threads that wait for them (wait.cpp).
use nboxkrnl.Prelude.{
  ℕ, ◌≡◌, refl, ap, ◌∙◌, arith, Bool, true, false, not, List, [], ◌∷◌, ◌++◌, ◌==◌, if◌then◌else◌,
  take, drop, append_assoc, Bool-cases, inl, inr,
}
use nboxkrnl.Ke.DeviceQueue.{is_empty}
use nboxkrnl.Ke.Dispatcher.{
  ObjectType, notification_event, synchronization_event, Dispatcher, wait_test, wait_test_from,
  pulse_event, set_event_boost_priority, boost_first,
}
use nboxkrnl.Ke.Dispatcher.Wakes.{
  woken, woken_nothing, wait_test_from-notification_event, wait_test_from-synchronization_event,
}

abbrev pub event_type : Bool → ObjectType
event_type synchronization = if synchronization then synchronization_event else notification_event

-- The threads that a pulse wakes, and those that wait on.
abbrev pub pulsed : Bool → List ℕ → List ℕ
pulsed synchronization waiting = if synchronization then take 1 waiting else waiting

abbrev pub unpulsed : Bool → List ℕ → List ℕ
unpulsed synchronization waiting = if synchronization then drop 1 waiting else []

pulse_loop :
    (d : Dispatcher) (synchronization : Bool) (waiting : List ℕ)
    → d.type ≡ event_type synchronization
    → d.signal_state ≡ 0
    → d.wait_list ≡ waiting
    → record (if not (is_empty waiting) then wait_test (record d { signal_state = 1 }) else d) {
      signal_state = 0;
    }
      ≡ woken d 0 (pulsed synchronization waiting) (unpulsed synchronization waiting)
unfolding wait_test is_empty
pulse_loop d true [] k e w = woken_nothing (record d { signal_state = 0 }) 0 [] refl w
pulse_loop d false [] k e w = woken_nothing (record d { signal_state = 0 }) 0 [] refl w
pulse_loop d true (t ∷ ts) k e w =
    ap {A = Dispatcher} (λ x. record x { signal_state = 0 })
      (ap (λ l. wait_test_from l (record d { signal_state = 1 })) w
        ∙ wait_test_from-synchronization_event t ts (record d { signal_state = 1 }) k refl w)
pulse_loop d false (t ∷ ts) k e w =
    ap {A = Dispatcher} (λ x. record x { signal_state = 0 })
      (ap (λ l. wait_test_from l (record d { signal_state = 1 })) w
        ∙ wait_test_from-notification_event (t ∷ ts) (record d { signal_state = 1 }) k refl w)

-- `KePulseEvent` returns the signal state and leaves the event not signalled. Where it was not signalled, the threads that
-- wait are woken: all of them by a notification event, the first one by a synchronization event. Where it was
-- signalled, none is.
pub pulse_event-wakes :
    (d : Dispatcher) (synchronization : Bool)
    → d.type ≡ event_type synchronization
    → pulse_event d ≡ (
      if d.signal_state == 0
          then woken d 0 (pulsed synchronization d.wait_list) (unpulsed synchronization d.wait_list)
          else record d { signal_state = 0 },
      d.signal_state,
    )
unfolding pulse_event
pulse_event-wakes d synchronization k = elim (Bool-cases (d.signal_state == 0)) [
  | inl p ↦ rw p (
      ap (λ x. (x, d.signal_state))
        (pulse_loop d synchronization d.wait_list k (ground arith) refl))
  | inr p ↦ rw p refl
]

-- `KeSetEventBoostPriority` readies the first thread that waits and leaves it on the wait list, so that a second call
-- readies it again.
set_event_boost_priority_twice :
    (d : Dispatcher) (t : ℕ) (ts : List ℕ)
    → d.wait_list ≡ t ∷ ts
    → set_event_boost_priority (set_event_boost_priority d)
      ≡ record d { unwaited = d.unwaited ++ (t ∷ t ∷ []) }
unfolding set_event_boost_priority boost_first
set_event_boost_priority_twice d t ts w =
    let once : set_event_boost_priority d ≡ record d { unwaited = d.unwaited ++ (t ∷ []) } =
      ap (λ l. boost_first l d) w in
    let d' = record d { unwaited = d.unwaited ++ (t ∷ []) } in
    ap set_event_boost_priority once
    ∙ ap (λ l. boost_first l d') w
    ∙ ap (λ l. record d { unwaited = l }) (append_assoc d.unwaited (t ∷ []) (t ∷ []))
