-- ===== src/Ke/Dispatcher/Wakes.antt =====
-- What KiWaitTest of wait.cpp does to the threads that wait for an object, by the type of the object.
use nboxkrnl.Prelude.{
  ℕ, zero, suc, ◌-◌, ◌^◌, ◌<◌, ◌≡◌, refl, ap, sym, ◌∙◌, arith, true, false, some, List, [], ◌∷◌,
  ◌++◌, ◌==◌, if◌then◌else◌, take, drop, length, append-nil, append_assoc,
}
use nboxkrnl.Prelude.Words.{decrement}
use nboxkrnl.Ke.DeviceQueue.{unlink, write}
use nboxkrnl.Ke.Dispatcher.{
  notification_event, synchronization_event, mutant, semaphore, Dispatcher, is_positive,
  wait_satisfy_any, satisfy_by_type, wait_satisfy_mutant, unwait_thread, wait_test_from,
  status_abandoned,
}

unlink_first : (t : ℕ) (ts : List ℕ) → unlink t (t ∷ ts) ≡ ts
unfolding unlink
unlink_first t ts = ground arith

-- The dispatcher after the threads from the front have been given to the scheduler.
abbrev pub woken : Dispatcher → ℕ → List ℕ → List ℕ → Dispatcher
woken d signal_state gone left = record d {
  signal_state = signal_state;
  wait_list = left;
  unwaited = d.unwaited ++ gone;
}

unwait_first :
    (d : Dispatcher) (t : ℕ) (ts : List ℕ)
    → d.wait_list ≡ t ∷ ts
    → unwait_thread d t ≡ woken d d.signal_state (t ∷ []) ts
unfolding unwait_thread
unwait_first d t ts e =
    ap (λ l. woken d d.signal_state (t ∷ []) (unlink t l)) e
    ∙ ap (woken d d.signal_state (t ∷ [])) (unlink_first t ts)

pub woken_nothing :
    (d : Dispatcher) (s : ℕ) (l : List ℕ)
    → d.signal_state ≡ s
    → d.wait_list ≡ l
    → d ≡ woken d s [] l
woken_nothing d s l e w =
    λ i. record d { signal_state = e i; wait_list = w i; unwaited = sym (append-nil d.unwaited) i }

-- Waking the first thread, then others.
woken-woken :
    (d : Dispatcher) (t s s' : ℕ) (gone ts left : List ℕ)
    → woken (woken d s (t ∷ []) ts) s' gone left ≡ woken d s' (t ∷ gone) left
woken-woken d t s s' gone ts left = λ i. record d {
  signal_state = s';
  wait_list = left;
  unwaited = append_assoc d.unwaited (t ∷ []) gone i;
}

-- One round of the loop, where the signal state is positive.
wait_test_round :
    (t : ℕ) (ts : List ℕ) (d d' : Dispatcher)
    → is_positive d.signal_state ≡ true
    → wait_satisfy_any d t ≡ d'
    → d'.wait_list ≡ t ∷ ts
    → wait_test_from (t ∷ ts) d ≡ wait_test_from ts (woken d' d'.signal_state (t ∷ []) ts)
unfolding wait_test_from
wait_test_round t ts d d' p e w = rw p (
    ap (λ x. wait_test_from ts (unwait_thread x t)) e
    ∙ ap (wait_test_from ts) (unwait_first d' t ts w))

wait_test_stop :
    (ts : List ℕ) (d : Dispatcher) → is_positive d.signal_state ≡ false → wait_test_from ts d ≡ d
unfolding wait_test_from
wait_test_stop [] d p = refl
wait_test_stop (t ∷ ts) d p = rw p refl

-- A semaphore wakes as many threads as its count, from the front, and keeps what is left of the count.
pub wait_test_from-semaphore :
    (ts : List ℕ) (d : Dispatcher) (s : ℕ)
    → d.type ≡ semaphore
    → d.signal_state ≡ s
    → d.wait_list ≡ ts
    → s < 2 ^ 31
    → wait_test_from ts d ≡ woken d (s - length ts) (take s ts) (drop s ts)
unfolding wait_satisfy_any
wait_test_from-semaphore ts d zero k e w b =
    let nothing : 0 - length ts ≡ 0 = omega arith in
    wait_test_stop ts d (ground arith)
    ∙ woken_nothing d 0 ts e w
    ∙ ap (λ n. woken d n [] ts) (sym nothing)
wait_test_from-semaphore [] d (suc s) k e w b =
    unfold wait_test_from in (woken_nothing d (suc s) [] e w ∙ ap (λ n. woken d n [] []) (all s))
  where
    all : (n : ℕ) → suc n ≡ suc n - 0
    all n = omega arith
wait_test_from-semaphore (t ∷ ts) d (suc s) k e w b =
    let d' = record d { signal_state = s } in
    let taken : decrement d.signal_state ≡ s = omega arith in
    let satisfied : wait_satisfy_any d t ≡ d' =
      ap (λ x. satisfy_by_type x d t) k ∙ ap (λ n. record d { signal_state = n }) taken in
    let left : s - length ts ≡ suc s - suc (length ts) = omega arith in
    wait_test_round t ts d d' (ground arith) satisfied w
    ∙ wait_test_from-semaphore ts (woken d' s (t ∷ []) ts) s k refl refl (omega arith)
    ∙ woken-woken d t s (s - length ts) (take s ts) ts (drop s ts)
    ∙ ap (λ n. woken d n (t ∷ take s ts) (drop s ts)) left

-- A signalled notification event wakes every thread and stays signalled.
pub wait_test_from-notification_event :
    (ts : List ℕ) (d : Dispatcher)
    → d.type ≡ notification_event
    → d.signal_state ≡ 1
    → d.wait_list ≡ ts
    → wait_test_from ts d ≡ woken d 1 ts []
unfolding wait_satisfy_any
wait_test_from-notification_event [] d k e w = unfold wait_test_from in (woken_nothing d 1 [] e w)
wait_test_from-notification_event (t ∷ ts) d k e w =
    wait_test_round t ts d d (ground arith) (ap (λ x. satisfy_by_type x d t) k) w
    ∙ ap (λ n. wait_test_from ts (woken d n (t ∷ []) ts)) e
    ∙ wait_test_from-notification_event ts (woken d 1 (t ∷ []) ts) k refl refl
    ∙ woken-woken d t 1 1 ts ts []

-- A signalled synchronization event wakes the first thread and is not signalled then.
pub wait_test_from-synchronization_event :
    (t : ℕ) (ts : List ℕ) (d : Dispatcher)
    → d.type ≡ synchronization_event
    → d.signal_state ≡ 1
    → d.wait_list ≡ t ∷ ts
    → wait_test_from (t ∷ ts) d ≡ woken d 0 (t ∷ []) ts
unfolding wait_satisfy_any
wait_test_from-synchronization_event t ts d k e w =
    let d' = record d { signal_state = 0 } in
    wait_test_round t ts d d' (ground arith) (ap (λ x. satisfy_by_type x d t) k) w
    ∙ wait_test_stop ts (woken d' 0 (t ∷ []) ts) refl

-- The mutant, taken by a thread.
abbrev pub owned_by : Dispatcher → ℕ → Dispatcher
owned_by d t = record d {
  signal_state = 0;
  owner_thread = some t;
  listed = true;
  abandoned = false;
  wait_status = if d.abandoned then write d.wait_status t status_abandoned else d.wait_status;
}

pub wait_satisfy_mutant_free :
    (d : Dispatcher) (t : ℕ) → d.signal_state ≡ 1 → wait_satisfy_mutant d t ≡ owned_by d t
unfolding wait_satisfy_mutant
wait_satisfy_mutant_free d t e =
    let taken : decrement d.signal_state ≡ 0 = omega arith in
    ap
      (λ s.
        if s == 0
        then record (owned_by d t) { signal_state = s }
        else record d { signal_state = s })
      taken

-- A free mutant goes to the first thread.
pub wait_test_from-mutant :
    (t : ℕ) (ts : List ℕ) (d : Dispatcher)
    → d.type ≡ mutant
    → d.signal_state ≡ 1
    → d.wait_list ≡ t ∷ ts
    → wait_test_from (t ∷ ts) d ≡ woken (owned_by d t) 0 (t ∷ []) ts
unfolding wait_satisfy_any
wait_test_from-mutant t ts d k e w =
    wait_test_round t ts d (owned_by d t) (ground arith)
      (ap (λ x. satisfy_by_type x d t) k ∙ wait_satisfy_mutant_free d t e) w
    ∙ wait_test_stop ts (woken (owned_by d t) 0 (t ∷ []) ts) refl
