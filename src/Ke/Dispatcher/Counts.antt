-- ===== src/Ke/Dispatcher/Counts.antt =====
-- Every history of a semaphore of semaphore.cpp: threads begin to wait for it, are taken off its list by a timeout or an
-- APC, and release it.
use nboxkrnl.Prelude.{
  ℕ, zero, suc, ◌+◌, ◌-◌, ◌^◌, ◌≤◌, ◌<◌, ◌≡◌, refl, ap, sym, subst, arith, Bool, true, false, List,
  [], ◌∷◌, leb, take, drop, length, length-append, length-take, Bool-cases, le_cases, inl, inr,
}
use nboxkrnl.Ke.DeviceQueue.{unlink, write}
use nboxkrnl.Ke.Dispatcher.{
  semaphore, Dispatcher, Outcome, returned, raised, is_positive, Timeout, never, zero_length,
  expired, pending, WaitResult, satisfied, user_apc, timed_out, limit_exceeded, waits, begin_wait,
  wait_by_type, wait_for_single_object, initialize_semaphore, release_semaphore, unwait_thread,
}
use nboxkrnl.Ke.Dispatcher.Semaphores.{IsSemaphore, release_semaphore-wakes}

-- A semaphore with the number of waits that it has satisfied and the sum of the adjustments of its releases.
pub record Account : Type 0 where
  pub object : Dispatcher
  pub granted : ℕ
  pub released : ℕ

abbrev pub grants : WaitResult → ℕ
grants (satisfied s) = 1
grants timed_out = 0
grants user_apc = 0
grants limit_exceeded = 0
grants waits = 0

abbrev pub accepted : Outcome → ℕ → ℕ
accepted (returned s) adjustment = adjustment
accepted (raised e) adjustment = 0

unfoldable pub wait : Account → ℕ → Bool → Timeout → Account
wait a t apc_pending timeout =
    let (d, result) = wait_for_single_object a.object t apc_pending timeout in
    record a { object = d; granted = a.granted + grants result }

-- A thread that the release wakes is granted its wait.
unfoldable pub release : Account → ℕ → Account
release a adjustment =
    let (d, outcome) = release_semaphore a.object adjustment in
    record {
      object = d;
      granted = a.granted + (length d.unwaited - length a.object.unwaited);
      released = a.released + accepted outcome adjustment;
    }

pub data Reachable (d : Dispatcher) (count limit : ℕ) : Account → Type 0 where
  initialized :
      Reachable d count limit
        (record { object = initialize_semaphore d count limit; granted = 0; released = 0 })
  waited :
      {a : Account} (t : ℕ) (apc_pending : Bool) (timeout : Timeout)
      → Reachable d count limit a
      → Reachable d count limit (wait a t apc_pending timeout)
  left :
      {a : Account} (t : ℕ)
      → Reachable d count limit a
      → Reachable d count limit (record a { object = unwait_thread a.object t })
  was_released :
      {a : Account} (adjustment : ℕ)
      → adjustment < 2 ^ 32
      → Reachable d count limit a
      → Reachable d count limit (release a adjustment)

pub record IsBalanced (count : ℕ) (a : Account) : Type 0 where
  pub object_is : IsSemaphore a.object
  pub balance : a.object.signal_state + a.granted ≡ count + a.released

begin_wait-IsBalanced :
    (count : ℕ) (a : Account) (d : Dispatcher) (t : ℕ) (apc_pending : Bool) (timeout : Timeout)
    → IsSemaphore d
    → d.signal_state ≡ 0
    → d.signal_state + a.granted ≡ count + a.released
    → let (d', result) = begin_wait d t apc_pending timeout in
      IsBalanced count (record a { object = d'; granted = a.granted + grants result })
unfolding begin_wait
begin_wait-IsBalanced count a d t true never x z b = ground arith
begin_wait-IsBalanced count a d t true zero_length x z b = ground arith
begin_wait-IsBalanced count a d t true expired x z b = ground arith
begin_wait-IsBalanced count a d t true pending x z b = ground arith
begin_wait-IsBalanced count a d t false never x z b = ground arith
begin_wait-IsBalanced count a d t false zero_length x z b = ground arith
begin_wait-IsBalanced count a d t false expired x z b = ground arith
begin_wait-IsBalanced count a d t false pending x z b = ground arith

wait_by_type-IsBalanced :
    (count : ℕ) (a : Account) (d : Dispatcher) (t : ℕ) (apc_pending : Bool) (timeout : Timeout)
    → IsSemaphore d
    → d.signal_state + a.granted ≡ count + a.released
    → let (d', result) = wait_by_type semaphore d t apc_pending timeout in
      IsBalanced count (record a { object = d'; granted = a.granted + grants result })
unfolding wait_by_type
wait_by_type-IsBalanced count a d t apc_pending timeout x b =
    let limit_lt = x.limit_lt in
    let within = x.within in
    elim (Bool-cases (is_positive d.signal_state)) [
      | inl p ↦
          let positive : 0 < d.signal_state = ground arith in
          rw p (record {
            object_is = record {
              type_is = x.type_is;
              limit_lt = limit_lt;
              within = omega arith;
              no_lost_wake = elim x.no_lost_wake [ inl e ↦ inl e | inr e ↦ absurd (omega arith) ];
            };
            balance = omega arith;
          })
      | inr p ↦ rw p (begin_wait-IsBalanced count a d t apc_pending timeout x (ground arith) b)
    ]

wait-IsBalanced :
    (count : ℕ) (a : Account) (t : ℕ) (apc_pending : Bool) (timeout : Timeout)
    → IsBalanced count a
    → IsBalanced count (wait a t apc_pending timeout)
unfolding wait wait_for_single_object
wait-IsBalanced count a t apc_pending timeout x =
    let y = x.object_is in
    let d = record (a.object) { wait_status = write a.object.wait_status t 0 } in
    subst
      (λ type. IsBalanced count (record a {
        object = (wait_by_type type d t apc_pending timeout).0;
        granted = a.granted + grants (wait_by_type type d t apc_pending timeout).1;
      }))
      (sym y.type_is)
      (wait_by_type-IsBalanced count a d t apc_pending timeout
        (record {
          type_is = y.type_is;
          limit_lt = y.limit_lt;
          within = y.within;
          no_lost_wake = y.no_lost_wake;
        })
        x.balance)

drop_all : (n : ℕ) (l : List ℕ) → length l ≤ n → drop n l ≡ []
drop_all zero [] h = refl
drop_all zero (t ∷ ts) h = absurd (omega arith)
drop_all (suc n) [] h = refl
drop_all (suc n) (t ∷ ts) h = drop_all n ts (omega arith)

release-IsBalanced :
    (count : ℕ) (a : Account) (adjustment : ℕ)
    → adjustment < 2 ^ 32
    → IsBalanced count a
    → IsBalanced count (release a adjustment)
unfolding release
release-IsBalanced count a adjustment b x =
    let y = x.object_is in
    let d = a.object in
    let c = d.signal_state + adjustment in
    let balance = x.balance in
    rw (release_semaphore-wakes d adjustment y b) (elim (Bool-cases (leb c d.limit)) [
      | inl p ↦
          let fits : c ≤ d.limit = ground arith in
          let size = length-append d.unwaited (take c d.wait_list) in
          let woken_size = length-take c d.wait_list in
          rw p (record {
            object_is = record {
              type_is = y.type_is;
              limit_lt = y.limit_lt;
              within = omega arith;
              no_lost_wake = elim (le_cases (length d.wait_list) c) [
                | inl all ↦ inl (drop_all c d.wait_list all)
                | inr some_left ↦ inr (omega arith)
              ];
            };
            balance = omega arith;
          })
      | inr p ↦ rw p (record { object_is = y; balance = omega arith })
    ])

left-IsBalanced :
    (count : ℕ) (a : Account) (t : ℕ)
    → IsBalanced count a
    → IsBalanced count (record a { object = unwait_thread a.object t })
unfolding unwait_thread unlink
left-IsBalanced count a t x =
    let y = x.object_is in
    record {
      object_is = record {
        type_is = y.type_is;
        limit_lt = y.limit_lt;
        within = y.within;
        no_lost_wake = elim y.no_lost_wake [ inl e ↦ inl (ap (unlink t) e) | inr e ↦ inr e ];
      };
      balance = x.balance;
    }

-- In every history of a semaphore that begins with at most its limit, which is below 2 ^ 31, the count and the
-- waits that were granted together are what the semaphore began with and what releases have added; the count stays
-- within the limit, and is 0 while threads wait.
pub Reachable-IsBalanced :
    (d : Dispatcher) (count limit : ℕ) (a : Account)
    → count ≤ limit
    → limit < 2 ^ 31
    → Reachable d count limit a
    → IsBalanced count a
unfolding initialize_semaphore
Reachable-IsBalanced d count limit _ l m initialized = record {
  object_is = record { type_is = refl; limit_lt = m; within = l; no_lost_wake = inl refl };
  balance = omega arith;
}
Reachable-IsBalanced d count limit _ l m (waited {a = a} t apc_pending timeout r) =
    wait-IsBalanced count a t apc_pending timeout (Reachable-IsBalanced d count limit a l m r)
Reachable-IsBalanced d count limit _ l m (left {a = a} t r) =
    left-IsBalanced count a t (Reachable-IsBalanced d count limit a l m r)
Reachable-IsBalanced d count limit _ l m (was_released {a = a} adjustment b r) =
    release-IsBalanced count a adjustment b (Reachable-IsBalanced d count limit a l m r)
