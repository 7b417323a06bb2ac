-- ===== src/Ke/Dispatcher/Ownership.antt =====
-- Every history of a mutant of mutant.cpp: threads wait for it, stop waiting, and release it, as abandoned too, which
-- KeReleaseMutant lets any thread do and ExpDeleteMutant of nboxkrnl/ex/mutant.cpp does.
use nboxkrnl.Prelude.{
  ℕ, ◌+◌, ◌-◌, ◌<◌, ◌≡◌, ◌≢◌, refl, ap, sym, ◌∙◌, arith, Bool, true, false, ◌||◌, List, [], ◌∷◌,
  ◌++◌, ◌==◌, if◌then◌else◌, drop, length, Bool-cases, inl, inr, ◌⊎◌,
}
use nboxkrnl.Prelude.Words.{decrement}
use nboxkrnl.Ke.DeviceQueue.{write}
use nboxkrnl.Ke.Dispatcher.{
  mutant, Dispatcher, Outcome, returned, raised, is_positive, is_thread, mutant_limit,
  wait_satisfy_mutant, Timeout, never, zero_length, expired, pending, WaitResult, satisfied,
  timed_out, user_apc, limit_exceeded, waits, begin_wait, wait_by_type, wait_for_single_object,
  initialize_mutant, release_mutant, unwait_thread,
}
use nboxkrnl.Ke.Dispatcher.Wakes.{owned_by, wait_satisfy_mutant_free}
use nboxkrnl.Ke.Dispatcher.Mutants.{signal_at, deepest, IsFree, IsHeld}

-- A mutant with the number of waits of each thread that were satisfied and not yet released, since the mutant was
-- last released as abandoned.
pub record Ownership : Type 0 where
  pub object : Dispatcher
  pub holds : ℕ → ℕ

abbrev pub grant : List ℕ → (ℕ → ℕ) → ℕ → ℕ
grant [] holds = holds
grant (t ∷ ts) holds = grant ts (write holds t (holds t + 1))

-- The threads that a step has given to the scheduler.
abbrev pub new_unwaited : Dispatcher → Dispatcher → List ℕ
new_unwaited d d' = drop (length d.unwaited) d'.unwaited

abbrev pub after_wait : WaitResult → (ℕ → ℕ) → ℕ → ℕ → ℕ
after_wait (satisfied s) holds t = write holds t (holds t + 1)
after_wait timed_out holds t = holds
after_wait user_apc holds t = holds
after_wait limit_exceeded holds t = holds
after_wait waits holds t = holds

abbrev pub after_outcome : Outcome → List ℕ → (ℕ → ℕ) → (ℕ → ℕ) → ℕ → ℕ
after_outcome (returned s) new holds before = grant new holds
after_outcome (raised e) new holds before = before

unfoldable pub wait : Ownership → ℕ → Bool → Timeout → Ownership
wait a t apc_pending timeout =
    let (d, result) = wait_for_single_object a.object t apc_pending timeout in
    record { object = d; holds = after_wait result a.holds t }

-- A thread releases the mutant once; a release as abandoned, by any thread, ends whatever any thread holds of it.
unfoldable pub release : Ownership → ℕ → Bool → Ownership
release a t abandoned =
    let (d, outcome) = release_mutant a.object t abandoned in
    record {
      object = d;
      holds =
          after_outcome outcome (new_unwaited a.object d)
            (if abandoned then (λ u. 0) else write a.holds t (a.holds t - 1)) a.holds;
    }

pub data Reachable (d : Dispatcher) : Ownership → Type 0 where
  initialized :
      (t : ℕ) → Reachable d (record { object = initialize_mutant d t false; holds = λ _. 0 })
  initialized_owned :
      (t : ℕ)
      → Reachable d (record { object = initialize_mutant d t true; holds = write (λ _. 0) t 1 })
  waited :
      {a : Ownership} (t : ℕ) (apc_pending : Bool) (timeout : Timeout)
      → Reachable d a
      → Reachable d (wait a t apc_pending timeout)
  left :
      {a : Ownership} (t : ℕ)
      → Reachable d a
      → Reachable d (record a { object = unwait_thread a.object t })
  was_released : {a : Ownership} (t : ℕ) → Reachable d a → Reachable d (release a t false)
  abandoned : {a : Ownership} (t : ℕ) → Reachable d a → Reachable d (release a t true)

-- Free, and then no thread holds it and none waits; or held by one thread, as often as the signal state says, and by
-- no other.
abbrev pub IsExclusive : Ownership → Type 0
IsExclusive a =
    IsFree a.object × ((t : ℕ) → a.holds t ≡ 0)
    ⊎ ((owner : ℕ) × IsHeld a.object owner (a.holds owner) × ((t : ℕ) → t ≢ owner → a.holds t ≡ 0))

pub IsHeld-wait_list :
    (d : Dispatcher) (owner depth : ℕ) (waiting new : List ℕ)
    → IsHeld d owner depth
    → IsHeld (record d { wait_list = waiting; unwaited = new }) owner depth
IsHeld-wait_list d owner depth waiting new x = record {
  type_is = x.type_is;
  owner_is = x.owner_is;
  signal_is = x.signal_is;
  taken = x.taken;
  within = x.within;
  listed_is = x.listed_is;
}

begin_wait-IsExclusive :
    (d : Dispatcher) (holds : ℕ → ℕ) (t owner : ℕ) (apc_pending : Bool) (timeout : Timeout)
    → IsHeld d owner (holds owner)
    → ((u : ℕ) → u ≢ owner → holds u ≡ 0)
    → let (d', result) = begin_wait d t apc_pending timeout in
      IsExclusive (record { object = d'; holds = after_wait result holds t })
unfolding begin_wait
begin_wait-IsExclusive d holds t owner true never x z = inr (owner, x, z)
begin_wait-IsExclusive d holds t owner true zero_length x z = inr (owner, x, z)
begin_wait-IsExclusive d holds t owner true expired x z = inr (owner, x, z)
begin_wait-IsExclusive d holds t owner true pending x z = inr (owner, x, z)
begin_wait-IsExclusive d holds t owner false never x z =
    inr (owner, IsHeld-wait_list d owner (holds owner) (d.wait_list ++ (t ∷ [])) d.unwaited x, z)
begin_wait-IsExclusive d holds t owner false zero_length x z = inr (owner, x, z)
begin_wait-IsExclusive d holds t owner false expired x z = inr (owner, x, z)
begin_wait-IsExclusive d holds t owner false pending x z =
    inr (owner, IsHeld-wait_list d owner (holds owner) (d.wait_list ++ (t ∷ [])) d.unwaited x, z)

-- The first grant to a thread, where no thread holds the mutant.
pub owned_by-IsExclusive :
    (d : Dispatcher) (holds : ℕ → ℕ) (t : ℕ) (waiting : List ℕ) (new : List ℕ)
    → d.type ≡ mutant
    → ((u : ℕ) → holds u ≡ 0)
    → IsExclusive (record {
      object = record (owned_by d t) { wait_list = waiting; unwaited = new };
      holds = write holds t (holds t + 1);
    })
owned_by-IsExclusive d holds t waiting new k z =
    let one : write holds t (holds t + 1) t ≡ 1 = ground (arith, z t) in
    inr (
      t,
      record {
        type_is = k;
        owner_is = refl;
        signal_is = rw one refl;
        taken = omega arith;
        within = omega arith;
        listed_is = refl;
      },
      λ u n. ground (arith, z u, n),
    )

-- A further wait of the owner.
wait_satisfy_mutant_held :
    (d : Dispatcher) (owner depth : ℕ)
    → IsHeld d owner depth
    → (d.signal_state == mutant_limit) ≡ false
    → (depth < deepest)
      × (wait_satisfy_mutant d owner ≡ record d { signal_state = signal_at (depth + 1) })
unfolding wait_satisfy_mutant
wait_satisfy_mutant_held d owner depth x p =
    let taken = x.taken in
    let within = x.within in
    let signal_is = x.signal_is in
    let below : depth < deepest = ground arith in
    let next : decrement d.signal_state ≡ signal_at (depth + 1) = omega arith in
    let nonzero : (signal_at (depth + 1) == 0) ≡ false = ground arith in
    (
      below,
      ap
            (λ s.
              if s == 0
              then record (owned_by d owner) { signal_state = s }
              else record d { signal_state = s })
            next
          ∙ rw nonzero refl,
    )

pub wait_by_type-IsExclusive :
    (d : Dispatcher) (holds : ℕ → ℕ) (t : ℕ) (apc_pending : Bool) (timeout : Timeout)
    → IsExclusive (record { object = d; holds = holds })
    → let (d', result) = wait_by_type mutant d t apc_pending timeout in
      IsExclusive (record { object = d'; holds = after_wait result holds t })
unfolding wait_by_type
wait_by_type-IsExclusive d holds t apc_pending timeout (inl (x, z)) =
    let signal_is = x.signal_is in
    let available : (is_positive d.signal_state || is_thread d.owner_thread t) ≡ true =
      ground arith in
    let room : (d.signal_state == mutant_limit) ≡ false = ground arith in
    rw available (
      rw room (
        rw (wait_satisfy_mutant_free d t signal_is)
          (owned_by-IsExclusive d holds t d.wait_list d.unwaited x.type_is z)))
wait_by_type-IsExclusive d holds t apc_pending timeout (inr (owner, x, z)) =
    let taken = x.taken in
    let within = x.within in
    let signal_is = x.signal_is in
    let test : (is_positive d.signal_state || is_thread d.owner_thread t) ≡ (owner == t) =
      ap (λ o. is_positive d.signal_state || is_thread o t) x.owner_is ∙ ground arith in
    elim (Bool-cases (owner == t)) [
      | inr other ↦
          rw test (rw other (begin_wait-IsExclusive d holds t owner apc_pending timeout x z))
      | inl ours ↦ elim (Bool-cases (d.signal_state == mutant_limit)) [
        | inl full ↦ rw test (rw ours (rw full (inr (owner, x, z))))
        | inr room ↦
            let same : owner ≡ t = ground arith in
            let (below, deeper) = wait_satisfy_mutant_held d owner (holds owner) x room in
            let more : write holds t (holds t + 1) owner ≡ holds owner + 1 =
              ground (arith, ap holds same) in
            rw test (
              rw ours (
                rw room (
                  rw (ap (wait_satisfy_mutant d) (sym same) ∙ deeper) (
                    inr (
                      owner,
                      record {
                        type_is = x.type_is;
                        owner_is = x.owner_is;
                        signal_is = rw more refl;
                        taken = omega (arith, more);
                        within = omega (arith, more);
                        listed_is = x.listed_is;
                      },
                      λ u n. ground (arith, z u n),
                    )))))
      ]
    ]
