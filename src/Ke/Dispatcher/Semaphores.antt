-- ===== src/Ke/Dispatcher/Semaphores.antt =====
-- The semaphores of semaphore.cpp with the threads that wait for them (wait.cpp).
use nboxkrnl.Prelude.{
  ℕ, zero, suc, ◌+◌, ◌-◌, ◌%◌, ◌^◌, ◌≤◌, ◌<◌, ◌≡◌, refl, ap, ap₂, sym, ◌∙◌, arith, true, false, not,
  ◌&&◌, ◌||◌, List, [], ◌∷◌, leb, ◌==◌, if◌then◌else◌, take, drop, length, Bool-cases, inl, inr,
  ◌⊎◌,
}
use nboxkrnl.Ke.DeviceQueue.{is_empty}
use nboxkrnl.Ke.Dispatcher.{
  semaphore, Dispatcher, returned, raised, semaphore_limit_exceeded, signed_lt, wait_test,
  wait_test_from, release_semaphore,
}
use nboxkrnl.Ke.Dispatcher.Wakes.{woken, woken_nothing, wait_test_from-semaphore}

-- A semaphore within its limit; no thread waits while its count is positive.
pub record IsSemaphore (d : Dispatcher) : Type 0 where
  pub type_is : d.type ≡ semaphore
  pub limit_lt : d.limit < 2 ^ 31
  pub within : d.signal_state ≤ d.limit
  pub no_lost_wake : (d.wait_list ≡ []) ⊎ (d.signal_state ≡ 0)

release_test :
    (s adjustment limit : ℕ)
    → s ≤ limit
    → limit < 2 ^ 31
    → adjustment < 2 ^ 32
    → (signed_lt limit ((s + adjustment) % 2 ^ 32) || signed_lt ((s + adjustment) % 2 ^ 32) s)
      ≡ not (leb (s + adjustment) limit)
release_test s adjustment limit l m a = ground arith

-- The threads that a release wakes: as many as the new count, from the front.
abbrev pub after_release : Dispatcher → ℕ → Dispatcher
after_release d adjustment =
    let count = d.signal_state + adjustment in
    woken d (count - length d.wait_list) (take count d.wait_list) (drop count d.wait_list)

take_of_nil : (n : ℕ) → take n (let l : List ℕ = [] in l) ≡ []
take_of_nil zero = refl
take_of_nil (suc n) = refl

drop_of_nil : (n : ℕ) → drop n (let l : List ℕ = [] in l) ≡ []
drop_of_nil zero = refl
drop_of_nil (suc n) = refl

woken_by_release :
    (d : Dispatcher) (adjustment : ℕ) (l : List ℕ)
    → IsSemaphore d
    → d.wait_list ≡ l
    → d.signal_state + adjustment ≤ d.limit
    → (if d.signal_state == 0 && not (is_empty d.wait_list)
        then wait_test (record d { signal_state = (d.signal_state + adjustment) % 2 ^ 32 })
        else record d { signal_state = (d.signal_state + adjustment) % 2 ^ 32 })
      ≡ after_release d adjustment
unfolding wait_test is_empty
woken_by_release d adjustment [] x w fits =
    let count = d.signal_state + adjustment in
    let limit_lt = x.limit_lt in
    let none_waits : (d.signal_state == 0 && not (is_empty d.wait_list)) ≡ false =
      ap (λ l. d.signal_state == 0 && not (is_empty l)) w ∙ ground arith in
    let state : (d.signal_state + adjustment) % 2 ^ 32 ≡ count = omega arith in
    let left : count ≡ count - 0 = omega arith in
    rw none_waits (
      woken_nothing (record d { signal_state = (d.signal_state + adjustment) % 2 ^ 32 }) count []
        state w
      ∙ ap (λ n. woken d n [] []) left
      ∙ ap₂ (λ g k. woken d (count - 0) g k) (sym (take_of_nil count)) (sym (drop_of_nil count))
      ∙ ap (λ l. woken d (count - length l) (take count l) (drop count l)) (sym w))
woken_by_release d adjustment (t ∷ ts) x w fits =
    let count = d.signal_state + adjustment in
    let limit_lt = x.limit_lt in
    let empty_count : d.signal_state ≡ 0 = elim x.no_lost_wake [
      | inl e ↦ absurd (cons_not_nil (sym w ∙ e))
      | inr e ↦ e
    ] in
    let some_wait : (d.signal_state == 0 && not (is_empty d.wait_list)) ≡ true =
      ap₂ (λ n l. n == 0 && not (is_empty l)) empty_count w in
    let d' = record d { signal_state = (d.signal_state + adjustment) % 2 ^ 32 } in
    rw some_wait (
      ap (λ l. wait_test_from l d') w
      ∙ wait_test_from-semaphore (t ∷ ts) d' count x.type_is (omega arith) w (omega arith)
      ∙ ap (λ l. woken d (count - length l) (take count l) (drop count l)) (sym w))
  where
    cons_not_nil : (t ∷ ts ≡ []) → ⊥
    cons_not_nil e = cc

-- KeReleaseSemaphore of a semaphore whose count is within its limit and 0 while threads wait raises the count and
-- wakes as many of the threads that wait as the count allows, the first ones first, each of which takes one off
-- it; where the new count would go beyond the limit, or the adjustment is negative, it raises the exception and
-- changes nothing.
pub release_semaphore-wakes :
    (d : Dispatcher) (adjustment : ℕ)
    → IsSemaphore d
    → adjustment < 2 ^ 32
    → release_semaphore d adjustment ≡ (
        if leb (d.signal_state + adjustment) d.limit
        then (after_release d adjustment, returned d.signal_state)
        else (d, raised semaphore_limit_exceeded))
unfolding release_semaphore
release_semaphore-wakes d adjustment x a =
    elim (Bool-cases (leb (d.signal_state + adjustment) d.limit)) [
      | inl p ↦
          let test = release_test d.signal_state adjustment d.limit x.within x.limit_lt a in
          rw test (
            rw p (
              ap (λ y. (y, returned d.signal_state))
                (woken_by_release d adjustment d.wait_list x refl (ground arith))))
      | inr p ↦
          let test = release_test d.signal_state adjustment d.limit x.within x.limit_lt a in
          rw test (rw p refl)
    ]
