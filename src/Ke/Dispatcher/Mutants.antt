-- ===== src/Ke/Dispatcher/Mutants.antt =====
-- The mutants of mutant.cpp with the threads that wait for them (wait.cpp).
use nboxkrnl.Prelude.{
  ℕ, ◌+◌, ◌-◌, ◌%◌, ◌^◌, ◌≤◌, ◌<◌, ◌≡◌, refl, ap, ◌∙◌, arith, true, false, not, none, some, List,
  [], ◌∷◌, ◌==◌, if◌then◌else◌, Bool-cases, inl, inr, ◌⊎◌,
}
use nboxkrnl.Prelude.Words.{increment}
use nboxkrnl.Ke.DeviceQueue.{is_empty}
use nboxkrnl.Ke.Dispatcher.{
  mutant, Dispatcher, returned, raised, mutant_not_owned, mutant_abandoned, is_positive, is_thread,
  wait_test, wait_test_from, released, release_mutant,
}
use nboxkrnl.Ke.Dispatcher.Wakes.{woken, owned_by, wait_test_from-mutant}

-- The signal state of a mutant that its owner has taken `depth` times.
abbrev pub signal_at : ℕ → ℕ
signal_at depth = (2 ^ 32 + 1 - depth) % 2 ^ 32

abbrev pub deepest : ℕ
deepest = 2 ^ 31 + 1

-- A mutant is free, and then no thread waits for it, or held by one thread.
pub record IsFree (d : Dispatcher) : Type 0 where
  pub type_is : d.type ≡ mutant
  pub owner_is : d.owner_thread ≡ none
  pub signal_is : d.signal_state ≡ 1
  pub none_waits : d.wait_list ≡ []

pub record IsHeld (d : Dispatcher) (owner depth : ℕ) : Type 0 where
  pub type_is : d.type ≡ mutant
  pub owner_is : d.owner_thread ≡ some owner
  pub signal_is : d.signal_state ≡ signal_at depth
  pub taken : 0 < depth
  pub within : depth ≤ deepest
  pub listed_is : d.listed ≡ true

abbrev pub IsMutant : Dispatcher → Type 0
IsMutant d = IsFree d ⊎ ((owner : ℕ) × (depth : ℕ) × IsHeld d owner depth)

is_thread-true : (o t : ℕ) → is_thread (some o) t ≡ true → o ≡ t
is_thread-true o t p = ground arith

-- The mutant between a last release and the next owner.
abbrev pub freed : Dispatcher → Dispatcher
freed d = record d { signal_state = 1; listed = false; owner_thread = none }

-- The mutant after the last release, by the threads that wait for it.
abbrev pub handed_over : Dispatcher → List ℕ → Dispatcher
handed_over d [] = freed d
handed_over d (t ∷ ts) = woken (owned_by (freed d) t) 0 (t ∷ []) ts

pub released_last :
    (d : Dispatcher) (old_state : ℕ) (l : List ℕ)
    → d.type ≡ mutant
    → d.wait_list ≡ l
    → is_positive old_state ≡ false
    → released (record d { signal_state = 1 }) old_state ≡ handed_over d l
unfolding released wait_test is_empty
released_last d old [] k w p =
    let empty : not (is_empty d.wait_list) ≡ false = ap (λ l. not (is_empty l)) w in
    rw p (rw empty refl)
released_last d old (t ∷ ts) k w p =
    let waiting : not (is_empty d.wait_list) ≡ true = ap (λ l. not (is_empty l)) w in
    rw p (
      rw waiting
        (ap (λ l. wait_test_from l (freed d)) w ∙ wait_test_from-mutant t ts (freed d) k refl w))

-- `KeReleaseMutant` of a mutant that is held, not as abandoned: for another thread than the owner it raises an
-- exception and changes nothing; for the owner it undoes one wait, and the last one gives the mutant to the
-- first thread that waits, or frees it where none does.
pub release_mutant-hands_over :
    (d : Dispatcher) (t owner depth : ℕ)
    → IsHeld d owner depth
    → release_mutant d t false ≡ (
        if owner == t
        then (
          if depth == 1
              then handed_over d d.wait_list
              else record d { signal_state = signal_at (depth - 1) },
          returned d.signal_state,
        )
        else (d, raised (if d.abandoned then mutant_abandoned else mutant_not_owned)))
unfolding release_mutant
release_mutant-hands_over d t owner depth x =
    let owned : is_thread d.owner_thread t ≡ (owner == t) = ap (λ o. is_thread o t) x.owner_is in
    let taken = x.taken in
    let within = x.within in
    let signal_is = x.signal_is in
    elim (Bool-cases (owner == t)) [
      | inr other ↦ rw owned (rw other refl)
      | inl ours ↦ elim (Bool-cases (depth == 1)) [
        | inl last ↦
            let was : d.signal_state ≡ 0 = ground arith in
            rw owned (
              rw ours (
                rw last (
                  ap (λ y. (y, returned d.signal_state))
                    (ap (λ n. released (record d { signal_state = increment n }) n) was
                      ∙ released_last d 0 d.wait_list x.type_is refl refl))))
        | inr deeper ↦
            let next : increment d.signal_state ≡ signal_at (depth - 1) = ground arith in
            let not_free : (signal_at (depth - 1) == 1) ≡ false = ground arith in
            rw owned (
              rw ours (
                rw deeper (
                  ap (λ y. (y, returned d.signal_state))
                    (ap (λ n. released (record d { signal_state = n }) d.signal_state) next
                      ∙ unfold released in (rw not_free refl)))))
      ]
    ]
