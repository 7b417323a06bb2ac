-- ===== src/Ke/Dispatcher/Exclusion.antt =====
-- A mutant of mutant.cpp excludes all threads but its owner, in every history.
use nboxkrnl.Prelude.{
  ℕ, ◌-◌, ◌≡◌, ◌≢◌, refl, ap, sym, ◌∙◌, subst, arith, Bool, true, false, not, if◌then◌else◌, List,
  [], ◌∷◌, ◌++◌, ◌==◌, drop, length, Bool-cases, inl, inr,
}
use nboxkrnl.Ke.DeviceQueue.{is_empty, unlink, write}
use nboxkrnl.Ke.Dispatcher.{
  mutant, Dispatcher, is_positive, is_thread, Timeout, wait_by_type, wait_for_single_object,
  initialize_mutant, released, release_mutant, unwait_thread,
}
use nboxkrnl.Ke.Dispatcher.Mutants.{freed, handed_over, released_last, release_mutant-hands_over}
use nboxkrnl.Ke.Dispatcher.Ownership.{
  Ownership, grant, new_unwaited, after_wait, wait, release, Reachable, initialized,
  initialized_owned, waited, left, was_released, abandoned, IsExclusive, IsHeld-wait_list,
  owned_by-IsExclusive, wait_by_type-IsExclusive,
}

drop_append : (xs ys : List ℕ) → drop (length xs) (xs ++ ys) ≡ ys
drop_append [] ys = refl
drop_append (x ∷ xs) ys = drop_append xs ys

none_new : (xs : List ℕ) → drop (length xs) xs ≡ []
none_new [] = refl
none_new (x ∷ xs) = none_new xs

-- After the last release the first thread that waits is the owner, or the mutant is free.
handed_over-IsExclusive :
    (d : Dispatcher) (holds : ℕ → ℕ) (l : List ℕ)
    → d.type ≡ mutant
    → d.wait_list ≡ l
    → ((u : ℕ) → holds u ≡ 0)
    → IsExclusive (record {
      object = handed_over d l;
      holds = grant (new_unwaited d (handed_over d l)) holds;
    })
handed_over-IsExclusive d holds [] k w z =
    rw (none_new d.unwaited)
      (inl (record { type_is = k; owner_is = refl; signal_is = refl; none_waits = w }, z))
handed_over-IsExclusive d holds (t ∷ ts) k w z =
    rw (drop_append d.unwaited (t ∷ []))
      (owned_by-IsExclusive (freed d) holds t ts (d.unwaited ++ (t ∷ [])) k z)

write_self : (holds : ℕ → ℕ) (t n : ℕ) → write holds t n t ≡ n
write_self holds t n = ground arith

cleared :
    (holds : ℕ → ℕ) (t n : ℕ)
    → n ≡ 0
    → ((u : ℕ) → u ≢ t → holds u ≡ 0)
    → (u : ℕ) → write holds t n u ≡ 0
cleared holds t n e z u = elim (Bool-cases (u == t)) [
  | inl same ↦ rw same e
  | inr other ↦ rw other (z u (ground arith))
]

release-IsExclusive : (a : Ownership) (t : ℕ) → IsExclusive a → IsExclusive (release a t false)
unfolding release
release-IsExclusive a t (inl (x, z)) =
    let d = a.object in
    let not_owner : is_thread d.owner_thread t ≡ false = ap (λ o. is_thread o t) x.owner_is in
    unfold release_mutant in (rw not_owner (inl (x, z)))
release-IsExclusive a t (inr (owner, x, z)) =
    let d = a.object in
    let taken = x.taken in
    let within = x.within in
    rw (release_mutant-hands_over d t owner (a.holds owner) x) (elim (Bool-cases (owner == t)) [
      | inr other ↦ rw other (inr (owner, x, z))
      | inl ours ↦
          let same : owner ≡ t = ground arith in
          elim (Bool-cases (a.holds owner == 1)) [
            | inl last ↦
                let one : a.holds t - 1 ≡ 0 = ground (arith, ap a.holds same) in
                rw ours (
                  rw last (
                    handed_over-IsExclusive d (write a.holds t (a.holds t - 1)) d.wait_list
                      x.type_is refl
                      (cleared a.holds t (a.holds t - 1) one (λ u n. z u (λ e. n (e ∙ same))))))
            | inr deeper ↦
                let less : write a.holds t (a.holds t - 1) owner ≡ a.holds owner - 1 =
                  ground (arith, ap a.holds same) in
                rw ours (
                  rw deeper (
                    rw (none_new d.unwaited) (
                      inr (
                        owner,
                        record {
                          type_is = x.type_is;
                          owner_is = x.owner_is;
                          signal_is = rw less refl;
                          taken = ground (arith, less);
                          within = omega (arith, less);
                          listed_is = x.listed_is;
                        },
                        λ u n. ground (arith, z u n),
                      ))))
          ]
    ])

abandon-IsExclusive : (a : Ownership) (t : ℕ) → IsExclusive a → IsExclusive (release a t true)
unfolding release release_mutant is_empty
abandon-IsExclusive a t (inl (x, z)) =
    let d = record (a.object) { abandoned = true; signal_state = 1 } in
    let listed_after = if is_positive a.object.signal_state then a.object.listed else false in
    let empty : not (is_empty a.object.wait_list) ≡ false =
      ap (λ l. not (is_empty l)) x.none_waits in
    unfold released in
    (rw empty (
      rw (none_new a.object.unwaited) (
        inl (
          record {
            type_is = x.type_is;
            owner_is = refl;
            signal_is = refl;
            none_waits = x.none_waits;
          },
          λ u. refl,
        ))))
abandon-IsExclusive a t (inr (owner, x, z)) =
    let d = record (a.object) { abandoned = true } in
    let taken = x.taken in
    let within = x.within in
    let signal_is = x.signal_is in
    let old : is_positive a.object.signal_state ≡ false = ground arith in
    rw (released_last d a.object.signal_state a.object.wait_list x.type_is refl old)
      (handed_over-IsExclusive d (λ u. 0) a.object.wait_list x.type_is refl (λ u. refl))

wait-IsExclusive :
    (a : Ownership) (t : ℕ) (apc_pending : Bool) (timeout : Timeout)
    → IsExclusive a
    → IsExclusive (wait a t apc_pending timeout)
unfolding wait wait_for_single_object
wait-IsExclusive a t apc_pending timeout x =
    let d = record (a.object) { wait_status = write a.object.wait_status t 0 } in
    let type_is : a.object.type ≡ mutant = elim x [
      | inl (y, z) ↦ y.type_is
      | inr (o, y, z) ↦ y.type_is
    ] in
    subst
      (λ type. IsExclusive (record {
        object = (wait_by_type type d t apc_pending timeout).0;
        holds = after_wait (wait_by_type type d t apc_pending timeout).1 a.holds t;
      }))
      (sym type_is)
      (wait_by_type-IsExclusive d a.holds t apc_pending timeout (elim x [
        | inl (y, z) ↦ inl (
          record {
            type_is = y.type_is;
            owner_is = y.owner_is;
            signal_is = y.signal_is;
            none_waits = y.none_waits;
          },
          z,
        )
        | inr (o, y, z) ↦ inr (
          o,
          record {
            type_is = y.type_is;
            owner_is = y.owner_is;
            signal_is = y.signal_is;
            taken = y.taken;
            within = y.within;
            listed_is = y.listed_is;
          },
          z,
        )
      ]))

left-IsExclusive :
    (a : Ownership) (t : ℕ)
    → IsExclusive a
    → IsExclusive (record a { object = unwait_thread a.object t })
unfolding unwait_thread unlink
left-IsExclusive a t (inl (x, z)) = inl (
  record {
    type_is = x.type_is;
    owner_is = x.owner_is;
    signal_is = x.signal_is;
    none_waits = ap (unlink t) x.none_waits;
  },
  z,
)
left-IsExclusive a t (inr (owner, x, z)) = inr (
  owner,
  IsHeld-wait_list a.object owner (a.holds owner) (unlink t a.object.wait_list)
      (a.object.unwaited ++ (t ∷ [])) x,
  z,
)

-- In every history of a mutant, in which any thread may also release it as abandoned, it is free, and then no
-- thread holds it and none waits for it, or one thread owns it: that thread holds it as often as the signal state
-- says, at most 2 ^ 31 + 1 times, and no other thread holds it. A thread holds it once for each wait that was
-- satisfied and not yet released since the mutant was last released as abandoned, which takes it from its owner
-- without a notice.
pub Reachable-IsExclusive : (d : Dispatcher) (a : Ownership) → Reachable d a → IsExclusive a
unfolding initialize_mutant
Reachable-IsExclusive d _ (initialized t) =
    inl (record { type_is = refl; owner_is = refl; signal_is = refl; none_waits = refl }, λ u. refl)
Reachable-IsExclusive d _ (initialized_owned t) =
    let one = write_self (λ _. 0) t 1 in
    inr (
      t,
      record {
        type_is = refl;
        owner_is = refl;
        signal_is = rw one refl;
        taken = omega (arith, one);
        within = omega (arith, one);
        listed_is = refl;
      },
      λ u n. ground (arith, n),
    )
Reachable-IsExclusive d _ (waited {a = a} t apc_pending timeout r) =
    wait-IsExclusive a t apc_pending timeout (Reachable-IsExclusive d a r)
Reachable-IsExclusive d _ (left {a = a} t r) = left-IsExclusive a t (Reachable-IsExclusive d a r)
Reachable-IsExclusive d _ (was_released {a = a} t r) =
    release-IsExclusive a t (Reachable-IsExclusive d a r)
Reachable-IsExclusive d _ (abandoned {a = a} t r) =
    abandon-IsExclusive a t (Reachable-IsExclusive d a r)
