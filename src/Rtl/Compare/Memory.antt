-- ===== src/Rtl/Compare/Memory.antt =====
-- `RtlCompareMemory` and `RtlCompareMemoryUlong` of nboxkrnl/rtl/compare.cpp.
use nboxkrnl.Prelude.{
  ℕ, zero, suc, ◌*◌, ◌/◌, ◌≤◌, ◌≡◌, ◌≢◌, ◌⊎◌, inl, inr, refl, ap, arith, some, List, [], ◌∷◌, ◌==◌,
  Bool-cases, length, get_elem?, take, replicate,
}
use nboxkrnl.Rtl.Compare.{compare_memory, count_pattern, compare_memory_ulong}

step_further {ℓ} : {r n : ℕ} {P : Type ℓ} → (r ≡ n) ⊎ P → (suc r ≡ suc n) ⊎ P
step_further (inl e) = inl (ap suc e)
step_further (inr p) = inr p

-- For blocks of at least `n` bytes the result of `RtlCompareMemory` is at most `n`. The blocks agree on
-- that many bytes, and where it is less than `n` the next bytes differ.
compare_memory-take :
    (xs ys : List ℕ) (n : ℕ)
    → n ≤ length xs
    → n ≤ length ys
    → (compare_memory xs ys n ≤ n)
      × (take (compare_memory xs ys n) xs ≡ take (compare_memory xs ys n) ys)
      × ((compare_memory xs ys n ≡ n)
          ⊎ (get_elem? xs (compare_memory xs ys n) ≢ get_elem? ys (compare_memory xs ys n)))
unfolding compare_memory
compare_memory-take [] ys n p q = ground arith
compare_memory-take (x ∷ xs) [] n p q = ground arith
compare_memory-take (x ∷ xs) (y ∷ ys) zero p q = ground arith
compare_memory-take (x ∷ xs) (y ∷ ys) (suc n) p q = elim (Bool-cases (x == y)) [
  | inl e ↦
      let (bound, same, differ) = compare_memory-take xs ys n (omega arith) (omega arith) in
      rw ((e, compare_memory)) (ground arith, ground (arith, same), step_further differ)
  | inr e ↦ rw ((e, compare_memory)) (ground arith, refl, inr (λ i. ground arith))
]

count_pattern-take :
    (pattern : ℕ) (xs : List ℕ) (n : ℕ)
    → n ≤ length xs
    → (count_pattern pattern xs n ≤ n)
      × (take (count_pattern pattern xs n) xs ≡ replicate (count_pattern pattern xs n) pattern)
      × ((count_pattern pattern xs n ≡ n)
          ⊎ (get_elem? xs (count_pattern pattern xs n) ≢ some pattern))
unfolding count_pattern
count_pattern-take pattern [] n p = ground arith
count_pattern-take pattern (x ∷ xs) zero p = ground arith
count_pattern-take pattern (x ∷ xs) (suc n) p = elim (Bool-cases (x == pattern)) [
  | inl e ↦
      let (bound, same, differ) = count_pattern-take pattern xs n (omega arith) in
      rw ((e, count_pattern)) (ground arith, ground (arith, same), step_further differ)
  | inr e ↦ rw ((e, count_pattern)) (ground arith, refl, inr (λ i. ground arith))
]

-- For a block of at least `length / 4` ULONGs the result of `RtlCompareMemoryUlong` is four times a
-- number of ULONGs that all have the pattern. Where there are fewer than `length / 4` of them, the next
-- one is another.
compare_memory_ulong-replicate :
    (source : List ℕ) (bytes pattern : ℕ)
    → bytes / 4 ≤ length source
    → (k : ℕ) × (compare_memory_ulong source bytes pattern ≡ k * 4)
      × (k ≤ bytes / 4)
      × (take k source ≡ replicate k pattern)
      × ((k ≡ bytes / 4) ⊎ (get_elem? source k ≢ some pattern))
unfolding compare_memory_ulong
compare_memory_ulong-replicate source bytes pattern h =
    let (bound, same, differ) = count_pattern-take pattern source (bytes / 4) h in
    (count_pattern pattern source (bytes / 4), refl, bound, same, differ)
