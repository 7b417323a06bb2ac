-- ===== src/Xc/Sha/Functions.antt =====
-- The functions of a round of sha.cpp, and the round, are those of the standard.
use Prim.Native.Nat.{min, max, bit_and, bit_or, bit_xor}
use nboxkrnl.Prelude.{
  ℕ, zero, suc, ◌+◌, ◌*◌, ◌/◌, ◌%◌, ◌^◌, ◌≤◌, ◌≡◌, refl, ap, ◌∙◌, arith, ltb, Bool-cases, inl, inr,
}
use nboxkrnl.Xc.Sha.{Registers, rol, f1, f2, f3, f4, mix, round}
use nboxkrnl.Xc.Sha.Reference.{
  each_bit, choice, parity, majority, on_words, function_at, constant_at, rotate, step_at,
}
use nboxkrnl.Xc.Sha.Bits.{bit_and-halves, bit_or-halves, bit_xor-halves}

pub rol_one : (x : ℕ) → rol x 1 ≡ rotate 1 x
unfolding rol
rol_one x = omega arith

rol_five : (x : ℕ) → rol x 5 ≡ rotate 5 x
unfolding rol
rol_five x = omega arith

rol_thirty : (x : ℕ) → rol x 30 ≡ rotate 30 x
unfolding rol
rol_thirty x = omega arith

-- Each function, one bit at a time.
f1_halves : (x y z : ℕ) → f1 x y z ≡ f1 (x / 2) (y / 2) (z / 2) * 2 + choice (x % 2) (y % 2) (z % 2)
unfolding f1
f1_halves x y z =
    let u = bit_xor y z in
    let w = bit_and x u in
    let a = bit_xor-halves y z in
    let u_half : u / 2 ≡ bit_xor (y / 2) (z / 2) = omega (arith, a) in
    let u_bit : u % 2 ≡ (y % 2 + z % 2) % 2 = omega (arith, a) in
    let b = bit_and-halves x u ∙ ap (λ k. bit_and (x / 2) k * 2 + min (x % 2) (u % 2)) u_half in
    let w_half : w / 2 ≡ bit_and (x / 2) (bit_xor (y / 2) (z / 2)) = omega (arith, b) in
    let w_bit : w % 2 ≡ min (x % 2) (u % 2) = omega (arith, b) in
    let c = bit_xor-halves z w ∙ ap (λ k. bit_xor (z / 2) k * 2 + (z % 2 + w % 2) % 2) w_half in
    let bits : (z % 2 + w % 2) % 2 ≡ choice (x % 2) (y % 2) (z % 2) =
      ground (arith, w_bit, u_bit) in
    c ∙ ap (λ k. bit_xor (z / 2) (bit_and (x / 2) (bit_xor (y / 2) (z / 2))) * 2 + k) bits

f2_halves : (x y z : ℕ) → f2 x y z ≡ f2 (x / 2) (y / 2) (z / 2) * 2 + parity (x % 2) (y % 2) (z % 2)
unfolding f2
f2_halves x y z =
    let u = bit_xor x y in
    let a = bit_xor-halves x y in
    let u_half : u / 2 ≡ bit_xor (x / 2) (y / 2) = omega (arith, a) in
    let u_bit : u % 2 ≡ (x % 2 + y % 2) % 2 = omega (arith, a) in
    let c = bit_xor-halves u z ∙ ap (λ k. bit_xor k (z / 2) * 2 + (u % 2 + z % 2) % 2) u_half in
    let bits : (u % 2 + z % 2) % 2 ≡ parity (x % 2) (y % 2) (z % 2) = omega (arith, u_bit) in
    c ∙ ap (λ k. bit_xor (bit_xor (x / 2) (y / 2)) (z / 2) * 2 + k) bits

f3_halves :
    (x y z : ℕ) → f3 x y z ≡ f3 (x / 2) (y / 2) (z / 2) * 2 + majority (x % 2) (y % 2) (z % 2)
unfolding f3
f3_halves x y z =
    let a = bit_and x y in
    let o = bit_or x y in
    let b = bit_and z o in
    let a_half : a / 2 ≡ bit_and (x / 2) (y / 2) = omega (arith, bit_and-halves x y) in
    let a_bit : a % 2 ≡ min (x % 2) (y % 2) = omega (arith, bit_and-halves x y) in
    let o_half : o / 2 ≡ bit_or (x / 2) (y / 2) = omega (arith, bit_or-halves x y) in
    let o_bit : o % 2 ≡ max (x % 2) (y % 2) = omega (arith, bit_or-halves x y) in
    let p = bit_and-halves z o ∙ ap (λ k. bit_and (z / 2) k * 2 + min (z % 2) (o % 2)) o_half in
    let b_half : b / 2 ≡ bit_and (z / 2) (bit_or (x / 2) (y / 2)) = omega (arith, p) in
    let b_bit : b % 2 ≡ min (z % 2) (o % 2) = omega (arith, p) in
    let c =
      bit_or-halves a b
      ∙ ap (λ k. bit_or k (b / 2) * 2 + max (a % 2) (b % 2)) a_half
      ∙ ap (λ k. bit_or (bit_and (x / 2) (y / 2)) k * 2 + max (a % 2) (b % 2)) b_half in
    let bits : max (a % 2) (b % 2) ≡ majority (x % 2) (y % 2) (z % 2) =
      ground (arith, a_bit, b_bit, o_bit) in
    c
    ∙ ap (λ k. bit_or (bit_and (x / 2) (y / 2)) (bit_and (z / 2) (bit_or (x / 2) (y / 2))) * 2 + k)
        bits

-- A function of three words that is given by its halves is given by its bits.
module _ (g f : ℕ → ℕ → ℕ → ℕ) (nothing : g 0 0 0 ≡ 0)
    (law : (x y z : ℕ) → g x y z ≡ g (x / 2) (y / 2) (z / 2) * 2 + f (x % 2) (y % 2) (z % 2)) where
  by_bits : (n x y z : ℕ) → x ≤ n → y ≤ n → z ≤ n → g x y z ≡ each_bit n f x y z
  unfolding each_bit
  by_bits zero zero zero zero p q r = nothing
  by_bits zero (suc x) y z p q r = absurd (omega arith)
  by_bits zero zero (suc y) z p q r = absurd (omega arith)
  by_bits zero zero zero (suc z) p q r = absurd (omega arith)
  by_bits (suc n) x y z p q r =
      law x y z
      ∙ ap (λ k. k * 2 + f (x % 2) (y % 2) (z % 2))
          (by_bits n (x / 2) (y / 2) (z / 2) (omega arith) (omega arith) (omega arith))

  on_words_lem : (x y z : ℕ) → g x y z ≡ on_words f x y z
  on_words_lem x y z = by_bits (x + y + z) x y z (omega arith) (omega arith) (omega arith)

f1_lem : (x y z : ℕ) → f1 x y z ≡ on_words choice x y z
unfolding f1
f1_lem = on_words_lem f1 choice refl f1_halves

f2_lem : (x y z : ℕ) → f2 x y z ≡ on_words parity x y z
unfolding f2
f2_lem = on_words_lem f2 parity refl f2_halves

f3_lem : (x y z : ℕ) → f3 x y z ≡ on_words majority x y z
unfolding f3
f3_lem = on_words_lem f3 majority refl f3_halves

f4_lem : (x y z : ℕ) → f4 x y z ≡ on_words parity x y z
unfolding f4
f4_lem x y z = unfold f2 in (f2_lem x y z)

mix_lem : (t x y z : ℕ) → mix t x y z ≡ function_at t x y z + constant_at t
unfolding mix function_at constant_at
mix_lem t x y z = elim (Bool-cases (ltb t 20)) [
  | inl p ↦ rw p (ap (λ k. k + 0x5a827999) (f1_lem x y z))
  | inr p ↦ elim (Bool-cases (ltb t 40)) [
    | inl q ↦ rw p (rw q (ap (λ k. k + 0x6ed9eba1) (f2_lem x y z)))
    | inr q ↦ elim (Bool-cases (ltb t 60)) [
      | inl r ↦ rw p (rw q (rw r (ap (λ k. k + 0x8f1bbcdc) (f3_lem x y z))))
      | inr r ↦ rw p (rw q (rw r (ap (λ k. k + 0xca62c1d6) (f4_lem x y z))))
    ]
  ]
]

-- A round, with its word.
pub round_lem : (t word : ℕ) (r : Registers) → round t word r ≡ step_at t word r
unfolding round step_at
round_lem t word r =
    let sum : (r.z + mix t r.w r.x r.y + word + rol r.v 5) % 2 ^ 32
        ≡ (rotate 5 r.v + function_at t r.w r.x r.y + r.z + constant_at t + word) % 2 ^ 32 =
      ap (λ k. (r.z + k + word + rol r.v 5) % 2 ^ 32) (mix_lem t r.w r.x r.y)
      ∙ ap (λ k. (r.z + (function_at t r.w r.x r.y + constant_at t) + word + k) % 2 ^ 32)
          (rol_five r.v)
      ∙ ap (λ k. k % 2 ^ 32) (omega arith) in
    λ i. record { v = sum i; w = r.v; x = rol_thirty r.w i; y = r.x; z = r.y }
