-- ===== src/Rtl/Divide/Quotient.antt =====
-- `RtlExtendedLargeIntegerDivide` of nboxkrnl/rtl/rtl.cpp divides.
use native.Mathlib.Nat.{pow-suc}
use nboxkrnl.Prelude.{
  ℕ, zero, suc, ◌+◌, ◌-◌, ◌*◌, ◌/◌, ◌%◌, ◌^◌, ◌≤◌, ◌<◌, ◌≡◌, refl, ap, sym, ◌∙◌, arith, some, inl,
  inr, le_cases, subst,
}
use nboxkrnl.Rtl.Divide.{divide_round, divide_loop, extended_large_integer_divide}

-- One round on plain numbers.
divide_round_small :
    (d q r : ℕ)
    → d < 2 ^ 32
    → r < d
    → q < 2 ^ 64
    → r * 2 + q / 2 ^ 63 < d
    → divide_round d (q, r) ≡ (q % 2 ^ 63 * 2, r * 2 + q / 2 ^ 63)
unfolding divide_round
divide_round_small d q r hd hr hq h = ground arith

divide_round_large :
    (d q r : ℕ)
    → d < 2 ^ 32
    → r < d
    → q < 2 ^ 64
    → d ≤ r * 2 + q / 2 ^ 63
    → divide_round d (q, r) ≡ (q % 2 ^ 63 * 2 + 1, r * 2 + q / 2 ^ 63 - d)
unfolding divide_round
divide_round_large d q r hd hr hq h = ground arith

-- The registers hold `t` bits of the dividend that are still to come, above `q` bits of the quotient;
-- `p` is the weight of the lowest of those bits, and `w` one more than their greatest value.
abbrev IsSplit : ℕ → ℕ → ℕ → ℕ → Type 0
IsSplit p w t q = (p * w ≡ 2 ^ 64) × (t < w) × (q < p)

-- The top bit moves over to the remainder.
top_bit_clear :
    (p w t q : ℕ)
    → p * (w * 2) ≡ 2 ^ 64
    → t < w
    → q < p
    → (t * p + q < 2 ^ 64)
      × ((t * p + q) / 2 ^ 63 ≡ 0)
      × ((t * p + q) % 2 ^ 63 * 2 ≡ t * (p * 2) + q * 2)
top_bit_clear p w t q e h k =
    let bound : t * p + q < p * w = grind arith in
    let half : p * w ≡ 2 ^ 63 = omega arith in (omega arith, omega arith, omega arith)

top_bit_set :
    (p w t q : ℕ)
    → p * (w * 2) ≡ 2 ^ 64
    → t < w
    → q < p
    → ((t + w) * p + q < 2 ^ 64)
      × (((t + w) * p + q) / 2 ^ 63 ≡ 1)
      × (((t + w) * p + q) % 2 ^ 63 * 2 ≡ t * (p * 2) + q * 2)
top_bit_set p w t q e h k =
    let bound : t * p + q < p * w = grind arith in
    let half : p * w ≡ 2 ^ 63 = omega arith in (omega arith, omega arith, omega arith)

abbrev IsDivided : ℕ → ℕ → ℕ × ℕ → Type 0
IsDivided n d (q, r) = (q * d + r ≡ n) × (r < d)

-- What the last `n` rounds do.
abbrev IsRounds : ℕ → ℕ → Type 0
IsRounds n d =
    (p t q r : ℕ)
    → p * 2 ^ n ≡ 2 ^ 64
    → t < 2 ^ n
    → q < p
    → r < d
    → IsDivided (q * 2 ^ n * d + r * 2 ^ n + t) d (divide_loop n d (t * p + q, r))

-- A round that leaves the quotient bit `bit` and the remainder `r'`.
round-IsDivided :
    (n d p q r : ℕ) (carry bit rest r' : ℕ)
    → IsRounds n d
    → p * (2 ^ n * 2) ≡ 2 ^ 64
    → rest < 2 ^ n
    → q < p
    → bit ≤ 1
    → r' < d
    → r' + bit * d ≡ r * 2 + carry
    → IsDivided
        (q * (2 ^ n * 2) * d + r * (2 ^ n * 2) + (carry * 2 ^ n + rest))
        d
        (divide_loop n d (rest * (p * 2) + (q * 2 + bit), r'))
round-IsDivided n d p q r carry bit rest r' ih e small hq hb hr split =
    subst (λ m. IsDivided m d (divide_loop n d (rest * (p * 2) + (q * 2 + bit), r'))) same
      (ih (p * 2) rest (q * 2 + bit) r' (omega arith) small (omega arith) hr)
  where
    scaled : (r' + bit * d) * 2 ^ n ≡ (r * 2 + carry) * 2 ^ n
    scaled = ap (λ (x : ℕ). x * 2 ^ n) split

    same :
        (q * 2 + bit) * 2 ^ n * d + r' * 2 ^ n + rest
        ≡ q * (2 ^ n * 2) * d + r * (2 ^ n * 2) + (carry * 2 ^ n + rest)
    same = omega (arith, scaled)

register-IsDivided :
    (n d p q r carry rest register : ℕ)
    → IsRounds n d
    → d < 2 ^ 32
    → p * (2 ^ n * 2) ≡ 2 ^ 64
    → rest < 2 ^ n
    → q < p
    → r < d
    → register < 2 ^ 64
    → register / 2 ^ 63 ≡ carry
    → register % 2 ^ 63 * 2 ≡ rest * (p * 2) + q * 2
    → IsDivided
        (q * (2 ^ n * 2) * d + r * (2 ^ n * 2) + (carry * 2 ^ n + rest))
        d
        (divide_loop n d (divide_round d (register, r)))
register-IsDivided n d p q r carry rest register ih hd e small hq hr bound top shifted =
    elim (le_cases d (r * 2 + register / 2 ^ 63)) [
      | inl large ↦ rw (divide_round_large d register r hd hr bound large) (
          subst (λ x. Goal (divide_loop n d (x, r * 2 + register / 2 ^ 63 - d))) (omega arith)
            (round-IsDivided n d p q r carry 1 rest _ ih e small hq (omega arith) (omega arith)
              (omega arith)))
      | inr less ↦ rw (divide_round_small d register r hd hr bound less) (
          subst (λ x. Goal (divide_loop n d (x, r * 2 + register / 2 ^ 63))) (omega arith)
            (round-IsDivided n d p q r carry 0 rest _ ih e small hq (omega arith) less
              (omega arith)))
    ]
  where
    Goal : ℕ × ℕ → Type 0
    Goal = IsDivided (q * (2 ^ n * 2) * d + r * (2 ^ n * 2) + (carry * 2 ^ n + rest)) d

loop_step :
    (n d p t q r : ℕ)
    → d < 2 ^ 32
    → IsRounds n d
    → p * (2 ^ n * 2) ≡ 2 ^ 64
    → t < 2 ^ n * 2
    → q < p
    → r < d
    → IsDivided
        (q * (2 ^ n * 2) * d + r * (2 ^ n * 2) + t)
        d
        (divide_loop n d (divide_round d (t * p + q, r)))
loop_step n d p t q r hd ih e ht hq hr = elim (le_cases (2 ^ n) t) [
  | inl high ↦
      let t' = t - 2 ^ n in
      let whole : t' + 2 ^ n ≡ t = omega arith in
      let (b, c, m) = top_bit_set p (2 ^ n) t' q e (omega arith) hq in
      subst
        (λ x.
          IsDivided (q * (2 ^ n * 2) * d + r * (2 ^ n * 2) + x) d
            (divide_loop n d (divide_round d (t * p + q, r))))
        (omega arith)
        (subst
          (λ x.
            IsDivided (q * (2 ^ n * 2) * d + r * (2 ^ n * 2) + (1 * 2 ^ n + t')) d
              (divide_loop n d (divide_round d (x * p + q, r))))
          whole (register-IsDivided n d p q r 1 t' _ ih hd e (omega arith) hq hr b c m))
  | inr low ↦
      let (b, c, m) = top_bit_clear p (2 ^ n) t q e low hq in
      subst
        (λ x.
          IsDivided (q * (2 ^ n * 2) * d + r * (2 ^ n * 2) + x) d
            (divide_loop n d (divide_round d (t * p + q, r))))
        (omega arith) (register-IsDivided n d p q r 0 t _ ih hd e low hq hr b c m)
]

no_round : (d p t q r : ℕ) → t ≡ 0 → r < d → IsDivided (q * 1 * d + r * 1 + t) d (t * p + q, r)
no_round d p t q r z h =
    subst (λ x. IsDivided (q * 1 * d + r * 1 + x) d (x * p + q, r)) (sym z) (omega arith)

divide_loop-IsDivided : (n d : ℕ) → d < 2 ^ 32 → IsRounds n d
unfolding divide_loop
divide_loop-IsDivided zero d hd = λ p t q r e ht hq hr. no_round d p t q r (omega arith) hr
divide_loop-IsDivided (suc n) d hd = λ p t q r e ht hq hr.
    subst
      (λ w. IsDivided (q * w * d + r * w + t) d (divide_loop n d (divide_round d (t * p + q, r))))
      (sym (pow-suc 2 n))
      (loop_step n d p t q r hd (divide_loop-IsDivided n d hd) (ap (◌*◌ p) (sym (pow-suc 2 n)) ∙ e)
        (subst (λ w. t < w) (pow-suc 2 n) ht) hq hr)

division_unique : (n d : ℕ) (s : ℕ × ℕ) → 0 < d → IsDivided n d s → s ≡ (n / d, n % d)
division_unique n d (q, r) h (e, l) = cc (quotient, remainder)
  where
    quotient : q ≡ n / d
    quotient = grind arith

    remainder : r ≡ n % d
    remainder = grind arith

-- For a 64-bit dividend and a 32-bit divisor other than 0 the routine returns the quotient and the
-- remainder of the division of natural numbers.
pub extended_large_integer_divide_lem :
    (dividend divisor : ℕ)
    → dividend < 2 ^ 64
    → 0 < divisor
    → divisor < 2 ^ 32
    → extended_large_integer_divide dividend divisor ≡ some (dividend / divisor, dividend % divisor)
unfolding extended_large_integer_divide
extended_large_integer_divide_lem n d hn h0 hd =
    let divided = divide_loop-IsDivided 64 d hd 1 n 0 0 refl hn (omega arith) h0 in
    let start : n * 1 + 0 ≡ n = omega arith in
    let total : 0 * 2 ^ 64 * d + 0 * 2 ^ 64 + n ≡ n = omega arith in
    let unique = division_unique n d (divide_loop 64 d (n, 0)) h0 (
      subst (λ m. IsDivided m d (divide_loop 64 d (n, 0))) total
        (subst (λ x. IsDivided (0 * 2 ^ 64 * d + 0 * 2 ^ 64 + n) d (divide_loop 64 d (x, 0))) start
          divided)) in
    ground (arith, unique)
