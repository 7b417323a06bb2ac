-- ===== src/Rtl/Time/Magic.antt =====
-- The division by a multiplication with the reciprocal, in RtlExtendedMagicDivide of rtl.cpp.
use nboxkrnl.Prelude.{
  ℕ, ◌+◌, ◌-◌, ◌*◌, ◌/◌, ◌%◌, ◌^◌, ◌≤◌, ◌<◌, ◌≡◌, ap, ap₂, sym, ◌∙◌, arith, false, leb,
}
use nboxkrnl.Rtl.Time.{
  upper_32, lower_32, multiply_high, extended_magic_divide, magic_10000, magic_86400000,
}

product_lt : (a b : ℕ) → a < 2 ^ 32 → b < 2 ^ 32 → a * b ≤ (2 ^ 32 - 1) * (2 ^ 32 - 1)
product_lt a b h k = grind arith

expanded :
    (h l k m : ℕ)
    → (h * 2 ^ 32 + l) * (k * 2 ^ 32 + m) ≡ h * k * 2 ^ 64 + (h * m + l * k) * 2 ^ 32 + l * m
expanded h l k m = omega arith

product_by_halves :
    (a b : ℕ)
    → a * b
      ≡ upper_32 a * upper_32 b * 2 ^ 64
        + (upper_32 a * lower_32 b + lower_32 a * upper_32 b) * 2 ^ 32
        + lower_32 a * lower_32 b
product_by_halves a b =
    let first : a ≡ upper_32 a * 2 ^ 32 + lower_32 a = omega arith in
    let second : b ≡ upper_32 b * 2 ^ 32 + lower_32 b = omega arith in
    ap₂ ◌*◌ first second ∙ expanded (upper_32 a) (lower_32 a) (upper_32 b) (lower_32 b)

-- The sum of the parts, with the partial products as variables.
high_part :
    (hh hl lh ll : ℕ)
    → hh ≤ (2 ^ 32 - 1) * (2 ^ 32 - 1)
    → hl ≤ (2 ^ 32 - 1) * (2 ^ 32 - 1)
    → lh ≤ (2 ^ 32 - 1) * (2 ^ 32 - 1)
    → ll ≤ (2 ^ 32 - 1) * (2 ^ 32 - 1)
    → hh * 2 ^ 64 + (hl + lh) * 2 ^ 32 + ll < 2 ^ 128
    → (hh
          + upper_32 (hl % 2 ^ 64)
          + upper_32 (lh % 2 ^ 64)
          + upper_32
              ((lower_32 (hl % 2 ^ 64) + lower_32 (lh % 2 ^ 64) + upper_32 (ll % 2 ^ 64)) % 2 ^ 64))
        % 2 ^ 64
      ≡ (hh * 2 ^ 64 + (hl + lh) * 2 ^ 32 + ll) / 2 ^ 64
high_part hh hl lh ll p q r s b = omega arith

product_64_lt : (a b : ℕ) → a < 2 ^ 64 → b < 2 ^ 64 → a * b ≤ (2 ^ 64 - 1) * (2 ^ 64 - 1)
product_64_lt a b h k = grind arith

-- The high half of the product: no partial sum overflows.
multiply_high_lem : (a b : ℕ) → a < 2 ^ 64 → b < 2 ^ 64 → multiply_high a b ≡ a * b / 2 ^ 64
unfolding multiply_high
multiply_high_lem a b h k =
    let whole = product_by_halves a b in
    high_part (upper_32 a * upper_32 b) (upper_32 a * lower_32 b) (lower_32 a * upper_32 b)
      (lower_32 a * lower_32 b) (product_lt (upper_32 a) (upper_32 b) (omega arith) (omega arith))
      (product_lt (upper_32 a) (lower_32 b) (omega arith) (omega arith))
      (product_lt (lower_32 a) (upper_32 b) (omega arith) (omega arith))
      (product_lt (lower_32 a) (lower_32 b) (omega arith) (omega arith))
      (omega (arith, product_64_lt a b h k))
    ∙ ap (λ n. n / 2 ^ 64) (sym whole)

-- With the constants of the kernel the result is the quotient, for every 64-bit time that is not negative.
pub extended_magic_divide_10000 :
    (dividend : ℕ)
    → dividend < 2 ^ 63
    → extended_magic_divide dividend magic_10000 13 ≡ dividend / 10000
unfolding extended_magic_divide
extended_magic_divide_10000 dividend h =
    let positive : leb (2 ^ 63) dividend ≡ false = ground arith in
    rw positive (
      ap (λ n. n / 2 ^ 13) (multiply_high_lem dividend magic_10000 (omega arith) (omega arith))
      ∙ omega arith)

pub extended_magic_divide_86400000 :
    (dividend : ℕ)
    → dividend < 2 ^ 63
    → extended_magic_divide dividend magic_86400000 26 ≡ dividend / 86400000
unfolding extended_magic_divide
extended_magic_divide_86400000 dividend h =
    let positive : leb (2 ^ 63) dividend ≡ false = ground arith in
    rw positive (
      ap (λ n. n / 2 ^ 26) (multiply_high_lem dividend magic_86400000 (omega arith) (omega arith))
      ∙ omega arith)
