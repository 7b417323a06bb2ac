-- ===== src/Rtl/Divide.antt =====
-- `RtlExtendedLargeIntegerDivide` of nboxkrnl/rtl/rtl.cpp: the bit by bit division of a 64-bit number
-- by a 32-bit one. Words are numbers below 2 ^ 64 and 2 ^ 32, and a left shift drops the top bit.
pub mod Quotient
mod Examples
use nboxkrnl.Prelude.{
  ℕ, zero, suc, ◌+◌, ◌-◌, ◌*◌, ◌/◌, ◌%◌, ◌^◌, Option, none, some, leb, ◌==◌, ◌||◌, if◌then◌else◌,
}

-- `quotient.u.LowPart += 1`.
abbrev increment_low : ℕ → ℕ
increment_low q = q / 2 ^ 32 * 2 ^ 32 + (q % 2 ^ 32 + 1) % 2 ^ 32

-- One round of the loop: the quotient register and the remainder.
unfoldable pub divide_round : ℕ → ℕ × ℕ → ℕ × ℕ
divide_round divisor (quotient, remainder) =
    let carry = quotient / 2 ^ 63 in
    let remainder_carry = remainder / 2 ^ 31 in
    let quotient' = quotient * 2 % 2 ^ 64 in
    let remainder' = remainder * 2 % 2 ^ 32 + carry in
    if remainder_carry == 1 || leb divisor remainder'
    then (increment_low quotient', (remainder' + 2 ^ 32 - divisor) % 2 ^ 32)
    else (quotient', remainder')

unfoldable pub divide_loop : ℕ → ℕ → ℕ × ℕ → ℕ × ℕ
divide_loop zero divisor s = s
divide_loop (suc i) divisor s = divide_loop i divisor (divide_round divisor s)

-- `none` is STATUS_INTEGER_DIVIDE_BY_ZERO, which the code raises.
unfoldable pub extended_large_integer_divide : ℕ → ℕ → Option (ℕ × ℕ)
extended_large_integer_divide dividend divisor =
    if divisor == 0 then none else some (divide_loop 64 divisor (dividend, 0))
