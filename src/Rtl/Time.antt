-- ===== src/Rtl/Time.antt =====
-- The calendar of nboxkrnl/rtl/rtl.cpp: RtlExtendedMagicDivide, RtlTimeToTimeFields and RtlTimeFieldsToTime. 64-bit
-- values are their bits, numbers below 2 ^ 64. In RtlTimeFieldsToTime a year above 58796 overflows a LONG, which
-- is undefined in C++; the model calculates without that bound.
pub mod Magic
pub mod Dates
pub mod Calendar
pub mod Days
pub mod Inverse
mod Examples
use nboxkrnl.Prelude.{
  ℕ, ◌+◌, ◌-◌, ◌*◌, ◌/◌, ◌%◌, ◌^◌, Bool, true, false, not, ◌&&◌, ◌||◌, Option, none, some, List, [],
  ◌∷◌, ltb, leb, ◌==◌, if◌then◌else◌, get_or,
}

abbrev pub upper_32 : ℕ → ℕ
upper_32 a = a / 2 ^ 32

abbrev pub lower_32 : ℕ → ℕ
lower_32 a = a % 2 ^ 32

-- The negation of a 64-bit value.
abbrev pub negate : ℕ → ℕ
negate a = (2 ^ 64 - a) % 2 ^ 64

-- The high 64 bits of the product of two numbers of 64 bits, from products of their halves.
unfoldable pub multiply_high : ℕ → ℕ → ℕ
multiply_high a b =
    let ah_bl = upper_32 a * lower_32 b % 2 ^ 64 in
    let al_bh = lower_32 a * upper_32 b % 2 ^ 64 in
    (upper_32 a * upper_32 b
      + upper_32 ah_bl
      + upper_32 al_bh
      + upper_32 (
          (lower_32 ah_bl + lower_32 al_bh + upper_32 (lower_32 a * lower_32 b % 2 ^ 64)) % 2 ^ 64))
    % 2 ^ 64

unfoldable pub extended_magic_divide : ℕ → ℕ → ℕ → ℕ
unfolding multiply_high
extended_magic_divide dividend magic shift =
    if leb (2 ^ 63) dividend
    then negate (multiply_high (negate dividend) magic / 2 ^ shift)
    else multiply_high dividend magic / 2 ^ shift

abbrev pub magic_10000 : ℕ
magic_10000 = 0xd1b71758e219652c

abbrev pub magic_86400000 : ℕ
magic_86400000 = 0xc6d750ebfa67b90e

pub record TimeFields : Type 0 where
  pub year : ℕ
  pub month : ℕ
  pub day : ℕ
  pub hour : ℕ
  pub minute : ℕ
  pub second : ℕ
  pub millisecond : ℕ
  pub weekday : ℕ

-- The date of a day, and the day of the week: the second half of `RtlTimeToTimeFields`, with the time of day of the
-- first half given in `f`. Years begin in March.
unfoldable pub set_date : ℕ → TimeFields → TimeFields
set_date days f =
    let cleaps = (3 * ((4 * days + 1227) / (365 * 400 + 97)) + 3) / 4 in
    let days' = days + (28188 + cleaps) in
    let years = (20 * days' - 2442) / (5 * (365 * 4 + 1)) in
    let yearday = days' - years * (365 * 4 + 1) / 4 in
    let months = 64 * yearday / 1959 in
    record f {
      year = (years + (if ltb months 14 then 1524 else 1525)) % 2 ^ 16;
      month = (months - (if ltb months 14 then 1 else 13)) % 2 ^ 16;
      day = (yearday - 1959 * months / 64) % 2 ^ 16;
      weekday = (1 + days) % 7 % 2 ^ 16;
    }

unfoldable pub time_to_time_fields : ℕ → TimeFields
unfolding extended_magic_divide set_date
time_to_time_fields time =
    let total = extended_magic_divide time magic_10000 13 in
    let days = extended_magic_divide total magic_86400000 26 % 2 ^ 32 in
    let within = (total + (2 ^ 64 - days * (86400 * 1000))) % 2 ^ 64 % 2 ^ 32 in
    set_date days (record {
      year = 0;
      month = 0;
      day = 0;
      weekday = 0;
      millisecond = within % 1000;
      second = within / 1000 % 60;
      minute = within / 1000 / 60 % 60;
      hour = within / 1000 / 60 / 60 % 2 ^ 16;
    })

unfoldable pub is_leap_year : ℕ → Bool
is_leap_year year = year % 4 == 0 && (not (year % 100 == 0) || year % 400 == 0)

unfoldable pub month_lengths : Bool → List ℕ
month_lengths leap =
    31 ∷ (if leap then 29 else 28) ∷ 31 ∷ 30 ∷ 31 ∷ 30 ∷ 31 ∷ 31 ∷ 30 ∷ 31 ∷ 30 ∷ 31 ∷ []

-- The tests on the fields.
unfoldable pub is_in_range : TimeFields → Bool
unfolding is_leap_year month_lengths
is_in_range f =
    not (ltb 999 f.millisecond)
    && (not (ltb 59 f.second)
        && (not (ltb 59 f.minute)
            && (not (ltb 23 f.hour)
                && (not (ltb f.month 1 || ltb 12 f.month)
                    && (not (
                          ltb f.day 1
                          || ltb (get_or (month_lengths (is_leap_year f.year)) (f.month - 1) 0)
                              f.day)
                        && not (ltb f.year 1601))))))

-- The number of days from 1601-01-01 to a date.
unfoldable pub day_count : ℕ → ℕ → ℕ → ℕ
day_count year month day =
    let months = if ltb month 3 then month + 13 else month + 1 in
    let years = if ltb month 3 then year - 1 else year in
    36525 * years / 100 - (3 * (years / 100) + 3) / 4 + 1959 * months / 64 + day - 584817

unfoldable pub time_fields_to_time : TimeFields → Option ℕ
unfolding is_in_range day_count
time_fields_to_time f =
    if not (is_in_range f)
    then none
    else some (
        ((((day_count f.year f.month f.day * 24 + f.hour) * 60 + f.minute) * 60 + f.second) * 1000
          + f.millisecond)
        * 10000)
