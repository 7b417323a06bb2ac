-- ===== src/Rtl/Time/Calendar.antt =====
-- The fields of a time and the time of fields: RtlTimeToTimeFields and RtlTimeFieldsToTime of rtl.cpp, one after the
-- other.
use nboxkrnl.Prelude.{
  ℕ, ◌+◌, ◌-◌, ◌*◌, ◌/◌, ◌%◌, ◌^◌, ◌≤◌, ◌<◌, ◌≡◌, refl, ap, ap₂, ◌∙◌, arith, true, some, inl, inr,
  le_cases, lt→ltb, le→ltb,
}
use nboxkrnl.Rtl.Time.{
  TimeFields, set_date, time_to_time_fields, is_leap_year, is_in_range, day_count,
  time_fields_to_time, extended_magic_divide, magic_86400000,
}
use nboxkrnl.Rtl.Time.Magic.{extended_magic_divide_10000, extended_magic_divide_86400000}
use nboxkrnl.Rtl.Time.Dates.{
  year_of, month_of, day_of, month_of_ge, month_of_le, day_of_ge, day_of-length, day_count_lem,
  year_of_lt, year_of_ge, first_march, day_of_january, calendar_month, calendar_year, length_of,
}

-- The fields of a day and a millisecond of it, without the 16 bits of a field.
abbrev pub fields_of : ℕ → ℕ → TimeFields
fields_of days within = record {
  year = calendar_year (year_of days) (month_of days);
  month = calendar_month (month_of days);
  day = day_of days;
  hour = within / 1000 / 60 / 60;
  minute = within / 1000 / 60 % 60;
  second = within / 1000 % 60;
  millisecond = within % 1000;
  weekday = (1 + days) % 7;
}

small : (n : ℕ) → n < 2 ^ 16 → n % 2 ^ 16 ≡ n
small n h = omega arith

calendar_year_lt : (y m : ℕ) → y < 30000 → calendar_year y m < 2 ^ 16
calendar_year_lt y m h = ground arith

calendar_month_lt : (m : ℕ) → m ≤ 15 → calendar_month m < 2 ^ 16
calendar_month_lt m h = ground arith

set_date_lem :
    (days : ℕ) (f : TimeFields)
    → days < 10675200
    → set_date days f ≡ record f {
      year = calendar_year (year_of days) (month_of days);
      month = calendar_month (month_of days);
      day = day_of days;
      weekday = (1 + days) % 7;
    }
unfolding set_date
set_date_lem days f h =
    let y =
      small (calendar_year (year_of days) (month_of days))
        (calendar_year_lt (year_of days) (month_of days) (year_of_lt days h)) in
    let m =
      small (calendar_month (month_of days))
        (calendar_month_lt (month_of days) (month_of_le days)) in
    let d = small (day_of days) (omega (arith, day_of_january days)) in
    let w = small ((1 + days) % 7) (omega arith) in
    λ i. record f { year = y i; month = m i; day = d i; weekday = w i }

-- The fields from the milliseconds and the days.
abbrev from_quotients : ℕ → ℕ → TimeFields
from_quotients total days =
    let within = (total + (2 ^ 64 - days * (86400 * 1000))) % 2 ^ 64 % 2 ^ 32 in
    set_date days (record {
      year = 0;
      month = 0;
      day = 0;
      weekday = 0;
      millisecond = within % 1000;
      second = within / 1000 % 60;
      minute = within / 1000 / 60 % 60;
      hour = within / 1000 / 60 / 60 % 2 ^ 16;
    })

from_quotients_lem :
    (total : ℕ)
    → total < 922337203685478
    → from_quotients total (total / 86400000) ≡ fields_of (total / 86400000) (total % 86400000)
from_quotients_lem total h =
    let rest : (total + (2 ^ 64 - total / 86400000 * (86400 * 1000))) % 2 ^ 64 % 2 ^ 32
        ≡ total % 86400000 =
      omega arith in
    let hours = small (total % 86400000 / 1000 / 60 / 60) (omega arith) in
    set_date_lem (total / 86400000) _ (omega arith) ∙ (λ i. record {
      year = calendar_year (year_of (total / 86400000)) (month_of (total / 86400000));
      month = calendar_month (month_of (total / 86400000));
      day = day_of (total / 86400000);
      weekday = (1 + total / 86400000) % 7;
      millisecond = rest i % 1000;
      second = rest i / 1000 % 60;
      minute = rest i / 1000 / 60 % 60;
      hour = (ap (λ n. n / 1000 / 60 / 60 % 2 ^ 16) rest ∙ hours) i;
    })

pub time_to_time_fields_lem :
    (time : ℕ)
    → time < 2 ^ 63
    → time_to_time_fields time ≡ fields_of (time / 10000 / 86400000) (time / 10000 % 86400000)
unfolding time_to_time_fields
time_to_time_fields_lem time h =
    let total = extended_magic_divide_10000 time h in
    let days : extended_magic_divide (time / 10000) magic_86400000 26 % 2 ^ 32
        ≡ time / 10000 / 86400000 =
      omega (arith, extended_magic_divide_86400000 (time / 10000) (omega arith)) in
    ap (λ n. from_quotients n (extended_magic_divide n magic_86400000 26 % 2 ^ 32)) total
    ∙ ap (from_quotients (time / 10000)) days
    ∙ from_quotients_lem (time / 10000) (omega arith)

in_range_lem :
    (f : TimeFields)
    → f.millisecond < 1000
    → f.second < 60
    → f.minute < 60
    → f.hour < 24
    → 1 ≤ f.month
    → f.month ≤ 12
    → 1 ≤ f.day
    → f.day ≤ length_of (is_leap_year f.year) f.month
    → 1601 ≤ f.year
    → is_in_range f ≡ true
unfolding is_in_range
in_range_lem f a b c d e g h k l = ground arith

calendar_month_ge : (m : ℕ) → 4 ≤ m → 1 ≤ calendar_month m
calendar_month_ge m h = ground arith

calendar_month_le : (m : ℕ) → m ≤ 15 → calendar_month m ≤ 12
calendar_month_le m h = ground arith

calendar_year_ge : (y m : ℕ) → 76 ≤ y → (m < 14 → 77 ≤ y) → 1601 ≤ calendar_year y m
calendar_year_ge y m h k = elim (le_cases 14 m) [
  | inl p ↦ rw (le→ltb m 14 p) (omega arith)
  | inr p ↦ rw (lt→ltb m 14 p) (omega (arith, k p))
]

fields_of-is_in_range :
    (days within : ℕ) → within < 86400000 → is_in_range (fields_of days within) ≡ true
fields_of-is_in_range days within h =
    in_range_lem (fields_of days within) (omega arith) (omega arith) (omega arith) (omega arith)
      (calendar_month_ge (month_of days) (month_of_ge days))
      (calendar_month_le (month_of days) (month_of_le days)) (day_of_ge days) (day_of-length days)
      (calendar_year_ge (year_of days) (month_of days) (year_of_ge days) (first_march days))

abbrev pub formula : ℕ → ℕ → ℕ → ℕ
formula y m d = 36525 * y / 100 - (3 * (y / 100) + 3) / 4 + 1959 * m / 64 + d - 584817

pub day_count_early : (y m d : ℕ) → m < 3 → day_count y m d ≡ formula (y - 1) (m + 13) d
unfolding day_count
day_count_early y m d h = rw (lt→ltb m 3 h) refl

pub day_count_late : (y m d : ℕ) → 3 ≤ m → day_count y m d ≡ formula y (m + 1) d
unfolding day_count
day_count_late y m d h = rw (le→ltb m 3 h) refl

day_count-calendar :
    (y m d : ℕ)
    → 4 ≤ m
    → m ≤ 15
    → day_count (calendar_year y m) (calendar_month m) d ≡ formula (y + 1524) m d
day_count-calendar y m d h k = elim (le_cases 14 m) [
  | inl p ↦
      let year : y + 1525 - 1 ≡ y + 1524 = omega arith in
      let month : m - 13 + 13 ≡ m = omega arith in
      rw (le→ltb m 14 p) (
        day_count_early (y + 1525) (m - 13) d (omega arith) ∙ ap₂ (λ a b. formula a b d) year month)
  | inr p ↦
      let month : m - 1 + 1 ≡ m = omega arith in
      rw (lt→ltb m 14 p)
        (day_count_late (y + 1524) (m - 1) d (omega arith) ∙ ap (λ b. formula (y + 1524) b d) month)
]

time_fields_to_time-fields_of :
    (days within : ℕ)
    → within < 86400000
    → time_fields_to_time (fields_of days within) ≡ some ((days * 86400000 + within) * 10000)
unfolding time_fields_to_time
time_fields_to_time-fields_of days within h =
    let count =
      day_count-calendar (year_of days) (month_of days) (day_of days) (month_of_ge days)
        (month_of_le days)
      ∙ day_count_lem days in
    rw (fields_of-is_in_range days within h) (
      ap
        (λ n. some (
          ((((n * 24 + within / 1000 / 60 / 60) * 60 + within / 1000 / 60 % 60) * 60
                + within / 1000 % 60)
              * 1000
            + within % 1000)
          * 10000))
        count
      ∙ ap some (omega arith))

-- The fields that RtlTimeToTimeFields gives for a time that is not negative are a date which RtlTimeFieldsToTime
-- accepts, and it gives the time back, less the part below a millisecond.
pub time_fields_to_time-time_to_time_fields :
    (time : ℕ)
    → time < 2 ^ 63
    → time_fields_to_time (time_to_time_fields time) ≡ some (time - time % 10000)
time_fields_to_time-time_to_time_fields time h =
    ap time_fields_to_time (time_to_time_fields_lem time h)
    ∙ time_fields_to_time-fields_of (time / 10000 / 86400000) (time / 10000 % 86400000)
        (omega arith)
    ∙ ap some (omega arith)
