-- ===== src/Rtl/Time/Inverse.antt =====
-- The time of fields and the fields of that time: RtlTimeFieldsToTime and RtlTimeToTimeFields of rtl.cpp, the other way
-- round.
use nboxkrnl.Prelude.{
  ℕ, ◌+◌, ◌*◌, ◌/◌, ◌%◌, ◌^◌, ◌≤◌, ◌<◌, ◌≡◌, arith, ap₂, subst, sym, ◌∙◌, inl, inr, none, true,
  Bool-cases, le_cases, some, some_inj,
}
use nboxkrnl.Rtl.Time.{
  TimeFields, time_to_time_fields, time_fields_to_time, is_in_range, is_leap_year, day_count,
}
use nboxkrnl.Rtl.Time.Dates.{length_of}
use nboxkrnl.Rtl.Time.Calendar.{fields_of, time_to_time_fields_lem}
use nboxkrnl.Rtl.Time.Days.{IsDate, late-IsDate, february-IsDate, january-IsDate}

record InRange (f : TimeFields) : Type 0 where
  millisecond_lt : f.millisecond < 1000
  second_lt : f.second < 60
  minute_lt : f.minute < 60
  hour_lt : f.hour < 24
  month_ge : 1 ≤ f.month
  month_le : f.month ≤ 12
  day_ge : 1 ≤ f.day
  day_le : f.day ≤ length_of (is_leap_year f.year) f.month
  year_ge : 1601 ≤ f.year

is_in_range-InRange : (f : TimeFields) → is_in_range f ≡ true → InRange f
unfolding is_in_range
is_in_range-InRange f h = record {
  millisecond_lt = ground arith;
  second_lt = ground arith;
  minute_lt = ground arith;
  hour_lt = ground arith;
  month_ge = ground arith;
  month_le = ground arith;
  day_ge = ground arith;
  day_le = ground arith;
  year_ge = ground arith;
}

day_count-IsDate :
    (f : TimeFields) → InRange f → IsDate (day_count f.year f.month f.day) f.year f.month f.day
day_count-IsDate f x = elim (le_cases 3 f.month) [
  | inl late ↦ late-IsDate f.year f.month f.day late x.month_le x.day_ge x.day_le x.year_ge
  | inr early ↦ elim (le_cases 2 f.month) [
    | inl february ↦
        let two : 2 ≡ f.month = omega (arith, early, february) in
        subst (λ m. IsDate (day_count f.year m f.day) f.year m f.day) two
          (february-IsDate f.year f.day x.day_ge
            (subst (λ m. f.day ≤ length_of (is_leap_year f.year) m) (sym two) x.day_le) x.year_ge)
    | inr january ↦
        let one : 1 ≡ f.month = omega (arith, january, x.month_ge) in
        subst (λ m. IsDate (day_count f.year m f.day) f.year m f.day) one
          (january-IsDate f.year f.day x.day_ge
            (subst (λ m. f.day ≤ length_of (is_leap_year f.year) m) (sym one) x.day_le) x.year_ge)
  ]
]

abbrev time_of : TimeFields → ℕ → ℕ
time_of f days =
    ((((days * 24 + f.hour) * 60 + f.minute) * 60 + f.second) * 1000 + f.millisecond) * 10000

time_fields_to_time-InRange :
    (f : TimeFields) (time : ℕ)
    → time_fields_to_time f ≡ some time
    → InRange f × (time ≡ time_of f (day_count f.year f.month f.day))
unfolding time_fields_to_time
time_fields_to_time-InRange f time h = elim (Bool-cases (is_in_range f)) [
  | inl p ↦ (is_in_range-InRange f p, sym (some_inj (rw p at h)))
  | inr p ↦ let refused : none ≡ some time = rw p at h in cc
]

-- Fields that `RtlTimeFieldsToTime` accepts come back from its time, if that is below 2 ^ 63, with the day of the week of
-- the time.
pub time_to_time_fields-time_fields_to_time :
    (f : TimeFields) (time : ℕ)
    → time_fields_to_time f ≡ some time
    → time < 2 ^ 63
    → time_to_time_fields time ≡ record f { weekday = (1 + time / 864000000000) % 7 }
time_to_time_fields-time_fields_to_time f time h b =
    let (x, e) = time_fields_to_time-InRange f time h in
    let days = day_count f.year f.month f.day in
    let (year_is, month_is, day_is) = day_count-IsDate f x in
    let rest = ((f.hour * 60 + f.minute) * 60 + f.second) * 1000 + f.millisecond in
    let millisecond_lt = x.millisecond_lt in
    let second_lt = x.second_lt in
    let minute_lt = x.minute_lt in
    let hour_lt = x.hour_lt in
    let whole : time / 10000 / 86400000 ≡ days = omega (arith, e) in
    let within : time / 10000 % 86400000 ≡ rest = omega (arith, e) in
    let weekday : (1 + days) % 7 ≡ (1 + time / 864000000000) % 7 = omega (arith, whole) in
    let hour : rest / 1000 / 60 / 60 ≡ f.hour = omega arith in
    let minute : rest / 1000 / 60 % 60 ≡ f.minute = omega arith in
    let second : rest / 1000 % 60 ≡ f.second = omega arith in
    let millisecond : rest % 1000 ≡ f.millisecond = omega arith in
    time_to_time_fields_lem time b ∙ ap₂ fields_of whole within ∙ (λ i. record {
      year = year_is i;
      month = month_is i;
      day = day_is i;
      hour = hour i;
      minute = minute i;
      second = second i;
      millisecond = millisecond i;
      weekday = weekday i;
    })
