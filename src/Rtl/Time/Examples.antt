-- ===== src/Rtl/Time/Examples.antt =====
-- The calendar of rtl.cpp on a leap day and at the end of a year.
use nboxkrnl.Prelude.{ℕ, ◌-◌, ◌%◌, ◌≡◌, refl, some, arith}
use nboxkrnl.Rtl.Time.{
  TimeFields, is_in_range, is_leap_year, month_lengths, day_count, time_to_time_fields,
  time_fields_to_time, extended_magic_divide, set_date, multiply_high,
}
use nboxkrnl.Rtl.Time.Inverse.{time_to_time_fields-time_fields_to_time}
use nboxkrnl.Rtl.Time.Calendar.{time_fields_to_time-time_to_time_fields}

-- 2000-02-29 12:34:56.789, a Tuesday, and 1234 ticks.
abbrev leap_day : ℕ
leap_day = 125963012967891234

leap_day_fields : time_to_time_fields leap_day ≡ record {
  year = 2000;
  month = 2;
  day = 29;
  hour = 12;
  minute = 34;
  second = 56;
  millisecond = 789;
  weekday = 2;
}
unfolding time_to_time_fields extended_magic_divide multiply_high set_date
leap_day_fields = refl

time_fields_to_time-time_to_time_fields_example :
    time_fields_to_time (time_to_time_fields leap_day) ≡ some (leap_day - leap_day % 10000)
time_fields_to_time-time_to_time_fields_example =
    time_fields_to_time-time_to_time_fields leap_day (omega arith)

-- 2024-12-31 23:59:59.999, a Tuesday.
abbrev last_fields : TimeFields
last_fields = record {
  year = 2024;
  month = 12;
  day = 31;
  hour = 23;
  minute = 59;
  second = 59;
  millisecond = 999;
  weekday = 0;
}

last_time : time_fields_to_time last_fields ≡ some 133801631999990000
unfolding time_fields_to_time is_in_range is_leap_year month_lengths day_count
last_time = refl

time_to_time_fields-time_fields_to_time_example :
    time_to_time_fields 133801631999990000 ≡ record last_fields { weekday = 2 }
time_to_time_fields-time_fields_to_time_example =
    time_to_time_fields-time_fields_to_time last_fields 133801631999990000 last_time (omega arith)
