-- ===== src/Rtl/Time/Dates.antt =====
-- The dates of rtl.cpp: the formulas that RtlTimeToTimeFields and RtlTimeFieldsToTime use for a day and its date.
use nboxkrnl.Prelude.{
  ℕ, ◌+◌, ◌-◌, ◌*◌, ◌/◌, ◌%◌, ◌≤◌, ◌<◌, ◌≡◌, refl, ap, sym, ◌∙◌, arith, Bool, true, false, ltb,
  Bool-cases, inl, inr, le_cases, lt→ltb, le→ltb, passes_under, passes_under_at, ==_iff, ◌==◌,
  if◌then◌else◌, get_or,
}
use nboxkrnl.Rtl.Time.{is_leap_year, month_lengths}

-- The intermediate values of `RtlTimeToTimeFields`.
abbrev pub century : ℕ → ℕ
century days = (4 * days + 1227) / 146097

abbrev pub shifted : ℕ → ℕ
shifted days = days + (28188 + (3 * century days + 3) / 4)

abbrev pub year_of : ℕ → ℕ
year_of days = (20 * shifted days - 2442) / 7305

abbrev pub day_of_year : ℕ → ℕ
day_of_year days = shifted days - year_of days * 1461 / 4

abbrev pub month_of : ℕ → ℕ
month_of days = 64 * day_of_year days / 1959

abbrev pub day_of : ℕ → ℕ
day_of days = day_of_year days - 1959 * month_of days / 64

century_lem : (days : ℕ) → (year_of days + 1524) / 100 ≡ century days + 16
century_lem days = omega arith

day_of_year_ge : (days : ℕ) → 123 ≤ day_of_year days
day_of_year_ge days = omega arith

day_of_year_lt : (days : ℕ) → day_of_year days < 489
day_of_year_lt days = omega arith

pub month_of_ge : (days : ℕ) → 4 ≤ month_of days
month_of_ge days = omega (arith, day_of_year_ge days)

pub month_of_le : (days : ℕ) → month_of days ≤ 15
month_of_le days = omega (arith, day_of_year_lt days)

pub day_of_ge : (days : ℕ) → 1 ≤ day_of days
day_of_ge days = omega (arith, day_of_year_ge days)

from_parts :
    (d c y : ℕ)
    → (y + 1524) / 100 ≡ c + 16
    → y * 1461 / 4 ≤ d + (28188 + (3 * c + 3) / 4)
    → 36525 * (y + 1524) / 100
        - (3 * ((y + 1524) / 100) + 3) / 4
        + (d + (28188 + (3 * c + 3) / 4) - y * 1461 / 4)
        - 584817
      ≡ d
from_parts d c y h k = omega arith

year_start_le : (days : ℕ) → year_of days * 1461 / 4 ≤ shifted days
year_start_le days = omega arith

pub day_count_lem :
    (days : ℕ)
    → 36525 * (year_of days + 1524) / 100
        - (3 * ((year_of days + 1524) / 100) + 3) / 4
        + 1959 * month_of days / 64
        + day_of days
        - 584817
      ≡ days
day_count_lem days =
    let whole : 1959 * month_of days / 64 + day_of days ≡ day_of_year days = omega arith in
    let parts =
      from_parts days (century days) (year_of days) (century_lem days) (year_start_le days) in
    omega (arith, whole, parts)

-- The days of a month of the year that begins in March, the months counted from 4.
abbrev pub span : ℕ → ℕ
span m = 1959 * (m + 1) / 64 - 1959 * m / 64

pub day_of_le_span : (days : ℕ) → day_of days ≤ span (month_of days)
day_of_le_span days = omega arith

abbrev pub length_of : Bool → ℕ → ℕ
length_of leap month = get_or (month_lengths leap) (month - 1) 0

span_table : (leap : Bool) → passes_under (λ k. length_of leap (k + 3) == span (k + 4)) 10 ≡ true
unfolding month_lengths passes_under
span_table true = refl
span_table false = refl

-- From March to December.
pub length_of-span : (leap : Bool) (m : ℕ) → 4 ≤ m → m < 14 → length_of leap (m - 1) ≡ span m
length_of-span leap m h k =
    let found = passes_under_at _ 10 (m - 4) (omega arith) (span_table leap) in
    let here : m - 4 + 4 ≡ m = omega arith in
    let there : m - 4 + 3 ≡ m - 1 = omega arith in
    sym (ap (length_of leap) there) ∙ (==_iff _ _).0 found ∙ ap span here

-- The 29th of February is a date of leap years only.
day_of-leap :
    (days : ℕ)
    → month_of days ≡ 15
    → 29 ≤ day_of days
    → ((year_of days + 1525) % 4 ≡ 0)
      × (((year_of days + 1525) % 100 ≡ 0) → (year_of days + 1525) % 400 ≡ 0)
day_of-leap days h k = (omega (arith, century_lem days), λ e. omega (arith, century_lem days))

day_of_february : (days : ℕ) → month_of days ≡ 15 → day_of days ≤ 29
day_of_february days h = omega (arith, day_of_year_lt days)

pub year_of_ge : (days : ℕ) → 76 ≤ year_of days
year_of_ge days = omega arith

pub first_march : (days : ℕ) → month_of days < 14 → 77 ≤ year_of days
first_march days h = omega arith

pub year_of_lt : (days : ℕ) → days < 10675200 → year_of days < 30000
year_of_lt days h = omega arith

pub day_of_january : (days : ℕ) → day_of days ≤ 31
day_of_january days = omega arith

abbrev Leaps : ℕ → Type 0
Leaps year = (year % 4 ≡ 0) × ((year % 100 ≡ 0) → year % 400 ≡ 0)

Leaps-is_leap_year : (year : ℕ) → Leaps year → is_leap_year year ≡ true
unfolding is_leap_year
Leaps-is_leap_year year (h, k) = ground arith

pub february_length :
    (year d : ℕ) → d ≤ 29 → (29 ≤ d → Leaps year) → d ≤ length_of (is_leap_year year) 2
unfolding month_lengths
february_length year d h k = elim (le_cases 29 d) [
  | inl p ↦ rw (Leaps-is_leap_year year (k p)) h
  | inr p ↦ elim (Bool-cases (is_leap_year year)) [ inl e ↦ rw e h | inr e ↦ rw e (omega arith) ]
]

pub january_length : (leap : Bool) → length_of leap 1 ≡ 31
unfolding month_lengths
january_length leap = refl

-- The month of the calendar, and its year.
abbrev pub calendar_month : ℕ → ℕ
calendar_month m = m - (if ltb m 14 then 1 else 13)

abbrev pub calendar_year : ℕ → ℕ → ℕ
calendar_year y m = y + (if ltb m 14 then 1524 else 1525)

length_by_month :
    (y m d : ℕ)
    → 4 ≤ m
    → m ≤ 15
    → d ≤ 31
    → d ≤ span m
    → (m ≡ 15 → d ≤ 29)
    → (m ≡ 15 → 29 ≤ d → Leaps (y + 1525))
    → d ≤ length_of (is_leap_year (calendar_year y m)) (calendar_month m)
length_by_month y m d h k l s f g = elim (le_cases 14 m) [
  | inl p ↦ rw (le→ltb m 14 p) (elim (le_cases 15 m) [
    | inl q ↦
        let e : m - 13 ≡ 2 = omega arith in
        rw e (february_length (y + 1525) d (f (omega arith)) (g (omega arith)))
    | inr q ↦ let e : m - 13 ≡ 1 = omega arith in rw (e, january_length (is_leap_year (y + 1525))) l
  ])
  | inr p ↦ rw (lt→ltb m 14 p, length_of-span (is_leap_year (y + 1524)) m h p) s
]

-- No day is behind the end of its month.
pub day_of-length :
    (days : ℕ)
    → day_of days
      ≤ length_of
          (is_leap_year (calendar_year (year_of days) (month_of days)))
          (calendar_month (month_of days))
day_of-length days =
    length_by_month (year_of days) (month_of days) (day_of days) (month_of_ge days)
      (month_of_le days) (day_of_january days) (day_of_le_span days) (day_of_february days)
      (day_of-leap days)
