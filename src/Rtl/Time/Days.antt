-- ===== src/Rtl/Time/Days.antt =====
-- The dates of rtl.cpp, from a date to its day and back: the day count of RtlTimeFieldsToTime and the formulas of
-- RtlTimeToTimeFields.
use nboxkrnl.Prelude.{
  ℕ, ◌+◌, ◌-◌, ◌*◌, ◌/◌, ◌%◌, ◌≤◌, ◌<◌, ◌≡◌, ◌⊎◌, ◌≢◌, arith, ap, ap₂, subst, sym, ◌∙◌, inl, inr,
  refl, lt→ltb, le→ltb,
}
use nboxkrnl.Rtl.Time.{is_leap_year, month_lengths, day_count}
use nboxkrnl.Rtl.Time.Dates.{
  year_of, month_of, day_of, century, day_of_year, calendar_month, calendar_year, length_of,
  length_of-span, span, january_length,
}
use nboxkrnl.Rtl.Time.Calendar.{formula, day_count_early, day_count_late}

-- The day with the number `e` in a year that begins in March, counted as the source does.
abbrev day_at : ℕ → ℕ → ℕ
day_at y e = 36525 * (y + 1524) / 100 - (3 * ((y + 1524) / 100) + 3) / 4 + e - 584817

-- A day from 1601 on, with the number 488 in a year that ends with a leap day only.
abbrev IsDay : ℕ → ℕ → Type 0
IsDay y e =
    (76 ≤ y)
    × (123 ≤ e)
    × ((77 ≤ y) ⊎ (429 ≤ e))
    × ((e < 488)
        ⊎ (e ≡ 488) × ((y + 1525) % 4 ≡ 0) × (((y + 1525) % 100 ≢ 0) ⊎ (y + 1525) % 400 ≡ 0))

century_at : (y e : ℕ) → IsDay y e → century (day_at y e) + 16 ≡ (y + 1524) / 100
century_at y e (h, k, l, inl m) = omega arith
century_at y e (h, k, l, inr (m, n, inl z)) = omega arith
century_at y e (h, k, l, inr (m, n, inr z)) = omega arith

year_at : (y e : ℕ) → IsDay y e → year_of (day_at y e) ≡ y
year_at y e (h, k, l, m) = omega (arith, century_at y e (h, k, l, m))

day_of_year_at : (y e : ℕ) → IsDay y e → day_of_year (day_at y e) ≡ e
day_of_year_at y e (h, k, l, m) =
    omega (arith, century_at y e (h, k, l, m), year_at y e (h, k, l, m))

-- The day `d` of the month `m`, counted from 4 for March.
abbrev number_of : ℕ → ℕ → ℕ
number_of m d = 1959 * m / 64 + d

month_at : (m d : ℕ) → 4 ≤ m → m ≤ 15 → 1 ≤ d → d ≤ span m → 64 * number_of m d / 1959 ≡ m
month_at m d h k l p = omega arith

-- The date that `RtlTimeToTimeFields` finds for a day.
date_at :
    (y m d : ℕ)
    → 4 ≤ m
    → m ≤ 15
    → 1 ≤ d
    → d ≤ span m
    → IsDay y (number_of m d)
    → (year_of (day_at y (number_of m d)) ≡ y)
      × (month_of (day_at y (number_of m d)) ≡ m)
      × (day_of (day_at y (number_of m d)) ≡ d)
date_at y m d h k l p x =
    let e = day_of_year_at y (number_of m d) x in
    let month = ap (λ n. 64 * n / 1959) e ∙ month_at m d h k l p in
    (year_at y (number_of m d) x, month, ap₂ (λ a b. a - 1959 * b / 64) e month ∙ omega arith)

formula_lem : (y m d : ℕ) → formula (y + 1524) m d ≡ day_at y (number_of m d)
formula_lem y m d = omega arith

-- The date that is found for the day count `days` is `year`, `month` and `day`.
abbrev pub IsDate : ℕ → ℕ → ℕ → ℕ → Type 0
IsDate days year month day =
    (calendar_year (year_of days) (month_of days) ≡ year)
    × (calendar_month (month_of days) ≡ month)
    × (day_of days ≡ day)

from_march :
    (y m d : ℕ)
    → 4 ≤ m
    → m < 14
    → 1 ≤ d
    → d ≤ span m
    → 77 ≤ y
    → IsDate (day_at y (number_of m d)) (y + 1524) (m - 1) d
from_march y m d h k l p q =
    let day = number_of m d in
    let small : day < 488 = omega arith in
    let (found_year, found_month, found_day) =
      date_at y m d h (omega arith) l p (omega arith, omega arith, inl q, inl small) in
    let before = lt→ltb m 14 k in
    (
      ap₂ calendar_year found_year found_month ∙ rw before refl,
      ap calendar_month found_month ∙ rw before refl,
      found_day,
    )

to_february :
    (y m d : ℕ)
    → 14 ≤ m
    → m ≤ 15
    → 1 ≤ d
    → d ≤ span m
    → IsDay y (number_of m d)
    → IsDate (day_at y (number_of m d)) (y + 1525) (m - 13) d
to_february y m d h k l p x =
    let (found_year, found_month, found_day) = date_at y m d (omega arith) k l p x in
    let behind = le→ltb m 14 h in
    (
      ap₂ calendar_year found_year found_month ∙ rw behind refl,
      ap calendar_month found_month ∙ rw behind refl,
      found_day,
    )

february_days :
    (year d : ℕ)
    → d ≤ length_of (is_leap_year year) 2
    → (d < 29) ⊎ (d ≡ 29) × (year % 4 ≡ 0) × ((year % 100 ≢ 0) ⊎ year % 400 ≡ 0)
unfolding is_leap_year month_lengths
february_days year d h = ground arith

IsDate-moved :
    (days days' year year' month month' day : ℕ)
    → days ≡ days'
    → IsDate days' year' month' day
    → year' ≡ year
    → month' ≡ month
    → IsDate days year month day
IsDate-moved days days' year year' month month' day e (a, b, c) g h = (
  ap (λ n. calendar_year (year_of n) (month_of n)) e ∙ a ∙ g,
  ap (λ n. calendar_month (month_of n)) e ∙ b ∙ h,
  ap day_of e ∙ c,
)

pub late-IsDate :
    (year month day : ℕ)
    → 3 ≤ month
    → month ≤ 12
    → 1 ≤ day
    → day ≤ length_of (is_leap_year year) month
    → 1601 ≤ year
    → IsDate (day_count year month day) year month day
late-IsDate year month day h k l p q =
    let year_is : year - 1524 + 1524 ≡ year = omega arith in
    let month_is : month + 1 - 1 ≡ month = omega arith in
    let within : day ≤ span (month + 1) = omega (
      arith,
      p,
      ap (length_of (is_leap_year year)) month_is,
      length_of-span (is_leap_year year) (month + 1) (omega arith) (omega arith),
    ) in
    IsDate-moved _ _ year _ month _ day
      (day_count_late year month day h
        ∙ ap (λ n. formula n (month + 1) day) (sym year_is)
        ∙ formula_lem (year - 1524) (month + 1) day)
      (from_march (year - 1524) (month + 1) day (omega arith) (omega arith) l within (omega arith))
      year_is month_is

early-IsDate :
    (year month day : ℕ)
    → month < 3
    → 1 ≤ month
    → 1 ≤ day
    → day ≤ span (month + 13)
    → 1601 ≤ year
    → IsDay (year - 1525) (number_of (month + 13) day)
    → IsDate (day_count year month day) year month day
early-IsDate year month day h k l p q x =
    let year_is : year - 1525 + 1525 ≡ year = omega arith in
    let before : year - 1525 + 1524 ≡ year - 1 = omega arith in
    let month_is : month + 13 - 13 ≡ month = omega arith in
    IsDate-moved _ _ year _ month _ day
      (day_count_early year month day h
        ∙ ap (λ n. formula n (month + 13) day) (sym before)
        ∙ formula_lem (year - 1525) (month + 13) day)
      (to_february (year - 1525) (month + 13) day (omega arith) (omega arith) l p x) year_is
      month_is

pub february-IsDate :
    (year day : ℕ)
    → 1 ≤ day
    → day ≤ length_of (is_leap_year year) 2
    → 1601 ≤ year
    → IsDate (day_count year 2 day) year 2 day
february-IsDate year day l p q =
    let year_is : year - 1525 + 1525 ≡ year = omega arith in
    elim (february_days year day p) [
      | inl short ↦
          early-IsDate year 2 day (omega arith) (omega arith) l (omega arith) q
            (omega arith, omega arith, inr (omega arith), inl (omega arith))
      | inr (last, fourth, century_year) ↦
          early-IsDate year 2 day (omega arith) (omega arith) l (omega arith) q (
            omega arith,
            omega arith,
            inr (omega arith),
            inr (
              omega arith,
              ap (λ n. n % 4) year_is ∙ fourth,
              subst (λ n. (n % 100 ≢ 0) ⊎ n % 400 ≡ 0) (sym year_is) century_year,
            ),
          )
    ]

pub january-IsDate :
    (year day : ℕ)
    → 1 ≤ day
    → day ≤ length_of (is_leap_year year) 1
    → 1601 ≤ year
    → IsDate (day_count year 1 day) year 1 day
january-IsDate year day l p q =
    let within : day ≤ 31 = omega (arith, p, january_length (is_leap_year year)) in
    early-IsDate year 1 day (omega arith) (omega arith) l (omega arith) q
      (omega arith, omega arith, inr (omega arith), inl (omega arith))
