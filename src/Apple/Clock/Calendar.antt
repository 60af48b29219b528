-- ===== src/Apple/Clock/Calendar.antt =====
-- `iso8601_utc` of src/apple.rs against the calendar: leap years, the lengths of the months, and the
-- days counted from the start of 1970.
use alt_keeper.Base.{
  false, suc, ◌≡◌, ◌==◌, ◌≤◌, ◌-◌, ℕ, ◌∙◌, ◌/◌, ◌+◌, ◌||◌, refl, if◌then◌else◌, zero, ◌*◌, true,
  arith, ◌<◌, ltb, if_both, ap, ==_iff, inl, Bool-cases, inr, ◌%◌,
}
use alt_keeper.Apple.Clock.March.{is_leap, march, civil_date-march, date_in_year-month}
use alt_keeper.Apple.Clock.{civil_date, iso8601_utc, stamp}
use alt_keeper.Base.Bits.{table, table_sound}
use mathlib.Core.Path.{subst}

unfoldable pub days_in_month : ℕ → ℕ → ℕ
unfolding is_leap
days_in_month y m =
    if m == 2
    then (if is_leap y then 29 else 28)
    else if m == 4 || (m == 6 || (m == 9 || m == 11))
    then 30
    else 31

-- The days of a year before one of its months.
unfoldable pub days_before_month : ℕ → ℕ → ℕ
unfolding days_in_month
days_before_month y zero = 0
days_before_month y (suc zero) = 0
days_before_month y (suc (suc m)) = days_before_month y (suc m) + days_in_month y (suc m)

-- The days of the years from 1970 on, `n` of them.
unfoldable pub days_of_years : ℕ → ℕ
unfolding is_leap
days_of_years zero = 0
days_of_years (suc n) = days_of_years n + (if is_leap (1970 + n) then 366 else 365)

days_of_years-closed :
    (n : ℕ) → let y = 1969 + n in days_of_years n + 719162 ≡ 365 * y + y / 4 - y / 100 + y / 400
unfolding days_of_years is_leap
days_of_years-closed zero = refl
days_of_years-closed (suc n) = let ih = days_of_years-closed n in ground arith

abbrev leap_day : ℕ → ℕ
leap_day y = if is_leap y then 1 else 0

leap_years :
    (n : ℕ)
    → let y = 1970 + n in
      let x = 1969 + n in y / 4 - y / 100 + y / 400 ≡ x / 4 - x / 100 + x / 400 + leap_day y
unfolding is_leap
leap_years n = ground arith

-- The day number of a date.
unfoldable pub day_number : ℕ → ℕ → ℕ → ℕ
unfolding days_of_years days_before_month
day_number n m d = days_of_years n + days_before_month (1970 + n) m + (d - 1)

late_month :
    (n mp d : ℕ)
    → mp < 10
    → days_before_month (1970 + n) (mp + 3) ≡ leap_day (1970 + n) + 59 + (153 * mp + 2) / 5
    → 1 ≤ d
    → d + (153 * mp + 2) / 5 ≤ (153 * mp + 155) / 5
    → civil_date (day_number n (mp + 3) d) ≡ (record { year = 1970 + n; month = mp + 3; day = d })
unfolding day_number
late_month n mp d h before least most =
    let closed = days_of_years-closed n in
    let leap = leap_years n in
    let doy = (153 * mp + 2) / 5 + (d - 1) in
    let early : ltb mp 10 ≡ true = ground arith in
    let at' : day_number n (mp + 3) d + 719468 ≡ march (1970 + n) doy = omega arith in
    let fits : doy < (if is_leap (1970 + n + 1) then 366 else 365) =
      if_both (λ k. doy < k) (is_leap (1970 + n + 1)) 366 365 (omega arith) (omega arith) in
    civil_date-march (day_number n (mp + 3) d) (1970 + n) doy at' fits
    ∙ (date_in_year-month (1970 + n) mp d (omega arith) least most ∙ rw early refl)

early_month :
    (n mp d : ℕ)
    → 10 ≤ mp
    → mp < 12
    → days_before_month (1970 + n) (mp - 9) + 306 ≡ (153 * mp + 2) / 5
    → 1 ≤ d
    → d + (153 * mp + 2) / 5 ≤ (153 * mp + 155) / 5
    → (153 * mp + 2) / 5 + (d - 1) < (if is_leap (1970 + n) then 366 else 365)
    → civil_date (day_number n (mp - 9) d) ≡ (record { year = 1970 + n; month = mp - 9; day = d })
unfolding day_number
early_month n mp d late h before least most fits =
    let closed = days_of_years-closed n in
    let doy = (153 * mp + 2) / 5 + (d - 1) in
    let late' : ltb mp 10 ≡ false = ground arith in
    let at' : day_number n (mp - 9) d + 719468 ≡ march (1969 + n) doy = omega arith in
    let year : 1969 + n + 1 ≡ 1970 + n = omega arith in
    civil_date-march (day_number n (mp - 9) d) (1969 + n) doy at' (rw year fits)
    ∙ (date_in_year-month (1969 + n) mp d h least most ∙ rw (late', year) refl)

-- The lengths of the months from March on.
month_length :
    (y mp : ℕ) → mp < 10 → (153 * mp + 2) / 5 + days_in_month y (mp + 3) ≡ (153 * mp + 155) / 5
unfolding days_in_month table
month_length y mp h =
    let same : days_in_month y (mp + 3) ≡ days_in_month 1 (mp + 3) =
      rw (let other : mp + 3 == 2 ≡ false = ground arith in other) refl in
    let checked : (153 * mp + 2) / 5 + days_in_month 1 (mp + 3) == (153 * mp + 155) / 5 ≡ true =
      table_sound 10 (λ k. (153 * k + 2) / 5 + days_in_month 1 (k + 3) == (153 * k + 155) / 5) mp
        refl h in
    ap (λ l. (153 * mp + 2) / 5 + l) same ∙ (==_iff _ _).0 checked

days_before_month-suc :
    (y k a b : ℕ)
    → a ≡ suc (suc k)
    → b ≡ suc k
    → days_before_month y a ≡ days_before_month y b + days_in_month y b
unfolding days_before_month
days_before_month-suc y k a b e f = rw (e, f) refl

days_before-late :
    (y mp : ℕ) → mp < 10 → days_before_month y (mp + 3) ≡ leap_day y + 59 + (153 * mp + 2) / 5
unfolding days_before_month
days_before-late y zero h = ground arith
days_before-late y (suc mp) h =
    let ih = days_before-late y mp (omega arith) in
    let length = month_length y mp (omega arith) in
    let step = days_before_month-suc y (mp + 2) (suc mp + 3) (mp + 3) (omega arith) (omega arith) in
    omega arith

first_month :
    (n d : ℕ)
    → 1 ≤ d
    → d ≤ days_in_month (1970 + n) 1
    → civil_date (day_number n 1 d) ≡ (record { year = 1970 + n; month = 1; day = d })
unfolding days_before_month days_in_month
first_month n d least most =
    early_month n 10 d (omega arith) (omega arith) refl least (omega arith)
      (if_both (λ k. 306 + (d - 1) < k) (is_leap (1970 + n)) 366 365 (omega arith) (omega arith))

second_month :
    (n d : ℕ)
    → 1 ≤ d
    → d ≤ days_in_month (1970 + n) 2
    → civil_date (day_number n 2 d) ≡ (record { year = 1970 + n; month = 2; day = d })
unfolding days_before_month days_in_month
second_month n d least most =
    let most' : d ≤ (if is_leap (1970 + n) then 29 else 28) = most in
    early_month n 11 d (omega arith) (omega arith) refl least (ground arith) (ground arith)

-- The code finds the date of every day from 1970 on.
civil_date-day_number :
    (n m d : ℕ)
    → 1 ≤ m
    → m ≤ 12
    → 1 ≤ d
    → d ≤ days_in_month (1970 + n) m
    → civil_date (day_number n m d) ≡ (record { year = 1970 + n; month = m; day = d })
civil_date-day_number n m d h k least most = elim (Bool-cases (ltb m 3)) [
  | inr late ↦
      let mp : ℕ = m - 3 in
      let same : mp + 3 ≡ m = ground arith in
      let month : civil_date (day_number n (mp + 3) d)
          ≡ (record { year = 1970 + n; month = mp + 3; day = d }) =
        late_month n mp d (omega arith) (days_before-late (1970 + n) mp (omega arith)) least (
          let length = month_length (1970 + n) mp (omega arith) in
          let fits : d ≤ days_in_month (1970 + n) (mp + 3) = rw same most in omega arith) in
      subst (λ x. civil_date (day_number n x d) ≡ (record { year = 1970 + n; month = x; day = d }))
        same month
  | inl early ↦ elim (Bool-cases (m == 1)) [
    | inl january ↦
        let same : 1 ≡ m = ground arith in
        subst
          (λ x. civil_date (day_number n x d) ≡ (record { year = 1970 + n; month = x; day = d }))
          same (first_month n d least (rw same most))
    | inr other ↦
        let same : 2 ≡ m = ground arith in
        subst
          (λ x. civil_date (day_number n x d) ≡ (record { year = 1970 + n; month = x; day = d }))
          same (second_month n d least (rw same most))
  ]
]

-- At any second of any day from 1970 on, by the calendar, `iso8601_utc` writes the year, the month, the
-- day, the hour, the minute and the second of it: the instant is the seconds of the days since the
-- start of 1970, the years and months before the date counted with the leap years, and those of the day.
pub iso8601_utc-stamp :
    (n m d hour minute second : ℕ)
    → 1 ≤ m
    → m ≤ 12
    → 1 ≤ d
    → d ≤ days_in_month (1970 + n) m
    → hour < 24
    → minute < 60
    → second < 60
    → iso8601_utc (86400 * day_number n m d + (3600 * hour + 60 * minute + second))
      ≡ stamp (record { year = 1970 + n; month = m; day = d }) hour minute second
unfolding iso8601_utc
iso8601_utc-stamp n m d hour minute second h k least most hh hm hs =
    let secs = 86400 * day_number n m d + (3600 * hour + 60 * minute + second) in
    let days : secs / 86400 ≡ day_number n m d = omega arith in
    let rem : secs % 86400 ≡ 3600 * hour + 60 * minute + second = omega arith in
    let h' : (3600 * hour + 60 * minute + second) / 3600 ≡ hour = omega arith in
    let m' : (3600 * hour + 60 * minute + second) % 3600 / 60 ≡ minute = omega arith in
    let s' : (3600 * hour + 60 * minute + second) % 60 ≡ second = omega arith in
    rw (days, rem, h', m', s', civil_date-day_number n m d h k least most) refl
