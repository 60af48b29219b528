-- ===== src/Apple/Clock/March.antt =====
-- The dates that `iso8601_utc` of src/apple.rs finds, in years that start in March.
use alt_keeper.Base.{
  not, false, suc, ◌==◌, ◌≡◌, ◌≤◌, ◌-◌, ℕ, ◌∙◌, ◌/◌, ◌+◌, inr, ◌||◌, refl, if◌then◌else◌, zero,
  Bool, ◌*◌, true, inl, arith, ◌<◌, ◌&&◌, ◌%◌, ltb, leb, Bool-cases,
}
use alt_keeper.Apple.Clock.{civil_date, era_days, date_in_year, year_of_era}
use alt_keeper.Base.Bits.{table, table_sound}

unfoldable pub is_leap : ℕ → Bool
is_leap y = (y % 4 == 0 && not (y % 100 == 0)) || y % 400 == 0

-- The numerator in `year_of_era` does not fall.
abbrev spread : ℕ → ℕ
spread doe = doe - doe / 1460 + doe / 36524 - doe / 146096

spread-step : (n : ℕ) → n + 1 < 146097 → spread n ≤ spread (n + 1)
spread-step n h = omega arith

-- The days of a year that starts in March.
year_size : ℕ → ℕ
unfolding era_days
year_size yoe = if yoe == 399 then 366 else era_days (yoe + 1) - era_days yoe

ends_right : ℕ → Bool
unfolding era_days year_of_era is_leap year_size
ends_right yoe =
    year_of_era (era_days yoe) == yoe
    && (year_of_era (era_days yoe + year_size yoe - 1) == yoe
        && (ltb 0 (year_size yoe)
            && (leb (era_days yoe + year_size yoe) 146097
                && year_size yoe == (if is_leap (yoe + 1) then 366 else 365))))

ends_right-all : (yoe : ℕ) → yoe < 400 → ends_right yoe ≡ true
unfolding ends_right era_days year_of_era is_leap year_size table
ends_right-all yoe h = table_sound 400 ends_right yoe refl h

spread_mono : (k n : ℕ) → n + k < 146097 → spread n ≤ spread (n + k)
spread_mono zero n h = omega arith
spread_mono (suc k) n h =
    let ih = spread_mono k n (omega arith) in
    let step = spread-step (n + k) (omega arith) in omega arith

year_ends :
    (yoe : ℕ)
    → yoe < 400
    → (year_of_era (era_days yoe) ≡ yoe)
      × (year_of_era (era_days yoe + year_size yoe - 1) ≡ yoe)
      × (0 < year_size yoe)
      × (era_days yoe + year_size yoe ≤ 146097)
      × (year_size yoe ≡ (if is_leap (yoe + 1) then 366 else 365))
unfolding ends_right
year_ends yoe h =
    let e = ends_right-all yoe h in
    (ground arith, ground arith, ground arith, ground arith, ground arith)

-- The year of the era is found from each of its days.
year_of_era-days :
    (yoe doy : ℕ)
    → yoe < 400
    → doy < (if is_leap (yoe + 1) then 366 else 365)
    → (year_of_era (era_days yoe + doy) ≡ yoe) × (era_days yoe + doy < 146097)
unfolding year_of_era
year_of_era-days yoe doy h lt =
    let (first, last, some_day, in_era, size) = year_ends yoe h in
    let short : doy < year_size yoe = rw size lt in
    let low = spread_mono doy (era_days yoe) (omega arith) in
    let high = spread_mono (year_size yoe - 1 - doy) (era_days yoe + doy) (omega arith) in
    let same : era_days yoe + doy + (year_size yoe - 1 - doy) ≡ era_days yoe + year_size yoe - 1 =
      omega arith in
    let high' : spread (era_days yoe + doy) ≤ spread (era_days yoe + year_size yoe - 1) =
      rw same at high in
    (omega arith, omega arith)

leap_again : (y : ℕ) → is_leap (y % 400 + 1) ≡ is_leap (y + 1)
unfolding is_leap
leap_again y = ground arith

-- Days from the start of the year 0 that starts in March.
abbrev pub march : ℕ → ℕ → ℕ
march y doy = 365 * y + y / 4 - y / 100 + y / 400 + doy

pub march-era : (y doy : ℕ) → march y doy ≡ 146097 * (y / 400) + (era_days (y % 400) + doy)
unfolding era_days
march-era y doy = omega arith

pub civil_date-march :
    (days y doy : ℕ)
    → days + 719468 ≡ march y doy
    → doy < (if is_leap (y + 1) then 366 else 365)
    → civil_date days ≡ date_in_year y doy
unfolding civil_date
civil_date-march days y doy h lt =
    let (yoe, in_era) = year_of_era-days (y % 400) doy (omega arith) (rw leap_again lt) in
    let parts : days + 719468 ≡ 146097 * (y / 400) + (era_days (y % 400) + doy) =
      h ∙ march-era y doy in
    let era : (days + 719468) / 146097 ≡ y / 400 = omega arith in
    let doe : (days + 719468) % 146097 ≡ era_days (y % 400) + doy = omega arith in
    let year : y % 400 + y / 400 * 400 ≡ y = omega arith in
    let rest : era_days (y % 400) + doy - era_days (y % 400) ≡ doy = omega arith in
    rw (era, doe, yoe, year, rest) refl

-- The months of a year that starts in March.
pub date_in_year-month :
    (y mp d : ℕ)
    → mp < 12
    → 1 ≤ d
    → d + (153 * mp + 2) / 5 ≤ (153 * mp + 155) / 5
    → date_in_year y ((153 * mp + 2) / 5 + (d - 1)) ≡ (record {
      year = if ltb mp 10 then y else y + 1;
      month = if ltb mp 10 then mp + 3 else mp - 9;
      day = d;
    })
unfolding date_in_year
date_in_year-month y mp d h least most =
    let doy = (153 * mp + 2) / 5 + (d - 1) in
    let same : (5 * doy + 2) / 153 ≡ mp = omega arith in
    let day : doy - (153 * mp + 2) / 5 + 1 ≡ d = omega arith in
    elim (Bool-cases (ltb mp 10)) [
      | inl early ↦
          let month : leb (mp + 3) 2 ≡ false = ground arith in
          rw (date_in_year, same, day, early, month) refl
      | inr late ↦
          let month : leb (mp - 9) 2 ≡ true = ground arith in
          rw (date_in_year, same, day, late, month) refl
    ]
