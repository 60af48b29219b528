-- ===== src/Apple/Clock.antt =====
-- `iso8601_utc` of src/apple.rs: an instant in UTC as text.
pub mod March
pub mod Calendar
use alt_keeper.Base.{
  zero, if◌then◌else◌, ◌%◌, ◌*◌, ◌+◌, suc, ◌++◌, ◌/◌, ◌-◌, ◌∷◌, [], ℕ, ltb, leb, length,
}
use alt_keeper.Base.Text.{Str}

-- At least one digit; 20 rounds are enough for 64 bits.
unfoldable pub digits : ℕ → ℕ → Str
digits zero n = []
digits (suc fuel) n =
    let rest = digits fuel (n / 10) in
    if ltb n 10 then (b'0' + n) ∷ [] else rest ++ (b'0' + n % 10) ∷ []

unfoldable pub zeros : ℕ → Str
zeros zero = []
zeros (suc n) = b'0' ∷ zeros n

-- `{n:0w}`
unfoldable pub padded : ℕ → ℕ → Str
unfolding digits zeros
padded w n = zeros (w - length (digits 20 n)) ++ digits 20 n

pub record Date : Type 0 where
  pub year : ℕ
  pub month : ℕ
  pub day : ℕ

-- The year of a 400 year era that starts in March, from a day of the era.
unfoldable pub year_of_era : ℕ → ℕ
year_of_era doe = (doe - doe / 1460 + doe / 36524 - doe / 146096) / 365

-- The days of an era before one of its years.
unfoldable pub era_days : ℕ → ℕ
era_days yoe = 365 * yoe + yoe / 4 - yoe / 100

-- The date of a day of a year that starts in March.
unfoldable pub date_in_year : ℕ → ℕ → Date
date_in_year year doy =
    let mp = (5 * doy + 2) / 153 in
    let month = if ltb mp 10 then mp + 3 else mp - 9 in
    record {
      year = if leb month 2 then year + 1 else year;
      month = month;
      day = doy - (153 * mp + 2) / 5 + 1;
    }

-- The civil date of the day that is `days` days after the start of 1970.
unfoldable pub civil_date : ℕ → Date
unfolding year_of_era era_days date_in_year
civil_date days =
    let z = days + 719468 in
    let era = z / 146097 in
    let doe = z % 146097 in
    let yoe = year_of_era doe in date_in_year (yoe + era * 400) (doe - era_days yoe)

-- The six fields of the text.
unfoldable pub stamp : Date → ℕ → ℕ → ℕ → Str
unfolding padded
stamp date h m s =
    padded 4 date.year
    ++ (b'-'
        ∷ (padded 2 date.month
            ++ (b'-'
                ∷ (padded 2 date.day
                    ++ (b'T'
                        ∷ (padded 2 h
                            ++ (b':' ∷ (padded 2 m ++ (b':' ∷ (padded 2 s ++ b'Z' ∷ []))))))))))

unfoldable pub iso8601_utc : ℕ → Str
iso8601_utc epoch_secs =
    let rem = epoch_secs % 86400 in
    stamp (civil_date (epoch_secs / 86400)) (rem / 3600) (rem % 3600 / 60) (rem % 60)
