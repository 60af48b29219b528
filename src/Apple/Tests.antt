-- ===== src/Apple/Tests.antt =====
-- A run of the channel for the code, of src/apple.rs.
use alt_keeper.Base.{refl, none, arith, ◌*◌, ◌≡◌, ◌+◌}
use alt_keeper.Apple.Code.{Exchange, login_code, is_code, ask, post_answer, answer, send_answer}
use alt_keeper.Base.Trim.{trim}
use alt_keeper.Base.Text.{is_ascii_digit, codes}
use alt_keeper.Apple.Code.Delivered.{IsDelivered, login_code-IsDelivered, then, start, asks}
use alt_keeper.Apple.Clock.Calendar.{days_in_month, day_number, iso8601_utc-stamp}
use alt_keeper.Apple.Clock.{
  iso8601_utc, civil_date, year_of_era, era_days, stamp, date_in_year, padded, zeros, digits,
}
use alt_keeper.Apple.Clock.March.{is_leap}

abbrev asked : Exchange
unfolding ask
asked = ask none

login_code-IsDelivered_example :
    IsDelivered (codes " 123456 ") asked (login_code (codes " 123456 ") asked).1
unfolding login_code is_code post_answer answer send_answer trim is_ascii_digit ask
login_code-IsDelivered_example =
    login_code-IsDelivered (codes " 123456 ") (then start (asks none refl)) refl

-- The instant 951782400, the start of the 29th of February 2000.
leap_day_text : iso8601_utc 951782400 ≡ codes "2000-02-29T00:00:00Z"
unfolding iso8601_utc civil_date year_of_era era_days date_in_year stamp padded zeros digits
leap_day_text = refl

iso8601_utc-stamp_example :
    iso8601_utc (86400 * day_number 30 2 29 + (3600 * 23 + 60 * 59 + 58))
    ≡ stamp (record { year = 2000; month = 2; day = 29 }) 23 59 58
unfolding days_in_month is_leap
iso8601_utc-stamp_example =
    iso8601_utc-stamp 30 2 29 23 59 58 (omega arith) (omega arith) (omega arith) (omega arith)
      (omega arith) (omega arith) (omega arith)
