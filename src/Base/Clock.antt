-- ===== src/Base/Clock.antt =====
-- time.Format with the layouts that the program uses, in UTC: the civil date of the proleptic Gregorian
-- calendar.
use Prim.Native.Nat.{ℕ, ◌+◌, ◌-◌, ◌*◌, ◌/◌, ◌%◌}
use Prim.Native.String.{String}
use mathlib.Core.Path.{◌≡◌, refl}
use tsdb_operator.Base.Tests.{if◌then◌else◌, ltb}
use tsdb_operator.Base.Text.{◌<>◌}

abbrev pub digit : ℕ → String
digit n =
    if ltb n 1
    then "0"
    else if ltb n 2
    then "1"
    else if ltb n 3
    then "2"
    else if ltb n 4
    then "3"
    else if ltb n 5
    then "4"
    else if ltb n 6
    then "5"
    else if ltb n 7
    then "6"
    else if ltb n 8
    then "7"
    else if ltb n 9
    then "8"
    else "9"

unfoldable pub two : ℕ → String
two n = digit (n / 10 % 10) <> digit (n % 10)

unfoldable pub write_date : (separator : String) → (year month day : ℕ) → String
unfolding two
write_date separator year month day =
    two (year / 100) <> two year <> separator <> two month <> separator <> two day

-- The date of a day, counted from the first of March of year 0, in years that begin with March.
unfoldable pub date : (separator : String) → ℕ → String
unfolding write_date
date separator z =
    let era = z / 146097 in
    let day_of_era = z % 146097 in
    let year_of_era =
      (day_of_era - day_of_era / 1460 + day_of_era / 36524 - day_of_era / 146096) / 365 in
    let day_of_year = day_of_era - (365 * year_of_era + year_of_era / 4 - year_of_era / 100) in
    let month = (5 * day_of_year + 2) / 153 in
    let day = day_of_year - (153 * month + 2) / 5 + 1 in
    let march_year = year_of_era + era * 400 in
    let year = if ltb month 10 then march_year else march_year + 1 in
    write_date separator year (if ltb month 10 then month + 3 else month - 9) day

-- `t` in nanoseconds since the first of January of year 1, for years of four digits.
unfoldable pub stamp : ℕ → String
unfolding date
stamp t =
    let s = t / 1000000000 in
    date "" (s / 86400 + 306)
    <> "T"
    <> two (s / 3600 % 24)
    <> two (s / 60 % 60)
    <> two (s % 60)
    <> "Z"

-- The layout 2006-01-02T15:04:05Z.
unfoldable pub long_stamp : ℕ → String
unfolding date
long_stamp t =
    let s = t / 1000000000 in
    date "-" (s / 86400 + 306)
    <> "T"
    <> two (s / 3600 % 24)
    <> ":"
    <> two (s / 60 % 60)
    <> ":"
    <> two (s % 60)
    <> "Z"

long_stamp_leap_day : long_stamp 63844806896000000000 ≡ "2024-02-29T12:34:56Z"
unfolding long_stamp
long_stamp_leap_day = refl

stamp_leap_day : stamp 63844806896000000000 ≡ "20240229T123456Z"
unfolding stamp
stamp_leap_day = refl

stamp_new_year : stamp 63871286399999999999 ≡ "20241231T235959Z"
unfolding stamp
stamp_new_year = refl
