-- ===== src/Runtimes/Timestamp.antt =====
-- The UTC timestamps of the runtime catalog: crates/runtime/src/lib.rs. Years are from 1970 on where
-- `days_from_civil` is called, so the numbers are never negative.
use fabdev.Prelude.{
  ℕ, ◌+◌, ◌-◌, ◌*◌, ◌/◌, ◌%◌, Bool, true, not, ◌&&◌, Option, none, some, List, [], ◌∷◌, ltb, leb,
  ◌==◌, if◌then◌else◌, split_once, split_bytes, any, all, Text, codes, Result, ◌>>=◌, ◌>>◌, bail_if,
  context, is_ascii_digit, len, ends_with, is_empty, split, parse_uint, ok, ◌||◌,
}

abbrev pub u32_max : ℕ
u32_max = 4294967295

unfoldable pub is_leap_year : ℕ → Bool
is_leap_year year = year % 4 == 0 && (not (year % 100 == 0) || year % 400 == 0)

unfoldable pub days_from_civil : ℕ → ℕ → ℕ → ℕ
days_from_civil year month day =
    let adjusted_year = year - (if leb month 2 then 1 else 0) in
    let era = adjusted_year / 400 in
    let year_of_era = adjusted_year - era * 400 in
    let adjusted_month = if ltb 2 month then month - 3 else month + 9 in
    let day_of_year = (153 * adjusted_month + 2) / 5 + day - 1 in
    let day_of_era = year_of_era * 365 + year_of_era / 4 - year_of_era / 100 + day_of_year in
    era * 146097 + day_of_era - 719468

unfoldable pub days_in_month : ℕ → ℕ → ℕ
unfolding is_leap_year
days_in_month year month =
    if any (λ m. m == month) (1 ∷ 3 ∷ 5 ∷ 7 ∷ 8 ∷ 10 ∷ 12 ∷ [])
    then 31
    else if any (λ m. m == month) (4 ∷ 6 ∷ 9 ∷ 11 ∷ [])
    then 30
    else if month == 2
    then if is_leap_year year then 29 else 28
    else 0

unfoldable pub is_valid_time : ℕ → ℕ → ℕ → ℕ → ℕ → ℕ → Bool
unfolding days_in_month
is_valid_time year month day hour minute second =
    leb 1970 year
    && (not (day == 0)
        && (leb day (days_in_month year month)
            && (leb hour 23 && (leb minute 59 && leb second 59))))

unfoldable pub is_digits : Text → Bool
unfolding is_empty is_ascii_digit
is_digits s = not (is_empty s) && all is_ascii_digit s

-- The clock and the fraction of the part between `T` and `Z`.
unfoldable pub clock_of : Text → Text × Option Text
unfolding split_once
clock_of time = elim (split_once b'.' time) [
  | none ↦ (time, none)
  | some (clock, fraction) ↦ (clock, some fraction)
]

abbrev pub good_fraction : Option Text → Bool
good_fraction none = true
good_fraction (some digits) = is_digits digits

-- Three parts of the given lengths in bytes.
unfoldable pub three_parts : ℕ → ℕ → ℕ → List Text → Option (Text × Text × Text)
unfolding len
three_parts i j k (a ∷ b ∷ c ∷ []) =
    if len a == i && (len b == j && len c == k) then some (a, b, c) else none
three_parts i j k [] = none
three_parts i j k (a ∷ []) = none
three_parts i j k (a ∷ b ∷ []) = none
three_parts i j k (a ∷ b ∷ c ∷ d ∷ rest) = none

unfoldable pub drop_last : Text → Text
drop_last [] = []
drop_last (c ∷ []) = []
drop_last (c ∷ d ∷ s) = c ∷ drop_last (d ∷ s)

-- `&value[..10]` and `&value[11..value.len() - 1]`, if `T` stands between and `Z` at the end.
unfoldable pub date_and_time : Text → Option (Text × Text)
unfolding len ends_with split_bytes drop_last
date_and_time value =
    if ltb (len value) 20 || not (ends_with (codes "Z") value)
    then none
    else elim (split_bytes 10 value) [
      | none ↦ none
      | some (date, []) ↦ none
      | some (date, c ∷ time) ↦ if c == b'T' then some (date, drop_last time) else none
    ]

pub data TimestampError : Type 0 where
  not_a_timestamp invalid_date : TimestampError

-- The seconds from 1970 on.
unfoldable pub parse_rfc3339_utc : Text → Result TimestampError ℕ
unfolding date_and_time clock_of split three_parts is_digits parse_uint is_valid_time
    days_from_civil
parse_rfc3339_utc value = do
  (date, time) ← context (date_and_time value) not_a_timestamp
  let clock = (clock_of time).0
  (y, m, d) ← context (three_parts 4 2 2 (split b'-' date)) not_a_timestamp
  (h, n, s) ← context (three_parts 2 2 2 (split b':' clock)) not_a_timestamp
  bail_if (not (good_fraction (clock_of time).1)) not_a_timestamp
  year ← context (parse_uint u32_max y) not_a_timestamp
  month ← context (parse_uint u32_max m) not_a_timestamp
  day ← context (parse_uint u32_max d) not_a_timestamp
  hour ← context (parse_uint u32_max h) not_a_timestamp
  minute ← context (parse_uint u32_max n) not_a_timestamp
  second ← context (parse_uint u32_max s) not_a_timestamp
  bail_if (not (is_valid_time year month day hour minute second)) invalid_date
  ok (days_from_civil year month day * 86400 + (hour * 3600 + minute * 60 + second))
