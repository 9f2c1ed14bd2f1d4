-- ===== src/Base/Dates.antt =====
-- Package time: the date and the time of day of an instant, in UTC, and the layouts in use.
use Prim.Native.Nat.{ℕ, zero, suc, ◌+◌, ◌-◌, ◌*◌, ◌/◌, ◌%◌, min}
use Prim.Native.String.{String}
use mathlib.Core.Bool.{Bool, not, ◌&&◌, ◌||◌}
use mathlib.Core.List.{List, [], ◌∷◌, ◌++◌}
use slackbot_hubspot.Base.Tests.{ltb, leb, nat_beq, if◌then◌else◌}
use slackbot_hubspot.Base.Bytes.{bytes, decimal}

-- A year, a month from 0 to 11, and a day from 0 on.
pub record Date : Type 0 where
  pub year : ℕ
  pub month : ℕ
  pub day : ℕ

abbrev pub is_leap : ℕ → Bool
is_leap y = nat_beq (y % 4) 0 && (not (nat_beq (y % 100) 0) || nat_beq (y % 400) 0)

abbrev pub lengths : ℕ → List ℕ
lengths y =
    31 ∷ (if is_leap y then 29 else 28) ∷ 31 ∷ 30 ∷ 31 ∷ 30 ∷ 31 ∷ 31 ∷ 30 ∷ 31 ∷ 30 ∷ 31 ∷ []

-- The month of a day of the year.
abbrev pub in_month : ℕ → ℕ → ℕ → List ℕ → Date
in_month y m day [] = record { year = y; month = m; day = day }
in_month y m day (n ∷ ns) =
    let rest = in_month y (m + 1) (day - n) ns in
    if ltb day n then record { year = y; month = m; day = day } else rest

-- The date of a number of days after the first of January of year 1.
unfoldable pub date_of : ℕ → Date
date_of days =
    let in_400 = days % 146097 in
    let n100 = min 3 (in_400 / 36524) in
    let in_100 = in_400 - n100 * 36524 in
    let in_4 = in_100 % 1461 in
    let n1 = min 3 (in_4 / 365) in
    let year = days / 146097 * 400 + n100 * 100 + in_100 / 1461 * 4 + n1 + 1 in
    in_month year 0 (in_4 - n1 * 365) (lengths year)

-- A number with a zero before it if it has one digit.
abbrev pub two_digits : ℕ → List ℕ
two_digits n = (b'0' + n / 10) ∷ (b'0' + n % 10) ∷ []

abbrev pub four_digits : ℕ → List ℕ
four_digits n = two_digits (n / 100 % 100) ++ two_digits (n % 100)

-- A year has four digits at least.
abbrev pub year_digits : ℕ → List ℕ
year_digits y = if ltb y 10000 then four_digits y else decimal y

abbrev pub seconds_of : ℕ → ℕ
seconds_of t = t / 1000000000

-- "15:04:05"
unfoldable pub clock_text : ℕ → List ℕ
clock_text t =
    let s = seconds_of t % 86400 in
    two_digits (s / 3600)
    ++ bytes ":"
    ++ two_digits (s / 60 % 60)
    ++ bytes ":"
    ++ two_digits (s % 60)

abbrev pub on : ℕ → Date
on t = date_of (seconds_of t / 86400)

-- `t.UTC().Format(time.RFC3339)`
unfoldable pub rfc3339 : ℕ → List ℕ
rfc3339 t =
    let d = on t in
    year_digits d.year
    ++ bytes "-"
    ++ two_digits (d.month + 1)
    ++ bytes "-"
    ++ two_digits (d.day + 1)
    ++ bytes "T"
    ++ clock_text t
    ++ bytes "Z"

abbrev pub month_name : ℕ → List String → List ℕ
month_name n [] = []
month_name zero (m ∷ ms) = bytes m
month_name (suc n) (m ∷ ms) = month_name n ms

-- `t.UTC().Format("2006-01-02 15:04:05")`
unfoldable pub date_and_time : ℕ → List ℕ
date_and_time t =
    let d = on t in
    year_digits d.year
    ++ bytes "-"
    ++ two_digits (d.month + 1)
    ++ bytes "-"
    ++ two_digits (d.day + 1)
    ++ bytes " "
    ++ clock_text t

-- `t.UTC().Format("Jan 2, 2006 at 15:04:05 MST")`
unfoldable pub long_date : ℕ → List ℕ
long_date t =
    let d = on t in
    month_name d.month (
      "Jan" ∷ "Feb" ∷ "Mar" ∷ "Apr" ∷ "May" ∷ "Jun" ∷ "Jul" ∷ "Aug" ∷ "Sep" ∷ "Oct" ∷ "Nov" ∷ "Dec"
      ∷ [])
    ++ bytes " "
    ++ decimal (d.day + 1)
    ++ bytes ", "
    ++ year_digits d.year
    ++ bytes " at "
    ++ clock_text t
    ++ bytes " UTC"

-- `t.Unix()`, written by `%d`: the seconds after 1970.
unfoldable pub unix_text : ℕ → List ℕ
unix_text t =
    let s = seconds_of t in
    if leb 62135596800 s then decimal (s - 62135596800) else b'-' ∷ decimal (62135596800 - s)
