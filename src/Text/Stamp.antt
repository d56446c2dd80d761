-- ===== src/Text/Stamp.antt =====
-- time.Time's Format("20060102150405") in UTC, of an instant counted in nanoseconds from the first of
-- January of the year 1.
use Prim.Native.String
use runspace.Prelude.{
  ℕ, zero, suc, ◌+◌, ◌-◌, ◌*◌, ◌/◌, ◌%◌, ◌≡◌, ap, String, Bool, not, ◌&&◌, ◌||◌, List, [], ◌∷◌, ltb,
  eqb, if◌then◌else◌,
}
use runspace.Text.Decimal.{decimal, digit}

-- The last `width` digits of `n`, in front of a text.
pad : ℕ → ℕ → String → String
unfolding digit
pad zero n rest = rest
pad (suc width) n rest = pad width (n / 10) (String.◌∷◌ (digit (n % 10)) rest)

is_leap : ℕ → Bool
is_leap year = eqb (year % 4) 0 && (not (eqb (year % 100) 0) || eqb (year % 400) 0)

month_days : Bool → List ℕ
month_days leap =
    31 ∷ (if leap then 29 else 28) ∷ 31 ∷ 30 ∷ 31 ∷ 30 ∷ 31 ∷ 31 ∷ 30 ∷ 31 ∷ 30 ∷ 31 ∷ []

-- The month and the day in it, from the day in the year.
month_and_day : List ℕ → ℕ → ℕ → ℕ × ℕ
month_and_day [] month day = (month, day + 1)
month_and_day (days ∷ rest) month day =
    let later = month_and_day rest (month + 1) (day - days) in
    if ltb day days then (month, day + 1) else later

-- Centuries in 400 years and years in four number at most four.
capped : ℕ → ℕ
capped n = if ltb n 4 then n else 3

-- The year and the day in it, of a day counted from the first of January of the year 1.
year_and_day : ℕ → ℕ × ℕ
unfolding capped
year_and_day day =
    let in_era = day % 146097 in
    let century = capped (in_era / 36524) in
    let in_century = in_era - century * 36524 in
    let in_cycle = in_century % 1461 in
    let year = capped (in_cycle / 365) in
    (day / 146097 * 400 + century * 100 + in_century / 1461 * 4 + year + 1, in_cycle - year * 365)

year_text : ℕ → String → String
unfolding pad
year_text year rest = if ltb year 10000 then pad 4 year rest else String.◌++◌ (decimal year) rest

-- The stamp of a second.
second_stamp : ℕ → String
unfolding pad is_leap month_days month_and_day year_and_day year_text
second_stamp second =
    let (year, day_of_year) = year_and_day (second / 86400) in
    let (month, day) = month_and_day (month_days (is_leap year)) 1 day_of_year in
    let clock = pad 2 (second / 3600 % 24) (pad 2 (second / 60 % 60) (pad 2 (second % 60) "")) in
    year_text year (pad 2 month (pad 2 day clock))

unfoldable pub time_stamp : ℕ → String
unfolding second_stamp
time_stamp instant = second_stamp (instant / 1000000000)

-- Instants of one second have one stamp.
pub time_stamp_second : (i j : ℕ) → i / 1000000000 ≡ j / 1000000000 → time_stamp i ≡ time_stamp j
unfolding time_stamp
time_stamp_second i j h = ap second_stamp h
