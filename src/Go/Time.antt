-- ===== src/Go/Time.antt =====
-- Package time: Format and Parse with the layout time.RFC3339. An instant is its number of
-- nanoseconds from the Unix epoch.
use my_symphony.Base.Options.{◌>>=◌}
use my_symphony.Base.{
  ◌||◌, ◌^◌, ◌==◌, ◌-ℤ◌, ◌*ℤ◌, ◌&&◌, true, some, not, none, ltb, false, Option, Bool, ℕ, ℤ, pos,
  ◌+ℤ◌, pos_part, ◌+◌, ◌-◌, ◌*◌, ◌/◌, ◌%◌, ◌∷◌, [], ◌++◌, leb, if◌then◌else◌, refl, ◌≡◌, negsuc,
}
use my_symphony.Go.Utf8.{is_blank, Text, ascii}
use my_symphony.Go.Strconv.{is_digit}

pub record Civil : Type 0 where
  pub year : ℕ
  pub month : ℕ
  pub day : ℕ

-- The date that is a number of days after 1 March of the year -400; the year is counted from there.
-- A year of the count begins in March, so the leap day is its last.
unfoldable pub civil_of : ℕ → Civil
civil_of n =
    let era = n / 146_097 in
    let of_era = n % 146_097 in
    let year = (of_era - of_era / 1_460 + of_era / 36_524 - of_era / 146_096) / 365 in
    let of_year = of_era - (365 * year + year / 4 - year / 100) in
    let m = (5 * of_year + 2) / 153 in
    let day = of_year - (153 * m + 2) / 5 + 1 in
    if leb m 9
    then record { year = era * 400 + year; month = m + 3; day = day }
    else record { year = era * 400 + year + 1; month = m - 9; day = day }

-- The number of days from 1 March of the year -400 to a date, whose year is counted from there.
unfoldable pub days_to : Civil → ℕ
days_to c =
    let year = if leb c.month 2 then c.year - 1 else c.year in
    let of_era = year % 400 in
    let of_year = (153 * ((c.month + 9) % 12) + 2) / 5 + c.day - 1 in
    year / 400 * 146_097 + (of_era * 365 + of_era / 4 - of_era / 100 + of_year)

digit : ℕ → ℕ
digit n = b'0' + n % 10

unfoldable pub two_digits : ℕ → Text
unfolding digit
two_digits n = digit (n / 10) ∷ digit n ∷ []

unfoldable pub four_digits : ℕ → Text
unfolding two_digits
four_digits n = two_digits (n / 100) ++ two_digits n

-- The days from 1 March of the year -400 to the Unix epoch.
abbrev epoch : ℕ
epoch = 719_468 + 146_097

-- A year that is counted from -400.
unfoldable pub year_text : ℕ → Text
unfolding four_digits digit
year_text y =
    if ltb y 400
    then b'-' ∷ four_digits (400 - y)
    else if ltb (y - 400) 10_000
    then four_digits (y - 400)
    else digit ((y - 400) / 10_000) ∷ four_digits (y - 400)

-- Format in UTC; the instants are those of the years that Parse reads.
unfoldable pub format_rfc3339 : ℤ → Text
unfolding civil_of two_digits year_text
format_rfc3339 nanos =
    let total = pos_part (nanos +ℤ pos (epoch * 86_400 * 1_000_000_000)) / 1_000_000_000 in
    let date = civil_of (total / 86_400) in
    let second = total % 86_400 in
    year_text date.year
    ++ (b'-' ∷ two_digits date.month)
    ++ (b'-' ∷ two_digits date.day)
    ++ (b'T' ∷ two_digits (second / 3_600))
    ++ (b':' ∷ two_digits (second / 60 % 60))
    ++ (b':' ∷ two_digits (second % 60))
    ++ b'Z' ∷ []

-- Two digits, or one where the second is no digit and one is enough.
unfoldable pub get_num : Bool → Text → Option (ℕ × Text)
unfolding is_digit
get_num fixed [] = none
get_num fixed (a ∷ []) = if is_digit a && not fixed then some (a - b'0', []) else none
get_num fixed (a ∷ b ∷ s) =
    if not (is_digit a)
    then none
    else if is_digit b
    then some ((a - b'0') * 10 + (b - b'0'), s)
    else if fixed
    then none
    else some (a - b'0', b ∷ s)

-- One byte of the layout.
unfoldable pub expect : ℕ → Text → Option Text
expect a [] = none
expect a (b ∷ s) = if a == b then some s else none

-- A number of digits that are all there.
unfoldable pub get_year : Text → Option (ℕ × Text)
unfolding get_num
get_year s = do
  (high, rest) ← get_num true s
  (low, after) ← get_num true rest
  some (high * 100 + low, after)

-- A number in a range.
unfoldable pub within : ℕ → ℕ → ℕ × Text → Option (ℕ × Text)
within low high (n, s) = if leb low n && leb n high then some (n, s) else none

-- The digits of a fraction of a second as nanoseconds, of which digits count that many more.
unfoldable pub fraction : ℕ → Text → ℕ × Text
unfolding is_digit
fraction places [] = (0, [])
fraction places (b ∷ s) =
    let (n, rest) = fraction (places - 1) s in
    if not (is_digit b)
    then (0, b ∷ s)
    else if places == 0
    then (n, rest)
    else ((b - b'0') * 10 ^ (places - 1) + n, rest)

-- The fraction that may follow the seconds, after a comma or a period with a digit behind it.
unfoldable pub nanoseconds : Text → ℕ × Text
unfolding fraction is_digit
nanoseconds [] = (0, [])
nanoseconds (a ∷ []) = (0, a ∷ [])
nanoseconds (a ∷ b ∷ s) =
    if (a == b'.' || a == b',') && is_digit b then fraction 9 (b ∷ s) else (0, a ∷ b ∷ s)

-- An offset at the end of the text, under its sign.
unfoldable pub signed : ℕ → ℕ → Text → Option ℤ
signed sign seconds after =
    if not (is_blank after)
    then none
    else if sign == b'+'
    then some (pos seconds)
    else if sign == b'-'
    then some (pos 0 -ℤ pos seconds)
    else none

-- The offset of the zone in seconds, with its sign.
unfoldable pub zone_offset : Text → Option ℤ
unfolding get_num expect within signed
zone_offset [] = none
zone_offset (a ∷ []) = if a == b'Z' then some (pos 0) else none
zone_offset (a ∷ s) = do
  (hours, rest) ← get_num true s >>= within 0 24
  colon ← expect b':' rest
  (minutes, after) ← get_num true colon >>= within 0 60
  seconds ← some ((hours * 60 + minutes) * 60)
  signed a seconds after

is_leap : ℕ → Bool
is_leap y = y % 4 == 0 && (not (y % 100 == 0) || y % 400 == 0)

unfoldable pub days_in : ℕ → ℕ → ℕ
unfolding is_leap
days_in year month =
    if month == 2
    then if is_leap year then 29 else 28
    else if month == 4 || month == 6 || month == 9 || month == 11
    then 30
    else 31

-- The instant of a date, the second of its day, an offset and a fraction; `none` without that day.
unfoldable pub instant : Civil → ℕ → ℤ → ℕ → Option ℤ
unfolding days_in days_to
instant date second offset nanos =
    let days = days_to (record date { year = date.year + 400 }) in
    if leb 1 date.day && leb date.day (days_in date.year date.month)
    then some (
        (pos (days * 86_400 + second) -ℤ pos (epoch * 86_400) -ℤ offset) *ℤ pos 1_000_000_000
        +ℤ pos nanos)
    else none

-- time.Parse with the layout time.RFC3339: the nanoseconds from the Unix epoch.
unfoldable pub parse_rfc3339 : Text → Option ℤ
unfolding get_year expect get_num within nanoseconds zone_offset instant
parse_rfc3339 s = do
  (year, a) ← get_year s
  (month, b) ← expect b'-' a >>= get_num true >>= within 1 12
  (day, c) ← expect b'-' b >>= get_num true
  (hour, d) ← expect b'T' c >>= get_num false >>= within 0 23
  (minute, e) ← expect b':' d >>= get_num true >>= within 0 59
  (second, f) ← expect b':' e >>= get_num true >>= within 0 59
  (nanos, g) ← some (nanoseconds f)
  offset ← zone_offset g
  instant (record { year = year; month = month; day = day }) (hour * 3_600 + minute * 60 + second)
      offset nanos

leap_day : format_rfc3339 (pos 951_868_799_000_000_000) ≡ ascii "2000-02-29T23:59:59Z"
unfolding format_rfc3339 ◌+ℤ◌
leap_day = refl

-- A second before the epoch is cut to the whole second below.
before_epoch : format_rfc3339 (negsuc 0) ≡ ascii "1969-12-31T23:59:59Z"
unfolding format_rfc3339 ◌+ℤ◌
before_epoch = refl

reads_offset :
    parse_rfc3339 (ascii "2000-03-01T01:30:00.25+02:00") ≡ some (pos 951_867_000_250_000_000)
unfolding parse_rfc3339 ◌+ℤ◌ ◌-ℤ◌ ◌*ℤ◌ is_blank
reads_offset = refl

reads_back : parse_rfc3339 (ascii "1969-12-31T23:59:59Z") ≡ some (negsuc 999_999_999)
unfolding parse_rfc3339 ◌+ℤ◌ ◌-ℤ◌ ◌*ℤ◌ is_blank
reads_back = refl

no_such_day : parse_rfc3339 (ascii "1900-02-29T00:00:00Z") ≡ none
unfolding parse_rfc3339 ◌+ℤ◌ ◌-ℤ◌ ◌*ℤ◌ is_blank
no_such_day = refl
