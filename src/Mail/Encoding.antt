-- ===== src/Mail/Encoding.antt =====
-- Percent-encoding and dates (src/email.rs).
use dendri_server.Common.{
  not, Bool, ◌&&◌, ◌||◌, ℕ, ◌+◌, ◌-◌, ◌*◌, ◌/◌, ◌%◌, ◌≤◌, ◌<◌, ◌≡◌, refl, ap, ap₂, inl, inr, true,
  false, [], ◌∷◌, Text, arith, All, leb, nat_beq, if◌then◌else◌, Bool-cases,
}
use dendri_server.Mail.{
  is_unreserved, upper_hex, rfc3986, civil_from_days, era_of, Date, date_of, day_of_era,
  year_of_era, day_of_year,
}

-- The value of a digit.
hex_value : ℕ → ℕ
hex_value c = if leb c 57 then c - 48 else c - 55

-- A reader of percent-encoding is between characters, after a percent sign, or after its first digit.
data Mode : Type 0 where
  between after_percent : Mode
  after_digit : ℕ → Mode

percent_decode : Mode → Text → Text
percent_decode mode [] = []
percent_decode between (c ∷ s) =
    let plain = c ∷ percent_decode between s in
    let escaped = percent_decode after_percent s in if nat_beq c 37 then escaped else plain
percent_decode after_percent (c ∷ s) = percent_decode (after_digit (hex_value c)) s
percent_decode (after_digit high) (c ∷ s) = (high * 16 + hex_value c) ∷ percent_decode between s

hex_value-upper_hex : (n : ℕ) → n < 16 → hex_value (upper_hex n) ≡ n
unfolding hex_value
hex_value-upper_hex n h = ground (arith, h)

unreserved_plain : (b : ℕ) → is_unreserved b ≡ true → nat_beq b 37 ≡ false
unreserved_plain b h = ground (arith, h)

-- What `rfc3986` writes for bytes is read back as those bytes.
percent_decode-rfc3986 : (s : Text) → All (λ b. b < 256) s → percent_decode between (rfc3986 s) ≡ s
unfolding percent_decode rfc3986
percent_decode-rfc3986 [] h = refl
percent_decode-rfc3986 (b ∷ s) h = elim (Bool-cases (is_unreserved b)) [
  | inl e ↦ rw e (rw (unreserved_plain b e) (ap (λ t. b ∷ t) (percent_decode-rfc3986 s h.1)))
  | inr e ↦
      rw
        (
          e,
          hex_value-upper_hex (b / 16) (omega (arith, h.0)),
          hex_value-upper_hex (b % 16) (omega arith),
        )
        (ap₂ ◌∷◌ (omega arith) (percent_decode-rfc3986 s h.1))
]

-- The calendar that the algorithm is for: leap years, and the days of a month.
abbrev pub is_leap : ℕ → Bool
is_leap y = nat_beq (y % 4) 0 && (not (nat_beq (y % 100) 0) || nat_beq (y % 400) 0)

abbrev pub days_in_month : ℕ → ℕ → ℕ
days_in_month y m =
    if nat_beq m 2
    then (if is_leap y then 29 else 28)
    else if nat_beq m 4 || (nat_beq m 6 || (nat_beq m 9 || nat_beq m 11))
    then 30
    else 31

pub record IsDate (d : Date) : Type 0 where
  pub first_month : 1 ≤ d.month
  pub last_month : d.month ≤ 12
  pub first_day : 1 ≤ d.day
  pub last_day : d.day ≤ days_in_month d.year d.month

-- The days of a year that starts in March, from 0: one more before a leap February ends.
abbrev last_day_of : ℕ → ℕ
last_day_of y = if is_leap (y + 1) then 365 else 364

date_of-IsDate : (y doy : ℕ) → doy ≤ last_day_of y → IsDate (date_of y doy)
date_of-IsDate y doy h = record {
  first_month = ground (arith, h);
  last_month = ground (arith, h);
  first_day = ground (arith, h);
  last_day = ground (arith, h);
}

day_of_year-le : (doe : ℕ) → doe ≤ 146096 → day_of_year doe (year_of_era doe) ≤ 365
day_of_year-le doe h = omega (arith, h)

day_of_year-last_day_of :
    (doe era : ℕ)
    → doe ≤ 146096
    → day_of_year doe (year_of_era doe) ≤ last_day_of (year_of_era doe + era * 400)
day_of_year-last_day_of doe era h = ground (arith, h)

-- The day number of a date, counted from the months of a year that starts in March.
pub days_from_civil : Date → ℕ
days_from_civil d =
    let y = if leb d.month 2 then d.year - 1 else d.year in
    let mp = if leb d.month 2 then d.month + 9 else d.month - 3 in
    let yoe = y % 400 in
    (y / 400) * 146097
    + (365 * yoe + yoe / 4 - yoe / 100 + ((153 * mp + 2) / 5 + (d.day - 1)))
    - 719468

-- The start of a year of an era is not after its days.
year_start-le :
    (doe : ℕ)
    → doe ≤ 146096
    → (365 * year_of_era doe + year_of_era doe / 4 - year_of_era doe / 100 ≤ doe)
      × (year_of_era doe ≤ 399)
year_start-le doe h = (omega (arith, h), omega (arith, h))

days-date_of :
    (yoe era doy : ℕ)
    → yoe ≤ 399
    → doy ≤ 365
    → days_from_civil (date_of (yoe + era * 400) doy)
      ≡ era * 146097 + (365 * yoe + yoe / 4 - yoe / 100 + doy) - 719468
unfolding days_from_civil
days-date_of yoe era doy h g = ground (arith, h, g)

number_of_date : (days : ℕ) → days_from_civil (civil_from_days days) ≡ days
unfolding civil_from_days
number_of_date days =
    let doe = day_of_era days in
    let small : doe ≤ 146096 = omega arith in
    let start = year_start-le doe small in
    rw
      (days-date_of (year_of_era doe) (era_of days) (day_of_year doe (year_of_era doe)) start.1
        (day_of_year-le doe small))
      (omega (arith, start.0))

-- A day number since 1970 is turned into a date of the Gregorian calendar, with a day from 1 to the
-- last of its month in its year, and the date has that day number when it is counted back.
pub days_from_civil-civil_from_days :
    (days : ℕ) → (days_from_civil (civil_from_days days) ≡ days) × IsDate (civil_from_days days)
unfolding civil_from_days
days_from_civil-civil_from_days days = (
  number_of_date days,
  date_of-IsDate (year_of_era (day_of_era days) + era_of days * 400)
      (day_of_year (day_of_era days) (year_of_era (day_of_era days)))
      (day_of_year-last_day_of (day_of_era days) (era_of days) (omega arith)),
)
