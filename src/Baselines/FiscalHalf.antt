-- ===== src/Baselines/FiscalHalf.antt =====
-- src/modules/settings/domain/fiscal-half.ts. A year has four digits, as `String(startYear).slice(2)` wants.
use pft_backend.Prelude.{
  ℕ, ◌+◌, ◌-◌, ◌/◌, ◌%◌, ◌≤◌, ◌≡◌, refl, Bool, true, ◌&&◌, ◌||◌, Option, none, some, [], ◌∷◌, arith,
  ltb, leb, ◌==◌, if◌then◌else◌,
}
use pft_backend.Prelude.Value.{Text, text_eq}
use pft_backend.Plans.Period.{is_digit, two_digits}

pub data Half : Type 0 where
  h1 h2 : Half

pub record FiscalHalf : Type 0 where
  pub start_year : ℕ
  pub half : Half

-- A day of the server's clock: its year, and its month from 0.
pub record Clock : Type 0 where
  pub year : ℕ
  pub month_index : ℕ

abbrev half_digit : Half → ℕ
half_digit h1 = b'1'
half_digit h2 = b'2'

-- `String(year).slice(2)`, of a year of four digits
abbrev high_digit : ℕ → ℕ
high_digit year = b'0' + year % 100 / 10

abbrev low_digit : ℕ → ℕ
low_digit year = b'0' + year % 10

unfoldable pub format_fiscal_half_key : ℕ → Half → Text
format_fiscal_half_key start_year half =
    b'F'
    ∷ b'Y'
    ∷ high_digit start_year
    ∷ low_digit start_year
    ∷ b'-'
    ∷ high_digit (start_year + 1)
    ∷ low_digit (start_year + 1)
    ∷ b'_'
    ∷ b'H'
    ∷ half_digit half
    ∷ []

unfoldable pub fiscal_half_from_date : Clock → FiscalHalf
fiscal_half_from_date now =
    let month = now.month_index + 1 in
    record {
      start_year = if leb 4 month then now.year else now.year - 1;
      half = if leb 4 month && leb month 9 then h1 else h2;
    }

unfoldable pub get_current_fiscal_half_key : Clock → Text
get_current_fiscal_half_key now =
    let current = fiscal_half_from_date now in
    format_fiscal_half_key current.start_year current.half

abbrev pub next_of : ℕ → Half → Text
next_of start_year h1 = format_fiscal_half_key start_year h2
next_of start_year h2 = format_fiscal_half_key (start_year + 1) h1

unfoldable pub get_next_fiscal_half_key : Clock → Text
get_next_fiscal_half_key now =
    let current = fiscal_half_from_date now in next_of current.start_year current.half

abbrev parse_half : ℕ → Option Half
parse_half h = if h == b'1' then some h1 else if h == b'2' then some h2 else none

abbrev with_year : ℕ → Option Half → Option FiscalHalf
with_year year none = none
with_year year (some half) = some (record { start_year = year; half = half })

-- `/^FY(\d{2})-(\d{2})_H([12])$/`
unfoldable pub parse_fiscal_half_key : Text → Option FiscalHalf
parse_fiscal_half_key (f ∷ y ∷ a ∷ b ∷ dash ∷ c ∷ d ∷ low ∷ hh ∷ h ∷ []) =
    if (f == b'F')
      && (y == b'Y')
      && is_digit a
      && is_digit b
      && (dash == b'-')
      && is_digit c
      && is_digit d
      && (low == b'_')
      && (hh == b'H')
    then with_year (2000 + two_digits a b) (parse_half h)
    else none
parse_fiscal_half_key s = none

abbrev half_number : Half → ℕ
half_number h1 = 1
half_number h2 = 2

abbrev pub is_before_or_at : FiscalHalf → FiscalHalf → Bool
is_before_or_at p current =
    ltb p.start_year current.start_year
    || ((p.start_year == current.start_year) && leb (half_number p.half) (half_number current.half))

abbrev pub locked_by_clock : Option FiscalHalf → FiscalHalf → Bool
locked_by_clock none current = true
locked_by_clock (some p) current = is_before_or_at p current

unfoldable pub is_fiscal_half_locked : Clock → Text → Bool
is_fiscal_half_locked now key =
    locked_by_clock (parse_fiscal_half_key key) (fiscal_half_from_date now)

unfoldable pub is_creatable_fiscal_half : Clock → Text → Bool
is_creatable_fiscal_half now key =
    text_eq key (get_current_fiscal_half_key now) || text_eq key (get_next_fiscal_half_key now)

is_digit-digit : (x : ℕ) → x ≤ 9 → is_digit (b'0' + x) ≡ true
is_digit-digit x h = ground arith

digits_of_year :
    (year : ℕ) → (is_digit (high_digit year) ≡ true) × (is_digit (low_digit year) ≡ true)
digits_of_year year =
    (is_digit-digit (year % 100 / 10) (omega arith), is_digit-digit (year % 10) (omega arith))

year_of_digits :
    (year : ℕ)
    → 2000 ≤ year
    → year ≤ 2099
    → 2000 + two_digits (high_digit year) (low_digit year) ≡ year
year_of_digits year low high = omega arith

-- The key of a half of the years 2000 to 2099 is read back as that half.
pub parse_fiscal_half_key-format_fiscal_half_key :
    (year : ℕ) (half : Half)
    → 2000 ≤ year
    → year ≤ 2099
    → parse_fiscal_half_key (format_fiscal_half_key year half)
      ≡ some (record { start_year = year; half = half })
unfolding parse_fiscal_half_key format_fiscal_half_key
parse_fiscal_half_key-format_fiscal_half_key year half low high =
    let (a, b) = digits_of_year year in
    let (c, d) = digits_of_year (year + 1) in
    rw (a, b, c, d, year_of_digits year low high) (read half)
  where
    read :
        (h : Half)
        → with_year year (parse_half (half_digit h)) ≡ some (record { start_year = year; half = h })
    read h1 = refl
    read h2 = refl
