-- ===== src/Plans/Period.antt =====
-- `resolvePeriodMonths` of src/modules/monthly-plans/monthly-plans.service.ts: the months of a fiscal
-- year from April to March, of one of its halves, or the last twelve months.
use pft_backend.Prelude.{
  ℕ, zero, suc, ◌+◌, ◌-◌, ◌*◌, ◌/◌, ◌%◌, ◌≤◌, ◌≡◌, refl, Bool, ◌&&◌, Option, none, some, List, [],
  ◌∷◌, ◌++◌, arith, leb, ◌==◌, if◌then◌else◌, length, take, drop,
}
use pft_backend.Prelude.Value.{Text, codes, text_eq}

pub record YearMonth : Type 0 where
  pub month : ℕ
  pub year : ℕ

-- `new Date(year, monthIndex, 1)`, which carries months over into years.
abbrev pub first_of_month : ℕ → ℕ → YearMonth
first_of_month year month_index = record {
  month = month_index % 12 + 1;
  year = year + month_index / 12;
}

-- The loop `for (i = 0; i < 12; i += 1)`, with the rounds left and `i`.
abbrev months_from : ℕ → ℕ → ℕ → List YearMonth
months_from start_year zero i = []
months_from start_year (suc left) i =
    first_of_month start_year (3 + i) ∷ months_from start_year left (i + 1)

abbrev pub is_digit : ℕ → Bool
is_digit c = leb b'0' c && leb c b'9'

abbrev pub two_digits : ℕ → ℕ → ℕ
two_digits a b = 10 * (a - b'0') + (b - b'0')

-- `/^FY(\d{2})-(\d{2})$/`, with the first pair of digits
abbrev pub match_fiscal_year : Text → Option ℕ
match_fiscal_year (f ∷ y ∷ a ∷ b ∷ dash ∷ c ∷ d ∷ []) =
    if (f == b'F')
      && (y == b'Y')
      && is_digit a
      && is_digit b
      && (dash == b'-')
      && is_digit c
      && is_digit d
    then some (two_digits a b)
    else none
match_fiscal_year s = none

pub data Half : Type 0 where
  whole first second : Half

abbrev slice_of : Half → List YearMonth → List YearMonth
slice_of whole out = out
slice_of first out = take 6 out
slice_of second out = take 6 (drop 6 out)

abbrev months_of_start : Option ℕ → Half → List YearMonth
months_of_start none half = []
months_of_start (some yy) half = slice_of half (months_from (2000 + yy) 12 0)

pub fiscal_year_months : Text → Half → List YearMonth
fiscal_year_months fiscal_year half = months_of_start (match_fiscal_year fiscal_year) half

-- The loop `for (i = 11; i >= 0; i -= 1)`. A month before January goes back into the year before; twelve
-- months are added first, since `-` stops at 0.
abbrev pub months_back : ℕ → ℕ → ℕ → YearMonth
months_back year month_index i = record {
  month = (month_index + 12 - i) % 12 + 1;
  year = year - 1 + (month_index + 12 - i) / 12;
}

abbrev last_from : ℕ → ℕ → ℕ → List YearMonth
last_from year month_index zero = []
last_from year month_index (suc i) = months_back year month_index i ∷ last_from year month_index i

-- `now` is its year and its month, from 0.
pub last12_months : ℕ → ℕ → List YearMonth
last12_months year month_index = last_from year month_index 12

-- `period.endsWith(suffix)`, and `period.slice(0, -3)`
abbrev ends_with : Text → Text → Bool
ends_with s suffix = text_eq (drop (length s - length suffix) s) suffix

abbrev drop_last : ℕ → Text → Text
drop_last n s = take (length s - n) s

pub resolve_period_months : ℕ → ℕ → Text → List YearMonth
resolve_period_months year month_index period =
    if text_eq period (codes "__L12M__")
    then last12_months year month_index
    else if ends_with period (codes "_H1")
    then fiscal_year_months (drop_last 3 period) first
    else if ends_with period (codes "_H2")
    then fiscal_year_months (drop_last 3 period) second
    else fiscal_year_months period whole

-- The two halves of a fiscal year are its months, in order; each has six.
pub fiscal_year_months_halves :
    (fiscal_year : Text) (yy : ℕ)
    → match_fiscal_year fiscal_year ≡ some yy
    → (fiscal_year_months fiscal_year first ++ fiscal_year_months fiscal_year second
        ≡ fiscal_year_months fiscal_year whole)
      × (length (fiscal_year_months fiscal_year first) ≡ 6)
      × (length (fiscal_year_months fiscal_year second) ≡ 6)
unfolding fiscal_year_months
fiscal_year_months_halves fiscal_year yy e = rw e (refl, refl, refl)

-- How many months a date lies after the beginning of the calendar.
abbrev pub serial : YearMonth → ℕ
serial m = 12 * m.year + (m.month - 1)

-- Each month is the one after the month before it.
abbrev pub Consecutive : ℕ → List YearMonth → Type 0
Consecutive n [] = Unit
Consecutive n (m ∷ ms) = (serial m ≡ n) × (1 ≤ m.month) × (m.month ≤ 12) × Consecutive (n + 1) ms

-- The months of a fiscal year run from April of the year that it names to the next March, one by one.
pub fiscal_year_months-Consecutive :
    (fiscal_year : Text) (yy : ℕ)
    → match_fiscal_year fiscal_year ≡ some yy
    → Consecutive (12 * (2000 + yy) + 3) (fiscal_year_months fiscal_year whole)
      × (length (fiscal_year_months fiscal_year whole) ≡ 12)
unfolding fiscal_year_months
fiscal_year_months-Consecutive fiscal_year yy e = rw e (omega arith, refl)

-- The last twelve months run one by one, and end with the month of the date.
pub last12_months-Consecutive :
    (year month_index : ℕ)
    → 1 ≤ year
    → month_index ≤ 11
    → Consecutive (12 * year + month_index - 11) (last12_months year month_index)
      × (length (last12_months year month_index) ≡ 12)
unfolding last12_months
last12_months-Consecutive year month_index y m = (omega arith, refl)
