-- ===== src/Prelude/Calendar.antt =====
-- Instants as counts of milliseconds since 1970 in UTC, days as counts of days since then, and what
-- `Date.prototype.toISOString` writes of them, for the years up to 9999.
use Prim.Native.Nat.{ℕ, ◌+◌, ◌-◌, ◌*◌, ◌/◌, ◌%◌}
use mathlib.Core.List.{[], ◌∷◌, ◌++◌}
use pft_backend.Prelude.Tests.{ltb, leb, if◌then◌else◌}
use pft_backend.Prelude.Value.{Text}

pub record Civil : Type 0 where
  pub year : ℕ
  pub month : ℕ
  pub day : ℕ

-- Years begin in March here, and come in eras of 400.
abbrev year_of_era : ℕ → ℕ
year_of_era doe = (doe + doe / 36524 - doe / 1460 - doe / 146096) / 365

abbrev day_of_year : ℕ → ℕ
day_of_year doe = let yoe = year_of_era doe in doe + yoe / 100 - 365 * yoe - yoe / 4

abbrev month_of_march : ℕ → ℕ
month_of_march mp = if ltb mp 10 then mp + 3 else mp - 9

unfoldable pub civil_of_day : ℕ → Civil
civil_of_day days =
    let z = days + 719468 in
    let doe = z % 146097 in
    let doy = day_of_year doe in
    let mp = (5 * doy + 2) / 153 in
    let month = month_of_march mp in
    record {
      year = 400 * (z / 146097) + year_of_era doe + (if leb month 2 then 1 else 0);
      month = month;
      day = doy + 1 - (153 * mp + 2) / 5;
    }

abbrev pub ms_of_day : ℕ
ms_of_day = 86400000

abbrev two : ℕ → Text
two n = (b'0' + n / 10 % 10) ∷ (b'0' + n % 10) ∷ []

abbrev three : ℕ → Text
three n = (b'0' + n / 100 % 10) ∷ two n

abbrev four : ℕ → Text
four n = (b'0' + n / 1000 % 10) ∷ three n

-- `toISOString().slice(0, 10)`
unfoldable pub iso_day : ℕ → Text
unfolding civil_of_day
iso_day ms =
    let c = civil_of_day (ms / ms_of_day) in
    four c.year ++ (b'-' ∷ (two c.month ++ (b'-' ∷ two c.day)))

unfoldable pub iso_text : ℕ → Text
unfolding iso_day
iso_text ms =
    iso_day ms
    ++ (b'T'
        ∷ (two (ms / 3600000 % 24)
            ++ (b':'
                ∷ (two (ms / 60000 % 60)
                    ++ (b':'
                        ∷ (two (ms / 1000 % 60) ++ (b'.' ∷ (three (ms % 1000) ++ (b'Z' ∷ [])))))))))
