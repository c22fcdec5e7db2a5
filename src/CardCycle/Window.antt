-- ===== src/CardCycle/Window.antt =====
-- The billing window of a day, `getCycleWindow` of src/modules/transactions/services/card-cycle-summary.service.ts.
use pft_backend.Prelude.{
  ℕ, ◌+◌, ◌-◌, ◌*◌, ◌/◌, ◌%◌, ◌≤◌, ◌<◌, ◌≡◌, refl, ap, ◌∙◌, true, false, ◌&&◌, arith, ltb, leb,
  ◌==◌, if◌then◌else◌, Bool-cases, inl, inr,
}
use pft_backend.CardCycle.Dates.{
  LocalDate, month_length, days_in_month, day_of_months, date_at, months_of_date, date_key,
  day_before, in_window, get_cycle_window,
}

pub record IsDate (d : LocalDate) : Type 0 where
  pub month_below : d.month_index < 12
  pub day_from : 1 ≤ d.day
  pub day_to : d.day ≤ days_in_month (months_of_date d)

pub month_length-bounds : (y m : ℕ) → (28 ≤ month_length y m) × (month_length y m ≤ 31)
month_length-bounds y m = ground arith

pub date_at_key :
    (months d : ℕ)
    → d ≤ 32
    → date_key (date_at months d) ≡ (
        if leb d (days_in_month months)
        then months * 32 + d
        else (months + 1) * 32 + (d - days_in_month months))
unfolding date_at
date_at_key months d small = elim (Bool-cases (leb d (days_in_month months))) [
  | inl fits ↦ rw fits (omega arith)
  | inr over ↦ rw over (omega arith)
]

-- The key of the day `d` of the month `m`, whose length is `n`.
abbrev key_at : ℕ → ℕ → ℕ → ℕ
key_at n m d = if leb d n then m * 32 + d else (m + 1) * 32 + (d - n)

-- Numbers that stand for the keys of the first day, of today and of the day after, in the two branches of the window.
module _ (m day cycle_day n n' start end_exclusive : ℕ) (n_from : 28 ≤ n) (n_to : n ≤ 31)
    (n'_from : 28 ≤ n') (n'_to : n' ≤ 31) (day_to : day ≤ n) (to : cycle_day ≤ 31)
    (last : end_exclusive ≡ key_at n m (day + 1)) where
  in_window_late :
      leb cycle_day day ≡ true
      → start ≡ key_at n m cycle_day
      → leb start (m * 32 + day) && ltb (m * 32 + day) end_exclusive ≡ leb cycle_day (n' + day)
  in_window_late late first = ground (arith, late, first, last)

  in_window_early :
      leb cycle_day day ≡ false
      → 1 ≤ m
      → start ≡ key_at n' (m - 1) cycle_day
      → leb start (m * 32 + day) && ltb (m * 32 + day) end_exclusive ≡ leb cycle_day (n' + day)
  in_window_early early m_from first = ground (arith, early, first, last)

abbrev date_of : ℕ → ℕ → ℕ → LocalDate
date_of y m d = record { year = y; month_index = m; day = d }

same_date : (y m d y' m' d' : ℕ) → y ≡ y' → m ≡ m' → d ≡ d' → date_of y m d ≡ date_of y' m' d'
same_date y m d y' m' d' p q r = rw (p, q, r) refl

module _ (now : LocalDate) (d : IsDate now) where
  day_before-date_at : day_before (date_at (months_of_date now) (now.day + 1)) ≡ now
  unfolding day_before date_at
  day_before-date_at =
      let months = months_of_date now in
      let n = month_length-bounds (months / 12) (months % 12) in
      let year : months / 12 ≡ now.year = omega (arith, d.month_below) in
      let month : months % 12 ≡ now.month_index = omega (arith, d.month_below) in
      elim (Bool-cases (leb (now.day + 1) (days_in_month months))) [
        | inl fits ↦
            let more : (now.day + 1 == 1) ≡ false = ground (arith, d.day_from) in
            rw (fits, more)
              (same_date (months / 12) (months % 12) (now.day + 1 - 1) now.year now.month_index
                now.day year month (omega arith))
        | inr over ↦
            let one : (now.day + 1 - days_in_month months == 1) ≡ true =
              ground (arith, over, d.day_to) in
            let back : (months + 1) / 12 * 12 + (months + 1) % 12 - 1 ≡ months = omega arith in
            let full : days_in_month months ≡ now.day = ground (arith, over, d.day_to) in
            rw (over, one)
              (ap (λ k. day_of_months k (days_in_month k)) back
                ∙ same_date (months / 12) (months % 12) (days_in_month months) now.year
                    now.month_index now.day year month full)
      ]

  -- The billing window holds today unless the cycle day is so far past the end of the month before that it falls on a
  -- later day of this month; its last day is today, for a cycle day of 1 to 31.
  pub get_cycle_window-in_window :
      (cycle_day : ℕ)
      → 1 ≤ now.year
      → cycle_day ≤ 31
      → (in_window (get_cycle_window now cycle_day) now
          ≡ leb cycle_day (days_in_month (months_of_date now - 1) + now.day))
        × (day_before (get_cycle_window now cycle_day).end_exclusive ≡ now)
  unfolding get_cycle_window
  get_cycle_window-in_window cycle_day year to =
      let months = months_of_date now in
      let n = month_length-bounds (months / 12) (months % 12) in
      let n' = month_length-bounds ((months - 1) / 12) ((months - 1) % 12) in
      let last = date_at_key months (now.day + 1) (omega (arith, d.day_to, n)) in
      (
        elim (Bool-cases (leb cycle_day now.day)) [
          | inl late ↦ rw late (
              in_window_late months now.day cycle_day (days_in_month months)
                (days_in_month (months - 1)) (date_key (date_at months cycle_day))
                (date_key (date_at months (now.day + 1))) n.0 n.1 n'.0 n'.1 d.day_to to last late
                (date_at_key months cycle_day (omega (arith, to))))
          | inr early ↦ rw early (
              in_window_early months now.day cycle_day (days_in_month months)
                (days_in_month (months - 1)) (date_key (date_at (months - 1) cycle_day))
                (date_key (date_at months (now.day + 1))) n.0 n.1 n'.0 n'.1 d.day_to to last early
                (omega (arith, year)) (date_at_key (months - 1) cycle_day (omega (arith, to))))
        ],
        day_before-date_at,
      )
