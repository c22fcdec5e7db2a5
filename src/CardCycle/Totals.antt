-- ===== src/CardCycle/Totals.antt =====
-- The total of the calendar month, over the map that `computeCalendarMonthByCard` of
-- src/modules/transactions/services/card-cycle-summary.service.ts fills.
use pft_backend.Prelude.{
  ℕ, ◌+◌, ◌-◌, ◌*◌, ◌/◌, ◌%◌, ◌≡◌, refl, sym, ap, subst, ◌∙◌, Bool, true, false, ◌&&◌, Option, some,
  List, [], ◌∷◌, map, arith, ◌==◌, ==_iff, if◌then◌else◌, Bool-cases, inl, inr, where_rows, All,
  Apart, Distinct, Distinct-where_rows, Distinct-sort_by,
}
use pft_backend.Prelude.Int.{ℤ, pos, ◌+ℤ◌, sum_ℤ, int_laws, +ℤ_zero}
use pft_backend.Prelude.Value.{Text}
use pft_backend.CardCycle.Dates.{LocalDate, in_window, date_key, date_at, months_of_date}
use pft_backend.CardCycle.Tables.{WalletCard, Spend, WalletDb}
use pft_backend.CardCycle.Spend.{
  CardMap, lookup, change, is_card_in, CalendarMonthByCardEntry, no_spend, month_window,
  amortize_window, is_read, raw_part, effective_part, with_spend, add_spends, empty_entries,
  compute_calendar_month_by_card,
}
use pft_backend.CardCycle.Window.{month_length-bounds, date_at_key}
use pft_backend.CardCycle.Summary.{
  CardCycleSummaryRow, total_of, row_of, is_wallet_card, by_card_key, wallet_cards, sources_of,
  card_ids, get_summary,
}

lookup-change :
    {A : Type 0} (c k : ℕ) (f : A → A) (m : CardMap A) (a : A)
    → lookup c m ≡ some a
    → lookup c (change k f m) ≡ some (if k == c then f a else a)
lookup-change c k f [] a e = cc
lookup-change c k f ((j, b) ∷ m) a e = ground (arith, e, lookup-change c k f m a)

abbrev spend_of : ℕ → Spend → Bool
spend_of c x = x.card_id == c

abbrev entry : ℤ → ℤ → CalendarMonthByCardEntry
entry raw effective = record { raw_spend = raw; effective_spend = effective }

plus_assoc : (a b c : ℤ) → (a +ℤ b) +ℤ c ≡ a +ℤ (b +ℤ c)
plus_assoc a b c = omega int_laws

-- The entry `e` after the transactions `xs` of its card.
abbrev after_spends : LocalDate → CalendarMonthByCardEntry → List Spend → CalendarMonthByCardEntry
after_spends now e xs =
    entry (e.raw_spend +ℤ sum_ℤ (raw_part now) xs)
      (e.effective_spend +ℤ sum_ℤ (effective_part now) xs)

after_spends-with_spend :
    (now : LocalDate) (e : CalendarMonthByCardEntry) (x : Spend) (xs : List Spend)
    → after_spends now (with_spend now x e) xs ≡ after_spends now e (x ∷ xs)
after_spends-with_spend now e x xs =
    rw
      (
        plus_assoc e.raw_spend (raw_part now x) (sum_ℤ (raw_part now) xs),
        plus_assoc e.effective_spend (effective_part now x) (sum_ℤ (effective_part now) xs),
      )
      refl

add_spends-lookup :
    (now : LocalDate) (c : ℕ) (xs : List Spend) (m : CardMap CalendarMonthByCardEntry)
    (e : CalendarMonthByCardEntry)
    → lookup c m ≡ some e
    → lookup c (add_spends now xs m) ≡ some (after_spends now e (where_rows (spend_of c) xs))
unfolding add_spends
add_spends-lookup now c [] m e h = rw (+ℤ_zero e.raw_spend, +ℤ_zero e.effective_spend) h
add_spends-lookup now c (x ∷ xs) m e h =
    let m' = change x.card_id (with_spend now x) m in
    let moved : lookup c m' ≡ some (if x.card_id == c then with_spend now x e else e) =
      lookup-change c x.card_id (with_spend now x) m e h in
    elim (Bool-cases (x.card_id == c)) [
      | inl own ↦ rw own (
          add_spends-lookup now c xs m' (with_spend now x e) (rw own at moved)
          ∙ ap some (after_spends-with_spend now e x (where_rows (spend_of c) xs)))
      | inr other ↦ rw other (add_spends-lookup now c xs m' e (rw other at moved))
    ]

lookup-empty_entries :
    (c : ℕ) (ids : List ℕ) → is_card_in ids c ≡ true → lookup c (empty_entries ids) ≡ some no_spend
lookup-empty_entries c [] h = cc
lookup-empty_entries c (id ∷ ids) h = ground (arith, h, lookup-empty_entries c ids)

abbrev of_cards : List WalletCard → Spend → Bool
of_cards cards x = is_card_in (card_ids cards) x.card_id

sum_none : (f : Spend → ℤ) (xs : List Spend) → sum_ℤ f (where_rows (of_cards []) xs) ≡ pos 0
sum_none f [] = refl
sum_none f (x ∷ xs) = sum_none f xs

not_in_cards :
    (c : ℕ) (cards : List WalletCard)
    → Apart WalletCard.id c cards
    → is_card_in (card_ids cards) c ≡ false
not_in_cards c [] a = refl
not_in_cards c (card ∷ cards) a = ground (arith, a.0, not_in_cards c cards a.1)

sum_split :
    (f : Spend → ℤ) (card : WalletCard) (cards : List WalletCard)
    → Apart WalletCard.id card.id cards
    → (xs : List Spend)
    → sum_ℤ f (where_rows (of_cards (card ∷ cards)) xs)
      ≡ sum_ℤ f (where_rows (spend_of card.id) xs) +ℤ sum_ℤ f (where_rows (of_cards cards) xs)
sum_split f card cards a [] = omega int_laws
sum_split f card cards a (x ∷ xs) = elim (Bool-cases (x.card_id == card.id)) [
  | inl own ↦
      let out : is_card_in (card_ids cards) x.card_id ≡ false =
        subst (λ c. is_card_in (card_ids cards) c ≡ false) (sym ((==_iff x.card_id card.id).0 own))
          (not_in_cards card.id cards a) in
      let here : (card.id == x.card_id) ≡ true = ground (arith, own) in
      rw (own, here, out) (rw (sum_split f card cards a xs) (omega int_laws))
  | inr other ↦
      let apart : (card.id == x.card_id) ≡ false = ground (arith, other) in
      elim (Bool-cases (of_cards cards x)) [
        | inl later ↦ rw (other, apart, later) (rw (sum_split f card cards a xs) (omega int_laws))
        | inr none_of ↦ rw (other, apart, none_of) (sum_split f card cards a xs)
      ]
]

sum_by_card :
    (f : Spend → ℤ) (xs : List Spend) (cards : List WalletCard)
    → Distinct WalletCard.id cards
    → sum_ℤ (λ (card : WalletCard). sum_ℤ f (where_rows (spend_of card.id) xs)) cards
      ≡ sum_ℤ f (where_rows (of_cards cards) xs)
sum_by_card f xs [] d = sym (sum_none f xs)
sum_by_card f xs (card ∷ cards) d =
    ap (λ z. sum_ℤ f (where_rows (spend_of card.id) xs) +ℤ z) (sum_by_card f xs cards d.1)
    ∙ sym (sum_split f card cards d.0 xs)

first_of_month : (months : ℕ) → date_key (date_at months 1) ≡ months * 32 + 1
first_of_month months =
    let first = date_at_key months 1 (omega arith) in
    let n = month_length-bounds (months / 12) (months % 12) in ground (arith, first, n)

month_window-amortize_window :
    (now d : LocalDate)
    → in_window (month_window now) d ≡ true
    → in_window (amortize_window now) d ≡ true
month_window-amortize_window now d h =
    let months = months_of_date now in
    ground
      (arith, h, first_of_month months, first_of_month (months - 60), first_of_month (months + 1))

-- The transactions of the tenant's cards in the month of the day.
abbrev pub is_month_spend : ℕ → LocalDate → List WalletCard → Spend → Bool
is_month_spend t now cards x =
    (x.tenant == t)
    && is_card_in (card_ids cards) x.card_id
    && in_window (month_window now) x.txn_date

zero_plus : {a b : ℤ} → a ≡ b → pos 0 +ℤ a ≡ b
zero_plus {a} e = subst (λ z. pos 0 +ℤ a ≡ z) e (omega int_laws)

zero_first : (a b : ℤ) → (pos 0 +ℤ a) +ℤ b ≡ a +ℤ b
zero_first a b = omega int_laws

raw_of_read :
    (t : ℕ) (now : LocalDate) (cards : List WalletCard) (xs : List Spend)
    → sum_ℤ (raw_part now) (
        where_rows
          (of_cards cards)
          (where_rows (is_read t (card_ids cards) (amortize_window now)) xs))
      ≡ sum_ℤ (λ (x : Spend). x.amount) (where_rows (is_month_spend t now cards) xs)
raw_of_read t now cards [] = refl
raw_of_read t now cards (x ∷ xs) =
    let rest = raw_of_read t now cards xs in
    elim (Bool-cases (x.tenant == t)) [
      | inr foreign ↦ rw foreign rest
      | inl own ↦ elim (Bool-cases (of_cards cards x)) [
        | inr no_card ↦ rw (own, no_card) rest
        | inl card ↦ elim (Bool-cases (in_window (month_window now) x.txn_date)) [
          | inl month ↦
              let wide = month_window-amortize_window now x.txn_date month in
              rw (own, card, month, wide, card, month) (ap (◌+ℤ◌ x.amount) rest)
          | inr other ↦ elim (Bool-cases (in_window (amortize_window now) x.txn_date)) [
            | inl wide ↦ rw (own, card, other, wide, card, other) (zero_plus rest)
            | inr old ↦ rw (own, card, other, old) rest
          ]
        ]
      ]
    ]

in_card_ids_later :
    (card : WalletCard) (cs cards : List WalletCard)
    → All (λ c. is_card_in (card_ids cards) c.id ≡ true) cs
    → All (λ c. is_card_in (card_ids (card ∷ cards)) c.id ≡ true) cs
in_card_ids_later card [] cards a = tt
in_card_ids_later card (c ∷ cs) cards a = (ground (arith, a.0), in_card_ids_later card cs cards a.1)

in_card_ids : (cards : List WalletCard) → All (λ c. is_card_in (card_ids cards) c.id ≡ true) cards
in_card_ids [] = tt
in_card_ids (card ∷ cards) = (ground arith, in_card_ids_later card cards cards (in_card_ids cards))

module _ (decrypt : Text → Option Text) (t : ℕ) (now : LocalDate) (db : WalletDb) where
  month_by_card-lookup :
      (ids : List ℕ) (c : ℕ)
      → is_card_in ids c ≡ true
      → lookup c (compute_calendar_month_by_card t ids now db.transactions)
        ≡ some (
            after_spends now no_spend (
              where_rows
                (spend_of c)
                (where_rows (is_read t ids (amortize_window now)) db.transactions)))
  unfolding compute_calendar_month_by_card
  month_by_card-lookup ids c h =
      add_spends-lookup now c (where_rows (is_read t ids (amortize_window now)) db.transactions)
        (empty_entries ids) no_spend (lookup-empty_entries c ids h)

  row_months :
      (ids : List ℕ) (cs : List WalletCard)
      → All (λ c. is_card_in ids c.id ≡ true) cs
      → total_of CardCycleSummaryRow.calendar_month_spend
          (map (row_of decrypt t now (sources_of t now ids db)) cs)
        ≡ sum_ℤ
            (λ (card : WalletCard). sum_ℤ (raw_part now) (
              where_rows
                (spend_of card.id)
                (where_rows (is_read t ids (amortize_window now)) db.transactions)))
            cs
  unfolding row_of
  row_months ids [] a = refl
  row_months ids (c ∷ cs) a =
      let rest = row_months ids cs a.1 in
      rw (month_by_card-lookup ids c.id a.0, rest)
        (zero_first
          (sum_ℤ (raw_part now) (
            where_rows (spend_of c.id)
              (where_rows (is_read t ids (amortize_window now)) db.transactions)))
          (sum_ℤ
            (λ (card : WalletCard). sum_ℤ (raw_part now) (
              where_rows (spend_of card.id)
                (where_rows (is_read t ids (amortize_window now)) db.transactions)))
            cs))

  -- The total of the calendar month that a summary shows is the sum of the amounts of this month's transactions of the
  -- tenant's cards that are not deleted, each once, if the ids of the cards are distinct.
  pub get_summary-calendar_month_spend :
      Distinct WalletCard.id db.cards
      → (get_summary decrypt t now db).calendar_month_spend
        ≡ sum_ℤ
            (λ (x : Spend). x.amount)
            (where_rows (is_month_spend t now (wallet_cards t db)) db.transactions)
  unfolding get_summary wallet_cards
  get_summary-calendar_month_spend d =
      let cards = wallet_cards t db in
      let ids = card_ids cards in
      let read = where_rows (is_read t ids (amortize_window now)) db.transactions in
      let apart : Distinct WalletCard.id cards =
        Distinct-sort_by WalletCard.id by_card_key (where_rows (is_wallet_card t) db.cards)
          (Distinct-where_rows WalletCard.id (is_wallet_card t) db.cards d) in
      row_months ids cards (in_card_ids cards)
      ∙ sum_by_card (raw_part now) read cards apart
      ∙ raw_of_read t now cards db.transactions
