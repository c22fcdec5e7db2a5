-- ===== src/Adjustments/Amounts.antt =====
-- What a transaction counts for by src/modules/transactions/domain/effective-amount.ts.
use native.Mathlib.Nat.{div-add-mod, mod-lt}
use pft_backend.Prelude.{
  ℕ, zero, suc, ◌+◌, ◌*◌, ◌/◌, ◌%◌, ◌≤◌, ◌<◌, ◌≡◌, refl, ap, subst, ◌∙◌, true, false, none, some,
  arith, ltb,
}
use pft_backend.Prelude.Int.{ℤ, pos}
use pft_backend.Prelude.Value.{Text, text_eq, text_eq_refl}
use pft_backend.Adjustments.Effective.{
  AdjustmentType, split, exclude, amortize, AdjustmentInput, round_quotient, months_of,
  effective_for_cycle_txn, TxnDate, format_month_key, add_calendar_months, slice_from,
  effective_for_calendar_month, month_by_type, effective_by_type,
}

abbrev pub pos_of : ℕ → ℕ → ℕ
pos_of z n = (2 * z + n) / (2 * n)

-- `n` slices of an amount together differ from it by `n` half hundredths at most.
pub round_quotient-bounds :
    (z n : ℕ)
    → 1 ≤ n
    → let slice = pos_of z n in
      (round_quotient (pos z) n ≡ pos slice)
      × (2 * (n * slice) ≤ 2 * z + n)
      × (2 * z ≤ 2 * (n * slice) + n)
unfolding round_quotient
round_quotient-bounds z n h =
    let whole = div-add-mod (2 * z + n) (2 * n) in
    let part : (2 * z + n) % (2 * n) < 2 * n = mod-lt (2 * z + n) (omega arith) in
    (refl, grind (arith, whole), grind (arith, whole, part))

slice_from-hit :
    (d : TxnDate) (key : Text) (slice : ℤ) (left i k : ℕ)
    → k < left
    → text_eq (format_month_key (add_calendar_months d (i + k))) key ≡ true
    → slice_from d key slice left i ≡ slice
unfolding slice_from
slice_from-hit d key slice zero i k h e = ground arith
slice_from-hit d key slice (suc left) i zero h e = ground (arith, e)
slice_from-hit d key slice (suc left) i (suc k) h e =
    let e' : text_eq (format_month_key (add_calendar_months d (i + 1 + k))) key ≡ true =
      subst (λ j. text_eq (format_month_key (add_calendar_months d j)) key ≡ true) (omega arith)
        e in
    ground (arith, slice_from-hit d key slice left (i + 1) k (omega arith) e')

slice_from-miss :
    (d : TxnDate) (key : Text) (slice : ℤ) (left i : ℕ)
    → ((k : ℕ) → k < left → text_eq (format_month_key (add_calendar_months d (i + k))) key ≡ false)
    → slice_from d key slice left i ≡ pos 0
unfolding slice_from
slice_from-miss d key slice zero i h = refl
slice_from-miss d key slice (suc left) i h =
    let first : text_eq (format_month_key (add_calendar_months d i)) key ≡ false =
      subst (λ j. text_eq (format_month_key (add_calendar_months d j)) key ≡ false) (omega arith)
        (h 0 (omega arith)) in
    let later = slice_from-miss d key slice left (i + 1) (λ k le.
      subst (λ j. text_eq (format_month_key (add_calendar_months d j)) key ≡ false) (omega arith)
        (h (suc k) (omega arith))) in
    ground (arith, first, later)

from_zero : (k : ℕ) → k ≡ 0 + k
from_zero k = omega arith

abbrev pub amortized : ℕ → AdjustmentInput
amortized n = record { type = amortize; personal_share = none; amortize_months = some n }

-- An amortised transaction counts for the rounded `n`-th part in each of the `n` months from its own, and for
-- nothing in any other month.
pub effective_for_calendar_month-amortized :
    (amount : ℤ) (d : TxnDate) (key : Text) (n : ℕ)
    → 2 ≤ n
    → ((k : ℕ)
        → k < n
        → text_eq (format_month_key (add_calendar_months d k)) key ≡ true
        → effective_for_calendar_month amount d key (some (amortized n)) ≡ round_quotient amount n)
      × (((k : ℕ) → k < n → text_eq (format_month_key (add_calendar_months d k)) key ≡ false)
          → effective_for_calendar_month amount d key (some (amortized n)) ≡ pos 0)
unfolding effective_for_calendar_month
effective_for_calendar_month-amortized amount d key n h =
    let many : ltb n 2 ≡ false = ground arith in
    (
      (λ k le e. rw many (
          slice_from-hit d key (round_quotient amount n) n 0 k le (
            subst (λ j. text_eq (format_month_key (add_calendar_months d j)) key ≡ true)
              (from_zero k) e))),
      λ none_of. rw many (
          slice_from-miss d key (round_quotient amount n) n 0 (λ k le.
            subst (λ j. text_eq (format_month_key (add_calendar_months d j)) key ≡ false)
              (from_zero k) (none_of k le))),
    )

-- What the service lets in: an amortised adjustment has two months at least.
abbrev pub HasMonths : AdjustmentType → AdjustmentInput → Type 0
HasMonths split a = Unit
HasMonths exclude a = Unit
HasMonths amortize a = 2 ≤ months_of a.amortize_months

own_month : (d : TxnDate) → d.month_index ≤ 11 → add_calendar_months d 0 ≡ d
unfolding add_calendar_months
own_month d h =
    let y : (d.year * 12 + d.month_index + 0) / 12 ≡ d.year = omega arith in
    let m : ((d.year * 12 + d.month_index + 0) % 12 + 12) % 12 ≡ d.month_index = omega arith in
    rw (y, m) refl

own_month_by_type :
    (amount : ℤ) (d : TxnDate) (a : AdjustmentInput) (type : AdjustmentType)
    → d.month_index ≤ 11
    → HasMonths type a
    → month_by_type amount d (format_month_key d) a type ≡ effective_by_type amount a type
own_month_by_type amount d a split m h = rw (text_eq_refl (format_month_key d)) refl
own_month_by_type amount d a exclude m h = refl
own_month_by_type amount d a amortize m h =
    let n = months_of a.amortize_months in
    let many : ltb n 2 ≡ false = ground arith in
    let here : text_eq (format_month_key (add_calendar_months d 0)) (format_month_key d) ≡ true =
      ap (λ x. text_eq (format_month_key x) (format_month_key d)) (own_month d m)
      ∙ text_eq_refl (format_month_key d) in
    rw many
      (slice_from-hit d (format_month_key d) (round_quotient amount n) n 0 0 (omega arith) here)

-- In the month of the transaction, the calendar counts what the billing cycle counts, whatever the
-- adjustment, if it is none or one that the service lets in.
pub effective_for_calendar_month-effective_for_cycle_txn :
    (amount : ℤ) (d : TxnDate) (a : AdjustmentInput)
    → d.month_index ≤ 11
    → HasMonths a.type a
    → (effective_for_calendar_month amount d (format_month_key d) (some a)
        ≡ effective_for_cycle_txn amount (some a))
      × (effective_for_calendar_month amount d (format_month_key d) none
          ≡ effective_for_cycle_txn amount none)
unfolding effective_for_calendar_month effective_for_cycle_txn
effective_for_calendar_month-effective_for_cycle_txn amount d a m h =
    let same = text_eq_refl (format_month_key d) in
    (own_month_by_type amount d a a.type m h, rw same refl)
