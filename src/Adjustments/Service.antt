-- ===== src/Adjustments/Service.antt =====
-- `TransactionAdjustmentService`,
-- src/modules/transactions/services/transaction-adjustment.service.ts. The random id of a new row is an argument.
use pft_backend.Prelude.{
  ℕ, ◌/◌, Bool, true, false, not, ◌&&◌, ◌||◌, Option, none, some, List, [], ◌∷◌, ◌==◌,
  if◌then◌else◌, find_first, delete_first,
}
use pft_backend.Prelude.Int.{ℤ, pos, ltb_ℤ}
use pft_backend.Prelude.Action.{
  Result, ok, err, Action, pure, gets, modify, or_throw, from_result, ◌>>=◌, ◌>>◌,
}
use pft_backend.Prelude.Value.{
  Text, Number, fin, nan, infinity, neg_infinity, is_integer, hundredths,
}
use pft_backend.Errors.{
  Error, txn_not_found, adjustment_not_found, bad_personal_share, bad_amortize_months,
}
use pft_backend.Adjustments.Effective.{
  AdjustmentType, split, exclude, amortize, round_quotient, months_of,
}

-- The columns of a transaction that the service reads.
pub record Transaction : Type 0 where
  pub id : ℕ
  pub tenant : ℕ
  pub amount : ℤ

pub record TransactionAdjustment : Type 0 where
  pub id : ℕ
  pub tenant : ℕ
  pub transaction_id : ℕ
  pub type : AdjustmentType
  pub personal_share : Option ℤ
  pub amortize_months : Option ℕ
  pub note : Option Text
  pub created_by : ℕ
  pub updated_by : ℕ

pub record TxnDb : Type 0 where
  pub transactions : List Transaction
  pub adjustments : List TransactionAdjustment

-- `Number(undefined)` is NaN, so a field that is left out is `nan`.
pub record UpsertTransactionAdjustmentDto : Type 0 where
  pub type : AdjustmentType
  pub personal_share : Number
  pub amortize_months : Number
  pub note : Option Text

pub record TransactionAdjustmentResponse : Type 0 where
  pub id : ℕ
  pub transaction_id : ℕ
  pub type : AdjustmentType
  pub personal_share : Option ℤ
  pub amortize_months : Option ℕ
  pub monthly_amount : Option ℤ
  pub note : Option Text

abbrev pub is_txn : ℕ → ℕ → Transaction → Bool
is_txn t id x = (x.id == id) && (x.tenant == t)

-- `share > 0 && share < amount`
abbrev pub is_share : Number → ℤ → Bool
is_share (fin s) amount = ltb_ℤ (pos 0) s && ltb_ℤ s amount
is_share nan amount = false
is_share infinity amount = false
is_share neg_infinity amount = false

-- `!Number.isInteger(n) || n < 2 || n > 60`
abbrev pub is_bad_months : Number → Bool
is_bad_months (fin n) = not (is_integer (fin n)) || ltb_ℤ n (pos 200) || ltb_ℤ (pos 6000) n
is_bad_months nan = true
is_bad_months infinity = true
is_bad_months neg_infinity = true

unfoldable pub check_adjustment :
    UpsertTransactionAdjustmentDto → AdjustmentType → ℤ → Result Error (Unit {0})
check_adjustment dto split amount =
    if is_share dto.personal_share amount then ok tt else err bad_personal_share
check_adjustment dto amortize amount =
    if is_bad_months dto.amortize_months then err bad_amortize_months else ok tt
check_adjustment dto exclude amount = ok tt

abbrev pub finite : Number → Option ℤ
finite (fin z) = some z
finite nan = none
finite infinity = none
finite neg_infinity = none

abbrev pub stored_share : AdjustmentType → Number → Option ℤ
stored_share split n = finite n
stored_share exclude n = none
stored_share amortize n = none

abbrev pub stored_months : AdjustmentType → Number → Option ℕ
stored_months split n = none
stored_months exclude n = none
stored_months amortize n = some (hundredths n / 100)

abbrev pub new_adjustment : ℕ → ℕ → ℕ → ℕ → UpsertTransactionAdjustmentDto → TransactionAdjustment
new_adjustment id t actor txn dto = record {
  id = id;
  tenant = t;
  transaction_id = txn;
  type = dto.type;
  personal_share = stored_share dto.type dto.personal_share;
  amortize_months = stored_months dto.type dto.amortize_months;
  note = dto.note;
  created_by = actor;
  updated_by = actor;
}

abbrev pub updated_adjustment :
    ℕ → UpsertTransactionAdjustmentDto → TransactionAdjustment → TransactionAdjustment
updated_adjustment actor dto a = record a {
  type = dto.type;
  personal_share = stored_share dto.type dto.personal_share;
  amortize_months = stored_months dto.type dto.amortize_months;
  note = dto.note;
  updated_by = actor;
}

-- The unique key `transactionId`.
abbrev pub is_adjustment_of : ℕ → TransactionAdjustment → Bool
is_adjustment_of txn a = a.transaction_id == txn

unfoldable pub upsert_row :
    ℕ
    → (TransactionAdjustment → TransactionAdjustment)
    → TransactionAdjustment
    → List TransactionAdjustment
    → List TransactionAdjustment
upsert_row txn update create [] = create ∷ []
upsert_row txn update create (a ∷ rows) =
    if is_adjustment_of txn a then update a ∷ rows else a ∷ upsert_row txn update create rows

abbrev pub saved_adjustment :
    (TransactionAdjustment → TransactionAdjustment)
    → TransactionAdjustment
    → Option TransactionAdjustment
    → TransactionAdjustment
saved_adjustment update create none = create
saved_adjustment update create (some a) = update a

abbrev monthly_amount_of : AdjustmentType → ℤ → Option ℕ → Option ℤ
monthly_amount_of amortize amount n = some (round_quotient amount (months_of n))
monthly_amount_of split amount n = none
monthly_amount_of exclude amount n = none

abbrev pub to_response : ℤ → TransactionAdjustment → TransactionAdjustmentResponse
to_response amount a = record {
  id = a.id;
  transaction_id = a.transaction_id;
  type = a.type;
  personal_share = a.personal_share;
  amortize_months = a.amortize_months;
  monthly_amount = monthly_amount_of a.type amount a.amortize_months;
  note = a.note;
}

unfoldable pub upsert :
    ℕ
    → ℕ
    → ℕ
    → ℕ
    → UpsertTransactionAdjustmentDto
    → Action TxnDb Error TransactionAdjustmentResponse
upsert id t actor txn dto = do
  transaction ← or_throw (← gets (λ db. find_first (is_txn t txn) db.transactions)) txn_not_found
  from_result (check_adjustment dto dto.type transaction.amount)
  existing ← gets (λ db. find_first (is_adjustment_of txn) db.adjustments)
  modify (λ db. record db {
    adjustments =
        upsert_row txn (updated_adjustment actor dto) (new_adjustment id t actor txn dto)
          db.adjustments;
  })
  pure (
      to_response transaction.amount (
        saved_adjustment (updated_adjustment actor dto) (new_adjustment id t actor txn dto)
          existing))

abbrev pub is_adjustment_by : ℕ → ℕ → TransactionAdjustment → Bool
is_adjustment_by t txn a = (a.tenant == t) && is_adjustment_of txn a

abbrev pub has_adjustment_id : ℕ → TransactionAdjustment → Bool
has_adjustment_id id a = a.id == id

unfoldable pub remove : ℕ → ℕ → Action TxnDb Error (Unit {0})
remove t txn = do
  adjustment ←
      or_throw (← gets (λ db. find_first (is_adjustment_by t txn) db.adjustments))
        adjustment_not_found
  modify (λ db. record db {
    adjustments = delete_first (has_adjustment_id adjustment.id) db.adjustments;
  })
