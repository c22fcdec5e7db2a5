-- ===== src/Adjustments/Stored.antt =====
-- What `TransactionAdjustmentService` of src/modules/transactions/services/transaction-adjustment.service.ts
-- stores.
use pft_backend.Prelude.{
  ℕ, ◌/◌, ◌≤◌, ◌≡◌, refl, ap, ◌∙◌, true, false, Option, none, some, List, [], ◌∷◌, arith, ◌==◌,
  Option-cases, inl, inr, where_rows, find_first, delete_first, Apart,
}
use pft_backend.Prelude.Int.{ℤ, pos, negsuc, ltb_ℤ}
use pft_backend.Prelude.Action.{ok}
use pft_backend.Prelude.Value.{Number, fin, nan, infinity, neg_infinity, hundredths}
use pft_backend.Adjustments.Effective.{AdjustmentType, split, exclude, amortize}
use pft_backend.Adjustments.Service.{
  Transaction, TransactionAdjustment, TxnDb, UpsertTransactionAdjustmentDto,
  TransactionAdjustmentResponse, is_txn, check_adjustment, stored_share, stored_months,
  new_adjustment, updated_adjustment, is_adjustment_of, upsert_row, saved_adjustment, to_response,
  upsert, is_adjustment_by, has_adjustment_id, remove, finite, is_share, is_bad_months,
}

abbrev IsShare : ℤ → Option ℤ → Type 0
IsShare amount none = ⊥
IsShare amount (some s) = (ltb_ℤ (pos 0) s ≡ true) × (ltb_ℤ s amount ≡ true)

abbrev IsMonths : Option ℕ → Type 0
IsMonths none = ⊥
IsMonths (some n) = (2 ≤ n) × (n ≤ 60)

-- A share above nothing and below the amount, or two to sixty months, and no other figure beside it.
abbrev pub IsAllowed : ℤ → AdjustmentType → Option ℤ → Option ℕ → Type 0
IsAllowed amount split s n = IsShare amount s × (n ≡ none)
IsAllowed amount exclude s n = (s ≡ none) × (n ≡ none)
IsAllowed amount amortize s n = (s ≡ none) × IsMonths n

is_share-IsShare : (amount : ℤ) (n : Number) → is_share n amount ≡ true → IsShare amount (finite n)
is_share-IsShare amount (fin s) e = ground arith
is_share-IsShare amount nan e = cc
is_share-IsShare amount infinity e = cc
is_share-IsShare amount neg_infinity e = cc

is_bad_months-IsMonths :
    (n : Number) → is_bad_months n ≡ false → IsMonths (some (hundredths n / 100))
is_bad_months-IsMonths (fin (pos n)) e = ground arith
is_bad_months-IsMonths (fin (negsuc n)) e = ground arith
is_bad_months-IsMonths nan e = cc
is_bad_months-IsMonths infinity e = cc
is_bad_months-IsMonths neg_infinity e = cc

checked-IsAllowed :
    (dto : UpsertTransactionAdjustmentDto) (type : AdjustmentType) (amount : ℤ)
    → check_adjustment dto type amount ≡ ok tt
    → IsAllowed amount type
        (stored_share type dto.personal_share)
        (stored_months type dto.amortize_months)
unfolding check_adjustment
checked-IsAllowed dto split amount e =
    (is_share-IsShare amount dto.personal_share (ground arith), refl)
checked-IsAllowed dto exclude amount e = (refl, refl)
checked-IsAllowed dto amortize amount e =
    (refl, is_bad_months-IsMonths dto.amortize_months (ground arith))

-- What a successful upsert has checked and written.
pub record IsUpserted (id t actor txn : ℕ) (dto : UpsertTransactionAdjustmentDto) (db : TxnDb)
    (r : TransactionAdjustmentResponse) (db' : TxnDb) : Type 0 where
  pub transaction : Transaction
  pub found : find_first (is_txn t txn) db.transactions ≡ some transaction
  pub checked : check_adjustment dto dto.type transaction.amount ≡ ok tt
  pub returned :
      r
      ≡ to_response transaction.amount (
          saved_adjustment
            (updated_adjustment actor dto)
            (new_adjustment id t actor txn dto)
            (find_first (is_adjustment_of txn) db.adjustments))
  pub written : db' ≡ record db {
    adjustments =
        upsert_row txn
          (updated_adjustment actor dto)
          (new_adjustment id t actor txn dto)
          db.adjustments;
  }

pub upsert-IsUpserted :
    (id t actor txn : ℕ) (dto : UpsertTransactionAdjustmentDto) (db : TxnDb)
    (r : TransactionAdjustmentResponse) (db' : TxnDb)
    → upsert id t actor txn dto db ≡ (ok r, db')
    → IsUpserted id t actor txn dto db r db'
unfolding upsert
upsert-IsUpserted id t actor txn dto db r db' e =
    elim (Option-cases (find_first (is_txn t txn) db.transactions)) [
      | inl missing ↦ ground arith
      | inr (x, found) ↦ record {
        transaction = x;
        found = found;
        checked = ground arith;
        returned = ground arith;
        written = ground arith;
      }
    ]

find_first-upsert_row :
    (txn : ℕ) (update : TransactionAdjustment → TransactionAdjustment)
    (create : TransactionAdjustment) (rows : List TransactionAdjustment)
    → ((a : TransactionAdjustment)
        → is_adjustment_of txn a ≡ true
        → is_adjustment_of txn (update a) ≡ true)
    → is_adjustment_of txn create ≡ true
    → find_first (is_adjustment_of txn) (upsert_row txn update create rows)
      ≡ some (saved_adjustment update create (find_first (is_adjustment_of txn) rows))
unfolding upsert_row
find_first-upsert_row txn update create [] same new = ground (arith, new)
find_first-upsert_row txn update create (a ∷ rows) same new =
    ground (arith, same a, find_first-upsert_row txn update create rows same new)

others-upsert_row :
    (txn other : ℕ) (update : TransactionAdjustment → TransactionAdjustment)
    (create : TransactionAdjustment) (rows : List TransactionAdjustment)
    → ((a : TransactionAdjustment)
        → is_adjustment_of txn a ≡ true
        → is_adjustment_of txn (update a) ≡ true)
    → is_adjustment_of txn create ≡ true
    → (txn == other) ≡ false
    → where_rows (is_adjustment_of other) (upsert_row txn update create rows)
      ≡ where_rows (is_adjustment_of other) rows
unfolding upsert_row
others-upsert_row txn other update create [] same new ne = ground (arith, new)
others-upsert_row txn other update create (a ∷ rows) same new ne =
    ground (arith, same a, others-upsert_row txn other update create rows same new ne)

saved-IsAllowed :
    (amount : ℤ) (actor : ℕ) (dto : UpsertTransactionAdjustmentDto) (create : TransactionAdjustment)
    (old : Option TransactionAdjustment)
    → IsAllowed amount dto.type
        (stored_share dto.type dto.personal_share)
        (stored_months dto.type dto.amortize_months)
    → create.type ≡ dto.type
    → create.personal_share ≡ stored_share dto.type dto.personal_share
    → create.amortize_months ≡ stored_months dto.type dto.amortize_months
    → let a = saved_adjustment (updated_adjustment actor dto) create old in
      IsAllowed amount a.type a.personal_share a.amortize_months
saved-IsAllowed amount actor dto create none h t s m = rw (t, s, m) h
saved-IsAllowed amount actor dto create (some a) h t s m = h

-- After a successful upsert the transaction is the tenant's, its stored adjustment is allowed for its amount
-- and is what was returned, and the adjustments of every other transaction are as before.
pub upsert-IsAllowed :
    (id t actor txn : ℕ) (dto : UpsertTransactionAdjustmentDto) (db : TxnDb)
    (r : TransactionAdjustmentResponse) (db' : TxnDb)
    → upsert id t actor txn dto db ≡ (ok r, db')
    → (x : Transaction) × (a : TransactionAdjustment) × (find_first (is_txn t txn) db.transactions
        ≡ some x)
      × (find_first (is_adjustment_of txn) db'.adjustments ≡ some a)
      × IsAllowed x.amount a.type a.personal_share a.amortize_months
      × (r ≡ to_response x.amount a)
      × ((other : ℕ)
          → (txn == other) ≡ false
          → where_rows (is_adjustment_of other) db'.adjustments
            ≡ where_rows (is_adjustment_of other) db.adjustments)
upsert-IsAllowed id t actor txn dto db r db' e =
    let u = upsert-IsUpserted id t actor txn dto db r db' e in
    let update = updated_adjustment actor dto in
    let create = new_adjustment id t actor txn dto in
    let own : is_adjustment_of txn create ≡ true = ground arith in
    (
      u.transaction,
      saved_adjustment update create (find_first (is_adjustment_of txn) db.adjustments),
      u.found,
      ap (λ (d : TxnDb). find_first (is_adjustment_of txn) d.adjustments) u.written
          ∙ find_first-upsert_row txn update create db.adjustments (λ a h. h) own,
      saved-IsAllowed u.transaction.amount actor dto create
          (find_first (is_adjustment_of txn) db.adjustments)
          (checked-IsAllowed dto dto.type u.transaction.amount u.checked) refl refl refl,
      u.returned,
      λ other ne.
          ap (λ (d : TxnDb). where_rows (is_adjustment_of other) d.adjustments) u.written
          ∙ others-upsert_row txn other update create db.adjustments (λ a h. h) own ne,
    )

removed-created :
    (t txn : ℕ) (create : TransactionAdjustment) (rows : List TransactionAdjustment)
    → find_first (is_adjustment_of txn) rows ≡ none
    → Apart (λ (a : TransactionAdjustment). a.id) create.id rows
    → is_adjustment_by t txn create ≡ true
    → (update : TransactionAdjustment → TransactionAdjustment)
    → (find_first (is_adjustment_by t txn) (upsert_row txn update create rows) ≡ some create)
      × (delete_first (has_adjustment_id create.id) (upsert_row txn update create rows) ≡ rows)
unfolding upsert_row
removed-created t txn create [] e apart own update = ground (arith, own)
removed-created t txn create (a ∷ rows) e apart own update = ground (
  arith,
  removed-created t txn create rows,
  apart.0,
  removed-created t txn create rows (ground arith) apart.1 own update,
)

-- The removal of an adjustment that was just created, of a transaction that had none, gives back the tables
-- as they were, if the id of the new row is new.
pub remove-upsert :
    (id t actor txn : ℕ) (dto : UpsertTransactionAdjustmentDto) (db : TxnDb)
    (r : TransactionAdjustmentResponse) (db' : TxnDb)
    → find_first (is_adjustment_of txn) db.adjustments ≡ none
    → Apart (λ (a : TransactionAdjustment). a.id) id db.adjustments
    → upsert id t actor txn dto db ≡ (ok r, db')
    → remove t txn db' ≡ (ok tt, db)
unfolding remove
remove-upsert id t actor txn dto db r db' fresh apart e =
    let u = upsert-IsUpserted id t actor txn dto db r db' e in
    let (found, removed) =
      removed-created t txn (new_adjustment id t actor txn dto) db.adjustments fresh apart
        (ground arith) (updated_adjustment actor dto) in
    rw (u.written, found, removed) refl
