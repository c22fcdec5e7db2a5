-- ===== src/Investments/Undo.antt =====
-- `undoSale` of src/modules/investments/investments.service.ts, on the balances and after a sale.

use pft_backend.Prelude.{
  ℕ, ◌≡◌, refl, true, false, some, List, [], ◌∷◌, ◌++◌, arith, ◌==◌, if◌then◌else◌, Option-cases,
  inl, inr, where_rows, find_first, delete_first, Apart, Distinct, find_first-All,
}
use pft_backend.Prelude.Int.{ℤ, pos, ◌+ℤ◌, int_laws, sum_ℤ}
use pft_backend.Prelude.Action.{ok}
use pft_backend.Prelude.Value.{Text, Number, hundredths}
use pft_backend.Tables.{Db, Sale, AssetType, mf, stocks, sale_of}
use pft_backend.Investments.Service.{
  summarize, sold_of, available_of, remove_sale, sell, normalize_asset, is_sale, sale_id, undo_sale,
  UndoSaleResult, is_asset,
}
use pft_backend.Investments.Balance.{held, available-summarize, new_sale, sell-IsSold}

abbrev pub key_of_sale : Sale → ℕ
key_of_sale s = s.id

-- The sale that a successful call takes out.
pub record IsUndone (t id : ℕ) (db : Db) (r : UndoSaleResult) (db' : Db) : Type 0 where
  pub sale : Sale
  pub found : find_first (is_sale t id) db.sales ≡ some sale
  pub removed : db' ≡ remove_sale sale.id db
  pub rupees : r.reverted_rupees ≡ sale.amount
  pub asset : r.asset_type ≡ sale.asset_type

undo_sale-IsUndone :
    (t id : ℕ) (db : Db) {r : UndoSaleResult} {db' : Db}
    → undo_sale t id db ≡ (ok r, db')
    → IsUndone t id db r db'
unfolding undo_sale
undo_sale-IsUndone t id db e = elim (Option-cases (find_first (is_sale t id) db.sales)) [
  | inl missing ↦ ground arith
  | inr (sale, found) ↦ record {
    sale = sale;
    found = found;
    removed = ground arith;
    rupees = ground arith;
    asset = ground arith;
  }
]

-- Under distinct ids the deletion takes the found sale out of the sum.
sum_ℤ-delete_first :
    (f : Sale → ℤ) (t id : ℕ) (sales : List Sale) (sale : Sale)
    → Distinct key_of_sale sales
    → find_first (is_sale t id) sales ≡ some sale
    → sum_ℤ f (where_rows (sale_of t) sales)
      ≡ f sale +ℤ sum_ℤ f (where_rows (sale_of t) (delete_first (sale_id sale.id) sales))
sum_ℤ-delete_first f t id [] sale d e = cc
sum_ℤ-delete_first f t id (x ∷ sales) sale d e = grind (
  int_laws,
  sum_ℤ-delete_first f t id sales sale d.1,
  find_first-All (λ z. (z.id == x.id) ≡ false) (is_sale t id) sales sale d.0,
)

held-remove_sale : (a : AssetType) (t id : ℕ) (db : Db) → held a t (remove_sale id db) ≡ held a t db
held-remove_sale mf t id db = refl
held-remove_sale stocks t id db = refl

-- In a table of distinct ids, a successful undo raises the balance of the asset that it reports by the
-- rupees that it reports, and leaves the other balance of the tenant as it was.
pub undo_sale-balance :
    (t id : ℕ) (db : Db) (r : UndoSaleResult) (db' : Db)
    → Distinct key_of_sale db.sales
    → undo_sale t id db ≡ (ok r, db')
    → (a : AssetType)
    → available_of a (summarize t db')
      ≡ available_of a (summarize t db)
        +ℤ (if is_asset r.asset_type a then pos r.reverted_rupees else pos 0)
undo_sale-balance t id db r db' d e a =
    let u = undo_sale-IsUndone t id db e in
    let less = sum_ℤ-delete_first (sold_of a) t id db.sales u.sale d u.found in
    rw
      (
        u.removed,
        u.rupees,
        u.asset,
        available-summarize a t (remove_sale u.sale.id db),
        available-summarize a t db,
        held-remove_sale a t u.sale.id db,
        less,
      )
      (omega int_laws)

undo_sale-append :
    (t : ℕ) (sales : List Sale) (sale : Sale)
    → is_sale t sale.id sale ≡ true
    → Apart key_of_sale sale.id sales
    → (find_first (is_sale t sale.id) (sales ++ (sale ∷ [])) ≡ some sale)
      × (delete_first (sale_id sale.id) (sales ++ (sale ∷ [])) ≡ sales)
undo_sale-append t [] sale b a = ground arith
undo_sale-append t (x ∷ sales) sale b a = ground (arith, undo_sale-append t sales sale b a.1)

-- The undo of a sale whose id was new gives back the tables as they were, and reports the sale.
pub undo_sale-sell :
    (now id t actor : ℕ) (asset : Text) (amount : Number) (a : AssetType) (db : Db) (s : Sale)
    (db' : Db)
    → normalize_asset asset ≡ ok a
    → Apart key_of_sale id db.sales
    → sell now id t actor asset amount db ≡ (ok s, db')
    → undo_sale t id db' ≡ (ok (record { reverted_rupees = hundredths amount; asset_type = a }), db)
unfolding undo_sale
undo_sale-sell now id t actor asset amount a db s db' known apart e =
    let sale = sell-IsSold now id t actor asset amount a db known e in
    let (found, removed) =
      undo_sale-append t db.sales (new_sale now id t actor a (hundredths amount) db) (ground arith)
        apart in
    rw sale.written (ground arith)
