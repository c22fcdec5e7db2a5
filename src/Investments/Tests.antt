-- ===== src/Investments/Tests.antt =====
-- Runs of the investments on one small database, and instances of the theorems on it.
use pft_backend.Prelude.{ℕ, ◌≡◌, refl, false, arith, ◌==◌}
use pft_backend.Prelude.Int.{pos, ◌+ℤ◌, ◌-ℤ◌, ◌≤ℤ◌}
use pft_backend.Prelude.Action.{ok}
use pft_backend.Prelude.Value.{trim, fin, codes}
use pft_backend.Tables.{Sale, AssetType, mf, stocks}
use pft_backend.Samples.{database}
use pft_backend.Investments.Service.{
  summarize, available_of, normalize_asset, is_asset, sell, sell_in, undo_sale, add_sale,
  UndoSaleResult,
}
use pft_backend.Investments.Balance.{IsSolvent, sell-balance}
use pft_backend.Investments.Undo.{undo_sale-sell}

abbrev sale : Sale
sale = record {
  id = 30;
  tenant = 1;
  asset_type = mf;
  amount = 150000;
  created_at = 100;
  created_by = 7;
}

asset-mf : normalize_asset (codes " mf ") ≡ ok mf
unfolding normalize_asset trim
asset-mf = refl

sell-sale :
    sell 100 30 1 7 (codes " mf ") (fin (pos 150000)) database ≡ (ok sale, add_sale sale database)
unfolding sell sell_in normalize_asset trim summarize ◌-ℤ◌ ◌+ℤ◌
sell-sale = refl

sell-balance_example :
    let after = add_sale sale database in
    (available_of mf (summarize 1 after) +ℤ pos 150000 ≡ available_of mf (summarize 1 database))
    × (pos 0 ≤ℤ available_of mf (summarize 1 after))
    × ((b : AssetType)
        → is_asset mf b ≡ false
        → available_of b (summarize 1 after) ≡ available_of b (summarize 1 database))
    × ((b : AssetType) (u : ℕ)
        → (1 == u) ≡ false
        → available_of b (summarize u after) ≡ available_of b (summarize u database))
sell-balance_example =
    sell-balance 100 30 1 7 (codes " mf ") (fin (pos 150000)) mf database sale
      (add_sale sale database) asset-mf sell-sale

database-IsSolvent : IsSolvent 1 database
unfolding summarize ◌-ℤ◌ ◌+ℤ◌
database-IsSolvent mf = ground arith
database-IsSolvent stocks = ground arith

abbrev undone : UndoSaleResult
undone = record { reverted_rupees = 150000; asset_type = mf }

undo_sale-sale : undo_sale 1 30 (add_sale sale database) ≡ (ok undone, database)
unfolding undo_sale
undo_sale-sale = refl

undo_sale-sell_example : undo_sale 1 30 (add_sale sale database) ≡ (ok undone, database)
undo_sale-sell_example =
    undo_sale-sell 100 30 1 7 (codes " mf ") (fin (pos 150000)) mf database sale
      (add_sale sale database) asset-mf tt sell-sale
