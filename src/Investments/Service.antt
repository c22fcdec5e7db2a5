-- ===== src/Investments/Service.antt =====
-- `InvestmentsService`, src/modules/investments/investments.service.ts. The advisory lock of the tenant
-- makes transactions of one tenant run one after the other, as they do here.
use pft_backend.Prelude.{
  ℕ, ◌-◌, Bool, true, false, not, ◌&&◌, ◌||◌, Option, none, some, List, [], ◌∷◌, ◌++◌, map, leb,
  ◌==◌, if◌then◌else◌, where_rows, find_first, delete_first,
}
use pft_backend.Prelude.Int.{ℤ, pos, ◌+ℤ◌, ◌-ℤ◌, ltb_ℤ, sum_ℤ}
use pft_backend.Prelude.Action.{
  Result, ok, err, Action, pure, gets, modify, throw_if, or_throw, from_result, ◌>>=◌, ◌>>◌,
  transaction,
}
use pft_backend.Prelude.Value.{
  Text, Number, codes, text_eq, trim, is_finite, is_positive, hundredths,
}
use pft_backend.Errors.{
  Error, bad_asset, bad_sale_amount, no_such_sale, sale_exceeds, plan_below_sold_mf,
  plan_below_sold_stocks, opening_below_sold_mf, opening_below_sold_stocks,
}
use pft_backend.Tables.{
  Db, Plan, Setting, Sale, AssetType, mf, stocks, plan_of, is_month, setting_of, sale_of,
}

pub record InvestmentSummary : Type 0 where
  pub mf_balance : ℤ
  pub stocks_balance : ℤ
  pub sold_mf_rupees : ℤ
  pub sold_stocks_rupees : ℤ
  pub investment_balance : ℤ

-- `toUpperCase`, on the ASCII letters.
abbrev pub to_upper : ℕ → ℕ
to_upper c = if leb b'a' c && leb c b'z' then c - 32 else c

unfoldable pub normalize_asset : Text → Result Error AssetType
normalize_asset asset =
    let normalized = map to_upper (trim asset) in
    if text_eq normalized (codes "MF")
    then ok mf
    else if text_eq normalized (codes "STOCKS")
    then ok stocks
    else err bad_asset

abbrev pub sip_mf_of : Plan → ℤ
sip_mf_of p = p.sip_mf

abbrev pub stocks_of : Plan → ℤ
stocks_of p = p.stocks

abbrev pub is_asset : AssetType → AssetType → Bool
is_asset mf mf = true
is_asset mf stocks = false
is_asset stocks mf = false
is_asset stocks stocks = true

-- `sum + (sale.assetType === asset ? Number(sale.amount) : 0)`
abbrev pub sold_of : AssetType → Sale → ℤ
sold_of asset s = if is_asset s.asset_type asset then pos s.amount else pos 0

abbrev pub plans_of : ℕ → Db → List Plan
plans_of t db = where_rows (plan_of t) db.plans

abbrev pub setting_row : ℕ → Db → Option Setting
setting_row t db = find_first (setting_of t) db.settings

abbrev pub sold : AssetType → ℕ → Db → ℤ
sold asset t db = sum_ℤ (sold_of asset) (where_rows (sale_of t) db.sales)

-- `Number(setting?.prevMfBalance ?? 0)`, and for stocks
abbrev pub opening_mf : Option Setting → ℤ
opening_mf none = pos 0
opening_mf (some s) = s.prev_mf_balance

abbrev pub opening_stocks : Option Setting → ℤ
opening_stocks none = pos 0
opening_stocks (some s) = s.prev_stocks_balance

unfoldable pub summarize : ℕ → Db → InvestmentSummary
summarize t db =
    let mf_balance =
      opening_mf (setting_row t db) +ℤ sum_ℤ sip_mf_of (plans_of t db) -ℤ sold mf t db in
    let stocks_balance =
      opening_stocks (setting_row t db) +ℤ sum_ℤ stocks_of (plans_of t db) -ℤ sold stocks t db in
    record {
      mf_balance = mf_balance;
      stocks_balance = stocks_balance;
      sold_mf_rupees = sold mf t db;
      sold_stocks_rupees = sold stocks t db;
      investment_balance = mf_balance +ℤ stocks_balance;
    }

abbrev pub available_of : AssetType → InvestmentSummary → ℤ
available_of mf s = s.mf_balance
available_of stocks s = s.stocks_balance

abbrev pub add_sale : Sale → Db → Db
add_sale s db = record db { sales = db.sales ++ (s ∷ []) }

-- The body of the transaction of `sell`.
unfoldable pub sell_in : ℕ → ℕ → ℕ → ℕ → AssetType → ℕ → Action Db Error Sale
sell_in now id t actor asset amount = do
  let sale : Sale = record {
    id = id;
    tenant = t;
    asset_type = asset;
    amount = amount;
    created_at = now;
    created_by = actor;
  }
  summary ← gets (summarize t)
  throw_if (ltb_ℤ (available_of asset summary) (pos amount))
      (sale_exceeds (available_of asset summary))
  modify (add_sale sale)
  pure sale

unfoldable pub sell : ℕ → ℕ → ℕ → ℕ → Text → Number → Action Db Error Sale
sell now id t actor asset amount = do
  asset_type ← from_result (normalize_asset asset)
  throw_if (not (is_finite amount) || not (is_positive amount)) bad_sale_amount
  transaction (sell_in now id t actor asset_type (hundredths amount))

abbrev pub is_sale : ℕ → ℕ → Sale → Bool
is_sale t id s = (s.id == id) && (s.tenant == t)

abbrev pub sale_id : ℕ → Sale → Bool
sale_id id s = s.id == id

abbrev pub remove_sale : ℕ → Db → Db
remove_sale id db = record db { sales = delete_first (sale_id id) db.sales }

abbrev pub find_sale : ℕ → ℕ → Db → Option Sale
find_sale t id db = find_first (is_sale t id) db.sales

pub record UndoSaleResult : Type 0 where
  pub reverted_rupees : ℕ
  pub asset_type : AssetType

unfoldable pub undo_sale : ℕ → ℕ → Action Db Error UndoSaleResult
undo_sale t id = transaction do
  sale ← or_throw (← gets (find_sale t id)) no_such_sale
  modify (remove_sale sale.id)
  pure (record { reverted_rupees = sale.amount; asset_type = sale.asset_type })

abbrev pub or_else : Option ℤ → ℤ → ℤ
or_else none d = d
or_else (some a) d = a

abbrev pub column_of : (Plan → ℤ) → Option Plan → ℤ
column_of f none = pos 0
column_of f (some p) = f p

-- What the plans will have bought once the plan of the month has the value of the request.
abbrev pub purchased_after : (Plan → ℤ) → List Plan → ℕ → ℕ → Option ℤ → ℤ
purchased_after f plans year month next =
    or_else next (column_of f (find_first (is_month year month) plans))
    +ℤ sum_ℤ f (where_rows (λ p. not (is_month year month p)) plans)

unfoldable pub lock_and_validate_plan_write :
    ℕ → ℕ → ℕ → Option ℤ → Option ℤ → Action Db Error (Unit {0})
lock_and_validate_plan_write t year month sip_mf stocks_bought = do
  plans ← gets (plans_of t)
  setting ← gets (setting_row t)
  sold_mf ← gets (sold mf t)
  sold_stocks ← gets (sold stocks t)
  throw_if (ltb_ℤ (opening_mf setting +ℤ purchased_after sip_mf_of plans year month sip_mf) sold_mf)
      plan_below_sold_mf
  throw_if
      (ltb_ℤ (opening_stocks setting +ℤ purchased_after stocks_of plans year month stocks_bought)
        sold_stocks)
      plan_below_sold_stocks

unfoldable pub lock_and_validate_opening_balance : ℕ → ℤ → ℤ → Action Db Error (Unit {0})
lock_and_validate_opening_balance t next_mf next_stocks = do
  plans ← gets (plans_of t)
  sold_mf ← gets (sold mf t)
  sold_stocks ← gets (sold stocks t)
  throw_if (ltb_ℤ (next_mf +ℤ sum_ℤ sip_mf_of plans) sold_mf) opening_below_sold_mf
  throw_if (ltb_ℤ (next_stocks +ℤ sum_ℤ stocks_of plans) sold_stocks) opening_below_sold_stocks
