-- ===== src/Investments/Balance.antt =====
-- What the operations of src/modules/investments/investments.service.ts do to the balances.
use pft_backend.Prelude.{
  ℕ, ◌≡◌, refl, sym, ap, ◌∙◌, true, false, [], ◌∷◌, arith, ◌==◌, if◌then◌else◌, Bool-cases, inl,
  inr, where_rows, where_rows-append, ==_refl,
}
use pft_backend.Prelude.Int.{
  ℤ, pos, ◌+ℤ◌, ◌-ℤ◌, ◌≤ℤ◌, int_laws, sum_ℤ, sum_ℤ-append, +ℤ_zero, pos_parts,
}
use pft_backend.Prelude.Action.{ok}
use pft_backend.Prelude.Value.{Text, Number, hundredths}
use pft_backend.Tables.{Db, Sale, AssetType, mf, stocks, sale_of}
use pft_backend.Investments.Service.{
  summarize, sold, sold_of, available_of, add_sale, sell_in, sell, normalize_asset, is_asset,
  opening_mf, opening_stocks, setting_row, plans_of, sip_mf_of, stocks_of,
}

-- The tenant has sold no more of an asset than it ever held.
abbrev pub IsSolvent : ℕ → Db → Type 0
IsSolvent t db = (a : AssetType) → pos 0 ≤ℤ available_of a (summarize t db)

-- What the opening balance and the plans give of an asset.
abbrev pub held : AssetType → ℕ → Db → ℤ
held mf t db = opening_mf (setting_row t db) +ℤ sum_ℤ sip_mf_of (plans_of t db)
held stocks t db = opening_stocks (setting_row t db) +ℤ sum_ℤ stocks_of (plans_of t db)

pub available-summarize :
    (a : AssetType) (t : ℕ) (db : Db) → available_of a (summarize t db) ≡ held a t db -ℤ sold a t db
unfolding summarize
available-summarize mf t db = refl
available-summarize stocks t db = refl

pub sold-add_sale :
    (a : AssetType) (t : ℕ) (s : Sale) (db : Db)
    → sold a t (add_sale s db) ≡ sold a t db +ℤ (if s.tenant == t then sold_of a s else pos 0)
sold-add_sale a t s db =
    ap (sum_ℤ (sold_of a)) (where_rows-append (sale_of t) db.sales (s ∷ []))
    ∙ sum_ℤ-append (sold_of a) (where_rows (sale_of t) db.sales) (where_rows (sale_of t) (s ∷ []))
    ∙ elim (Bool-cases (s.tenant == t)) [ inl e ↦ rw e (omega int_laws) | inr e ↦ rw e refl ]

-- A sale lowers the balance of its asset, in its tenant's summary.
available-add_sale :
    (a : AssetType) (t : ℕ) (s : Sale) (db : Db)
    → available_of a (summarize t (add_sale s db)) +ℤ (if s.tenant == t then sold_of a s else pos 0)
      ≡ available_of a (summarize t db)
available-add_sale mf t s db =
    rw
      (
        available-summarize mf t (add_sale s db),
        available-summarize mf t db,
        sold-add_sale mf t s db,
      )
      (omega int_laws)
available-add_sale stocks t s db =
    rw
      (
        available-summarize stocks t (add_sale s db),
        available-summarize stocks t db,
        sold-add_sale stocks t s db,
      )
      (omega int_laws)

is_asset→eq : (a b : AssetType) → is_asset a b ≡ true → a ≡ b
is_asset→eq mf mf e = refl
is_asset→eq mf stocks e = cc
is_asset→eq stocks mf e = cc
is_asset→eq stocks stocks e = refl

pub is_asset_refl : (a : AssetType) → is_asset a a ≡ true
is_asset_refl mf = refl
is_asset_refl stocks = refl

module _ (now id t actor : ℕ) (a : AssetType) (amount : ℕ) (db : Db) where
  abbrev pub new_sale : Sale
  new_sale = record {
    id = id;
    tenant = t;
    asset_type = a;
    amount = amount;
    created_at = now;
    created_by = actor;
  }

  pub available-sold :
      available_of a (summarize t (add_sale new_sale db)) +ℤ pos amount
      ≡ available_of a (summarize t db)
  available-sold = rw (==_refl t, is_asset_refl a) at (available-add_sale a t new_sale db)

  available-sold_other :
      (b : AssetType)
      → is_asset a b ≡ false
      → available_of b (summarize t (add_sale new_sale db)) ≡ available_of b (summarize t db)
  available-sold_other b ne =
      sym (+ℤ_zero _) ∙ (rw (==_refl t, ne) at (available-add_sale b t new_sale db))

  available-sold_tenant :
      (b : AssetType) (u : ℕ)
      → (t == u) ≡ false
      → available_of b (summarize u (add_sale new_sale db)) ≡ available_of b (summarize u db)
  available-sold_tenant b u ne = sym (+ℤ_zero _) ∙ (rw ne at (available-add_sale b u new_sale db))

-- What a successful sale has checked and written.
pub record IsSold (now id t actor : ℕ) (a : AssetType) (amount : ℕ) (db : Db) (s : Sale) (db' : Db)
    : Type 0 where
  pub enough : pos amount ≤ℤ available_of a (summarize t db)
  pub row : s ≡ new_sale now id t actor a amount db
  pub written : db' ≡ add_sale (new_sale now id t actor a amount db) db

pub sell-IsSold :
    (now id t actor : ℕ) (asset : Text) (amount : Number) (a : AssetType) (db : Db) {s : Sale}
    {db' : Db}
    → normalize_asset asset ≡ ok a
    → sell now id t actor asset amount db ≡ (ok s, db')
    → IsSold now id t actor a (hundredths amount) db s db'
unfolding sell sell_in
sell-IsSold now id t actor asset amount a db known e = ground arith

-- A successful sale lowers the balance of its asset by just its amount, and not below zero; the
-- balance of the other asset and all balances of other tenants are as before.
pub sell-balance :
    (now id t actor : ℕ) (asset : Text) (amount : Number) (a : AssetType) (db : Db) (s : Sale)
    (db' : Db)
    → normalize_asset asset ≡ ok a
    → sell now id t actor asset amount db ≡ (ok s, db')
    → (available_of a (summarize t db') +ℤ pos (hundredths amount)
        ≡ available_of a (summarize t db))
      × (pos 0 ≤ℤ available_of a (summarize t db'))
      × ((b : AssetType)
          → is_asset a b ≡ false
          → available_of b (summarize t db') ≡ available_of b (summarize t db))
      × ((b : AssetType) (u : ℕ)
          → (t == u) ≡ false
          → available_of b (summarize u db') ≡ available_of b (summarize u db))
sell-balance now id t actor asset amount a db s db' known e =
    let sale = sell-IsSold now id t actor asset amount a db known e in
    let n = hundredths amount in
    rw sale.written (
      available-sold now id t actor a n db,
      omega (int_laws, sale.enough, pos_parts (available-sold now id t actor a n db)),
      available-sold_other now id t actor a n db,
      available-sold_tenant now id t actor a n db,
    )

-- Selling keeps every balance of the tenant at zero or more.
pub sell-IsSolvent :
    (now id t actor : ℕ) (asset : Text) (amount : Number) (a : AssetType) (db : Db) (s : Sale)
    (db' : Db)
    → normalize_asset asset ≡ ok a
    → IsSolvent t db
    → sell now id t actor asset amount db ≡ (ok s, db')
    → IsSolvent t db'
sell-IsSolvent now id t actor asset amount a db s db' known v e =
    let (lower, nonneg, same, others) =
      sell-balance now id t actor asset amount a db s db' known e in
    λ b. elim (Bool-cases (is_asset a b)) [
      | inl one ↦ rw (← is_asset→eq a b one) nonneg
      | inr other ↦ rw (same b other) (v b)
    ]
