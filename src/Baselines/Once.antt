-- ===== src/Baselines/Once.antt =====
-- How many baselines a tenant has for a half, src/modules/settings/settings.service.ts.
use pft_backend.Prelude.{
  ℕ, ◌≡◌, refl, sym, subst, Bool, false, [], ◌∷◌, ◌++◌, arith, ◌==◌, Bool-cases, Option-cases, inl,
  inr, find_first, All, All-append, All-mono,
}
use pft_backend.Prelude.Action.{ok}
use pft_backend.Prelude.Value.{Text}
use pft_backend.Baselines.FiscalHalf.{Clock}
use pft_backend.Baselines.Service.{
  Baseline, BaselineRow, BaselineTable, CreateBaseline, UpdateBaseline, is_period, is_found,
  new_baseline, to_baseline_row, create_baseline, edited_baseline, update_row, update_baseline,
}

abbrev pub same_period : Baseline → Baseline → Bool
same_period b c = is_period c.tenant c.period_key b

-- No two baselines are of one tenant and one half.
abbrev pub HasOneBaseline : BaselineTable → Type 0
HasOneBaseline [] = Unit
HasOneBaseline (b ∷ bs) = All (λ c. same_period b c ≡ false) bs × HasOneBaseline bs

HasOneBaseline-append :
    (bs : BaselineTable) (new : Baseline)
    → All (λ b. same_period b new ≡ false) bs
    → HasOneBaseline bs
    → HasOneBaseline (bs ++ (new ∷ []))
HasOneBaseline-append [] new h one = (tt, tt)
HasOneBaseline-append (b ∷ bs) new h one = (
  All-append (λ c. same_period b c ≡ false) bs (new ∷ []) one.0 (h.0, tt),
  HasOneBaseline-append bs new h.1 one.1,
)

missing-All :
    (t : ℕ) (key : Text) (bs : BaselineTable)
    → is_found (find_first (is_period t key) bs) ≡ false
    → All (λ b. is_period t key b ≡ false) bs
missing-All t key [] e = tt
missing-All t key (b ∷ bs) e = ground (arith, missing-All t key bs)

pub record IsCreated (now created : ℕ) (clock : Clock) (id t actor : ℕ) (payload : CreateBaseline)
    (table : BaselineTable) (b : BaselineRow) (table' : BaselineTable) : Type 0 where
  pub missing : is_found (find_first (is_period t payload.period_key) table) ≡ false
  pub written : table' ≡ table ++ (new_baseline now created id t actor payload ∷ [])
  pub returned : b ≡ to_baseline_row clock (new_baseline now created id t actor payload)

pub create_baseline-IsCreated :
    (now created : ℕ) (clock : Clock) (id t actor : ℕ) (payload : CreateBaseline)
    (table : BaselineTable) (b : BaselineRow) (table' : BaselineTable)
    → create_baseline now created clock id t actor payload table ≡ (ok b, table')
    → IsCreated now created clock id t actor payload table b table'
unfolding create_baseline
create_baseline-IsCreated now created clock id t actor payload table b table' e = ground arith

module _ (id : ℕ) (f : Baseline → Baseline) where
  All-update_row :
      (b : Baseline) (bs : BaselineTable)
      → ((c : Baseline) → (f c).tenant ≡ c.tenant)
      → ((c : Baseline) → (f c).period_key ≡ c.period_key)
      → All (λ c. same_period b c ≡ false) bs
      → All (λ c. same_period b c ≡ false) (update_row id f bs)
  unfolding update_row
  All-update_row b [] tenant period h = tt
  All-update_row b (c ∷ bs) tenant period h = elim (Bool-cases (c.id == id)) [
    | inl hit ↦ rw hit (rw (tenant c, period c) h.0, h.1)
    | inr miss ↦ rw miss (h.0, All-update_row b bs tenant period h.1)
  ]

  HasOneBaseline-update_row :
      (bs : BaselineTable)
      → ((c : Baseline) → (f c).tenant ≡ c.tenant)
      → ((c : Baseline) → (f c).period_key ≡ c.period_key)
      → HasOneBaseline bs
      → HasOneBaseline (update_row id f bs)
  unfolding update_row
  HasOneBaseline-update_row [] tenant period one = tt
  HasOneBaseline-update_row (b ∷ bs) tenant period one = elim (Bool-cases (b.id == id)) [
    | inl hit ↦ rw hit (
      All-mono (λ c. same_period b c ≡ false) (λ c. same_period (f b) c ≡ false)
          (λ c h. rw (tenant b, period b) h) bs one.0,
      one.1,
    )
    | inr miss ↦
        rw miss (
          All-update_row b bs tenant period one.0,
          HasOneBaseline-update_row bs tenant period one.1,
        )
  ]

-- A baseline that is created keeps one for each half of a tenant at most.
pub create_baseline-HasOneBaseline :
    (now created : ℕ) (clock : Clock) (id t actor : ℕ) (payload : CreateBaseline)
    (table : BaselineTable) (b : BaselineRow) (table' : BaselineTable)
    → HasOneBaseline table
    → create_baseline now created clock id t actor payload table ≡ (ok b, table')
    → HasOneBaseline table'
create_baseline-HasOneBaseline now created clock id t actor payload table b table' one e =
    let c = create_baseline-IsCreated now created clock id t actor payload table b table' e in
    subst HasOneBaseline (sym c.written) (
      HasOneBaseline-append table (new_baseline now created id t actor payload)
        (missing-All t payload.period_key table c.missing) one)

updated_row :
    (clock : Clock) (t actor : ℕ) (key : Text) (payload : UpdateBaseline) (table : BaselineTable)
    (b : BaselineRow) (table' : BaselineTable)
    → update_baseline clock t actor key payload table ≡ (ok b, table')
    → (id : ℕ) × (table' ≡ update_row id (edited_baseline actor payload) table)
unfolding update_baseline
updated_row clock t actor key payload table b table' e =
    elim (Option-cases (find_first (is_period t key) table)) [
      | inl missing ↦ ground arith
      | inr (x, found) ↦ (x.id, ground arith)
    ]

-- A baseline that is edited keeps one for each half of a tenant at most.
pub update_baseline-HasOneBaseline :
    (clock : Clock) (t actor : ℕ) (key : Text) (payload : UpdateBaseline) (table : BaselineTable)
    (b : BaselineRow) (table' : BaselineTable)
    → HasOneBaseline table
    → update_baseline clock t actor key payload table ≡ (ok b, table')
    → HasOneBaseline table'
update_baseline-HasOneBaseline clock t actor key payload table b table' one e =
    let (id, written) = updated_row clock t actor key payload table b table' e in
    subst HasOneBaseline (sym written) (
      HasOneBaseline-update_row id (edited_baseline actor payload) table (λ c. refl) (λ c. refl)
        one)
