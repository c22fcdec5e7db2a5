-- ===== src/ScratchPads/Rows.antt =====
-- Which rows the operations of src/modules/scratch-pads/scratch-pads.service.ts write, and the order of a new pad.
use mathlib.Core.List.{append-nil}
use pft_backend.Prelude.{
  ℕ, ◌<◌, ◌≡◌, refl, ap, ◌∙◌, true, false, not, none, [], ◌∷◌, ◌++◌, arith, ◌==◌, where_rows,
  where_rows-append, any_of, All, All-mono,
}
use pft_backend.Prelude.Action.{ok, err}
use pft_backend.Errors.{pad_not_found}
use pft_backend.ScratchPads.Service.{
  ScratchPadDetail, PadTable, CreateScratchPadDto, pad_of, is_pad, next_sort_order, new_pad, create,
  remove,
}
use pft_backend.ScratchPads.Sheets.{create-IsCreated}

next_sort_order-All : (ps : PadTable) → All (λ p. p.sort_order < next_sort_order ps) ps
unfolding next_sort_order
next_sort_order-All [] = tt
next_sort_order-All (p ∷ ps) = (
  ground arith,
  All-mono (λ q. q.sort_order < next_sort_order ps) (λ q. q.sort_order < next_sort_order (p ∷ ps))
      (λ q h. ground (arith, h)) ps (next_sort_order-All ps),
)

-- A pad that is created with no place of its own goes behind every pad of the tenant; it is added to the
-- tenant's pads, and the pads of other tenants are as before.
pub create_last :
    (now id t actor : ℕ) (dto : CreateScratchPadDto) (table : PadTable) (r : ScratchPadDetail)
    (table' : PadTable)
    → dto.sort_order ≡ none
    → create now id t actor dto table ≡ (ok r, table')
    → let new = new_pad now id t actor dto table in
      All (λ p. p.sort_order < new.sort_order) (where_rows (pad_of t) table)
      × (where_rows (pad_of t) table' ≡ where_rows (pad_of t) table ++ (new ∷ []))
      × ((u : ℕ) → (t == u) ≡ false → where_rows (pad_of u) table' ≡ where_rows (pad_of u) table)
create_last now id t actor dto table r table' place e =
    let c = create-IsCreated now id t actor dto table r table' e in
    let new = new_pad now id t actor dto table in
    (
      rw place (next_sort_order-All (where_rows (pad_of t) table)),
      ap (where_rows (pad_of t)) c.written
          ∙ where_rows-append (pad_of t) table (new ∷ [])
          ∙ ap (λ l. where_rows (pad_of t) table ++ l) (ground arith),
      λ u ne.
          ap (where_rows (pad_of u)) c.written
          ∙ where_rows-append (pad_of u) table (new ∷ [])
          ∙ ap (λ l. where_rows (pad_of u) table ++ l) (ground arith)
          ∙ append-nil (where_rows (pad_of u) table),
    )

removed-whole :
    (t id : ℕ) (table : PadTable)
    → any_of (is_pad t id) table ≡ false
    → where_rows (λ p. not (is_pad t id p)) table ≡ table
removed-whole t id [] e = refl
removed-whole t id (p ∷ table) e = ground (arith, removed-whole t id table)

removed-absent :
    (t id : ℕ) (table : PadTable)
    → any_of (is_pad t id) (where_rows (λ p. not (is_pad t id p)) table) ≡ false
removed-absent t id [] = refl
removed-absent t id (p ∷ table) = ground (arith, removed-absent t id table)

removed-others :
    (t id u : ℕ) (table : PadTable)
    → (t == u) ≡ false
    → where_rows (pad_of u) (where_rows (λ p. not (is_pad t id p)) table)
      ≡ where_rows (pad_of u) table
removed-others t id u [] ne = refl
removed-others t id u (p ∷ table) ne = ground (arith, removed-others t id u table)

-- After a removal the tenant has no pad of the id; it is refused, and nothing changes, exactly when there
-- was none. The pads of other tenants stay in either case.
pub remove_total :
    (t id : ℕ) (table : PadTable)
    → let result = remove t id table in
      (any_of (is_pad t id) result.1 ≡ false)
      × (any_of (is_pad t id) table ≡ true → result.0 ≡ ok tt)
      × (any_of (is_pad t id) table ≡ false → result ≡ (err pad_not_found, table))
      × ((u : ℕ) → (t == u) ≡ false → where_rows (pad_of u) result.1 ≡ where_rows (pad_of u) table)
unfolding remove
remove_total t id table = (
  removed-absent t id table,
  (λ hit. rw hit refl),
  (λ miss. rw (miss, removed-whole t id table miss) refl),
  λ u ne. removed-others t id u table ne,
)
