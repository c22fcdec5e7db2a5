-- ===== src/ScratchPads/Races.antt =====
-- Two calls of `update` in src/modules/scratch-pads/scratch-pads.service.ts at once: its queries run in no transaction,
-- and no index keeps the sheets of pads apart.
use pft_backend.Prelude.{
  ℕ, ◌≡◌, refl, true, false, Option, none, some, [], ◌∷◌, arith, ◌==◌, Bool-cases, inl, inr,
  Option-cases, find_first, All, Distinct, find_first-All, find_first-passes,
}
use pft_backend.Prelude.Action.{Result, ok}
use pft_backend.Prelude.Value.{Text, text_eq_refl}
use pft_backend.Errors.{Error}
use pft_backend.ScratchPads.Service.{
  ScratchPad, ScratchPadDetail, PadTable, UpdateScratchPadDto, is_pad, has_pad_id, to_detail,
  next_sheet, updated_pad, update_row, update_checks, update_write,
}
use pft_backend.ScratchPads.Apart.{
  clash, clash_sym, HasDistinctSheets, key_of_pad, Owned, found-Owned,
}

find_first-has_pad_id :
    (t id : ℕ) (table : PadTable) (g : ScratchPad)
    → All (Owned t id) table
    → find_first (is_pad t id) table ≡ some g
    → find_first (has_pad_id id) table ≡ some g
find_first-has_pad_id t id [] g owned e = cc
find_first-has_pad_id t id (p ∷ table) g owned e = elim (Bool-cases (p.id == id)) [
  | inl hit ↦ ground (arith, owned.0 hit)
  | inr miss ↦ ground (arith, find_first-has_pad_id t id table g owned.1)
]

module _ (now actor id : ℕ) (dto : UpdateScratchPadDto) where
  abbrev f : ScratchPad → ScratchPad
  f = updated_pad now actor dto

  find_first-updated :
      (t : ℕ) (table : PadTable) (g : ScratchPad)
      → All (Owned t id) table
      → find_first (is_pad t id) table ≡ some g
      → find_first (is_pad t id) (update_row id f table) ≡ some (f g)
  unfolding update_row
  find_first-updated t [] g owned e = cc
  find_first-updated t (p ∷ table) g owned e = elim (Bool-cases (p.id == id)) [
    | inl hit ↦ ground (arith, owned.0 hit)
    | inr miss ↦ ground (arith, find_first-updated t table g owned.1)
  ]

  find_first-other :
      (t other : ℕ) (table : PadTable) (g : ScratchPad)
      → (id == other) ≡ false
      → find_first (is_pad t other) table ≡ some g
      → find_first (is_pad t other) (update_row id f table) ≡ some g
  unfolding update_row
  find_first-other t other [] g ne e = cc
  find_first-other t other (p ∷ table) g ne e = elim (Bool-cases (p.id == id)) [
    | inl hit ↦ ground arith
    | inr miss ↦ ground (arith, find_first-other t other table g ne)
  ]

  Owned-update_row :
      (t other : ℕ) (table : PadTable)
      → All (Owned t other) table
      → All (Owned t other) (update_row id f table)
  unfolding update_row
  Owned-update_row t other [] owned = tt
  Owned-update_row t other (p ∷ table) owned = elim (Bool-cases (p.id == id)) [
    | inl hit ↦ rw hit owned
    | inr miss ↦ rw miss (owned.0, Owned-update_row t other table owned.1)
  ]

-- The pads of two ids do not clash in a table whose sheets are apart.
found-apart :
    (t id other : ℕ) (table : PadTable) (p q : ScratchPad)
    → (id == other) ≡ false
    → HasDistinctSheets table
    → find_first (is_pad t id) table ≡ some p
    → find_first (is_pad t other) table ≡ some q
    → clash p q ≡ false
found-apart t id other [] p q ne d e e' = cc
found-apart t id other (r ∷ table) p q ne d e e' = elim (Bool-cases (is_pad t id r)) [
  | inl hit ↦
      let miss : is_pad t other r ≡ false = ground arith in
      let later : find_first (is_pad t other) table ≡ some q = rw miss at e' in
      ground (arith, find_first-All (λ x. clash r x ≡ false) (is_pad t other) table q d.0 later)
  | inr miss ↦
      let later : find_first (is_pad t id) table ≡ some p = rw miss at e in
      elim (Bool-cases (is_pad t other r)) [
        | inl hit ↦ ground (
          arith,
          clash_sym p r,
          find_first-All (λ x. clash r x ≡ false) (is_pad t id) table p d.0 later,
        )
        | inr away ↦ found-apart t id other table p q ne d.1 later (rw away at e')
      ]
]

-- A sheet that is asked for is linked whatever was.
asked :
    (change : Option (Option Text)) (old : Option Text) (sheet : Text)
    → next_sheet change none ≡ some sheet
    → next_sheet change old ≡ some sheet
asked none old sheet e = absurd (cc e)
asked (some s) old sheet e = e

update_checks-found :
    (t id : ℕ) (dto : UpdateScratchPadDto) (table : PadTable)
    → update_checks t id dto table ≡ (ok tt, table)
    → (g : ScratchPad) × (find_first (is_pad t id) table ≡ some g)
unfolding update_checks
update_checks-found t id dto table e = elim (Option-cases (find_first (is_pad t id) table)) [
  | inl missing ↦ absurd (ground (arith, e, missing))
  | inr found ↦ found
]

update_write-found :
    (now actor t id : ℕ) (dto : UpdateScratchPadDto) (table : PadTable) (g : ScratchPad)
    → All (Owned t id) table
    → find_first (is_pad t id) table ≡ some g
    → update_write now actor id dto table ≡ (
      ok (to_detail (updated_pad now actor dto g)),
      update_row id (updated_pad now actor dto) table,
    )
unfolding update_write
update_write-found now actor t id dto table g owned found =
    rw (find_first-has_pad_id t id table g owned found) refl

linked-clash :
    (t id id' : ℕ) (table : PadTable) (p q : ScratchPad) (sheet : Text)
    → find_first (is_pad t id) table ≡ some p
    → find_first (is_pad t id') table ≡ some q
    → p.google_spreadsheet_id ≡ some sheet
    → q.google_spreadsheet_id ≡ some sheet
    → clash p q ≡ true
linked-clash t id id' table p q sheet e e' linked linked' =
    rw (linked, linked')
      (ground (
        arith,
        find_first-passes (is_pad t id) table p e,
        find_first-passes (is_pad t id') table q e',
        text_eq_refl sheet,
      ))

-- Both calls succeed, and then both pads link the sheet.
abbrev pub IsRaced :
    ℕ
    → ℕ
    → ℕ
    → Text
    → Result Error ScratchPadDetail × PadTable
    → Result Error ScratchPadDetail × PadTable
    → Type 0
IsRaced t id id' sheet first second =
    (p : ScratchPad) × (q : ScratchPad) × (first.0 ≡ ok (to_detail p))
    × (second.0 ≡ ok (to_detail q))
    × (find_first (is_pad t id) second.1 ≡ some p)
    × (find_first (is_pad t id') second.1 ≡ some q)
    × (p.google_spreadsheet_id ≡ some sheet)
    × (q.google_spreadsheet_id ≡ some sheet)
    × ¬ (HasDistinctSheets second.1)

-- Two updates that ask for one sheet, for two pads of a tenant in a table of distinct ids, and that both make their
-- checks before either writes, both succeed: both pads then link the sheet, so the tenant's sheets are not apart.
pub update_races :
    (now now' t actor actor' id id' : ℕ) (dto dto' : UpdateScratchPadDto) (sheet : Text)
    (table : PadTable)
    → Distinct key_of_pad table
    → (id == id') ≡ false
    → next_sheet dto.google_spreadsheet_id none ≡ some sheet
    → next_sheet dto'.google_spreadsheet_id none ≡ some sheet
    → update_checks t id dto table ≡ (ok tt, table)
    → update_checks t id' dto' table ≡ (ok tt, table)
    → let first = update_write now actor id dto table in
      let second = update_write now' actor' id' dto' first.1 in IsRaced t id id' sheet first second
update_races now now' t actor actor' id id' dto dto' sheet table ids ne asks asks' e e' =
    let (g, found) = update_checks-found t id dto table e in
    let (g', found') = update_checks-found t id' dto' table e' in
    let p = updated_pad now actor dto g in
    let q = updated_pad now' actor' dto' g' in
    let owned = found-Owned t id table g ids found in
    let owned' = found-Owned t id' table g' ids found' in
    let one = update_row id (updated_pad now actor dto) table in
    let two = update_row id' (updated_pad now' actor' dto') one in
    let found_one = find_first-updated now actor id dto t table g owned found in
    let other_one = find_first-other now actor id dto t id' table g' ne found' in
    let owned_one = Owned-update_row now actor id dto t id' table owned' in
    let p_two : find_first (is_pad t id) two ≡ some p =
      find_first-other now' actor' id' dto' t id one p (ground arith) found_one in
    let q_two : find_first (is_pad t id') two ≡ some q =
      find_first-updated now' actor' id' dto' t one g' owned_one other_one in
    let linked : p.google_spreadsheet_id ≡ some sheet =
      asked dto.google_spreadsheet_id g.google_spreadsheet_id sheet asks in
    let linked' : q.google_spreadsheet_id ≡ some sheet =
      asked dto'.google_spreadsheet_id g'.google_spreadsheet_id sheet asks' in
    let clashes = linked-clash t id id' two p q sheet p_two q_two linked linked' in
    rw
      (
        update_write-found now actor t id dto table g owned found,
        update_write-found now' actor' t id' dto' one g' owned_one other_one,
      )
      (
        p,
        q,
        refl,
        refl,
        p_two,
        q_two,
        linked,
        linked',
        λ apart. absurd (cc (clashes, found-apart t id id' two p q ne apart p_two q_two)),
      )
