-- ===== src/ScratchPads/Apart.antt =====
-- The sheets that the pads of a tenant link, under the rows that `create` and `update` of
-- src/modules/scratch-pads/scratch-pads.service.ts write.
use pft_backend.Prelude.{
  ℕ, ◌≡◌, refl, ◌∙◌, Bool, true, false, ◌&&◌, Option, none, some, List, [], ◌∷◌, ◌++◌, arith, ◌==◌,
  Bool-cases, inl, inr, find_first, All, All-append, All-mono, Distinct, find_first-All,
  find_first-passes,
}
use pft_backend.Prelude.Action.{ok}
use pft_backend.Prelude.Value.{Text, text_eq}
use pft_backend.ScratchPads.Service.{
  ScratchPad, PadTable, is_pad, links, is_clash, check_sheet_id_available, update_row, not_excluded,
  refuse,
}

-- Both link a sheet, and the same one.
abbrev pub same_sheet : Option Text → Option Text → Bool
same_sheet r none = false
same_sheet r (some s) = links r s

abbrev pub clash : ScratchPad → ScratchPad → Bool
clash p q = (p.tenant == q.tenant) && same_sheet p.google_spreadsheet_id q.google_spreadsheet_id

-- No two pads of one tenant link one sheet.
abbrev pub HasDistinctSheets : PadTable → Type 0
HasDistinctSheets [] = Unit
HasDistinctSheets (p ∷ ps) = All (λ q. clash p q ≡ false) ps × HasDistinctSheets ps

abbrev pub key_of_pad : ScratchPad → ℕ
key_of_pad p = p.id

text_eq_sym : (s r : Text) → text_eq s r ≡ text_eq r s
text_eq_sym [] [] = refl
text_eq_sym [] (d ∷ r) = refl
text_eq_sym (c ∷ s) [] = refl
text_eq_sym (c ∷ s) (d ∷ r) = ground (arith, text_eq_sym s r)

same_sheet_sym : (s r : Option Text) → same_sheet s r ≡ same_sheet r s
same_sheet_sym none none = refl
same_sheet_sym none (some r) = refl
same_sheet_sym (some s) none = refl
same_sheet_sym (some s) (some r) = text_eq_sym s r

pub clash_sym : (p q : ScratchPad) → clash p q ≡ clash q p
clash_sym p q = ground (arith, same_sheet_sym p.google_spreadsheet_id q.google_spreadsheet_id)

none-All :
    {A : Type 0} (p : A → Bool) (xs : List A) → find_first p xs ≡ none → All (λ x. p x ≡ false) xs
none-All p [] e = tt
none-All p (x ∷ xs) e = ground (arith, none-All p xs)

pub HasDistinctSheets-append :
    (ps : PadTable) (new : ScratchPad)
    → All (λ q. clash q new ≡ false) ps
    → HasDistinctSheets ps
    → HasDistinctSheets (ps ++ (new ∷ []))
HasDistinctSheets-append [] new c d = (tt, tt)
HasDistinctSheets-append (p ∷ ps) new c d = (
  All-append (λ q. clash p q ≡ false) ps (new ∷ []) d.0 (c.0, tt),
  HasDistinctSheets-append ps new c.1 d.1,
)

for_each : {A : Type 0} (P : A → Type 0) (xs : List A) → ((x : A) → P x) → All P xs
for_each P [] h = tt
for_each P (x ∷ xs) h = (h x, for_each P xs h)

-- The pad does not stand in the way of a link of the sheet.
abbrev pub IsApart : ℕ → Option Text → Option ℕ → ScratchPad → Type 0
IsApart t sheet exclude q =
    ((q.tenant == t) && same_sheet q.google_spreadsheet_id sheet && not_excluded exclude q) ≡ false

refuse-none : (found : Option ScratchPad) → refuse found ≡ ok tt → found ≡ none
refuse-none none e = refl
refuse-none (some p) e = cc

pub available-All :
    (t : ℕ) (sheet : Option Text) (exclude : Option ℕ) (table : PadTable)
    → check_sheet_id_available t sheet exclude table ≡ ok tt
    → All (IsApart t sheet exclude) table
unfolding check_sheet_id_available
available-All t none exclude table e = for_each (IsApart t none exclude) table (λ q. ground arith)
available-All t (some s) exclude table e =
    none-All (is_clash t s exclude) table (refuse-none (find_first (is_clash t s exclude) table) e)

-- The row of the id, if there is one, is the tenant's.
abbrev pub Owned : ℕ → ℕ → ScratchPad → Type 0
Owned t id p = (p.id == id) ≡ true → (p.tenant == t) ≡ true

pub found-Owned :
    (t id : ℕ) (table : PadTable) (g : ScratchPad)
    → Distinct key_of_pad table
    → find_first (is_pad t id) table ≡ some g
    → All (Owned t id) table
found-Owned t id [] g d e = tt
found-Owned t id (p ∷ table) g d e = elim (Bool-cases (is_pad t id p)) [
  | inl hit ↦ (
    (λ _. ground arith),
    All-mono (λ q. (q.id == p.id) ≡ false) (Owned t id) (λ q ne. ground arith) table d.0,
  )
  | inr miss ↦
      let later : find_first (is_pad t id) table ≡ some g = rw miss at e in
      (
        ground (
          arith,
          find_first-passes (is_pad t id) table g later,
          find_first-All (λ q. (q.id == p.id) ≡ false) (is_pad t id) table g d.0 later,
        ),
        found-Owned t id table g d.1 later,
      )
]

module _ (t id : ℕ) (f : ScratchPad → ScratchPad) (sheet : Option Text) where
  All-update_row :
      (p : ScratchPad) (ps : PadTable)
      → ((q : ScratchPad) → (f q).tenant ≡ q.tenant)
      → ((q : ScratchPad) → (f q).google_spreadsheet_id ≡ sheet)
      → (p.id == id) ≡ false
      → IsApart t sheet (some id) p
      → All (Owned t id) ps
      → All (λ q. clash p q ≡ false) ps
      → All (λ q. clash p q ≡ false) (update_row id f ps)
  unfolding update_row
  All-update_row p [] tenant linked ne apart owned c = tt
  All-update_row p (q ∷ ps) tenant linked ne apart owned c = elim (Bool-cases (q.id == id)) [
    | inl hit ↦ rw hit (rw (tenant q, linked q) (ground (arith, owned.0)), c.1)
    | inr miss ↦ rw miss (c.0, All-update_row p ps tenant linked ne apart owned.1 c.1)
  ]

  All-update_row_hit :
      (p : ScratchPad) (ps : PadTable)
      → (f p).tenant ≡ t
      → (f p).google_spreadsheet_id ≡ sheet
      → All (λ q. (q.id == id) ≡ false) ps
      → All (IsApart t sheet (some id)) ps
      → All (λ q. clash (f p) q ≡ false) ps
  All-update_row_hit p [] tenant linked ne apart = tt
  All-update_row_hit p (q ∷ ps) tenant linked ne apart = (
    clash_sym (f p) q ∙ ground (arith, tenant, linked, ne.0, apart.0),
    All-update_row_hit p ps tenant linked ne.1 apart.1,
  )

  -- A row that gets a sheet that is free keeps the sheets apart.
  pub HasDistinctSheets-update_row :
      (ps : PadTable)
      → ((q : ScratchPad) → (f q).tenant ≡ q.tenant)
      → ((q : ScratchPad) → (f q).google_spreadsheet_id ≡ sheet)
      → Distinct key_of_pad ps
      → All (Owned t id) ps
      → All (IsApart t sheet (some id)) ps
      → HasDistinctSheets ps
      → HasDistinctSheets (update_row id f ps)
  unfolding update_row
  HasDistinctSheets-update_row [] tenant linked ids owned apart d = tt
  HasDistinctSheets-update_row (p ∷ ps) tenant linked ids owned apart d =
      elim (Bool-cases (p.id == id)) [
        | inl hit ↦ rw hit (
          All-update_row_hit p ps (tenant p ∙ ground (arith, owned.0)) (linked p)
              (All-mono (λ q. (q.id == p.id) ≡ false) (λ q. (q.id == id) ≡ false)
                (λ q ne. ground arith) ps ids.0)
              apart.1,
          d.1,
        )
        | inr miss ↦ rw miss (
          All-update_row p ps tenant linked miss apart.0 owned.1 d.0,
          HasDistinctSheets-update_row ps tenant linked ids.1 owned.1 apart.1 d.1,
        )
      ]

module _ (id : ℕ) (f : ScratchPad → ScratchPad) where
  All-keep :
      (p : ScratchPad) (ps : PadTable)
      → ((q : ScratchPad) → (f q).tenant ≡ q.tenant)
      → ((q : ScratchPad) → (f q).google_spreadsheet_id ≡ q.google_spreadsheet_id)
      → All (λ q. clash p q ≡ false) ps
      → All (λ q. clash p q ≡ false) (update_row id f ps)
  unfolding update_row
  All-keep p [] tenant linked c = tt
  All-keep p (q ∷ ps) tenant linked c = elim (Bool-cases (q.id == id)) [
    | inl hit ↦ rw hit (rw (tenant q, linked q) c.0, c.1)
    | inr miss ↦ rw miss (c.0, All-keep p ps tenant linked c.1)
  ]

  -- A row that keeps its sheet keeps the sheets apart.
  pub HasDistinctSheets-keep :
      (ps : PadTable)
      → ((q : ScratchPad) → (f q).tenant ≡ q.tenant)
      → ((q : ScratchPad) → (f q).google_spreadsheet_id ≡ q.google_spreadsheet_id)
      → HasDistinctSheets ps
      → HasDistinctSheets (update_row id f ps)
  unfolding update_row
  HasDistinctSheets-keep [] tenant linked d = tt
  HasDistinctSheets-keep (p ∷ ps) tenant linked d = elim (Bool-cases (p.id == id)) [
    | inl hit ↦ rw hit (
      All-mono (λ q. clash p q ≡ false) (λ q. clash (f p) q ≡ false)
          (λ q h. rw (tenant p, linked p) h) ps d.0,
      d.1,
    )
    | inr miss ↦
        rw miss (All-keep p ps tenant linked d.0, HasDistinctSheets-keep ps tenant linked d.1)
  ]
