-- ===== src/Settings/Lists.antt =====
-- What `normalizePlanDefaultSlates` and `normalizeStatementSources` of src/modules/settings/settings.service.ts let
-- through.
use pft_backend.Prelude.{
  ℕ, zero, suc, ◌≤◌, ◌≡◌, refl, ap, subst, true, false, Option, none, some, List, [], ◌∷◌, arith,
  Bool-cases, inl, inr, length, take, length-take_le, any_of, All, All-mono,
}
use pft_backend.Prelude.Action.{Result, ok, err}
use pft_backend.Prelude.Value.{Text, Value, Values, Fields, nil, cons, text_eq, as_array, as_object}
use pft_backend.Errors.{Error}
use pft_backend.Settings.Tables.{StatementSourceConfigEntry}
use pft_backend.Settings.Sources.{
  is_seen, add_entry, next_entry, entry_of, entries_of, entries_of_array,
  normalize_statement_sources,
}
use pft_backend.Settings.Slates.{
  SlateDefaults, PlanDefaultSlate, fallback_slate, slate_of, add_slate, add_item, slates_of,
  is_ins0, with_fallback, finished_slates, slates_of_array, normalize_plan_default_slates,
}

take_whole : (n : ℕ) (xs : List PlanDefaultSlate) → length xs ≤ n → take n xs ≡ xs
take_whole zero [] h = refl
take_whole zero (x ∷ xs) h = absurd (omega (arith, h))
take_whole (suc n) [] h = refl
take_whole (suc n) (x ∷ xs) h = ap (◌∷◌ x) (take_whole n xs (omega (arith, h)))

-- Results of at most `n` slates.
abbrev AtMost : ℕ → Result Error (List PlanDefaultSlate) → Type 0
AtMost n (ok out) = length out ≤ n
AtMost n (err e) = Unit

add_slate-AtMost :
    (n : ℕ) (r : Result Error PlanDefaultSlate) (rest : Result Error (List PlanDefaultSlate))
    → AtMost n rest
    → AtMost (suc n) (add_slate r rest)
add_slate-AtMost n (err e) rest h = tt
add_slate-AtMost n (ok s) (err e) h = tt
add_slate-AtMost n (ok s) (ok ss) h = omega (arith, h)

AtMost-suc : (n : ℕ) (r : Result Error (List PlanDefaultSlate)) → AtMost n r → AtMost (suc n) r
AtMost-suc n (ok out) h = omega (arith, h)
AtMost-suc n (err e) h = tt

add_item-AtMost :
    (d : SlateDefaults) (n : ℕ) (o : Option Fields) (rest : Result Error (List PlanDefaultSlate))
    → AtMost n rest
    → AtMost (suc n) (add_item d o rest)
add_item-AtMost d n none rest h = AtMost-suc n rest h
add_item-AtMost d n (some row) rest h = add_slate-AtMost n (slate_of d row) rest h

slates_of-AtMost : (d : SlateDefaults) (n : ℕ) (vs : Values) → AtMost n (slates_of d n vs)
unfolding slates_of
slates_of-AtMost d zero vs = omega arith
slates_of-AtMost d (suc n) nil = omega arith
slates_of-AtMost d (suc n) (cons v vs) =
    add_item-AtMost d n (as_object v) (slates_of d n vs) (slates_of-AtMost d n vs)

-- One slate to six, and the slate `ins-0` among them.
abbrev pub IsSlates : List PlanDefaultSlate → Type 0
IsSlates out = (1 ≤ length out) × (length out ≤ 6) × (any_of is_ins0 out ≡ true)

nonempty_of_ins0 : (out : List PlanDefaultSlate) → any_of is_ins0 out ≡ true → 1 ≤ length out
nonempty_of_ins0 [] h = cc
nonempty_of_ins0 (s ∷ ss) h = omega arith

with_fallback-IsSlates :
    (d : SlateDefaults) (out : List PlanDefaultSlate)
    → length out ≤ 6
    → IsSlates (with_fallback d out)
with_fallback-IsSlates d out h = elim (Bool-cases (any_of is_ins0 out)) [
  | inl has ↦ rw (has, take_whole 6 out h) (nonempty_of_ins0 out has, h, has)
  | inr new ↦ rw new (omega arith, length-take_le 6 (fallback_slate d ∷ out), refl)
]

finished-IsSlates :
    (d : SlateDefaults) (r : Result Error (List PlanDefaultSlate)) (out : List PlanDefaultSlate)
    → AtMost 6 r
    → finished_slates d r ≡ ok out
    → IsSlates out
finished-IsSlates d (err e) out h eq = absurd (cc)
finished-IsSlates d (ok ss) out h eq =
    let same : with_fallback d ss ≡ out = cc in subst IsSlates same (with_fallback-IsSlates d ss h)

array-IsSlates :
    (d : SlateDefaults) (o : Option Values) (out : List PlanDefaultSlate)
    → slates_of_array d o ≡ ok out
    → IsSlates out
array-IsSlates d none out eq =
    let same : fallback_slate d ∷ [] ≡ out = cc in
    subst IsSlates same (omega arith, omega arith, refl)
array-IsSlates d (some vs) out eq =
    finished-IsSlates d (slates_of d 6 vs) out (slates_of-AtMost d 6 vs) eq

-- Whatever JSON the slates of a plan's defaults are read from, what is let through is one to six slates with the slate
-- `ins-0` among them.
pub normalize_plan_default_slates-IsSlates :
    (raw : Value) (d : SlateDefaults) (out : List PlanDefaultSlate)
    → normalize_plan_default_slates raw d ≡ ok out
    → IsSlates out
unfolding normalize_plan_default_slates
normalize_plan_default_slates-IsSlates raw d out e = array-IsSlates d (as_array raw) out e

abbrev pub KeysApart : List StatementSourceConfigEntry → Type 0
KeysApart [] = Unit
KeysApart (e ∷ es) =
    All (λ (f : StatementSourceConfigEntry). text_eq f.card_key e.card_key ≡ false) es
    × KeysApart es

-- Entries of cards of their own, none of them seen before.
record IsNew (seen : List Text) (es : List StatementSourceConfigEntry) : Type 0 where
  unseen : All (λ e. is_seen seen e ≡ false) es
  apart : KeysApart es

add_entry-IsNew :
    (seen : List Text) (e : StatementSourceConfigEntry)
    (r : Result Error (List StatementSourceConfigEntry)) (es : List StatementSourceConfigEntry)
    → ((out : List StatementSourceConfigEntry) → r ≡ ok out → IsNew (e.card_key ∷ seen) out)
    → is_seen seen e ≡ false
    → add_entry e r ≡ ok es
    → IsNew seen es
add_entry-IsNew seen e (err x) es h new eq = absurd (cc)
add_entry-IsNew seen e (ok out) es h new eq =
    let same : e ∷ out ≡ es = cc in
    let n = h out refl in
    subst (IsNew seen) same record {
      unseen = (
        new,
        All-mono (λ f. is_seen (e.card_key ∷ seen) f ≡ false) (λ f. is_seen seen f ≡ false)
            (λ f x. ground (arith, x)) out n.unseen,
      );
      apart = (
        All-mono (λ f. is_seen (e.card_key ∷ seen) f ≡ false)
            (λ f. text_eq f.card_key e.card_key ≡ false) (λ f x. ground (arith, x)) out n.unseen,
        n.apart,
      );
    }

next_entry-IsNew :
    (r : Result Error StatementSourceConfigEntry) (seen : List Text)
    (rest : List Text → Result Error (List StatementSourceConfigEntry))
    (es : List StatementSourceConfigEntry)
    → ((seen' : List Text) (out : List StatementSourceConfigEntry)
        → rest seen' ≡ ok out
        → IsNew seen' out)
    → next_entry r seen rest ≡ ok es
    → IsNew seen es
next_entry-IsNew (err x) seen rest es h eq = absurd (cc)
next_entry-IsNew (ok e) seen rest es h eq = elim (Bool-cases (is_seen seen e)) [
  | inl old ↦ absurd (cc (rw old at eq))
  | inr new ↦
      add_entry-IsNew seen e (rest (e.card_key ∷ seen)) es (h (e.card_key ∷ seen)) new
        (rw new at eq)
]

entries_of-IsNew :
    (vs : Values) (seen : List Text) (es : List StatementSourceConfigEntry)
    → entries_of vs seen ≡ ok es
    → IsNew seen es
unfolding entries_of
entries_of-IsNew nil seen es eq =
    let same : [] ≡ es = cc in subst (IsNew seen) same record { unseen = tt; apart = tt }
entries_of-IsNew (cons v vs) seen es eq =
    next_entry-IsNew (entry_of (as_object v)) seen (entries_of vs) es (entries_of-IsNew vs) eq

array-KeysApart :
    (o : Option Values) (es : List StatementSourceConfigEntry)
    → entries_of_array o ≡ ok es
    → KeysApart es
array-KeysApart none es eq = absurd (cc)
array-KeysApart (some vs) es eq = (entries_of-IsNew vs [] es eq).apart

-- Sources of statements that are let through name each card once.
pub normalize_statement_sources-KeysApart :
    (value : Value) (es : List StatementSourceConfigEntry)
    → normalize_statement_sources value ≡ ok es
    → KeysApart es
unfolding normalize_statement_sources
normalize_statement_sources-KeysApart value es e = array-KeysApart (as_array value) es e
