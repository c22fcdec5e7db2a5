-- ===== src/Imports/Rows.antt =====
-- The rows of the failures under `upsertFailure` and the other writes of
-- src/modules/import-jobs/services/import-failure.service.ts.
use pft_backend.Prelude.{
  ℕ, ◌+◌, ◌<◌, ◌≡◌, refl, sym, subst, Bool, true, false, ◌&&◌, some, List, [], ◌∷◌, ◌++◌, arith,
  ◌==◌, ==_refl, Bool-cases, Option-cases, inl, inr, find_first, find_first-passes, any_of, All,
  All-append, All-mono, Apart, Distinct, Distinct-append,
}
use pft_backend.Prelude.Value.{Text, text_eq_refl}
use pft_backend.Imports.Tables.{ImportMessageFailure, open_failure, ImportDb}
use pft_backend.Imports.Failures.{
  is_failure_key, has_status, update_failure, NewFailure, new_failure, seen_again, upsert_failure,
}

module _ {A : Type 0} where
  pub any_of-append :
      (p : A → Bool) (xs ys : List A) → any_of p xs ≡ true → any_of p (xs ++ ys) ≡ true
  any_of-append p [] ys h = cc
  any_of-append p (x ∷ xs) ys h = ground (arith, any_of-append p xs ys)

  pub any_of-append_last :
      (p : A → Bool) (xs : List A) (y : A) → p y ≡ true → any_of p (xs ++ (y ∷ [])) ≡ true
  any_of-append_last p [] y h = rw h
  any_of-append_last p (x ∷ xs) y h = ground (arith, any_of-append_last p xs y)

abbrev pub id_of : ImportMessageFailure → ℕ
id_of f = f.id

-- Ids are given by the counter, once each.
pub record IsNumbered (db : ImportDb) : Type 0 where
  pub distinct : Distinct id_of db.failures
  pub below : All (λ f. f.id < db.next_id) db.failures

-- The failure of the message is open.
abbrev pub is_open_for : Text → Text → ImportMessageFailure → Bool
is_open_for bank_key message_id f =
    is_failure_key bank_key message_id f && has_status open_failure f

module _ (q : ImportMessageFailure → Bool) (id : ℕ)
    (f : ImportMessageFailure → ImportMessageFailure) where
  pub any_of-update_failure :
      (xs : List ImportMessageFailure)
      → ((x : ImportMessageFailure) → q x ≡ true → q (f x) ≡ true)
      → any_of q xs ≡ true
      → any_of q (update_failure id f xs) ≡ true
  unfolding update_failure
  any_of-update_failure [] keep h = h
  any_of-update_failure (x ∷ xs) keep h = ground (arith, keep x, any_of-update_failure xs keep)

module _ (id : ℕ) (f : ImportMessageFailure → ImportMessageFailure)
    (keeps : (x : ImportMessageFailure) → (f x).id ≡ x.id) where
  Apart-update_failure :
      (k : ℕ) (xs : List ImportMessageFailure)
      → Apart id_of k xs
      → Apart id_of k (update_failure id f xs)
  unfolding update_failure
  Apart-update_failure k [] h = tt
  Apart-update_failure k (x ∷ xs) h = ground (arith, keeps x, Apart-update_failure k xs h.1)

  pub Distinct-update_failure :
      (xs : List ImportMessageFailure) → Distinct id_of xs → Distinct id_of (update_failure id f xs)
  unfolding update_failure
  Distinct-update_failure [] d = tt
  Distinct-update_failure (x ∷ xs) d = elim (Bool-cases (x.id == id)) [
    | inl hit ↦ rw hit (subst (λ k. Apart id_of k xs) (sym (keeps x)) d.0, d.1)
    | inr miss ↦ rw miss (Apart-update_failure x.id xs d.0, Distinct-update_failure xs d.1)
  ]

  pub below-update_failure :
      (n : ℕ) (xs : List ImportMessageFailure)
      → All (λ x. x.id < n) xs
      → All (λ x. x.id < n) (update_failure id f xs)
  unfolding update_failure
  below-update_failure n [] h = tt
  below-update_failure n (x ∷ xs) h = ground (arith, keeps x, below-update_failure n xs h.1)

-- In a table of distinct ids the row that `find_first` gives is the one that is written.
update_found :
    (p q : ImportMessageFailure → Bool) (f : ImportMessageFailure → ImportMessageFailure)
    (xs : List ImportMessageFailure) (x : ImportMessageFailure)
    → Distinct id_of xs
    → find_first p xs ≡ some x
    → q (f x) ≡ true
    → any_of q (update_failure x.id f xs) ≡ true
unfolding update_failure
update_found p q f [] x d e h = cc
update_found p q f (y ∷ ys) x d e h = elim (Bool-cases (p y)) [
  | inl hit ↦ ground (arith, e, hit, ==_refl x.id)
  | inr miss ↦
      let later : find_first p ys ≡ some x = rw miss at e in
      let other : (y.id == x.id) ≡ false = apart-found ys later d.0 in
      rw other (ground (arith, update_found p q f ys x d.1 later h))
]
  where
    apart-found :
        (zs : List ImportMessageFailure)
        → find_first p zs ≡ some x
        → Apart id_of y.id zs
        → (y.id == x.id) ≡ false
    apart-found [] e a = cc
    apart-found (z ∷ zs) e a = ground (arith, apart-found zs)

below_mono :
    (n : ℕ) (xs : List ImportMessageFailure) → All (λ x. x.id < n) xs → All (λ x. x.id < n + 1) xs
below_mono n xs h =
    All-mono (λ (x : ImportMessageFailure). x.id < n) (λ x. x.id < n + 1) (λ x p. omega arith) xs h

below-Apart :
    (new : ImportMessageFailure) (xs : List ImportMessageFailure)
    → All (λ x. x.id < new.id) xs
    → All (λ x. Apart id_of x.id (new ∷ [])) xs
below-Apart new xs h =
    All-mono (λ (x : ImportMessageFailure). x.id < new.id) (λ x. Apart id_of x.id (new ∷ []))
      (λ x p. (ground arith, tt)) xs h

module _ (now : ℕ) (params : NewFailure) (db : ImportDb) where
  pub upsert_failure-IsNumbered : IsNumbered db → IsNumbered (upsert_failure now params db)
  unfolding upsert_failure
  upsert_failure-IsNumbered n =
      elim (Option-cases
        (find_first (is_failure_key params.bank_key params.message.id) db.failures)) [
          | inl none_yet ↦
              let new = new_failure now db.next_id params in
              rw none_yet record {
                distinct =
                    Distinct-append id_of db.failures (new ∷ []) n.distinct (tt, tt)
                      (below-Apart new db.failures n.below);
                below =
                    All-append (λ (f : ImportMessageFailure). f.id < db.next_id + 1) db.failures
                      (new ∷ []) (below_mono db.next_id db.failures n.below) (omega arith, tt);
              }
          | inr (x, found) ↦ rw found record {
            distinct =
                Distinct-update_failure x.id (seen_again now params) (λ f. refl) db.failures
                  n.distinct;
            below =
                below-update_failure x.id (seen_again now params) (λ f. refl) db.next_id db.failures
                  n.below;
          }
        ]

  -- The failure of the message is open afterwards.
  pub upsert_failure-open :
      IsNumbered db
      → any_of
          (is_open_for params.bank_key params.message.id)
          (upsert_failure now params db).failures
        ≡ true
  unfolding upsert_failure
  upsert_failure-open n =
      elim (Option-cases
        (find_first (is_failure_key params.bank_key params.message.id) db.failures)) [
          | inl none_yet ↦ rw none_yet (
              any_of-append_last (is_open_for params.bank_key params.message.id) db.failures
                (new_failure now db.next_id params)
                (rw (text_eq_refl params.bank_key, text_eq_refl params.message.id) refl))
          | inr (x, found) ↦
              let passes =
                find_first-passes (is_failure_key params.bank_key params.message.id) db.failures x
                  found in
              rw found (
                update_found (is_failure_key params.bank_key params.message.id)
                  (is_open_for params.bank_key params.message.id) (seen_again now params)
                  db.failures x n.distinct found (ground (arith, passes)))
        ]

  -- A failure that is open stays open.
  pub upsert_failure-keeps_open :
      (bank_key message_id : Text)
      → any_of (is_open_for bank_key message_id) db.failures ≡ true
      → any_of (is_open_for bank_key message_id) (upsert_failure now params db).failures ≡ true
  unfolding upsert_failure
  upsert_failure-keeps_open bank_key message_id h =
      elim (Option-cases
        (find_first (is_failure_key params.bank_key params.message.id) db.failures)) [
          | inl none_yet ↦ rw none_yet (
              any_of-append (is_open_for bank_key message_id) db.failures
                (new_failure now db.next_id params ∷ []) h)
          | inr (x, found) ↦ rw found (
              any_of-update_failure (is_open_for bank_key message_id) x.id (seen_again now params)
                db.failures (λ f e. ground (arith, e)) h)
        ]

  pub upsert_failure-transactions :
      ((upsert_failure now params db).transactions ≡ db.transactions)
      × ((upsert_failure now params db).cards ≡ db.cards)
      × ((upsert_failure now params db).states ≡ db.states)
  unfolding upsert_failure
  upsert_failure-transactions =
      elim (Option-cases
        (find_first (is_failure_key params.bank_key params.message.id) db.failures)) [
          | inl none_yet ↦ rw none_yet (refl, refl, refl)
          | inr (x, found) ↦ rw found (refl, refl, refl)
        ]
