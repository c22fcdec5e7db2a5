-- ===== src/Prelude/Lists.antt =====
-- Lists as tables: filters by a Boolean test, sums, sorting, and the lemmas that the tables share.
use Prim.Native.Nat.{ℕ, zero, suc, ◌+◌, ◌≤◌}
use mathlib.Core.Path.{◌≡◌, refl, ap, subst}
use mathlib.Core.Bool.{Bool, true, false}
use mathlib.Core.List.{List, [], ◌∷◌, ◌++◌}
use mathlib.Core.Option.{Option, none, some, some-injective}
use mathlib.Core.Logic.{inl, inr}
use native.Mathlib.Omega.{arith}
use pft_backend.Prelude.Tests.{◌==◌, Bool-cases, if◌then◌else◌}

module _ {ℓ} {A : Type ℓ} where
  abbrev pub length : List A → ℕ
  length [] = 0
  length (x ∷ xs) = suc (length xs)

  abbrev pub take : ℕ → List A → List A
  take zero xs = []
  take (suc n) [] = []
  take (suc n) (x ∷ xs) = x ∷ take n xs

  abbrev pub drop : ℕ → List A → List A
  drop zero xs = xs
  drop (suc n) [] = []
  drop (suc n) (x ∷ xs) = drop n xs

  -- `Array.prototype.filter`, and the `where` of a query.
  abbrev pub where_rows : (A → Bool) → List A → List A
  where_rows p [] = []
  where_rows p (x ∷ xs) = if p x then x ∷ where_rows p xs else where_rows p xs

  -- `Array.prototype.find`, and `findFirst`.
  abbrev pub find_first : (A → Bool) → List A → Option A
  find_first p [] = none
  find_first p (x ∷ xs) = if p x then some x else find_first p xs

  -- Deletes the first row that passes the test (the only one, if the test is on a key).
  abbrev pub delete_first : (A → Bool) → List A → List A
  delete_first p [] = []
  delete_first p (x ∷ xs) = if p x then xs else x ∷ delete_first p xs

  abbrev pub any_of : (A → Bool) → List A → Bool
  any_of p [] = false
  any_of p (x ∷ xs) = if p x then true else any_of p xs

  abbrev pub sum_by : (A → ℕ) → List A → ℕ
  sum_by f [] = 0
  sum_by f (x ∷ xs) = f x + sum_by f xs

  abbrev pub All {κ} : (A → Type κ) → List A → Type κ
  All P [] = Unit
  All P (x ∷ xs) = P x × All P xs

  -- A stable insertion sort by a Boolean order, for `orderBy` and `sort`.
  abbrev pub insert_by : (A → A → Bool) → A → List A → List A
  insert_by le x [] = x ∷ []
  insert_by le x (y ∷ ys) = if le x y then x ∷ y ∷ ys else y ∷ insert_by le x ys

  abbrev pub sort_by : (A → A → Bool) → List A → List A
  sort_by le [] = []
  sort_by le (x ∷ xs) = insert_by le x (sort_by le xs)

module _ {ℓ} {A : Type ℓ} where
  pub sum_by-append : (f : A → ℕ) (xs ys : List A) → sum_by f (xs ++ ys) ≡ sum_by f xs + sum_by f ys
  sum_by-append f [] ys = omega arith
  sum_by-append f (x ∷ xs) ys = omega (arith, sum_by-append f xs ys)

  pub sum_by-insert_by :
      (f : A → ℕ) (le : A → A → Bool) (x : A) (ys : List A)
      → sum_by f (insert_by le x ys) ≡ f x + sum_by f ys
  sum_by-insert_by f le x [] = refl
  sum_by-insert_by f le x (y ∷ ys) = ground (arith, sum_by-insert_by f le x ys)

  pub sum_by-sort_by :
      (f : A → ℕ) (le : A → A → Bool) (xs : List A) → sum_by f (sort_by le xs) ≡ sum_by f xs
  sum_by-sort_by f le [] = refl
  sum_by-sort_by f le (x ∷ xs) =
      omega (arith, sum_by-insert_by f le x (sort_by le xs), sum_by-sort_by f le xs)

  length-where_insert :
      (p : A → Bool) (le : A → A → Bool) (x : A) (xs : List A)
      → length (where_rows p (insert_by le x xs)) ≡ length (where_rows p (x ∷ xs))
  length-where_insert p le x [] = refl
  length-where_insert p le x (y ∷ ys) = ground (arith, length-where_insert p le x ys)

  -- A sort keeps the number of the rows that pass a test.
  pub length-where_sort :
      (p : A → Bool) (le : A → A → Bool) (xs : List A)
      → length (where_rows p (sort_by le xs)) ≡ length (where_rows p xs)
  length-where_sort p le [] = refl
  length-where_sort p le (x ∷ xs) =
      ground (arith, length-where_insert p le x (sort_by le xs), length-where_sort p le xs)

  length-insert_by :
      (le : A → A → Bool) (x : A) (ys : List A) → length (insert_by le x ys) ≡ 1 + length ys
  length-insert_by le x [] = refl
  length-insert_by le x (y ∷ ys) = ground (arith, length-insert_by le x ys)

  pub length-sort_by : (le : A → A → Bool) (xs : List A) → length (sort_by le xs) ≡ length xs
  length-sort_by le [] = refl
  length-sort_by le (x ∷ xs) =
      omega (arith, length-insert_by le x (sort_by le xs), length-sort_by le xs)

  pub where_rows-append :
      (p : A → Bool) (xs ys : List A) → where_rows p (xs ++ ys) ≡ where_rows p xs ++ where_rows p ys
  where_rows-append p [] ys = refl
  where_rows-append p (x ∷ xs) ys = ground (arith, where_rows-append p xs ys)

  pub All-append {κ} : (P : A → Type κ) (xs ys : List A) → All P xs → All P ys → All P (xs ++ ys)
  All-append P [] ys hx hy = hy
  All-append P (x ∷ xs) ys hx hy = (hx.0, All-append P xs ys hx.1 hy)

  pub All-where_rows {κ} :
      (P : A → Type κ) (p : A → Bool) (xs : List A) → All P xs → All P (where_rows p xs)
  All-where_rows P p [] h = h
  All-where_rows P p (x ∷ xs) h = ground (arith, All-where_rows P p xs h.1)

  pub where_rows-passes : (p : A → Bool) (xs : List A) → All (λ x. p x ≡ true) (where_rows p xs)
  where_rows-passes p [] = tt
  where_rows-passes p (x ∷ xs) = ground (arith, where_rows-passes p xs)

  pub find_first-passes :
      (p : A → Bool) (xs : List A) (x : A) → find_first p xs ≡ some x → p x ≡ true
  find_first-passes p [] x e = cc
  find_first-passes p (y ∷ ys) x e = ground (arith, find_first-passes p ys x)

  pub take-length : (xs : List A) → take (length xs) xs ≡ xs
  take-length [] = refl
  take-length (x ∷ xs) = ap (◌∷◌ x) (take-length xs)

  pub length-take_le : (n : ℕ) (xs : List A) → length (take n xs) ≤ n
  length-take_le zero xs = omega arith
  length-take_le (suc n) [] = omega arith
  length-take_le (suc n) (x ∷ xs) = omega (arith, length-take_le n xs)

module _ {ℓ} {A : Type ℓ} where
  pub All-map₂ {κ₁ κ₂ κ₃} :
      (P : A → Type κ₁) (Q : A → Type κ₂) (R : A → Type κ₃)
      → ((x : A) → P x → Q x → R x)
      → (xs : List A) → All P xs
      → All Q xs
      → All R xs
  All-map₂ P Q R f [] p q = tt
  All-map₂ P Q R f (x ∷ xs) p q = (f x p.0 q.0, All-map₂ P Q R f xs p.1 q.1)

  pub All-insert_by {κ} :
      (P : A → Type κ) (le : A → A → Bool) (x : A) (ys : List A)
      → P x
      → All P ys
      → All P (insert_by le x ys)
  All-insert_by P le x [] p q = (p, tt)
  All-insert_by P le x (y ∷ ys) p q = ground (arith, All-insert_by P le x ys p q.1)

  pub All-sort_by {κ} :
      (P : A → Type κ) (le : A → A → Bool) (xs : List A) → All P xs → All P (sort_by le xs)
  All-sort_by P le [] h = tt
  All-sort_by P le (x ∷ xs) h = All-insert_by P le x (sort_by le xs) h.0 (All-sort_by P le xs h.1)

  pub All-of_insert_by {κ} :
      (P : A → Type κ) (le : A → A → Bool) (x : A) (ys : List A)
      → All P (insert_by le x ys)
      → P x × All P ys
  All-of_insert_by P le x [] h = h
  All-of_insert_by P le x (y ∷ ys) h = ground (arith, All-of_insert_by P le x ys)

  pub All-of_sort_by {κ} :
      (P : A → Type κ) (le : A → A → Bool) (xs : List A) → All P (sort_by le xs) → All P xs
  All-of_sort_by P le [] h = tt
  All-of_sort_by P le (x ∷ xs) h =
      let (p, q) = All-of_insert_by P le x (sort_by le xs) h in (p, All-of_sort_by P le xs q)

  -- No row has this key; no two rows have one key.
  abbrev pub Apart : (A → ℕ) → ℕ → List A → Type 0
  Apart key k = All (λ x. (key x == k) ≡ false)

  abbrev pub Distinct : (A → ℕ) → List A → Type 0
  Distinct key [] = Unit
  Distinct key (x ∷ xs) = Apart key (key x) xs × Distinct key xs

  pub Distinct-insert_by :
      (key : A → ℕ) (le : A → A → Bool) (x : A) (ys : List A)
      → Apart key (key x) ys
      → Distinct key ys
      → Distinct key (insert_by le x ys)
  Distinct-insert_by key le x [] a d = (tt, tt)
  Distinct-insert_by key le x (y ∷ ys) a d = ground (
    arith,
    Distinct-insert_by key le x ys a.1 d.1,
    All-insert_by (λ z. (key z == key y) ≡ false) le x ys,
  )

  pub Distinct-sort_by :
      (key : A → ℕ) (le : A → A → Bool) (xs : List A)
      → Distinct key xs
      → Distinct key (sort_by le xs)
  Distinct-sort_by key le [] d = tt
  Distinct-sort_by key le (x ∷ xs) d =
      Distinct-insert_by key le x (sort_by le xs)
        (All-sort_by (λ z. (key z == key x) ≡ false) le xs d.0) (Distinct-sort_by key le xs d.1)

  pub Distinct-where_rows :
      (key : A → ℕ) (p : A → Bool) (xs : List A) → Distinct key xs → Distinct key (where_rows p xs)
  Distinct-where_rows key p [] d = tt
  Distinct-where_rows key p (x ∷ xs) d = ground (
    arith,
    Distinct-where_rows key p xs d.1,
    All-where_rows (λ z. (key z == key x) ≡ false) p xs d.0,
  )

  pub Distinct-append :
      (key : A → ℕ) (xs ys : List A)
      → Distinct key xs
      → Distinct key ys
      → All (λ x. Apart key (key x) ys) xs
      → Distinct key (xs ++ ys)
  Distinct-append key [] ys dx dy a = dy
  Distinct-append key (x ∷ xs) ys dx dy a = (
    All-append (λ z. (key z == key x) ≡ false) xs ys dx.0 a.0,
    Distinct-append key xs ys dx.1 dy a.1,
  )

module _ {ℓ} {A : Type ℓ} where
  pub All-swap {κ} :
      (P : ℕ → A → Type κ) (xs : List A) → ((k : ℕ) → All (P k) xs) → All (λ x. (k : ℕ) → P k x) xs
  All-swap P [] h = tt
  All-swap P (x ∷ xs) h = (λ k. (h k).0, All-swap P xs (λ k. (h k).1))

  pub All-mono {κ₁ κ₂} :
      (P : A → Type κ₁) (Q : A → Type κ₂)
      → ((x : A) → P x → Q x)
      → (xs : List A) → All P xs
      → All Q xs
  All-mono P Q f [] h = tt
  All-mono P Q f (x ∷ xs) h = (f x h.0, All-mono P Q f xs h.1)

  pub All-take {κ} : (P : A → Type κ) (n : ℕ) (xs : List A) → All P xs → All P (take n xs)
  All-take P zero xs h = tt
  All-take P (suc n) [] h = tt
  All-take P (suc n) (x ∷ xs) h = (h.0, All-take P n xs h.1)

  pub All-delete_first {κ} :
      (P : A → Type κ) (p : A → Bool) (xs : List A) → All P xs → All P (delete_first p xs)
  All-delete_first P p [] h = tt
  All-delete_first P p (x ∷ xs) h = ground (arith, All-delete_first P p xs h.1)

  pub Distinct-delete_first :
      (key : A → ℕ) (p : A → Bool) (xs : List A)
      → Distinct key xs
      → Distinct key (delete_first p xs)
  Distinct-delete_first key p [] d = tt
  Distinct-delete_first key p (x ∷ xs) d = ground (
    arith,
    Distinct-delete_first key p xs d.1,
    All-delete_first (λ z. (key z == key x) ≡ false) p xs d.0,
  )

  -- What holds of every row holds of the row found.
  pub find_first-All {κ} :
      (P : A → Type κ) (p : A → Bool) (xs : List A) (x : A)
      → All P xs
      → find_first p xs ≡ some x
      → P x
  find_first-All P p [] x h e = cc
  find_first-All P p (y ∷ ys) x h e = elim (Bool-cases (p y)) [
    | inl t ↦ subst P (some-injective _ _ (rw t at e)) h.0
    | inr f ↦ find_first-All P p ys x h.1 (rw f at e)
  ]

  pub sum_by-congr :
      (f g : A → ℕ) (xs : List A) → All (λ x. f x ≡ g x) xs → sum_by f xs ≡ sum_by g xs
  sum_by-congr f g [] h = refl
  sum_by-congr f g (x ∷ xs) h = omega (arith, sum_by-congr f g xs h.1)
