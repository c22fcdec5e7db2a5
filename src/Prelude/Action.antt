-- ===== src/Prelude/Action.antt =====
-- A service call: it reads and writes the database state `S`, and returns a value or throws.
-- The state comes back after a throw too, since what was written outside a transaction stays written.

use mathlib.Core.Path.{◌≡◌, refl, sym, ap, ◌∙◌}
use mathlib.Core.Bool.{Bool}
use mathlib.Core.Option.{Option, none, some}
use pft_backend.Prelude.Tests.{if◌then◌else◌}

pub data Result {ℓ κ} (E : Type ℓ) (A : Type κ) : Type (ℓ ⊔ κ) where
  ok : A → Result E A
  err : E → Result E A

abbrev pub Action : Type 0 → Type 0 → Type 0 → Type 0
Action S E A = S → Result E A × S

module _ {S E : Type 0} where
  abbrev pub pure : {A : Type 0} → A → Action S E A
  pure a s = (ok a, s)

  abbrev pub throw : {A : Type 0} → E → Action S E A
  throw e s = (err e, s)

  abbrev pub gets : {A : Type 0} → (S → A) → Action S E A
  gets f s = (ok (f s), s)

  abbrev pub modify : (S → S) → Action S E (Unit {0})
  modify f s = (ok tt, f s)

  abbrev pub throw_if : Bool → E → Action S E (Unit {0})
  throw_if c e s = (if c then err e else ok tt, s)

  abbrev pub or_throw : {A : Type 0} → Option A → E → Action S E A
  or_throw none e = throw e
  or_throw (some a) e = pure a

  abbrev pub from_result : {A : Type 0} → Result E A → Action S E A
  from_result r s = (r, s)

  infixl 5 ◌>>=◌ ◌>>◌
  abbrev pub ◌>>=◌ : {A B : Type 0} → Action S E A → (A → Action S E B) → Action S E B
  ◌>>=◌ m f s = let (r, s') = m s in elim r [ ok a ↦ f a s' | err e ↦ throw e s' ]

  abbrev pub ◌>>◌ : {A B : Type 0} → Action S E A → Action S E B → Action S E B
  m >> k = m >>= λ _. k

  -- `prisma.$transaction`: a throw rolls back what was written inside.
  abbrev pub transaction : {A : Type 0} → Action S E A → Action S E A
  transaction m s = let (r, s') = m s in elim r [ ok a ↦ (ok a, s') | err e ↦ (err e, s) ]

module _ {S E A B : Type 0} where
  bound : Result E A × S → (A → Action S E B) → Result E B × S
  bound (ok a, s) f = f a s
  bound (err e, s) f = (err e, s)

  bound-eq_ok :
      (p : Result E A × S) (f : A → Action S E B) {b : B} {s' : S}
      → bound p f ≡ (ok b, s')
      → (a : A) × (s : S) × (p ≡ (ok a, s)) × (f a s ≡ (ok b, s'))
  unfolding bound
  bound-eq_ok (ok a, s) f e = (a, s, refl, e)
  bound-eq_ok (err x, s) f e = cc (ap result_of e)
    where
      result_of : Result E B × S → Result E B
      result_of p = p.0

  bound-lem : (m : Action S E A) (f : A → Action S E B) (s : S) → (m >>= f) s ≡ bound (m s) f
  unfolding bound
  bound-lem m f s = split (m s)
    where
      split :
          (p : Result E A × S)
          → ◌≡◌ {A = Result E B × S} (elim p.0 [ ok a ↦ f a p.1 | err e ↦ throw e p.1 ]) (bound p f)
      split (ok a, s') = refl
      split (err e, s') = refl

  -- A chain that succeeds has steps that succeed.
  pub >>=-eq_ok :
      (m : Action S E A) (f : A → Action S E B) (s : S) {b : B} {s' : S}
      → (m >>= f) s ≡ (ok b, s')
      → (a : A) × (s₁ : S) × (m s ≡ (ok a, s₁)) × (f a s₁ ≡ (ok b, s'))
  >>=-eq_ok m f s e = bound-eq_ok (m s) f (sym (bound-lem m f s) ∙ e)

module _ {S E A : Type 0} where
  transaction_of : Result E A × S → S → Result E A × S
  transaction_of (ok a, s') s = (ok a, s')
  transaction_of (err e, s') s = (err e, s)

  transaction_of-eq_ok :
      (p : Result E A × S) (s : S) {a : A} {s' : S}
      → transaction_of p s ≡ (ok a, s')
      → p ≡ (ok a, s')
  unfolding transaction_of
  transaction_of-eq_ok (ok x, s₁) s e = e
  transaction_of-eq_ok (err x, s₁) s e = cc (ap result_of e)
    where
      result_of : Result E A × S → Result E A
      result_of p = p.0

  transaction-lem : (m : Action S E A) (s : S) → transaction m s ≡ transaction_of (m s) s
  unfolding transaction_of
  transaction-lem m s = split (m s)
    where
      split :
          (p : Result E A × S)
          → ◌≡◌ {A = Result E A × S}
              (elim p.0 [ ok a ↦ (ok a, p.1) | err e ↦ (err e, s) ])
              (transaction_of p s)
      split (ok a, s') = refl
      split (err e, s') = refl

  pub transaction-eq_ok :
      (m : Action S E A) (s : S) {a : A} {s' : S} → transaction m s ≡ (ok a, s') → m s ≡ (ok a, s')
  transaction-eq_ok m s e = transaction_of-eq_ok (m s) s (sym (transaction-lem m s) ∙ e)

  transaction_of-err :
      (p : Result E A × S) (s : S) {e : E} {s' : S} → transaction_of p s ≡ (err e, s') → s' ≡ s
  unfolding transaction_of
  transaction_of-err (ok x, s₁) s e = cc (ap result_of e)
    where
      result_of : Result E A × S → Result E A
      result_of p = p.0
  transaction_of-err (err x, s₁) s e = sym (ap state_of e)
    where
      state_of : Result E A × S → S
      state_of p = p.1

  -- A transaction that throws leaves the state as it was.
  pub transaction-err :
      (m : Action S E A) (s : S) {e : E} {s' : S} → transaction m s ≡ (err e, s') → s' ≡ s
  transaction-err m s e = transaction_of-err (m s) s (sym (transaction-lem m s) ∙ e)
