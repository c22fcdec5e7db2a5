-- ===== src/Imports/Chunks.antt =====
-- `chunkMessages` of src/modules/import-jobs/services/cc-txn-import.service.ts.
use pft_backend.Prelude.{
  ℕ, zero, suc, ◌-◌, ◌≤◌, ◌<◌, ◌≡◌, refl, ap, ◌∙◌, List, [], ◌∷◌, ◌++◌, arith, length, take, drop,
  All, length-take_le,
}
use pft_backend.Imports.Bank.{chunks_from, chunk_messages}

module _ {A : Type 0} where
  abbrev pub joined : List (List A) → List A
  joined [] = []
  joined (c ∷ cs) = c ++ joined cs

  take-drop : (n : ℕ) (xs : List A) → take n xs ++ drop n xs ≡ xs
  take-drop zero xs = refl
  take-drop (suc n) [] = refl
  take-drop (suc n) (x ∷ xs) = ap (◌∷◌ x) (take-drop n xs)

  length-drop_le : (n : ℕ) (xs : List A) → length (drop n xs) ≤ length xs - n
  length-drop_le zero xs = omega arith
  length-drop_le (suc n) [] = omega arith
  length-drop_le (suc n) (x ∷ xs) = omega (arith, length-drop_le n xs)

  -- A batch has a message, and no more than the size.
  abbrev pub IsBatch : ℕ → List A → Type 0
  IsBatch size c = (0 < length c) × (length c ≤ size)

  take_pos : (size : ℕ) (x : A) (xs : List A) → 0 < size → 0 < length (take size (x ∷ xs))
  take_pos zero x xs h = absurd (omega arith)
  take_pos (suc n) x xs h = omega arith

  chunks_from-joined :
      (fuel size : ℕ) (xs : List A)
      → 0 < size
      → length xs ≤ fuel
      → (joined (chunks_from fuel size xs) ≡ xs) × All (IsBatch size) (chunks_from fuel size xs)
  unfolding chunks_from
  chunks_from-joined zero size [] s h = (refl, tt)
  chunks_from-joined zero size (x ∷ xs) s h = absurd (omega arith)
  chunks_from-joined (suc fuel) size [] s h = (refl, tt)
  chunks_from-joined (suc fuel) size (x ∷ xs) s h =
      let ih =
        chunks_from-joined fuel size (drop size (x ∷ xs)) s
          (omega (arith, length-drop_le size (x ∷ xs))) in
      (
        ap (◌++◌ (take size (x ∷ xs))) ih.0 ∙ take-drop size (x ∷ xs),
        ((take_pos size x xs s, length-take_le size (x ∷ xs)), ih.1),
      )

  -- The loop ends with batches that are the messages in order, none empty and none above the size, for every
  -- size above 0.
  pub chunk_messages-joined :
      (xs : List A) (size : ℕ)
      → 0 < size
      → (joined (chunk_messages xs size) ≡ xs) × All (IsBatch size) (chunk_messages xs size)
  unfolding chunk_messages
  chunk_messages-joined xs size s = chunks_from-joined (length xs) size xs s (omega arith)
