-- ===== src/Std/Sort.antt =====
-- sort.Slice and slices.Sorted: insertion sort by a strict order given as a test.
pub mod Laws
use mitrity_go.Base.{Bool, true, false, List, [], ◌∷◌, ltb, ◌==◌, if◌then◌else◌, Bytes}

module _ {ℓ} {A : Type ℓ} (less : A → A → Bool) where
  -- Before the first item that is greater.
  unfoldable pub insert : A → List A → List A
  insert a [] = a ∷ []
  insert a (b ∷ l) = if less a b then a ∷ b ∷ l else b ∷ insert a l

  unfoldable pub sort : List A → List A
  unfolding insert
  sort [] = []
  sort (a ∷ l) = insert a (sort l)

-- `a < b` on strings: byte by byte.
unfoldable pub less_bytes : Bytes → Bytes → Bool
less_bytes [] [] = false
less_bytes [] (b ∷ bs) = true
less_bytes (a ∷ s) [] = false
less_bytes (a ∷ s) (b ∷ t) = if a == b then less_bytes s t else ltb a b
