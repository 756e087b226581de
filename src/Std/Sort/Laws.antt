-- ===== src/Std/Sort/Laws.antt =====
-- The order of strings, and what a sort by a strict order does not depend on.
use mitrity_go.Base.{
  sym, Bool, true, false, List, [], ◌∷◌, ◌≡◌, refl, arith, Bytes, same, ltb, ◌==◌, Bool-cases, inl,
  inr, ◌⊎◌,
}
use mitrity_go.Std.Sort.{insert, less_bytes}

-- A strict order, given as a test.
pub record IsStrict {ℓ} {A : Type ℓ} (less : A → A → Bool) : Type ℓ where
  pub asymm : (a b : A) → less a b ≡ true → less b a ≡ false
  pub trans : (a b c : A) → less a b ≡ true → less b c ≡ true → less a c ≡ true

less_bytes-asymm : (s t : Bytes) → less_bytes s t ≡ true → less_bytes t s ≡ false
unfolding less_bytes
less_bytes-asymm [] [] h = cc
less_bytes-asymm [] (b ∷ t) h = refl
less_bytes-asymm (a ∷ s) [] h = cc
less_bytes-asymm (a ∷ s) (b ∷ t) h = ground (arith, less_bytes-asymm s t)

less_bytes_trans :
    (s t u : Bytes) → less_bytes s t ≡ true → less_bytes t u ≡ true → less_bytes s u ≡ true
unfolding less_bytes
less_bytes_trans [] [] u h k = cc
less_bytes_trans [] (b ∷ t) [] h k = cc
less_bytes_trans [] (b ∷ t) (c ∷ u) h k = refl
less_bytes_trans (a ∷ s) [] u h k = cc
less_bytes_trans (a ∷ s) (b ∷ t) [] h k = cc
less_bytes_trans (a ∷ s) (b ∷ t) (c ∷ u) h k = ground (arith, less_bytes_trans s t u)

pub less_bytes-IsStrict : IsStrict less_bytes
less_bytes-IsStrict = record { asymm = less_bytes-asymm; trans = less_bytes_trans }

-- Two strings are the same, or one is before the other.
pub less_bytes_total :
    (s t : Bytes) → same s t ≡ false → (less_bytes s t ≡ true) ⊎ (less_bytes t s ≡ true)
unfolding less_bytes same
less_bytes_total [] [] h = cc
less_bytes_total [] (b ∷ t) h = inl refl
less_bytes_total (a ∷ s) [] h = inr refl
less_bytes_total (a ∷ s) (b ∷ t) h = elim (Bool-cases (a == b)) [
  | inl e ↦ elim (less_bytes_total s t (ground arith)) [
    | inl k ↦ inl (ground arith)
    | inr k ↦ inr (ground arith)
  ]
  | inr e ↦ elim (Bool-cases (ltb a b)) [ inl k ↦ inl (ground arith) | inr k ↦ inr (ground arith) ]
]

module _ {ℓ} {A : Type ℓ} (less : A → A → Bool) (strict : IsStrict less) where
  insert-insert_lt :
      (a b : A) (l : List A)
      → less a b ≡ true
      → insert less a (insert less b l) ≡ insert less b (insert less a l)
  unfolding insert
  insert-insert_lt a b [] h = rw (h, strict.asymm a b h) refl
  insert-insert_lt a b (c ∷ l) h =
      ground (arith, strict.asymm a b, strict.trans a b c, insert-insert_lt a b l h)

  -- The order of two insertions does not matter where one item is before the other.
  pub insert-insert :
      (a b : A) (l : List A)
      → (less a b ≡ true) ⊎ (less b a ≡ true)
      → insert less a (insert less b l) ≡ insert less b (insert less a l)
  insert-insert a b l (inl h) = insert-insert_lt a b l h
  insert-insert a b l (inr h) = sym (insert-insert_lt b a l h)
