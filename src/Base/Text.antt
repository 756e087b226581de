-- ===== src/Base/Text.antt =====
-- Go strings and byte slices: lists of bytes, compared as Go's `==` does.
use Prim.Native.Nat.{ℕ}
use Prim.Native.Char.{code}
use Prim.Native.String.{String}
use mathlib.Core.Path.{◌≡◌, refl}
use mathlib.Core.Logic.{◌↔◌}
use mathlib.Core.Bool.{Bool, true, false, ◌&&◌}
use mathlib.Core.List.{List, [], ◌∷◌}
use native.Mathlib.Omega.{arith}
use mitrity_go.Base.Tests.{◌==◌}

abbrev pub Bytes : Type 0
Bytes = List ℕ

-- The bytes of an ASCII literal.
abbrev pub codes : String → Bytes
codes String.[] = []
codes (String.◌∷◌ c s) = code c ∷ codes s

-- `a == b` on strings.
unfoldable pub same : Bytes → Bytes → Bool
same [] [] = true
same (a ∷ as') (b ∷ bs) = (a == b) && same as' bs
same _ _ = false

pub same_refl : (a : Bytes) → same a a ≡ true
unfolding same
same_refl [] = refl
same_refl (a ∷ s) = ground (arith, same_refl s)

pub eq_of_same : (a b : Bytes) → same a b ≡ true → a ≡ b
unfolding same
eq_of_same [] [] h = refl
eq_of_same [] (b ∷ bs) h = cc
eq_of_same (a ∷ s) [] h = cc
eq_of_same (a ∷ s) (b ∷ t) h = ground (arith, eq_of_same s t)

pub same_of_eq : (a b : Bytes) → a ≡ b → same a b ≡ true
same_of_eq a b h = rw h (same_refl b)

pub same_iff : (a b : Bytes) → (same a b ≡ true) ↔ (a ≡ b)
same_iff a b = (eq_of_same a b, same_of_eq a b)

-- `s == ""`.
abbrev pub is_empty {ℓ} : {A : Type ℓ} → List A → Bool
is_empty [] = true
is_empty (x ∷ xs) = false
