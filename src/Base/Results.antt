-- ===== src/Base/Results.antt =====
-- Go's `(value, error)` returns: a value, or the error in its place.
use mathlib.Core.Path.{◌≡◌, Path, refl}

pub data Result {ℓ} (E : Type ℓ) (A : Type ℓ) : Type ℓ where
  ok : A → Result E A
  err : E → Result E A

infixl 5 ◌>>=◌
abbrev pub ◌>>=◌ {ℓ} : {E A B : Type ℓ} → Result E A → (A → Result E B) → Result E B
err why >>= rest = err why
ok got >>= rest = rest got

pub >>=-eq-ok {ℓ} :
    {E A B : Type ℓ} (first : Result E A) (rest : A → Result E B) {out : B}
    → (first >>= rest) ≡ ok out
    → (got : A) × (first ≡ ok got) × (rest got ≡ ok out)
>>=-eq-ok (err why) rest failed = cc
>>=-eq-ok (ok got) rest same = (got, refl, same)

pub ok_injective {ℓ} : (E A : Type ℓ) {a b : A} → Path (Result E A) (ok a) (ok b) → a ≡ b
ok_injective E A h = cc
