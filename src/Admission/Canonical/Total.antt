-- ===== src/Admission/Canonical/Total.antt =====
-- Values that have a canonical serialization (admission/canonical.go), and the hash of an attestation
-- (govern/governor.go: Attestation).
use mitrity_go.Base.{
  ◌*◌, ap, ◌∙◌, ◌>>=◌, ℕ, Bool, true, false, Bytes, List, [], ◌∷◌, ◌≡◌, refl, Result, ok, All,
  arith, Bool-cases, inl, inr, length,
}
use mitrity_go.Std.Value.{
  Value, Fields, Items, nil, bool, str, int, strings, list, object, stop, item, end, field,
}
use mitrity_go.Std.Sha256.{sha256, big_endian}
use mitrity_go.Std.Strings.{hex_encode}
use mitrity_go.Std.Sort.{insert, sort}
use mitrity_go.Admission.Canonical.{
  other, bytes, number, float, sha256, hex_encode, ℕ, CanonicalError, Member, less_member,
  join_texts, member_texts, write_members, string_texts, canonical, canonical_items,
  canonical_fields, canonical_json, normalize, config_hash, enclose,
}

-- A serialization, and not a refusal.
abbrev pub IsOk {ℓ} : {E A : Type ℓ} → Result E A → Type ℓ
IsOk {A = A} r = (a : A) × (r ≡ ok a)

module _ {ℓ κ} {A : Type ℓ} (P : A → Type κ) (less : A → A → Bool) where
  insert-All : (a : A) (l : List A) → P a → All P l → All P (insert less a l)
  unfolding insert
  insert-All a [] p h = (p, tt)
  insert-All a (b ∷ l) p (q, h) = elim (Bool-cases (less a b)) [
    | inl e ↦ rw (e) (p, (q, h))
    | inr e ↦ rw (e) (q, insert-All a l p h)
  ]

  sort-All : (l : List A) → All P l → All P (sort less l)
  unfolding sort
  sort-All [] h = tt
  sort-All (a ∷ l) (p, h) = insert-All a (sort less l) p (sort-All l h)

IsOk-bind {ℓ} :
    {E A B : Type ℓ} (r : Result E A) (f : A → Result E B)
    → IsOk r
    → ((a : A) → IsOk (f a))
    → IsOk (r >>= f)
IsOk-bind r f (a, h) g = rw (h) (g a)

join_texts-IsOk : (l : List (Result CanonicalError Bytes)) → All IsOk l → IsOk (join_texts l)
unfolding join_texts
join_texts-IsOk [] h = ([], refl)
join_texts-IsOk (t ∷ []) (p, h) = p
join_texts-IsOk (t ∷ u ∷ rest) (p, h) =
    IsOk-bind t _ p
      (λ s. IsOk-bind (join_texts (u ∷ rest)) _ (join_texts-IsOk (u ∷ rest) h) (λ more. (_, refl)))

enclose-IsOk :
    (open_ close : ℕ) (r : Result CanonicalError Bytes) → IsOk r → IsOk (enclose open_ close r)
enclose-IsOk open_ close r h = IsOk-bind r _ h (λ s. (_, refl))

string_texts-IsOk : (l : List Bytes) → All IsOk (string_texts l)
unfolding string_texts
string_texts-IsOk [] = tt
string_texts-IsOk (s ∷ l) = ((_, refl), string_texts-IsOk l)

member_texts-IsOk : (l : List Member) → All (λ m. IsOk m.text) l → All IsOk (member_texts l)
unfolding member_texts
member_texts-IsOk [] h = tt
member_texts-IsOk (m ∷ l) (p, h) = (IsOk-bind m.text _ p (λ s. (_, refl)), member_texts-IsOk l h)

write_members-IsOk : (l : List Member) → All (λ m. IsOk m.text) l → IsOk (write_members l)
unfolding write_members
write_members-IsOk l h =
    enclose-IsOk _ _ _
      (join_texts-IsOk _ (member_texts-IsOk _ (sort-All (λ m. IsOk m.text) less_member l h)))

unfoldable mutual
  -- A value of strings, Booleans, integers, nulls, lists and maps, and nothing else.
  pub IsSimple : Value → Type 0
  IsSimple nil = Unit
  IsSimple (bool b) = Unit
  IsSimple (str s) = Unit
  IsSimple (int n) = Unit
  IsSimple (strings l) = Unit
  IsSimple (list xs) = AreSimple xs
  IsSimple (object m) = HasSimple m
  IsSimple _ = ⊥

  pub AreSimple : Items → Type 0
  AreSimple stop = Unit
  AreSimple (item v xs) = IsSimple v × AreSimple xs

  pub HasSimple : Fields → Type 0
  HasSimple end = Unit
  HasSimple (field k v m) = IsSimple v × HasSimple m

mutual
  unfolding canonical IsSimple

  canonical-IsOk : (v : Value) → IsSimple v → IsOk (canonical normalize v)
  canonical-IsOk nil h = (_, refl)
  canonical-IsOk (bool true) h = (_, refl)
  canonical-IsOk (bool false) h = (_, refl)
  canonical-IsOk (str s) h = (_, refl)
  canonical-IsOk (int n) h = (_, refl)
  canonical-IsOk (strings l) h = enclose-IsOk _ _ _ (join_texts-IsOk _ (string_texts-IsOk l))
  canonical-IsOk (list xs) h = enclose-IsOk _ _ _ (join_texts-IsOk _ (canonical_items-IsOk xs h))
  canonical-IsOk (object m) h = write_members-IsOk _ (canonical_fields-IsOk m h)
  canonical-IsOk (float x) h = absurd h
  canonical-IsOk (number text) h = absurd h
  canonical-IsOk (bytes s) h = absurd h
  canonical-IsOk (other text) h = absurd h

  canonical_items-IsOk : (xs : Items) → AreSimple xs → All IsOk (canonical_items normalize xs)
  canonical_items-IsOk stop h = tt
  canonical_items-IsOk (item v xs) (p, h) = (canonical-IsOk v p, canonical_items-IsOk xs h)

  canonical_fields-IsOk :
      (m : Fields) → HasSimple m → All (λ x. IsOk x.text) (canonical_fields normalize m)
  canonical_fields-IsOk end h = tt
  canonical_fields-IsOk (field k v m) (p, h) = (canonical-IsOk v p, canonical_fields-IsOk m h)

length-hex_encode : (s : Bytes) → length (hex_encode s) ≡ 2 * length s
unfolding hex_encode
length-hex_encode [] = refl
length-hex_encode (b ∷ s) = ground (arith, length-hex_encode s)

length-sha256 : (s : Bytes) → length (sha256 s) ≡ 32
unfolding sha256 big_endian
length-sha256 s = refl

-- A value of nulls, Booleans, strings, integers, lists and maps of such has a config hash, of 64
-- characters.
pub length-config_hash :
    (v : Value) → IsSimple v → (hash : Bytes) × (config_hash v ≡ ok hash) × (length hash ≡ 64)
unfolding config_hash canonical_json
length-config_hash v h =
    let (text, e) = canonical-IsOk v h in
    (
      hex_encode (sha256 text),
      rw (e) refl,
      length-hex_encode (sha256 text) ∙ ap (λ n. 2 * n) (length-sha256 text),
    )
