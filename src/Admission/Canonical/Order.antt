-- ===== src/Admission/Canonical/Order.antt =====
-- The order of the members of a map (admission/canonical.go: writeObject, lessUTF16).
use mitrity_go.Base.{
  ℕ, true, false, List, [], ◌∷◌, ◌≡◌, refl, ◌∙◌, arith, Bytes, same, Result, Option, ◌⊎◌, inl, inr,
}
use mitrity_go.Std.Utf8.{runes, utf16_units}
use mitrity_go.Std.Sort.{sort, less_bytes}
use mitrity_go.Std.Sort.Laws.{IsStrict, less_bytes-IsStrict, less_bytes_total, insert-insert}
use mitrity_go.Std.Value.{Value, Items, Fields, list, object, stop, item, end, field}
use mitrity_go.Admission.Canonical.{
  CanonicalError, Member, less_utf16, less_member, write_members, canonical, canonical_items,
  canonical_fields, canonical_json, normalize, config_hash,
}

-- The UTF-16 code units of a name.
abbrev pub units : Bytes → List ℕ
units key = utf16_units (runes key)

-- The same value, up to the order of the members of its maps. Two neighbours change places where
-- the UTF-16 code units of their names tell them apart, as those of any two names in UTF-8 do.
mutual
  pub data SameValue : Value → Value → Type 0 where
    unchanged : (v : Value) → SameValue v v
    in_list : (xs ys : Items) → SameItems xs ys → SameValue (list xs) (list ys)
    in_object : (m n : Fields) → SameFields m n → SameValue (object m) (object n)

  pub data SameItems : Items → Items → Type 0 where
    no_items : SameItems stop stop
    items :
        (v w : Value) (xs ys : Items)
        → SameValue v w
        → SameItems xs ys
        → SameItems (item v xs) (item w ys)

  pub data SameFields : Fields → Fields → Type 0 where
    no_fields : SameFields end end
    member :
        (k : Bytes) (v w : Value) (m n : Fields)
        → SameValue v w
        → SameFields m n
        → SameFields (field k v m) (field k w n)
    exchanged :
        (j k : Bytes) (v w : Value) (m : Fields)
        → same (units j) (units k) ≡ false
        → SameFields (field j v (field k w m)) (field k w (field j v m))
    later : (l m n : Fields) → SameFields l m → SameFields m n → SameFields l n

less_utf16-eq-less_bytes : (s t : List ℕ) → less_utf16 s t ≡ less_bytes s t
unfolding less_utf16 less_bytes
less_utf16-eq-less_bytes [] [] = refl
less_utf16-eq-less_bytes [] (b ∷ t) = refl
less_utf16-eq-less_bytes (a ∷ s) [] = refl
less_utf16-eq-less_bytes (a ∷ s) (b ∷ t) = ground (arith, less_utf16-eq-less_bytes s t)

less_member-IsStrict : IsStrict less_member
less_member-IsStrict = record {
  asymm = λ a b h. ground (
    arith,
    less_utf16-eq-less_bytes (units a.key) (units b.key),
    less_utf16-eq-less_bytes (units b.key) (units a.key),
    less_bytes-IsStrict.asymm (units a.key) (units b.key),
  );
  trans = λ a b c h k. ground (
    arith,
    less_utf16-eq-less_bytes (units a.key) (units b.key),
    less_utf16-eq-less_bytes (units b.key) (units c.key),
    less_utf16-eq-less_bytes (units a.key) (units c.key),
    less_bytes-IsStrict.trans (units a.key) (units b.key) (units c.key),
  );
}

less_member_total :
    (a b : Member)
    → same (units a.key) (units b.key) ≡ false
    → (less_member a b ≡ true) ⊎ (less_member b a ≡ true)
less_member_total a b h = elim (less_bytes_total (units a.key) (units b.key) h) [
  | inl k ↦ inl (less_utf16-eq-less_bytes _ _ ∙ k)
  | inr k ↦ inr (less_utf16-eq-less_bytes _ _ ∙ k)
]

write_members-sort :
    (l m : List Member)
    → sort less_member l ≡ sort less_member m
    → write_members l ≡ write_members m
unfolding write_members
write_members-sort l m h = rw (h) refl

module _ (fallback : Option Bytes → Result CanonicalError Bytes) where
  mutual
    unfolding canonical sort

    canonical-SameValue :
        {v w : Value} → SameValue v w → canonical fallback v ≡ canonical fallback w
    canonical-SameValue (unchanged v) = refl
    canonical-SameValue (in_list xs ys h) = rw (canonical_items-SameItems h) refl
    canonical-SameValue (in_object m n h) =
        write_members-sort (canonical_fields fallback m) (canonical_fields fallback n)
          (canonical_fields-SameFields h)

    canonical_items-SameItems :
        {xs ys : Items}
        → SameItems xs ys
        → canonical_items fallback xs ≡ canonical_items fallback ys
    canonical_items-SameItems no_items = refl
    canonical_items-SameItems (items v w xs ys h k) =
        rw (canonical-SameValue h, canonical_items-SameItems k) refl

    canonical_fields-SameFields :
        {m n : Fields}
        → SameFields m n
        → sort less_member (canonical_fields fallback m)
          ≡ sort less_member (canonical_fields fallback n)
    canonical_fields-SameFields no_fields = refl
    canonical_fields-SameFields (member k v w m n h r) =
        rw (canonical-SameValue h, canonical_fields-SameFields r) refl
    canonical_fields-SameFields (exchanged j k v w m h) =
        let a : Member = record { key = j; text = canonical fallback v } in
        let b : Member = record { key = k; text = canonical fallback w } in
        insert-insert less_member less_member-IsStrict a b
          (sort less_member (canonical_fields fallback m)) (less_member_total a b h)
    canonical_fields-SameFields (later l m n h r) =
        canonical_fields-SameFields h ∙ canonical_fields-SameFields r

-- Two values that differ in the order of the members of their maps only, at any depth, where the
-- UTF-16 code units of the names that change places differ, have the same canonical JSON, or the
-- same error, and the same config hash.
pub canonical_json-SameValue :
    (v w : Value)
    → SameValue v w
    → (canonical_json v ≡ canonical_json w) × (config_hash v ≡ config_hash w)
unfolding canonical_json config_hash
canonical_json-SameValue v w h = let e = canonical-SameValue normalize h in (e, rw (e) refl)
