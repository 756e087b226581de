-- ===== src/Govern/Merge.antt =====
-- The input that a governed tool runs (govern/governor.go: mergeInput).
use mitrity_go.Base.{
  ap, ◌∙◌, ◌≡◌, refl, true, Option, none, some, Bytes, same, same_iff, arith, Bool-cases, inl, inr,
  eq_of_same,
}
use mitrity_go.Std.Value.{Value, Fields, end, field, get, put, copy, get-put}
use mitrity_go.Admission.Requests.{object_or_empty}
use mitrity_go.Govern.Admit.{merge_input}

-- The keys of a map are distinct.
abbrev pub IsMap : Fields → Type 0
IsMap end = Unit
IsMap (field k v m) = (get k m ≡ none) × IsMap m

-- The first of two values that is there.
abbrev pub or_else : Option Value → Option Value → Option Value
or_else (some v) o = some v
or_else none o = o

get_of_same : (j k : Bytes) (m : Fields) → same j k ≡ true → get j m ≡ none → get k m ≡ none
get_of_same j k m h e = rw (← eq_of_same j k h) e

get-copy :
    (k : Bytes) (dst src : Fields)
    → IsMap src
    → get k (copy dst src) ≡ or_else (get k src) (get k dst)
unfolding copy get
get-copy k dst end h = refl
get-copy k dst (field j v src) (fresh, h) =
    ground (arith, get-copy k (put j v dst) src h, get-put j k v dst, get_of_same j k src)

put-IsMap : (k : Bytes) (v : Value) (m : Fields) → IsMap m → IsMap (put k v m)
unfolding put get
put-IsMap k v end h = (refl, tt)
put-IsMap k v (field j w m) (fresh, h) = elim (Bool-cases (same j k)) [
  | inl e ↦ rw (e, put) (fresh, h)
  | inr e ↦
      rw (e, put)
        (rw (get-put k j v m) (ground (arith, same_iff j k, same_iff k j)), put-IsMap k v m h)
]

copy-IsMap : (dst src : Fields) → IsMap dst → IsMap (copy dst src)
unfolding copy
copy-IsMap dst end h = h
copy-IsMap dst (field j v src) h = copy-IsMap (put j v dst) src (put-IsMap j v dst h)

or_else-none : (o : Option Value) → or_else o none ≡ o
or_else-none none = refl
or_else-none (some v) = refl

get-copy_end : (k : Bytes) (m : Fields) → IsMap m → get k (copy end m) ≡ get k m
unfolding get
get-copy_end k m h = get-copy k end m h ∙ or_else-none (get k m)

-- When the input and the update are maps with distinct keys, each key of the merged input has the
-- value of the update where the update has the key, and the value of the input elsewhere; and the
-- merged input has distinct keys.
pub get-merge_input :
    (k : Bytes) (input updated : Option Fields)
    → IsMap (object_or_empty input)
    → IsMap (object_or_empty updated)
    → (get k (merge_input input updated)
        ≡ or_else (get k (object_or_empty updated)) (get k (object_or_empty input)))
      × IsMap (merge_input input updated)
unfolding merge_input
get-merge_input k input updated h j = (
  get-copy k (copy end (object_or_empty input)) (object_or_empty updated) j
      ∙ ap (or_else (get k (object_or_empty updated))) (get-copy_end k (object_or_empty input) h),
  copy-IsMap (copy end (object_or_empty input)) (object_or_empty updated)
      (copy-IsMap end (object_or_empty input) tt),
)
