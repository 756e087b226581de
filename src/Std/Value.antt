-- ===== src/Std/Value.antt =====
-- Go's `any`, as far as the program handles it: JSON-shaped values of every dynamic type that its
-- type switches name. `other` is a value of another type, by the text that json.Marshal gives for
-- it (none if it refuses).
use mitrity_go.Base.{
  ◌≡◌, refl, Bool, List, [], Option, none, some, if◌then◌else◌, Bytes, same, same_iff, arith,
}
use mitrity_go.Base.Int.{ℤ}
use mitrity_go.Std.Float.{Float}

mutual
  pub data Value : Type 0 where
    nil : Value
    bool : Bool → Value
    str : Bytes → Value
    int : ℤ → Value
    float : Float → Value
    number : Bytes → Value
    bytes : Bytes → Value
    strings : List Bytes → Value
    list : Items → Value
    object : Fields → Value
    other : Option Bytes → Value

  pub data Items : Type 0 where
    stop : Items
    item : Value → Items → Items

  -- A map[string]any. Its keys are distinct where `put` alone builds it.
  pub data Fields : Type 0 where
    end : Fields
    field : Bytes → Value → Fields → Fields

-- m[k].
unfoldable pub get : Bytes → Fields → Option Value
get k end = none
get k (field j v m) = if same j k then some v else get k m

-- m[k] = v.
unfoldable pub put : Bytes → Value → Fields → Fields
put k v end = field k v end
put k v (field j w m) = let rest = put k v m in if same j k then field j v m else field j w rest

pub get-put :
    (k j : Bytes) (v : Value) (m : Fields)
    → get j (put k v m) ≡ (if same k j then some v else get j m)
unfolding get put
get-put k j v end = refl
get-put k j v (field i w m) =
    ground (arith, same_iff k j, same_iff i k, same_iff i j, get-put k j v m)

-- maps.Copy(dst, src).
unfoldable pub copy : Fields → Fields → Fields
unfolding put
copy dst end = dst
copy dst (field k v src) = copy (put k v dst) src

-- `s, _ := v.(string)`: the empty string for another type, and for no value.
unfoldable pub string_or_empty : Option Value → Bytes
string_or_empty (some (str s)) = s
string_or_empty _ = []
