-- ===== src/Std/Json/Encode.antt =====
-- json.Encoder with SetEscapeHTML(false), without the newline that Encode adds.
use mitrity_go.Base.{
  ◌==◌, ℕ, Bool, true, false, List, [], ◌∷◌, ◌++◌, Option, none, some, if◌then◌else◌, Bytes, codes,
  is_empty,
}
use mitrity_go.Std.Strings.{format_ℤ}
use mitrity_go.Std.Sort.{sort, less_bytes}
use mitrity_go.Std.Value.{
  Value, Items, Fields, nil, bool, str, int, float, number, bytes, strings, list, object, other,
  stop, item, end, field,
}
use mitrity_go.Std.Json.Numbers.{scan_number}
use mitrity_go.Std.Json.Format.{format_float, format_string, base64}

abbrev quoted : Bytes → Bytes
quoted s = (0x22 ∷ s) ++ 0x22 ∷ []

-- A json.Number must be a JSON number; the empty one is written 0.
unfoldable pub encode_number : Bytes → Option Bytes
unfolding scan_number
encode_number s = if is_empty s then some (codes "0") else elim (scan_number s) [
  | none ↦ none
  | some (l, rest) ↦ if is_empty rest then some s else none
]

-- `,` between the members.
unfoldable pub commas : List Bytes → Bytes
commas [] = []
commas (s ∷ []) = s
commas (s ∷ t ∷ rest) = s ++ b',' ∷ commas (t ∷ rest)

unfoldable pub string_texts : List Bytes → List Bytes
unfolding format_string
string_texts [] = []
string_texts (s ∷ rest) = format_string s ∷ string_texts rest

abbrev bracket : ℕ → ℕ → List Bytes → Bytes
bracket open_ close l = (open_ ∷ commas l) ++ close ∷ []

abbrev less_member : Bytes × Bytes → Bytes × Bytes → Bool
less_member a b = less_bytes a.0 b.0

unfoldable pub member_texts : List (Bytes × Bytes) → List Bytes
unfolding format_string
member_texts [] = []
member_texts ((k, v) ∷ rest) = (format_string k ++ b':' ∷ v) ∷ member_texts rest

abbrev pub both {ℓ} : {A B C : Type ℓ} → (A → B → C) → Option A → Option B → Option C
both f (some a) (some b) = some (f a b)
both f _ _ = none

abbrev cons_text : Bytes → List Bytes → List Bytes
cons_text s l = s ∷ l

abbrev cons_member : Bytes → Bytes → List (Bytes × Bytes) → List (Bytes × Bytes)
cons_member k v l = (k, v) ∷ l

abbrev as_array : Option (List Bytes) → Option Bytes
as_array none = none
as_array (some l) = some (bracket b'[' b']' l)

-- The members of a map are written in the order of their names.
abbrev as_map : Option (List (Bytes × Bytes)) → Option Bytes
as_map none = none
as_map (some l) = some (bracket b'{' b'}' (member_texts (sort less_member l)))

unfoldable mutual
  unfolding format_float format_string base64 format_ℤ encode_number string_texts member_texts
      commas sort less_bytes

  pub encode_value : Value → Option Bytes
  encode_value nil = some (codes "null")
  encode_value (bool true) = some (codes "true")
  encode_value (bool false) = some (codes "false")
  encode_value (str s) = some (format_string s)
  encode_value (int n) = some (format_ℤ n)
  encode_value (float x) = format_float x
  encode_value (number s) = encode_number s
  encode_value (bytes s) = some (quoted (base64 s))
  encode_value (strings l) = some (bracket b'[' b']' (string_texts l))
  encode_value (list xs) = as_array (encode_items xs)
  encode_value (object m) = as_map (encode_fields m)
  encode_value (other text) = text

  encode_items : Items → Option (List Bytes)
  encode_items stop = some []
  encode_items (item v xs) = both cons_text (encode_value v) (encode_items xs)

  encode_fields : Fields → Option (List (Bytes × Bytes))
  encode_fields end = some []
  encode_fields (field k v m) = both (cons_member k) (encode_value v) (encode_fields m)

-- The escapes of HTML that json.Marshal adds: these bytes stand in string literals alone.
unfoldable pub escape_html : Bytes → Bytes
escape_html [] = []
escape_html (c ∷ s) =
    (if c == b'<'
      then codes "\\u003c"
      else if c == b'>'
      then codes "\\u003e"
      else if c == b'&'
      then codes "\\u0026"
      else c ∷ [])
    ++ escape_html s

-- json.Marshal; none for an error.
unfoldable pub marshal : Value → Option Bytes
unfolding encode_value escape_html
marshal v = elim (encode_value v) [ none ↦ none | some s ↦ some (escape_html s) ]
