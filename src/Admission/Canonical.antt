-- ===== src/Admission/Canonical.antt =====
-- admission/canonical.go: the RFC 8785 serialization that a config hash is taken of.
pub mod Total
pub mod Order
use mitrity_go.Base.{
  ℕ, ◌^◌, Bool, true, false, not, ◌&&◌, ◌||◌, List, [], ◌∷◌, ◌++◌, Option, none, some, ltb, within,
  ◌==◌, if◌then◌else◌, Bytes, codes, same, is_empty, Result, ok, err, ◌>>=◌,
}
use mitrity_go.Std.Utf8.{runes, encode_rune, utf16_units}
use mitrity_go.Std.Strings.{format_ℕ, format_ℤ, hex4, hex_encode}
use mitrity_go.Std.Float.{Float, nan, inf, finite, is_integral, whole}
use mitrity_go.Std.Sort.{sort}
use mitrity_go.Std.Sha256.{sha256}
use mitrity_go.Std.Value.{
  Value, Items, Fields, nil, bool, str, int, float, number, bytes, strings, list, object, other,
  stop, item, end, field,
}
use mitrity_go.Std.Json.{Literal, scan_number, literal_value, decode_numbers}

-- The refusals, with what their messages name.
pub data CanonicalError : Type 0 where
  is_bytes not_finite unsupported not_marshaled not_decoded : CanonicalError
  not_integral : Float → CanonicalError
  bad_number : Bytes → CanonicalError

-- lessUTF16
unfoldable pub less_utf16 : List ℕ → List ℕ → Bool
less_utf16 [] [] = false
less_utf16 [] (b ∷ bs) = true
less_utf16 (a ∷ s) [] = false
less_utf16 (a ∷ s) (b ∷ t) = if a == b then less_utf16 s t else ltb a b

-- One rune of writeEscaped, with shortEscapes.
unfoldable pub escape_rune : ℕ → Bytes
escape_rune r =
    if r == 8
    then codes "\\b"
    else if r == 9
    then codes "\\t"
    else if r == 10
    then codes "\\n"
    else if r == 12
    then codes "\\f"
    else if r == 13
    then codes "\\r"
    else if r == 0x22
    then codes "\\\""
    else if r == 0x5C
    then codes "\\\\"
    else if ltb r 0x20
    then codes "\\u" ++ hex4 r
    else encode_rune r

unfoldable pub escape_runes : List ℕ → Bytes
unfolding escape_rune encode_rune hex4
escape_runes [] = []
escape_runes (r ∷ rs) = escape_rune r ++ escape_runes rs

-- writeEscaped
unfoldable pub write_escaped : Bytes → Bytes
unfolding escape_runes runes
write_escaped s = (0x22 ∷ escape_runes (runes s)) ++ 0x22 ∷ []

abbrev signed : Bool → ℕ → Bytes
signed s n = if s && not (n == 0) then b'-' ∷ format_ℕ n else format_ℕ n

-- writeFloat
unfoldable pub write_float : Float → Result CanonicalError Bytes
unfolding is_integral whole format_ℕ
write_float nan = err not_finite
write_float (inf s) = err not_finite
write_float (finite s m e) =
    if not (is_integral m e) || ltb (2 ^ 53) (whole m e)
    then err (not_integral (finite s m e))
    else ok (signed s (whole m e))

unfoldable pub all_digits : Bytes → Bool
all_digits [] = true
all_digits (c ∷ s) = within 48 57 c && all_digits s

abbrev integer_body : Bytes → Bool
integer_body [] = false
integer_body (c ∷ s) = if c == 48 then is_empty s else within 49 57 c && all_digits s

-- integerLiteral.MatchString
unfoldable pub is_integer_literal : Bytes → Bool
unfolding all_digits
is_integer_literal [] = false
is_integer_literal (c ∷ s) = if c == b'-' then integer_body s else integer_body (c ∷ s)

abbrev whole_literal : Option (Literal × Bytes) → Option Float
whole_literal none = none
whole_literal (some (l, rest)) = if is_empty rest then literal_value l else none

-- n.Float64(), of a number in JSON's syntax.
unfoldable pub number_float : Bytes → Option Float
unfolding scan_number literal_value
number_float text = whole_literal (scan_number text)

abbrev float_or_refuse : Bytes → Option Float → Result CanonicalError Bytes
float_or_refuse text none = err (bad_number text)
float_or_refuse text (some x) = write_float x

-- writeNumber
unfoldable pub write_number : Bytes → Result CanonicalError Bytes
unfolding is_integer_literal number_float write_float
write_number text =
    if is_integer_literal text
    then ok (if same text (codes "-0") then codes "0" else text)
    else float_or_refuse text (number_float text)

-- The items of a list or the members of an object, with commas between them. The first refusal in
-- their order is the result.
unfoldable pub join_texts : List (Result CanonicalError Bytes) → Result CanonicalError Bytes
join_texts [] = ok []
join_texts (t ∷ []) = t
join_texts (t ∷ u ∷ rest) = do s ← t; more ← join_texts (u ∷ rest); ok (s ++ b',' ∷ more)

abbrev enclose : ℕ → ℕ → Result CanonicalError Bytes → Result CanonicalError Bytes
enclose open_ close text = do s ← text; ok ((open_ ∷ s) ++ close ∷ [])

-- A member of an object before it is placed: its name and the serialization of its value.
pub record Member : Type 0 where
  pub key : Bytes
  pub text : Result CanonicalError Bytes

-- The order of sort.Slice: the UTF-16 code units of the names.
abbrev pub less_member : Member → Member → Bool
less_member a b = less_utf16 (utf16_units (runes a.key)) (utf16_units (runes b.key))

unfoldable pub member_texts : List Member → List (Result CanonicalError Bytes)
unfolding write_escaped
member_texts [] = []
member_texts (m ∷ rest) = (do s ← m.text; ok (write_escaped m.key ++ b':' ∷ s)) ∷ member_texts rest

-- writeObject behind the serialization of the values.
unfoldable pub write_members : List Member → Result CanonicalError Bytes
unfolding join_texts member_texts sort less_utf16 utf16_units runes
write_members l = enclose b'{' b'}' (join_texts (member_texts (sort less_member l)))

unfoldable pub string_texts : List Bytes → List (Result CanonicalError Bytes)
unfolding write_escaped
string_texts [] = []
string_texts (s ∷ rest) = ok (write_escaped s) ∷ string_texts rest

-- canonical; `fallback` is its default case, for a value of another type.
module _ (fallback : Option Bytes → Result CanonicalError Bytes) where
  unfoldable mutual
    unfolding write_escaped format_ℤ write_float write_number join_texts string_texts write_members

    pub canonical : Value → Result CanonicalError Bytes
    canonical nil = ok (codes "null")
    canonical (bool true) = ok (codes "true")
    canonical (bool false) = ok (codes "false")
    canonical (str s) = ok (write_escaped s)
    canonical (int n) = ok (format_ℤ n)
    canonical (float x) = write_float x
    canonical (number text) = write_number text
    canonical (bytes s) = err is_bytes
    canonical (strings l) = enclose b'[' b']' (join_texts (string_texts l))
    canonical (list xs) = enclose b'[' b']' (join_texts (canonical_items xs))
    canonical (object m) = write_members (canonical_fields m)
    canonical (other text) = fallback text

    canonical_items : Items → List (Result CanonicalError Bytes)
    canonical_items stop = []
    canonical_items (item v xs) = canonical v ∷ canonical_items xs

    canonical_fields : Fields → List Member
    canonical_fields end = []
    canonical_fields (field k v m) = record { key = k; text = canonical v } ∷ canonical_fields m

-- The default case without normalization: it is reached by no value that a decoder makes.
abbrev refuse : Option Bytes → Result CanonicalError Bytes
refuse text = err unsupported

abbrev of_decoded : Option Value → Result CanonicalError Bytes
of_decoded none = err not_decoded
of_decoded (some v) = canonical refuse v

-- The default case: roundTrip through encoding/json, and the serialization of what comes back.
unfoldable pub normalize : Option Bytes → Result CanonicalError Bytes
unfolding decode_numbers canonical
normalize none = err not_marshaled
normalize (some text) = of_decoded (decode_numbers text)

-- CanonicalJSON
unfoldable pub canonical_json : Value → Result CanonicalError Bytes
unfolding canonical normalize
canonical_json v = canonical normalize v

-- ConfigHash
unfoldable pub config_hash : Value → Result CanonicalError Bytes
unfolding canonical_json sha256 hex_encode
config_hash v = do data' ← canonical_json v; ok (hex_encode (sha256 data'))
