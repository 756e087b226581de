-- ===== src/Std/Json/Parse.antt =====
-- The parser, and the entry points of the package. `fuel` is twice the length of the text and two:
-- every second call reads a byte at least.
use mitrity_go.Base.{
  ℕ, zero, suc, ◌*◌, Bool, true, false, [], ◌∷◌, Option, none, some, ltb, ◌==◌, if◌then◌else◌,
  Bytes, length, codes, is_some, is_empty,
}
use mitrity_go.Std.Strings.{cut_prefix}
use mitrity_go.Std.Value.{Value, Items, Fields, nil, bool, str, list, object, stop, item, end, put}
use mitrity_go.Std.Json.Numbers.{Literal, scan_number, float_value, number_value}
use mitrity_go.Std.Json.Scan.{skip_white, scan_string}

abbrev pub max_depth : ℕ
max_depth = 10000

abbrev keyword : Bytes → Value → Bytes → Option (Value × Bytes)
keyword word v s = elim (cut_prefix word s) [ none ↦ none | some rest ↦ some (v, rest) ]

abbrev numeric : (Literal → Option Value) → Option (Literal × Bytes) → Option (Value × Bytes)
numeric num none = none
numeric num (some (l, rest)) = elim (num l) [ none ↦ none | some v ↦ some (v, rest) ]

abbrev text : Option (Bytes × Bytes) → Option (Value × Bytes)
text none = none
text (some (s, rest)) = some (str s, rest)

abbrev as_list : Option (Items × Bytes) → Option (Value × Bytes)
as_list none = none
as_list (some (xs, rest)) = some (list xs, rest)

abbrev as_object : Option (Fields × Bytes) → Option (Value × Bytes)
as_object none = none
as_object (some (m, rest)) = some (object m, rest)

-- A separator: the comma or the closing byte that follows a member.
abbrev separator : ℕ → Bytes → Option (Bool × Bytes)
separator close [] = none
separator close (c ∷ s) =
    if c == b',' then some (true, s) else if c == close then some (false, s) else none

abbrev expect : ℕ → Bytes → Option Bytes
expect c [] = none
expect c (b ∷ s) = if b == c then some s else none

abbrev key : ℕ → Bytes → Option (Bytes × Bytes)
key fuel [] = none
key fuel (c ∷ s) = if c == 0x22 then scan_string fuel s else none

abbrev cons_item : Value → Option (Items × Bytes) → Option (Items × Bytes)
cons_item v none = none
cons_item v (some (xs, rest)) = some (item v xs, rest)

-- Members are read into `m`, in order: the last of two with one name stays.
unfoldable mutual
  unfolding skip_white scan_string cut_prefix scan_number put

  pub parse_value :
      (fuel : ℕ) (num : Literal → Option Value) (depth : ℕ) → Bytes → Option (Value × Bytes)
  parse_value zero num depth s = none
  parse_value (suc fuel) num depth s = elim (skip_white s) [
    | [] ↦ none
    | c ∷ r ↦
        let xs = as_list (parse_items fuel num (suc depth) true r) in
        let m = as_object (parse_fields fuel num (suc depth) true end r) in
        if c == b'{'
        then (if ltb depth max_depth then m else none)
        else if c == b'['
        then (if ltb depth max_depth then xs else none)
        else if c == 0x22
        then text (scan_string (suc (length r)) r)
        else if c == b't'
        then keyword (codes "true") (bool true) (c ∷ r)
        else if c == b'f'
        then keyword (codes "false") (bool false) (c ∷ r)
        else if c == b'n'
        then keyword (codes "null") nil (c ∷ r)
        else numeric num (scan_number (c ∷ r))
  ]

  -- `first`: an empty list may end here.
  pub parse_items :
      (fuel : ℕ) (num : Literal → Option Value) (depth : ℕ) (first : Bool)
      → Bytes
      → Option (Items × Bytes)
  parse_items zero num depth first s = none
  parse_items (suc fuel) num depth first s =
      let members = elim (parse_value fuel num depth s) as (λ _. Option (Items × Bytes)) [
        | none ↦ none
        | some (v, r) ↦ elim (separator b']' (skip_white r)) [
          | none ↦ none
          | some (more, t) ↦
              let rest = parse_items fuel num depth false t in
              cons_item v (if more then rest else some (stop, t))
        ]
      ] in
      if first
      then elim (expect b']' (skip_white s)) [ none ↦ members | some t ↦ some (stop, t) ]
      else members

  pub parse_fields :
      (fuel : ℕ) (num : Literal → Option Value) (depth : ℕ) (first : Bool) (m : Fields)
      → Bytes
      → Option (Fields × Bytes)
  parse_fields zero num depth first m s = none
  parse_fields (suc fuel) num depth first m s =
      let t = skip_white s in
      let members = elim (key (suc (length t)) t) as (λ _. Option (Fields × Bytes)) [
        | none ↦ none
        | some (k, r) ↦ elim (expect b':' (skip_white r)) [
          | none ↦ none
          | some u ↦ elim (parse_value fuel num depth u) [
            | none ↦ none
            | some (v, w) ↦ elim (separator b'}' (skip_white w)) [
              | none ↦ none
              | some (more, x) ↦
                  let rest = parse_fields fuel num depth false (put k v m) x in
                  if more then rest else some (put k v m, x)
            ]
          ]
        ]
      ] in
      if first then elim (expect b'}' t) [ none ↦ members | some u ↦ some (m, u) ] else members

-- One value with nothing but white space round it.
abbrev whole_text : (Literal → Option Value) → Bytes → Option Value
whole_text num s = elim (parse_value (suc (suc (2 * length s))) num 0 s) [
  | none ↦ none
  | some (v, rest) ↦ if is_empty (skip_white rest) then some v else none
]

-- json.Unmarshal into an `any`; none for an error.
unfoldable pub unmarshal : Bytes → Option Value
unfolding parse_value float_value skip_white
unmarshal s = whole_text float_value s

-- json.Unmarshal into a map[string]any: null leaves the nil map, which reads as an empty one.
unfoldable pub unmarshal_object : Bytes → Option Fields
unfolding unmarshal
unmarshal_object s = elim (unmarshal s) [
  | none ↦ none
  | some v ↦ elim v [ object m ↦ some m | nil ↦ some end | _ ↦ none ]
]

-- Decode with UseNumber, of a text that holds one value.
unfoldable pub decode_numbers : Bytes → Option Value
unfolding parse_value number_value skip_white
decode_numbers s = whole_text number_value s

-- json.Valid.
unfoldable pub valid : Bytes → Bool
unfolding decode_numbers
valid s = is_some (decode_numbers s)
