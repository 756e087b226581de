-- ===== src/Std/Json/Scan.antt =====
-- White space and string literals.
use mitrity_go.Base.{
  ℕ, zero, suc, ◌+◌, ◌-◌, ◌*◌, ◌&&◌, ◌||◌, [], ◌∷◌, ◌++◌, Option, none, some, ltb, within, ◌==◌,
  if◌then◌else◌, Bytes, get_or, drop,
}
use mitrity_go.Std.Utf8.{decode_rune, encode_rune, rune_error}

unfoldable pub skip_white : Bytes → Bytes
skip_white [] = []
skip_white (c ∷ s) =
    if c == 0x20 || c == 0x0A || c == 0x0D || c == 0x09 then skip_white s else c ∷ s

unfoldable pub hex_value : ℕ → Option ℕ
hex_value c =
    if within 48 57 c
    then some (c - 48)
    else if within b'a' b'f' c
    then some (c - 87)
    else if within b'A' b'F' c
    then some (c - 55)
    else none

abbrev pub join_hex : Option ℕ → Option ℕ → Option ℕ → Option ℕ → Option ℕ
join_hex (some a) (some b) (some c) (some d) = some (a * 4096 + b * 256 + c * 16 + d)
join_hex _ _ _ _ = none

-- Four hexadecimal digits, and the rest.
unfoldable pub scan_hex4 : Bytes → Option (ℕ × Bytes)
unfolding hex_value
scan_hex4 (a ∷ b ∷ c ∷ d ∷ s) =
    elim (join_hex (hex_value a) (hex_value b) (hex_value c) (hex_value d)) [
      | none ↦ none
      | some n ↦ some (n, s)
    ]
scan_hex4 _ = none

-- The second half of a surrogate pair, if it stands there.
unfoldable pub scan_low : Bytes → Option (ℕ × Bytes)
unfolding scan_hex4
scan_low (a ∷ b ∷ s) = if a == 0x5C && b == b'u' then low (scan_hex4 s) else none
  where
    low : Option (ℕ × Bytes) → Option (ℕ × Bytes)
    low none = none
    low (some (n, t)) = if within 0xDC00 0xDFFF n then some (n, t) else none
scan_low _ = none

unfoldable pub pair_up : ℕ → Bytes → Option (ℕ × Bytes) → Bytes × Bytes
unfolding encode_rune
pair_up hi s none = (encode_rune rune_error, s)
pair_up hi s (some (lo, t)) = (encode_rune ((hi - 0xD800) * 1024 + (lo - 0xDC00) + 0x10000), t)

unfoldable pub unicode_escape : ℕ → Bytes → Bytes × Bytes
unfolding pair_up scan_low encode_rune
unicode_escape n s =
    if within 0xD800 0xDBFF n
    then pair_up n s (scan_low s)
    else if within 0xDC00 0xDFFF n
    then (encode_rune rune_error, s)
    else (encode_rune n, s)

-- What follows a backslash: the bytes that it stands for, and the rest.
unfoldable pub scan_escape : Bytes → Option (Bytes × Bytes)
unfolding unicode_escape scan_hex4
scan_escape [] = none
scan_escape (c ∷ s) =
    if c == 0x22 || c == 0x5C || c == b'/'
    then some (c ∷ [], s)
    else if c == b'b'
    then some (8 ∷ [], s)
    else if c == b'f'
    then some (12 ∷ [], s)
    else if c == b'n'
    then some (10 ∷ [], s)
    else if c == b'r'
    then some (13 ∷ [], s)
    else if c == b't'
    then some (9 ∷ [], s)
    else if c == b'u'
    then elim (scan_hex4 s) [ none ↦ none | some (n, t) ↦ some (unicode_escape n t) ]
    else none

abbrev pub prepend : Bytes → Option (Bytes × Bytes) → Option (Bytes × Bytes)
prepend out none = none
prepend out (some (more, rest)) = some (out ++ more, rest)

-- The content of a string literal behind its opening quote, decoded, and what follows the closing
-- one. Each round reads a byte at least.
unfoldable pub scan_string : ℕ → Bytes → Option (Bytes × Bytes)
unfolding scan_escape decode_rune encode_rune
scan_string zero s = none
scan_string (suc fuel) [] = none
scan_string (suc fuel) (c ∷ s) =
    let (r, w) = decode_rune c (get_or s 0 0) (get_or s 1 0) (get_or s 2 0) in
    let more = prepend (encode_rune r) (scan_string fuel (drop (w - 1) s)) in
    let escaped = elim (scan_escape s) as (λ _. Option (Bytes × Bytes)) [
      | none ↦ none
      | some (out, rest) ↦ prepend out (scan_string fuel rest)
    ] in
    if c == 0x22
    then some ([], s)
    else if c == 0x5C
    then escaped
    else if ltb c 0x20
    then none
    else more
