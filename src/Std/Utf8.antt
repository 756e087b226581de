-- ===== src/Std/Utf8.antt =====
-- unicode/utf8 and `for _, r := range s`: a byte that begins no valid encoding is U+FFFD, width 1.
use mitrity_go.Base.{
  ℕ, zero, suc, ◌+◌, ◌-◌, ◌*◌, ◌/◌, ◌%◌, Bool, ◌&&◌, ◌||◌, List, [], ◌∷◌, ◌++◌, ltb, leb, within,
  ◌==◌, if◌then◌else◌, Bytes, get_or,
}

abbrev pub rune_error : ℕ
rune_error = 0xFFFD

abbrev is_tail : ℕ → Bool
is_tail b = within 0x80 0xBF b

-- The least and the greatest second byte after a first byte.
abbrev low_second : ℕ → ℕ
low_second b = if b == 0xE0 then 0xA0 else if b == 0xF0 then 0x90 else 0x80

abbrev high_second : ℕ → ℕ
high_second b = if b == 0xED then 0x9F else if b == 0xF4 then 0x8F else 0xBF

-- utf8.DecodeRune on a first byte and the three bytes after it (0 where the text has ended): the
-- rune and its width.
unfoldable pub decode_rune : ℕ → ℕ → ℕ → ℕ → ℕ × ℕ
decode_rune a b c d =
    if ltb a 0x80
    then (a, 1)
    else if within 0xC2 0xDF a && is_tail b
    then ((a - 0xC0) * 64 + (b - 0x80), 2)
    else if within 0xE0 0xEF a && within (low_second a) (high_second a) b && is_tail c
    then ((a - 0xE0) * 4096 + (b - 0x80) * 64 + (c - 0x80), 3)
    else if within 0xF0 0xF4 a && within (low_second a) (high_second a) b && is_tail c && is_tail d
    then ((a - 0xF0) * 262144 + (b - 0x80) * 4096 + (c - 0x80) * 64 + (d - 0x80), 4)
    else (rune_error, 1)

-- The runes of a text; `skip` counts the bytes that still belong to the last rune.
unfoldable pub runes_from : ℕ → Bytes → List ℕ
runes_from skip [] = []
runes_from (suc skip) (a ∷ s) = runes_from skip s
runes_from zero (a ∷ s) =
    let (r, w) = decode_rune a (get_or s 0 0) (get_or s 1 0) (get_or s 2 0) in
    r ∷ runes_from (w - 1) s

unfoldable pub runes : Bytes → List ℕ
unfolding runes_from decode_rune
runes s = runes_from 0 s

-- utf8.AppendRune: surrogates and numbers past the last code point are written as U+FFFD.
unfoldable pub encode_rune : ℕ → Bytes
encode_rune r =
    if ltb r 0x80
    then r ∷ []
    else if ltb r 0x800
    then (0xC0 + r / 64) ∷ (0x80 + r % 64) ∷ []
    else if within 0xD800 0xDFFF r || ltb 0x10FFFF r
    then 0xEF ∷ 0xBF ∷ 0xBD ∷ []
    else if ltb r 0x10000
    then (0xE0 + r / 4096) ∷ (0x80 + r / 64 % 64) ∷ (0x80 + r % 64) ∷ []
    else (0xF0 + r / 262144) ∷ (0x80 + r / 4096 % 64) ∷ (0x80 + r / 64 % 64) ∷ (0x80 + r % 64) ∷ []

unfoldable pub encode_runes : List ℕ → Bytes
unfolding encode_rune
encode_runes [] = []
encode_runes (r ∷ rs) = encode_rune r ++ encode_runes rs

-- utf16.Encode of runes.
unfoldable pub utf16_units : List ℕ → List ℕ
utf16_units [] = []
utf16_units (r ∷ rs) =
    let rest = utf16_units rs in
    if ltb r 0x10000
    then (if within 0xD800 0xDFFF r then rune_error else r) ∷ rest
    else if leb r 0x10FFFF
    then (0xD800 + (r - 0x10000) / 1024) ∷ (0xDC00 + (r - 0x10000) % 1024) ∷ rest
    else rune_error ∷ rest
