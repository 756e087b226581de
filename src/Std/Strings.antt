-- ===== src/Std/Strings.antt =====
-- strings and strconv, as far as the program uses them.
pub mod Decimal
use mitrity_go.Base.{
  ℕ, zero, suc, ◌+◌, ◌-◌, ◌/◌, ◌%◌, Bool, true, false, ◌&&◌, ◌||◌, List, [], ◌∷◌, ◌++◌, Option,
  none, some, ltb, within, ◌==◌, if◌then◌else◌, Bytes, get_or, codes,
}
use mitrity_go.Base.Int.{ℤ, pos, negsuc}
use mitrity_go.Std.Utf8.{decode_rune}
use mathlib.Core.List.{reverse}

-- unicode.IsSpace.
unfoldable pub is_space : ℕ → Bool
is_space r =
    within 0x09 0x0D r
    || r == 0x20
    || r == 0x85
    || r == 0xA0
    || r == 0x1680
    || within 0x2000 0x200A r
    || r == 0x2028
    || r == 0x2029
    || r == 0x202F
    || r == 0x205F
    || r == 0x3000

-- A text cut into its runes, each with the bytes that stand for it.
unfoldable pub segments_from : ℕ → Bytes → List (ℕ × Bytes)
unfolding decode_rune
segments_from skip [] = []
segments_from (suc skip) (a ∷ s) = segments_from skip s
segments_from zero (a ∷ s) =
    let (r, w) = decode_rune a (get_or s 0 0) (get_or s 1 0) (get_or s 2 0) in
    (r, bytes_of w) ∷ segments_from (w - 1) s
  where
    bytes_of : ℕ → Bytes
    bytes_of w =
        if w == 1
        then a ∷ []
        else if w == 2
        then a ∷ get_or s 0 0 ∷ []
        else if w == 3
        then a ∷ get_or s 0 0 ∷ get_or s 1 0 ∷ []
        else a ∷ get_or s 0 0 ∷ get_or s 1 0 ∷ get_or s 2 0 ∷ []

unfoldable pub join_segments : List (ℕ × Bytes) → Bytes
join_segments [] = []
join_segments ((r, bs) ∷ rest) = bs ++ join_segments rest

unfoldable pub drop_spaces : List (ℕ × Bytes) → List (ℕ × Bytes)
unfolding is_space
drop_spaces [] = []
drop_spaces ((r, bs) ∷ rest) = if is_space r then drop_spaces rest else (r, bs) ∷ rest

-- strings.TrimSpace.
unfoldable pub trim_space : Bytes → Bytes
unfolding segments_from join_segments drop_spaces
trim_space s = join_segments (reverse (drop_spaces (reverse (drop_spaces (segments_from 0 s)))))

-- bytes.TrimRight(s, "\n").
unfoldable pub drop_newlines : Bytes → Bytes
drop_newlines [] = []
drop_newlines (b ∷ s) = if b == 10 then drop_newlines s else b ∷ s

unfoldable pub trim_newlines : Bytes → Bytes
unfolding drop_newlines
trim_newlines s = reverse (drop_newlines (reverse s))

-- strings.HasPrefix, and what stands behind the prefix.
unfoldable pub cut_prefix : Bytes → Bytes → Option Bytes
cut_prefix [] s = some s
cut_prefix (p ∷ ps) [] = none
cut_prefix (p ∷ ps) (b ∷ s) = if p == b then cut_prefix ps s else none

-- The decimal digits of a number, the last first; `fuel` bounds their count.
unfoldable pub digits_rev : ℕ → ℕ → Bytes
digits_rev zero n = []
digits_rev (suc fuel) n =
    let rest = digits_rev fuel (n / 10) in if ltb n 10 then (48 + n) ∷ [] else (48 + n % 10) ∷ rest

-- strconv.FormatUint(n, 10): a number has fewer digits than its successor counts.
unfoldable pub format_ℕ : ℕ → Bytes
unfolding digits_rev
format_ℕ n = reverse (digits_rev (suc n) n)

-- strconv.FormatInt(n, 10).
unfoldable pub format_ℤ : ℤ → Bytes
unfolding format_ℕ
format_ℤ (pos n) = format_ℕ n
format_ℤ (negsuc n) = b'-' ∷ format_ℕ (suc n)

abbrev pub hex_digit : ℕ → ℕ
hex_digit n = if ltb n 10 then 48 + n else 87 + n

-- fmt.Sprintf("%04x", n) for n below 65536.
unfoldable pub hex4 : ℕ → Bytes
hex4 n =
    hex_digit (n / 4096 % 16)
    ∷ hex_digit (n / 256 % 16)
    ∷ hex_digit (n / 16 % 16)
    ∷ hex_digit (n % 16)
    ∷ []

-- hex.EncodeToString.
unfoldable pub hex_encode : Bytes → Bytes
hex_encode [] = []
hex_encode (b ∷ s) = hex_digit (b / 16) ∷ hex_digit (b % 16) ∷ hex_encode s

-- One rune of strconv.Quote, without the tables of unicode.IsPrint: a rune past 0x9F is taken to be
-- printable.
unfoldable pub quote_rune : ℕ → Bytes → Bytes
quote_rune r bs =
    if r == 0x22 || r == 0x5C
    then 0x5C ∷ r ∷ []
    else if within 0x20 0x7E r
    then r ∷ []
    else if r == 0x07
    then codes "\\a"
    else if r == 0x08
    then codes "\\b"
    else if r == 0x0C
    then codes "\\f"
    else if r == 0x0A
    then codes "\\n"
    else if r == 0x0D
    then codes "\\r"
    else if r == 0x09
    then codes "\\t"
    else if r == 0x0B
    then codes "\\v"
    else if ltb r 0x20 || r == 0x7F || (r == 0xFFFD && is_one bs)
    then codes "\\x" ++ hex_encode bs
    else if ltb r 0xA0
    then codes "\\u" ++ hex4 r
    else bs
  where
    is_one : Bytes → Bool
    is_one (b ∷ []) = true
    is_one _ = false

unfoldable pub quote_segments : List (ℕ × Bytes) → Bytes
unfolding quote_rune hex4 hex_encode
quote_segments [] = []
quote_segments ((r, bs) ∷ rest) = quote_rune r bs ++ quote_segments rest

-- fmt.Sprintf("%q", s).
unfoldable pub quote : Bytes → Bytes
unfolding quote_segments segments_from
quote s = (0x22 ∷ quote_segments (segments_from 0 s)) ++ 0x22 ∷ []
