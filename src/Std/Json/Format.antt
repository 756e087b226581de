-- ===== src/Std/Json/Format.antt =====
-- How encoding/json writes floats, strings and bytes.
use mitrity_go.Base.{
  ℕ, zero, suc, ◌+◌, ◌-◌, ◌*◌, ◌/◌, ◌%◌, ◌^◌, Bool, false, ◌&&◌, ◌||◌, List, [], ◌∷◌, ◌++◌, Option,
  none, some, ltb, leb, ◌==◌, if◌then◌else◌, Bytes, codes, length, replicate, take, drop,
}
use mitrity_go.Std.Strings.{format_ℕ, hex4, segments_from}
use mitrity_go.Std.Float.{Float, finite, nan, inf, nearest, round_even}

-- The position of the decimal point: 10^(up - down - 1) ≤ p / q < 10^(up - down).
unfoldable pub count_up : ℕ → ℕ → ℕ → ℕ
count_up zero p q = 0
count_up (suc fuel) p q = let more = count_up fuel p (q * 10) in if ltb p q then 0 else suc more

unfoldable pub count_down : ℕ → ℕ → ℕ → ℕ
count_down zero p q = 0
count_down (suc fuel) p q =
    let more = count_down fuel (p * 10) q in if ltb (p * 10) q then suc more else 0

abbrev same_value : Float → ℕ → ℕ → Bool
same_value (finite s m e) m' e' = m == m' && e == e'
same_value _ _ _ = false

-- The fewest digits, 17 at most, whose nearest binary64 value is m · 2^(e - 1074): the digits as a
-- number, and their count.
unfoldable pub shortest : ℕ → ℕ → ℕ → ℕ → ℕ → ℕ → ℕ × ℕ
unfolding nearest round_even
shortest zero n m e up down = (0, n)
shortest (suc tries) n m e up down =
    let more = shortest tries (suc n) m e up down in
    let d : ℕ = round_even (m * 2 ^ e * 10 ^ (n + down)) (2 ^ 1074 * 10 ^ up) in
    if same_value (nearest 2200 false (d * 10 ^ up) (10 ^ (n + down))) m e then (d, n) else more

-- The digits with a decimal point in them, at `up - down` digits.
abbrev point : Bytes → Bytes
point [] = []
point (d ∷ ds) = b'.' ∷ d ∷ ds

abbrev plain : Bytes → ℕ → ℕ → Bytes
plain ds zero down = codes "0." ++ (replicate down b'0' ++ ds)
plain ds (suc u) down =
    take (suc u) (ds ++ replicate (suc u - length ds) b'0') ++ point (drop (suc u) ds)

abbrev scientific : Bytes → ℕ → ℕ → Bytes
scientific ds up down =
    (take 1 ds ++ point (drop 1 ds))
    ++ (if ltb 0 up then codes "e+" ++ format_ℕ (up - 1) else codes "e-" ++ format_ℕ (down + 1))

-- Positive values: plain between 1e-6 and 1e21, else with an exponent.
unfoldable pub format_positive : ℕ → ℕ → Bytes
unfolding shortest count_up count_down format_ℕ
format_positive m e =
    let up : ℕ = count_up 310 (m * 2 ^ e) (2 ^ 1074) in
    let down : ℕ = if up == 0 then count_down 330 (m * 2 ^ e) (2 ^ 1074) else 0 in
    let (d, n) = shortest 17 1 m e up down in
    let ds = format_ℕ d in
    -- a round up to the next power of ten moves the point
    let up' : ℕ = if ltb n (length ds) then (if down == 0 then up + 1 else 0) else up in
    let down' : ℕ = if ltb n (length ds) then down - 1 else down in
    if leb 22 up' || leb 6 down' then scientific ds up' down' else plain ds up' down'

unfoldable pub format_float : Float → Option Bytes
unfolding format_positive
format_float nan = none
format_float (inf s) = none
format_float (finite s zero e) = some (if s then codes "-0" else codes "0")
format_float (finite s m e) = some (if s then b'-' ∷ format_positive m e else format_positive m e)

-- One rune of a string literal; an invalid byte is written \ufffd.
unfoldable pub escape_rune : ℕ → Bytes → Bytes
unfolding hex4
escape_rune r bs =
    if r == 0x22 || r == 0x5C
    then 0x5C ∷ r ∷ []
    else if r == 8
    then codes "\\b"
    else if r == 12
    then codes "\\f"
    else if r == 10
    then codes "\\n"
    else if r == 13
    then codes "\\r"
    else if r == 9
    then codes "\\t"
    else if ltb r 0x20 || r == 0x2028 || r == 0x2029 || (r == 0xFFFD && length bs == 1)
    then codes "\\u" ++ hex4 r
    else bs

unfoldable pub escape_segments : List (ℕ × Bytes) → Bytes
unfolding escape_rune
escape_segments [] = []
escape_segments ((r, bs) ∷ rest) = escape_rune r bs ++ escape_segments rest

unfoldable pub format_string : Bytes → Bytes
unfolding escape_segments segments_from
format_string s = (0x22 ∷ escape_segments (segments_from 0 s)) ++ 0x22 ∷ []

abbrev base64_digit : ℕ → ℕ
base64_digit n =
    if ltb n 26
    then 65 + n
    else if ltb n 52
    then 71 + n
    else if ltb n 62
    then n - 4
    else if n == 62
    then b'+'
    else b'/'

unfoldable pub base64 : Bytes → Bytes
base64 [] = []
base64 (a ∷ []) = base64_digit (a / 4) ∷ base64_digit (a % 4 * 16) ∷ b'=' ∷ b'=' ∷ []
base64 (a ∷ b ∷ []) =
    base64_digit (a / 4)
    ∷ base64_digit (a % 4 * 16 + b / 16)
    ∷ base64_digit (b % 16 * 4)
    ∷ b'='
    ∷ []
base64 (a ∷ b ∷ c ∷ s) =
    base64_digit (a / 4)
    ∷ base64_digit (a % 4 * 16 + b / 16)
    ∷ base64_digit (b % 16 * 4 + c / 64)
    ∷ base64_digit (c % 64)
    ∷ base64 s
