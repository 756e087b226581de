-- ===== src/Std/Duration.antt =====
-- time.Duration, in nanoseconds, and time.ParseDuration.
use mitrity_go.Base.{
  ℕ, zero, suc, ◌+◌, ◌-◌, ◌*◌, ◌/◌, ◌%◌, ◌^◌, Bool, true, false, not, ◌||◌, [], ◌∷◌, Option, none,
  some, ltb, within, ◌==◌, if◌then◌else◌, Bytes, length, codes, same, is_empty,
}
use mitrity_go.Base.Int.{ℤ, pos, negsuc}
use mitrity_go.Std.Float.{Float, finite, nearest, of_ℕ, times, whole}

abbrev pub Duration : Type 0
Duration = ℤ

abbrev pub second : ℕ
second = 1000000000

-- An int64 result of an operation that may pass 2^63.
abbrev pub wrap_int64 : ℕ → ℤ
wrap_int64 n = let m : ℕ = n % 2 ^ 64 in if ltb m (2 ^ 63) then pos m else negsuc (2 ^ 64 - 1 - m)

abbrev pub is_digit : ℕ → Bool
is_digit c = within 48 57 c

-- leadingInt: none where the number passes 2^63.
unfoldable pub leading_int : ℕ → Bytes → Option (ℕ × Bytes)
leading_int x [] = some (x, [])
leading_int x (c ∷ s) =
    let more = leading_int (x * 10 + (c - 48)) s in
    if not (is_digit c)
    then some (x, c ∷ s)
    else if ltb (2 ^ 63 / 10) x
    then none
    else if ltb (2 ^ 63) (x * 10 + (c - 48))
    then none
    else more

-- leadingFraction: the digits that count as a number, their count, and the rest.
unfoldable pub leading_fraction : ℕ → ℕ → Bool → Bytes → ℕ × ℕ × Bytes
leading_fraction x k over [] = (x, k, [])
leading_fraction x k over (c ∷ s) =
    let skip = leading_fraction x k true s in
    let more = leading_fraction (x * 10 + (c - 48)) (suc k) false s in
    if not (is_digit c)
    then (x, k, c ∷ s)
    else if over || ltb ((2 ^ 63 - 1) / 10) x || ltb (2 ^ 63) (x * 10 + (c - 48))
    then skip
    else more

-- The text up to the next digit or point, and the rest.
unfoldable pub span_unit : Bytes → Bytes × Bytes
span_unit [] = ([], [])
span_unit (c ∷ s) =
    let more = span_unit s in if c == b'.' || is_digit c then ([], c ∷ s) else (c ∷ more.0, more.1)

unfoldable pub unit_of : Bytes → Option ℕ
unit_of u =
    if same u (codes "ns")
    then some 1
    else if same u (codes "us")
        || same u (0xC2 ∷ 0xB5 ∷ b's' ∷ [])
        || same u (0xCE ∷ 0xBC ∷ b's' ∷ [])
    then some 1000
    else if same u (codes "ms")
    then some 1000000
    else if same u (codes "s")
    then some second
    else if same u (codes "m")
    then some (60 * second)
    else if same u (codes "h")
    then some (3600 * second)
    else none

abbrev float_whole : Float → ℕ
float_whole (finite s m e) = whole m e
float_whole _ = 0

-- uint64(float64(f) * (float64(unit) / 10^k))
unfoldable pub fraction_part : ℕ → ℕ → ℕ → ℕ
unfolding of_ℕ times nearest whole
fraction_part f unit k = float_whole (times (of_ℕ f) (nearest 2200 false unit (10 ^ k)))

abbrev fraction_of : Bytes → ℕ × ℕ × Bytes
fraction_of [] = (0, 0, [])
fraction_of (c ∷ s) = if c == b'.' then leading_fraction 0 0 false s else (0, 0, c ∷ s)

abbrev after_point : Bytes → Bytes
after_point [] = []
after_point (c ∷ s) = if c == b'.' then s else c ∷ s

-- One `number unit` of the text: its nanoseconds, and the rest.
unfoldable pub scan_part : Bytes → Option (ℕ × Bytes)
unfolding leading_int leading_fraction span_unit unit_of fraction_part
scan_part s = elim (leading_int 0 s) [
  | none ↦ none
  | some (v, r) ↦
      let (f, k, t) = fraction_of r in
      let (u, rest) = span_unit t in
      -- a digit before or after the point
      let digits = not (length s == length r) || not (length (after_point r) == length t) in
      if not digits then none else elim (unit_of u) [
        | none ↦ none
        | some unit ↦
            let n : ℕ = v * unit + fraction_part f unit k in
            if ltb (2 ^ 63 / unit) v || ltb (2 ^ 63) n then none else some (n, rest)
      ]
]

-- The sum of the parts; each reads a byte at least.
unfoldable pub sum_parts : ℕ → ℕ → Bytes → Option ℕ
unfolding scan_part
sum_parts fuel d [] = some d
sum_parts zero d (c ∷ s) = none
sum_parts (suc fuel) d (c ∷ s) = elim (scan_part (c ∷ s)) [
  | none ↦ none
  | some (n, rest) ↦ if ltb (2 ^ 63) (d + n) then none else sum_parts fuel (d + n) rest
]

abbrev signed : Bool → Option ℕ → Option ℤ
signed neg none = none
signed true (some zero) = some (pos 0)
signed true (some (suc n)) = some (negsuc n)
signed false (some n) = if ltb (2 ^ 63 - 1) n then none else some (pos n)

abbrev unsigned_text : Bool → Bytes → Option ℤ
unsigned_text neg s =
    if same s (codes "0")
    then some (pos 0)
    else if is_empty s
    then none
    else signed neg (sum_parts (suc (length s)) 0 s)

-- time.ParseDuration; none for an error.
unfoldable pub parse_duration : Bytes → Option Duration
unfolding sum_parts
parse_duration [] = none
parse_duration (c ∷ s) =
    if c == b'-'
    then unsigned_text true s
    else if c == b'+'
    then unsigned_text false s
    else unsigned_text false (c ∷ s)
