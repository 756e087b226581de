-- ===== src/Std/Json/Numbers.antt =====
-- JSON number literals and their values.
use mitrity_go.Base.{
  ℕ, ◌+◌, ◌-◌, ◌*◌, Bool, true, false, [], ◌∷◌, ◌++◌, Option, none, some, within, ◌==◌,
  if◌then◌else◌, Bytes, length,
}
use mitrity_go.Std.Float.{Float, of_decimal}
use mitrity_go.Std.Value.{Value, float, number}

pub record Literal : Type 0 where
  pub text : Bytes
  pub negative : Bool
  pub whole : Bytes
  pub fraction : Bytes
  pub exponent_negative : Bool
  pub exponent : ℕ

abbrev pub is_digit : ℕ → Bool
is_digit c = within 48 57 c

-- The leading digits of a text, and the rest.
unfoldable pub span_digits : Bytes → Bytes × Bytes
span_digits [] = ([], [])
span_digits (c ∷ s) =
    let more = span_digits s in if is_digit c then (c ∷ more.0, more.1) else ([], c ∷ s)

unfoldable pub decimal : ℕ → Bytes → ℕ
decimal n [] = n
decimal n (c ∷ s) = decimal (n * 10 + (c - 48)) s

abbrev starts : ℕ → Bytes → Bool
starts c [] = false
starts c (b ∷ s) = b == c

abbrev tail : Bytes → Bytes
tail [] = []
tail (b ∷ s) = s

-- The whole part: 0, or digits that begin with another one.
unfoldable pub scan_whole : Bytes → Option (Bytes × Bytes)
unfolding span_digits
scan_whole [] = none
scan_whole (c ∷ s) =
    if c == 48
    then some (48 ∷ [], s)
    else if within 49 57 c
    then some (span_digits (c ∷ s))
    else none

abbrev non_empty : Bytes × Bytes → Option (Bytes × Bytes)
non_empty ([], s) = none
non_empty (d ∷ ds, s) = some (d ∷ ds, s)

unfoldable pub scan_fraction : Bytes → Option (Bytes × Bytes)
unfolding span_digits
scan_fraction s = if starts b'.' s then non_empty (span_digits (tail s)) else some ([], s)

-- The sign, the digits, and the rest of an exponent; `text` is its own text.
unfoldable pub scan_exponent : Bytes → Option (Bytes × Bool × Bytes × Bytes)
unfolding span_digits
scan_exponent [] = some ([], false, [], [])
scan_exponent (c ∷ s) =
    if c == b'e'
    then scan_sign c s
    else if c == b'E'
    then scan_sign c s
    else some ([], false, [], c ∷ s)
  where
    with_sign : Bytes → Bool → Option (Bytes × Bytes) → Option (Bytes × Bool × Bytes × Bytes)
    with_sign head neg none = none
    with_sign head neg (some (ds, r)) = some (head ++ ds, neg, ds, r)

    scan_sign : ℕ → Bytes → Option (Bytes × Bool × Bytes × Bytes)
    scan_sign e t =
        if starts b'+' t
        then with_sign (e ∷ b'+' ∷ []) false (non_empty (span_digits (tail t)))
        else if starts b'-' t
        then with_sign (e ∷ b'-' ∷ []) true (non_empty (span_digits (tail t)))
        else with_sign (e ∷ []) false (non_empty (span_digits t))

abbrev dot : Bytes → Bytes
dot [] = []
dot (d ∷ ds) = b'.' ∷ d ∷ ds

unfoldable pub scan_number : Bytes → Option (Literal × Bytes)
unfolding scan_whole scan_fraction scan_exponent decimal
scan_number s =
    let neg : Bool = starts b'-' s in
    elim (scan_whole (if neg then tail s else s)) [
      | none ↦ none
      | some (w, r) ↦ elim (scan_fraction r) [
        | none ↦ none
        | some (f, r') ↦ elim (scan_exponent r') [
          | none ↦ none
          | some (t, eneg, ds, rest) ↦ some (
            record {
              text = (if neg then b'-' ∷ [] else []) ++ (w ++ (dot f ++ t));
              negative = neg;
              whole = w;
              fraction = f;
              exponent_negative = eneg;
              exponent = decimal 0 ds;
            },
            rest,
          )
        ]
      ]
    ]

-- strconv.ParseFloat of the literal; none where it is out of range.
unfoldable pub literal_value : Literal → Option Float
unfolding decimal of_decimal
literal_value l =
    let ds : Bytes = l.whole ++ l.fraction in
    let f : ℕ = length l.fraction in
    if l.exponent_negative
    then of_decimal l.negative (length ds) (decimal 0 ds) 0 (l.exponent + f)
    else of_decimal l.negative (length ds) (decimal 0 ds) (l.exponent - f) (f - l.exponent)

-- How a decoder without, and with UseNumber stores a number.
unfoldable pub float_value : Literal → Option Value
unfolding literal_value
float_value l = elim (literal_value l) [ none ↦ none | some x ↦ some (float x) ]

unfoldable pub number_value : Literal → Option Value
number_value l = some (number l.text)
