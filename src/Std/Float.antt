-- ===== src/Std/Float.antt =====
-- IEEE 754 binary64 values, and the correctly rounded reading of a decimal (strconv.ParseFloat).
use mitrity_go.Base.{
  ℕ, zero, suc, ◌+◌, ◌-◌, ◌*◌, ◌/◌, ◌%◌, ◌^◌, Bool, false, Option, none, some, ltb, leb, ◌==◌,
  if◌then◌else◌,
}

-- `finite s m e` is ± m · 2^(e - 1074), minus if `s`; m is below 2^53, and at least 2^52 unless e
-- is 0.
pub data Float : Type 0 where
  nan : Float
  inf : Bool → Float
  finite : Bool → ℕ → ℕ → Float

abbrev pub max_exponent : ℕ
max_exponent = 2045

-- The count of binary digits of a number.
unfoldable pub bits : ℕ → ℕ → ℕ
bits zero n = 0
bits (suc fuel) n = let rest = bits fuel (n / 2) in if n == 0 then 0 else suc rest

-- n / d rounded to the nearest whole number, to the even one of two.
unfoldable pub round_even : ℕ → ℕ → ℕ
round_even n d =
    let q : ℕ = n / d in
    let r : ℕ = n % d in
    if ltb (2 * r) d then q else if ltb d (2 * r) then q + 1 else if q % 2 == 0 then q else q + 1

abbrev finish : Bool → ℕ → ℕ → Float
finish s m e =
    if m == 2 ^ 53
    then (if ltb e max_exponent then finite s (2 ^ 52) (e + 1) else inf s)
    else if leb e max_exponent
    then finite s m e
    else inf s

-- The binary64 value nearest to ± p / q, for q above 0. `fuel` is above the digits of p · 2^1074.
unfoldable pub nearest : ℕ → Bool → ℕ → ℕ → Float
unfolding bits round_even
nearest fuel s p q =
    let e : ℕ = bits fuel (p * 2 ^ 1074 / q) - 53 in
    finish s (round_even (p * 2 ^ 1074) (q * 2 ^ e)) e

-- ± m · 10^(up - down) as a binary64 value; none where it is out of range. The count of binary
-- digits is at most four for each decimal digit.
unfoldable pub of_decimal : Bool → ℕ → ℕ → ℕ → ℕ → Option Float
unfolding nearest
of_decimal s digits m up down =
    keep (nearest (1075 + 4 * (digits + up)) s (m * 10 ^ up) (10 ^ down))
  where
    keep : Float → Option Float
    keep nan = none
    keep (inf t) = none
    keep (finite t a e) = some (finite t a e)

-- f == math.Trunc(f), for a finite value.
unfoldable pub is_integral : ℕ → ℕ → Bool
is_integral m e = m * 2 ^ e % 2 ^ 1074 == 0

-- The whole part of m · 2^(e - 1074).
unfoldable pub whole : ℕ → ℕ → ℕ
whole m e = m * 2 ^ e / 2 ^ 1074

-- The binary64 value nearest to a number that 2200 binary digits are enough for.
unfoldable pub of_ℕ : ℕ → Float
unfolding nearest
of_ℕ n = nearest 2200 false n 1

-- x * y, both positive or zero; the sign is that of x.
unfoldable pub times : Float → Float → Float
unfolding nearest
times (finite s m e) (finite t n f) = nearest 2200 s (m * n * 2 ^ (e + f)) (2 ^ 2148)
times (inf s) y = inf s
times x y = nan
