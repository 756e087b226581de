-- ===== src/Std/Strings/Decimal.antt =====
-- The decimal text of a number (strconv.FormatUint).
use mitrity_go.Base.{
  ℕ, zero, suc, ◌+◌, ◌-◌, ◌*◌, ◌/◌, ◌≤◌, ◌<◌, ◌≡◌, refl, ◌∙◌, true, [], ◌∷◌, Bytes, length, All,
  within, ltb, arith, Bool-cases, inl, inr,
}
use mathlib.Core.List.{reverse_aux}
use mitrity_go.Std.Strings.{digits_rev, format_ℕ}

-- The number that digits stand for, the last first.
unfoldable value_rev : Bytes → ℕ
value_rev [] = 0
value_rev (c ∷ s) = value_rev s * 10 + (c - 48)

-- The number that digits stand for, behind a number that was read before.
unfoldable pub value_from : ℕ → Bytes → ℕ
value_from n [] = n
value_from n (c ∷ s) = value_from (n * 10 + (c - 48)) s

abbrev pub IsDigit : ℕ → Type 0
IsDigit c = within 48 57 c ≡ true

value_from-reverse_aux :
    (s more : Bytes) → value_from 0 (reverse_aux s more) ≡ value_from (value_rev s) more
unfolding value_from value_rev
value_from-reverse_aux [] more = refl
value_from-reverse_aux (c ∷ s) more = value_from-reverse_aux s (c ∷ more)

All-reverse_aux :
    (P : ℕ → Type 0) (s more : Bytes) → All P s → All P more → All P (reverse_aux s more)
All-reverse_aux P [] more h k = k
All-reverse_aux P (c ∷ s) more (h, hs) k = All-reverse_aux P s (c ∷ more) hs (h, k)

length-reverse_aux : (s more : Bytes) → length (reverse_aux s more) ≡ length s + length more
length-reverse_aux [] more = omega arith
length-reverse_aux (c ∷ s) more = omega (arith, length-reverse_aux s (c ∷ more))

value_rev-digits_rev : (fuel n : ℕ) → n < fuel → value_rev (digits_rev fuel n) ≡ n
unfolding value_rev digits_rev
value_rev-digits_rev zero n h = ground (arith, h)
value_rev-digits_rev (suc fuel) n h = ground (arith, value_rev-digits_rev fuel (n / 10))

All-digits_rev : (fuel n : ℕ) → All IsDigit (digits_rev fuel n)
unfolding digits_rev
All-digits_rev zero n = tt
All-digits_rev (suc fuel) n = elim (Bool-cases (ltb n 10)) [
  | inl e ↦ rw (e) (ground arith, tt)
  | inr e ↦ rw (e) (ground arith, All-digits_rev fuel (n / 10))
]

-- The powers of ten.
unfoldable power : ℕ → ℕ
power zero = 1
power (suc k) = 10 * power k

length-digits_rev : (fuel n k : ℕ) → n < power (suc k) → length (digits_rev fuel n) ≤ suc k
unfolding digits_rev power
length-digits_rev zero n k h = omega arith
length-digits_rev (suc fuel) n zero h = ground (arith, h)
length-digits_rev (suc fuel) n (suc k) h = ground (arith, h, length-digits_rev fuel (n / 10) k)

-- Its digits.
pub All-format_ℕ : (n : ℕ) → All IsDigit (format_ℕ n)
unfolding format_ℕ
All-format_ℕ n = All-reverse_aux IsDigit (digits_rev (suc n) n) [] (All-digits_rev (suc n) n) tt

-- Their value.
pub value_from-format_ℕ : (n : ℕ) → value_from 0 (format_ℕ n) ≡ n
unfolding format_ℕ value_from
value_from-format_ℕ n =
    value_from-reverse_aux (digits_rev (suc n) n) [] ∙ value_rev-digits_rev (suc n) n (omega arith)

length-format_ℕ : (n k : ℕ) → n < power (suc k) → length (format_ℕ n) ≤ suc k
unfolding format_ℕ
length-format_ℕ n k h =
    omega (arith, length-reverse_aux (digits_rev (suc n) n) [], length-digits_rev (suc n) n k h)

-- A number below 100000 has five of them at most.
pub length-format_ℕ_five : (n : ℕ) → n < 100000 → length (format_ℕ n) ≤ 5
unfolding power
length-format_ℕ_five n h = length-format_ℕ n 4 h

pub length-format_ℕ_some : (n : ℕ) → 1 ≤ length (format_ℕ n)
unfolding format_ℕ digits_rev
length-format_ℕ_some n = ground (arith, length-reverse_aux (digits_rev (suc n) n) [])
