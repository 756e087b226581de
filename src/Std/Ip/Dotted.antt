-- ===== src/Std/Ip/Dotted.antt =====
-- The text of an IPv4 address (net.ParseIP, IP.String).
use mitrity_go.Base.{
  ℕ, zero, suc, ◌+◌, ◌-◌, ◌*◌, ◌<◌, ◌≡◌, refl, ap, ◌∙◌, Bool, true, false, ◌&&◌, [], ◌∷◌, ◌++◌,
  Option, none, some, Bytes, All, arith, ◌==◌,
}
use mitrity_go.Std.Strings.{format_ℕ}
use mitrity_go.Std.Strings.Decimal.{IsDigit, value_from, All-format_ℕ}
use mitrity_go.Std.Ip.{v4, split_dots, decimal_of, octet, parse_v4, parse_ip_from, parse_ip, dotted}

decimal_of-digits : (n : ℕ) (s : Bytes) → All IsDigit s → decimal_of n s ≡ some (value_from n s)
unfolding decimal_of value_from
decimal_of-digits n [] h = refl
decimal_of-digits n (c ∷ s) (h, k) = rw (h) (decimal_of-digits (n * 10 + (c - 48)) s k)

-- A test that holds of every number up to a bound.
abbrev holds_below : ℕ → (ℕ → Bool) → Bool
holds_below zero p = true
holds_below (suc n) p = p n && holds_below n p

holds_below_lem :
    (bound : ℕ) (p : ℕ → Bool) (n : ℕ) → holds_below bound p ≡ true → n < bound → p n ≡ true
holds_below_lem zero p n h k = ground (arith, k)
holds_below_lem (suc b) p n h k = ground (arith, h, k, holds_below_lem b p n)

abbrev gives : Option ℕ → ℕ → Bool
gives none n = false
gives (some m) n = m == n

eq_of_gives : (o : Option ℕ) (n : ℕ) → gives o n ≡ true → o ≡ some n
eq_of_gives none n h = cc
eq_of_gives (some m) n h = ground arith

-- The numbers of a dotted address are read back.
octet-format_ℕ : (n : ℕ) → n < 256 → octet (format_ℕ n) ≡ some n
unfolding octet format_ℕ
octet-format_ℕ n h =
    eq_of_gives (octet (format_ℕ n)) n
      (holds_below_lem 256 (λ m. gives (octet (format_ℕ m)) m) n refl h)

split_dots-digits : (s t : Bytes) → All IsDigit s → split_dots (s ++ b'.' ∷ t) ≡ s ∷ split_dots t
unfolding split_dots
split_dots-digits [] t h = refl
split_dots-digits (c ∷ s) t (h, k) = ground (arith, h, split_dots-digits s t k)

split_dots-last : (s : Bytes) → All IsDigit s → split_dots s ≡ s ∷ []
unfolding split_dots
split_dots-last [] h = refl
split_dots-last (c ∷ s) (h, k) = ground (arith, h, split_dots-last s k)

split_dots-dotted :
    (a b c d : ℕ)
    → split_dots (dotted a b c d) ≡ format_ℕ a ∷ format_ℕ b ∷ format_ℕ c ∷ format_ℕ d ∷ []
split_dots-dotted a b c d =
    split_dots-digits (format_ℕ a) _ (All-format_ℕ a)
    ∙ ap (λ l. format_ℕ a ∷ l)
        (split_dots-digits (format_ℕ b) _ (All-format_ℕ b)
          ∙ ap (λ l. format_ℕ b ∷ l)
              (split_dots-digits (format_ℕ c) _ (All-format_ℕ c)
                ∙ ap (λ l. format_ℕ c ∷ l) (split_dots-last (format_ℕ d) (All-format_ℕ d))))

parse_v4-dotted :
    (a b c d : ℕ)
    → a < 256
    → b < 256
    → c < 256
    → d < 256
    → parse_v4 (dotted a b c d) ≡ some (v4 a b c d)
unfolding parse_v4
parse_v4-dotted a b c d ha hb hc hd =
    rw
      (
        split_dots-dotted a b c d,
        octet-format_ℕ a ha,
        octet-format_ℕ b hb,
        octet-format_ℕ c hc,
        octet-format_ℕ d hd,
      )
      refl

parse_ip_from-digits :
    (whole s t : Bytes) → All IsDigit s → parse_ip_from whole (s ++ b'.' ∷ t) ≡ parse_v4 whole
unfolding parse_ip_from
parse_ip_from-digits whole [] t h = refl
parse_ip_from-digits whole (c ∷ s) t (h, k) =
    let dot : (c == b'.') ≡ false = ground (arith, h) in
    let colon : (c == b':') ≡ false = ground (arith, h) in
    rw (dot, colon, parse_ip_from) (parse_ip_from-digits whole s t k)

pub parse_ip-dotted :
    (a b c d : ℕ)
    → a < 256
    → b < 256
    → c < 256
    → d < 256
    → parse_ip (dotted a b c d) ≡ some (v4 a b c d)
unfolding parse_ip
parse_ip-dotted a b c d ha hb hc hd =
    parse_ip_from-digits (dotted a b c d) (format_ℕ a) _ (All-format_ℕ a)
    ∙ parse_v4-dotted a b c d ha hb hc hd
