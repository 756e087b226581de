-- ===== src/Std/Ip/Bounds.antt =====
-- The numbers of an IPv4 address that net.ParseIP reads.
use mitrity_go.Base.{
  ℕ, zero, suc, ◌+◌, ◌-◌, ◌*◌, ◌<◌, ◌≤◌, ◌≡◌, refl, Bool, true, false, not, ◌&&◌, ◌||◌, List, [],
  ◌∷◌, ◌++◌, Option, none, some, ltb, leb, ◌==◌, if◌then◌else◌, Bytes, length, is_empty, take, drop,
  replicate, All, All-append, Bool-cases, inl, inr, arith, subst,
}
use mitrity_go.Std.Ip.{
  Ip, v4, v6, decimal_of, octet, four, of_fields, parse_v4, split_dots, hex_digit_value, span_hex,
  Groups, Reader, with_v4, after_gap, after_group, next_group, read_groups, of_groups, expand,
  parse_v6, parse_ip_from, parse_ip, starts_dot, is_gap,
}

-- The four numbers of an IPv4 address are bytes.
abbrev pub IsQuad : Ip → Type 0
IsQuad (v4 a b c d) = (a < 256) × (b < 256) × (c < 256) × (d < 256)
IsQuad (v6 gs) = Unit

abbrev IsQuadIfAny : Option Ip → Type 0
IsQuadIfAny none = Unit
IsQuadIfAny (some ip) = IsQuad ip

abbrev IsByte : Option ℕ → Type 0
IsByte none = Unit
IsByte (some n) = n < 256

octet-IsByte : (s : Bytes) → IsByte (octet s)
unfolding octet
octet-IsByte [] = tt
octet-IsByte (c ∷ s) = number (decimal_of 0 (c ∷ s))
  where
    capped :
        (n : ℕ) (b : Bool)
        → leb n 255 && (not (c == 48) || is_empty s) ≡ b
        → IsByte (if b then some n else none)
    capped n true h = ground (arith, h)
    capped n false h = tt

    number :
        (o : Option ℕ)
        → IsByte (elim o as (λ _. Option ℕ) [
          | none ↦ none
          | some n ↦ if leb n 255 && (not (c == 48) || is_empty s) then some n else none
        ])
    number none = tt
    number (some n) = capped n _ refl

four-IsQuad :
    (a b c d : Option ℕ) → IsByte a → IsByte b → IsByte c → IsByte d → IsQuadIfAny (four a b c d)
four-IsQuad (some a) (some b) (some c) (some d) ha hb hc hd = (ha, hb, hc, hd)
four-IsQuad none b c d ha hb hc hd = tt
four-IsQuad (some a) none c d ha hb hc hd = tt
four-IsQuad (some a) (some b) none d ha hb hc hd = tt
four-IsQuad (some a) (some b) (some c) none ha hb hc hd = tt

of_fields-IsQuad : (fs : List Bytes) → IsQuadIfAny (of_fields fs)
of_fields-IsQuad (a ∷ b ∷ c ∷ d ∷ []) =
    four-IsQuad (octet a) (octet b) (octet c) (octet d) (octet-IsByte a) (octet-IsByte b)
      (octet-IsByte c) (octet-IsByte d)
of_fields-IsQuad [] = tt
of_fields-IsQuad (a ∷ []) = tt
of_fields-IsQuad (a ∷ b ∷ []) = tt
of_fields-IsQuad (a ∷ b ∷ c ∷ []) = tt
of_fields-IsQuad (a ∷ b ∷ c ∷ d ∷ e ∷ fs) = tt

parse_v4-IsQuad : (s : Bytes) → IsQuadIfAny (parse_v4 s)
unfolding parse_v4
parse_v4-IsQuad s = of_fields-IsQuad (split_dots s)

abbrev pow16 : ℕ → ℕ
pow16 zero = 1
pow16 (suc k) = 16 * pow16 k

hex_digit_value_lem : (c d : ℕ) → hex_digit_value c ≡ some d → d < 16
unfolding hex_digit_value
hex_digit_value_lem c d h = ground arith

span_hex_lem : (n k : ℕ) (s : Bytes) → n < pow16 k → (span_hex n k s).0 < pow16 (span_hex n k s).1
unfolding span_hex
span_hex_lem n k [] h = h
span_hex_lem n k (c ∷ s) h =
    by_digit (hex_digit_value c) refl
      (λ d less. span_hex_lem (n * 16 + d) (suc k) s (omega (arith, h, less)))
  where
    by_digit :
        (o : Option ℕ)
        → hex_digit_value c ≡ o
        → ((d : ℕ)
            → d < 16
            → (span_hex (n * 16 + d) (suc k) s).0 < pow16 (span_hex (n * 16 + d) (suc k) s).1)
        → (span_hex n k (c ∷ s)).0 < pow16 (span_hex n k (c ∷ s)).1
    by_digit none e ih = rw (e, span_hex) h
    by_digit (some d) e ih = rw (e, span_hex) (ih d (hex_digit_value_lem c d e))

few_digits : (n k : ℕ) → n < pow16 k → k ≤ 4 → n < 65536
few_digits n zero h l = omega (arith, h)
few_digits n (suc zero) h l = omega (arith, h)
few_digits n (suc (suc zero)) h l = omega (arith, h)
few_digits n (suc (suc (suc zero))) h l = omega (arith, h)
few_digits n (suc (suc (suc (suc zero)))) h l = omega (arith, h)
few_digits n (suc (suc (suc (suc (suc k))))) h l = absurd (omega (arith, l))

abbrev IsGroup : ℕ → Type 0
IsGroup n = n < 65536

-- The groups read are numbers of sixteen bits.
abbrev AreGroups : Option Groups → Type 0
AreGroups none = Unit
AreGroups (some (gs, gap, s)) = All IsGroup gs

if-AreGroups :
    (b : Bool) (x y : Option Groups)
    → (b ≡ true → AreGroups x)
    → (b ≡ false → AreGroups y)
    → AreGroups (if b then x else y)
if-AreGroups true x y h k = h refl
if-AreGroups false x y h k = k refl

with_v4-AreGroups :
    (gs : List ℕ) (gap : Option ℕ) (o : Option Ip)
    → All IsGroup gs
    → IsQuadIfAny o
    → AreGroups (with_v4 gs gap o)
with_v4-AreGroups gs gap none h k = tt
with_v4-AreGroups gs gap (some (v6 hs)) h k = tt
with_v4-AreGroups gs gap (some (v4 a b c d)) h (ka, kb, kc, kd) =
    All-append IsGroup gs _ h (omega (arith, ka, kb), (omega (arith, kc, kd), tt))

abbrev KeepsGroups : Reader → Type 0
KeepsGroups more =
    (gs : List ℕ) (gap : Option ℕ) (s : Bytes) → All IsGroup gs → AreGroups (more gs gap s)

after_gap-AreGroups :
    (more : Reader) (gs : List ℕ) (gap : Option ℕ) (s : Bytes)
    → KeepsGroups more
    → All IsGroup gs
    → AreGroups (after_gap more gs gap s)
after_gap-AreGroups more gs (some g) s keeps h = tt
after_gap-AreGroups more gs none s keeps h =
    if-AreGroups (is_empty s) _ _ (λ e. h) (λ e. keeps gs (some (length gs)) s h)

after_group-AreGroups :
    (more : Reader) (gs : List ℕ) (gap : Option ℕ) (s : Bytes)
    → KeepsGroups more
    → All IsGroup gs
    → AreGroups (after_group more gs gap s)
after_group-AreGroups more gs gap [] keeps h = h
after_group-AreGroups more gs gap (c ∷ []) keeps h = tt
after_group-AreGroups more gs gap (c ∷ d ∷ s) keeps h =
    if-AreGroups (not (c == b':')) _ _ (λ e. tt)
      (λ e.
        if-AreGroups (not (d == b':')) _ _ (λ f. keeps gs gap (d ∷ s) h)
          (λ f. after_gap-AreGroups more gs gap s keeps h))

next_group-AreGroups :
    (more : Reader) (gs : List ℕ) (gap : Option ℕ) (s : Bytes) (n k : ℕ) (r : Bytes)
    → KeepsGroups more
    → All IsGroup gs
    → n < pow16 k
    → AreGroups (next_group more gs gap s (n, k, r))
next_group-AreGroups more gs gap s n k r keeps h bound =
    if-AreGroups (length gs == 8) _ _ (λ e. h)
      (λ e.
        if-AreGroups (k == 0 || ltb 4 k) _ _ (λ f. tt)
          (λ few.
            if-AreGroups (starts_dot r) _ _
              (λ g.
                if-AreGroups (leb (length gs) 6 && (is_gap gap || length gs == 6)) _ _
                  (λ i. with_v4-AreGroups gs gap (parse_v4 s) h (parse_v4-IsQuad s)) (λ i. tt))
              (λ g. after_group-AreGroups more (gs ++ n ∷ []) gap r keeps (
                All-append IsGroup gs (n ∷ []) h
                  (few_digits n k bound (ground (arith, few)), tt)))))

read_groups-AreGroups : (fuel : ℕ) → KeepsGroups (read_groups fuel)
unfolding read_groups
read_groups-AreGroups zero gs gap s h = h
read_groups-AreGroups (suc fuel) gs gap s h =
    let (n, k, r) = span_hex 0 0 s in
    next_group-AreGroups (read_groups fuel) gs gap s n k r (read_groups-AreGroups fuel) h
      (span_hex_lem 0 0 s (omega arith))

of_groups-IsQuad : (gs : List ℕ) → All IsGroup gs → IsQuad (of_groups gs)
of_groups-IsQuad [] h = tt
of_groups-IsQuad (suc n ∷ gs) h = tt
of_groups-IsQuad (zero ∷ []) h = tt
of_groups-IsQuad (zero ∷ suc n ∷ gs) h = tt
of_groups-IsQuad (zero ∷ zero ∷ []) h = tt
of_groups-IsQuad (zero ∷ zero ∷ suc n ∷ gs) h = tt
of_groups-IsQuad (zero ∷ zero ∷ zero ∷ []) h = tt
of_groups-IsQuad (zero ∷ zero ∷ zero ∷ suc n ∷ gs) h = tt
of_groups-IsQuad (zero ∷ zero ∷ zero ∷ zero ∷ []) h = tt
of_groups-IsQuad (zero ∷ zero ∷ zero ∷ zero ∷ suc n ∷ gs) h = tt
of_groups-IsQuad (zero ∷ zero ∷ zero ∷ zero ∷ zero ∷ []) h = tt
of_groups-IsQuad (zero ∷ zero ∷ zero ∷ zero ∷ zero ∷ f ∷ []) h = tt
of_groups-IsQuad (zero ∷ zero ∷ zero ∷ zero ∷ zero ∷ f ∷ a ∷ []) h = tt
of_groups-IsQuad (zero ∷ zero ∷ zero ∷ zero ∷ zero ∷ f ∷ a ∷ b ∷ [])
      (_, (_, (_, (_, (_, (_, (ha, (hb, _)))))))) =
    elim (Bool-cases (f == 0xFFFF)) [
      | inl mapped ↦ rw (mapped) (omega (arith, ha), omega arith, omega (arith, hb), omega arith)
      | inr other ↦ rw (other) tt
    ]
of_groups-IsQuad (zero ∷ zero ∷ zero ∷ zero ∷ zero ∷ f ∷ a ∷ b ∷ c ∷ gs) h = tt

All-take : (n : ℕ) (gs : List ℕ) → All IsGroup gs → All IsGroup (take n gs)
All-take zero gs h = tt
All-take (suc n) [] h = tt
All-take (suc n) (x ∷ gs) (h, hs) = (h, All-take n gs hs)

All-drop : (n : ℕ) (gs : List ℕ) → All IsGroup gs → All IsGroup (drop n gs)
All-drop zero gs h = h
All-drop (suc n) [] h = tt
All-drop (suc n) (x ∷ gs) (h, hs) = All-drop n gs hs

All-replicate : (n : ℕ) → All IsGroup (replicate n 0)
All-replicate zero = tt
All-replicate (suc n) = (omega arith, All-replicate n)

if-IsQuad :
    (b : Bool) (x y : Option Ip) → IsQuadIfAny x → IsQuadIfAny y → IsQuadIfAny (if b then x else y)
if-IsQuad true x y h k = h
if-IsQuad false x y h k = k

expand-IsQuad : (o : Option Groups) → AreGroups o → IsQuadIfAny (expand o)
expand-IsQuad none h = tt
expand-IsQuad (some (gs, none, [])) h = if-IsQuad (length gs == 8) _ _ (of_groups-IsQuad gs h) tt
expand-IsQuad (some (gs, some g, [])) h =
    if-IsQuad (ltb (length gs) 8) _ _
      (of_groups-IsQuad _ (
        All-append IsGroup (take g gs) _ (All-take g gs h) (
          All-append IsGroup (replicate (8 - length gs) 0) (drop g gs)
            (All-replicate (8 - length gs)) (All-drop g gs h))))
      tt
expand-IsQuad (some (gs, none, c ∷ s)) h = tt
expand-IsQuad (some (gs, some g, c ∷ s)) h = tt

read-IsQuad : (gap : Option ℕ) (s : Bytes) → IsQuadIfAny (expand (read_groups 9 [] gap s))
read-IsQuad gap s = expand-IsQuad (read_groups 9 [] gap s) (read_groups-AreGroups 9 [] gap s tt)

parse_v6-IsQuad : (s : Bytes) → IsQuadIfAny (parse_v6 s)
parse_v6-IsQuad [] = read-IsQuad none []
parse_v6-IsQuad (c ∷ []) = read-IsQuad none (c ∷ [])
parse_v6-IsQuad (c ∷ d ∷ s) =
    if-IsQuad (c == b':' && d == b':') _ _ (if-IsQuad (is_empty s) _ _ tt (read-IsQuad (some 0) s))
      (read-IsQuad none (c ∷ d ∷ s))

parse_ip_from-IsQuad : (whole s : Bytes) → IsQuadIfAny (parse_ip_from whole s)
unfolding parse_ip_from
parse_ip_from-IsQuad whole [] = tt
parse_ip_from-IsQuad whole (c ∷ s) =
    if-IsQuad (c == b'.') _ _ (parse_v4-IsQuad whole)
      (if-IsQuad (c == b':') _ _ (parse_v6-IsQuad whole) (parse_ip_from-IsQuad whole s))

-- The numbers of an IPv4 address that ParseIP reads are bytes.
pub parse_ip-IsQuad : (s : Bytes) (ip : Ip) → parse_ip s ≡ some ip → IsQuad ip
unfolding parse_ip
parse_ip-IsQuad s ip h = subst IsQuadIfAny h (parse_ip_from-IsQuad s s)
