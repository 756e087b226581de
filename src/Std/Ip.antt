-- ===== src/Std/Ip.antt =====
-- net.ParseIP, IP.IsLoopback and the text of a loopback address; net.JoinHostPort.
pub mod Bounds
pub mod Dotted
use mitrity_go.Base.{
  ℕ, zero, suc, ◌+◌, ◌-◌, ◌*◌, ◌/◌, ◌%◌, Bool, true, false, not, ◌&&◌, ◌||◌, List, [], ◌∷◌, ◌++◌,
  Option, none, some, ltb, leb, within, ◌==◌, if◌then◌else◌, Bytes, length, codes, is_empty, take,
  drop, replicate,
}
use mitrity_go.Std.Strings.{format_ℕ}

-- An IPv4 address, an IPv4-mapped IPv6 one included; or the eight groups of another IPv6 address.
pub data Ip : Type 0 where
  v4 : (a b c d : ℕ) → Ip
  v6 : List ℕ → Ip

unfoldable pub split_dots : Bytes → List Bytes
split_dots [] = [] ∷ []
split_dots (c ∷ s) = let rest = split_dots s in if c == b'.' then [] ∷ rest else push c rest
  where
    push : ℕ → List Bytes → List Bytes
    push c [] = (c ∷ []) ∷ []
    push c (f ∷ fs) = (c ∷ f) ∷ fs

unfoldable pub decimal_of : ℕ → Bytes → Option ℕ
decimal_of n [] = some n
decimal_of n (c ∷ s) = if within 48 57 c then decimal_of (n * 10 + (c - 48)) s else none

-- A field of a dotted address: digits, with no leading zero, 255 at most.
unfoldable pub octet : Bytes → Option ℕ
unfolding decimal_of
octet [] = none
octet (c ∷ s) = elim (decimal_of 0 (c ∷ s)) [
  | none ↦ none
  | some n ↦ if leb n 255 && (not (c == 48) || is_empty s) then some n else none
]

abbrev pub four : Option ℕ → Option ℕ → Option ℕ → Option ℕ → Option Ip
four (some a) (some b) (some c) (some d) = some (v4 a b c d)
four _ _ _ _ = none

abbrev pub of_fields : List Bytes → Option Ip
of_fields (a ∷ b ∷ c ∷ d ∷ []) = four (octet a) (octet b) (octet c) (octet d)
of_fields _ = none

unfoldable pub parse_v4 : Bytes → Option Ip
unfolding split_dots octet
parse_v4 s = of_fields (split_dots s)

unfoldable pub hex_digit_value : ℕ → Option ℕ
hex_digit_value c =
    if within 48 57 c
    then some (c - 48)
    else if within b'a' b'f' c
    then some (c - 87)
    else if within b'A' b'F' c
    then some (c - 55)
    else none

-- The leading hexadecimal digits as a number, their count, and the rest.
unfoldable pub span_hex : ℕ → ℕ → Bytes → ℕ × ℕ × Bytes
unfolding hex_digit_value
span_hex n k [] = (n, k, [])
span_hex n k (c ∷ s) = elim (hex_digit_value c) [
  | none ↦ (n, k, c ∷ s)
  | some d ↦ span_hex (n * 16 + d) (suc k) s
]

abbrev pub Groups : Type 0
Groups = List ℕ × Option ℕ × Bytes

abbrev pub with_v4 : List ℕ → Option ℕ → Option Ip → Option Groups
with_v4 gs gap (some (v4 a b c d)) = some (gs ++ (a * 256 + b) ∷ (c * 256 + d) ∷ [], gap, [])
with_v4 gs gap _ = none

-- A reader of further groups, behind those so far and the place of `::`.
abbrev pub Reader : Type 0
Reader = List ℕ → Option ℕ → Bytes → Option Groups

-- What comes behind `::`.
abbrev pub after_gap : Reader → List ℕ → Option ℕ → Bytes → Option Groups
after_gap more gs (some g) s = none
after_gap more gs none s =
    if is_empty s then some (gs, some (length gs), []) else more gs (some (length gs)) s

-- What comes behind a group: the end, a colon and a group, or `::`.
abbrev pub after_group : Reader → List ℕ → Option ℕ → Bytes → Option Groups
after_group more gs gap [] = some (gs, gap, [])
after_group more gs gap (c ∷ []) = none
after_group more gs gap (c ∷ d ∷ s) =
    if not (c == b':')
    then none
    else if not (d == b':')
    then more gs gap (d ∷ s)
    else after_gap more gs gap s

abbrev pub starts_dot : Bytes → Bool
starts_dot [] = false
starts_dot (c ∷ t) = c == b'.'

abbrev pub is_gap : Option ℕ → Bool
is_gap none = false
is_gap (some g) = true

abbrev pub next_group : Reader → List ℕ → Option ℕ → Bytes → ℕ × ℕ × Bytes → Option Groups
next_group more gs gap s (n, k, r) =
    if length gs == 8
    then some (gs, gap, s)
    else if k == 0 || ltb 4 k
    then none
    else if starts_dot r
    then (if leb (length gs) 6 && (is_gap gap || length gs == 6)
        then with_v4 gs gap (parse_v4 s)
        else none)
    else after_group more (gs ++ n ∷ []) gap r

-- The groups of an IPv6 address so far, the place of `::`, and the text that is left. At most eight
-- groups are read, so nine rounds are enough.
unfoldable pub read_groups : ℕ → List ℕ → Option ℕ → Bytes → Option Groups
unfolding span_hex parse_v4
read_groups zero gs gap s = some (gs, gap, s)
read_groups (suc fuel) gs gap s = next_group (read_groups fuel) gs gap s (span_hex 0 0 s)

abbrev pub of_groups : List ℕ → Ip
of_groups (zero ∷ zero ∷ zero ∷ zero ∷ zero ∷ f ∷ a ∷ b ∷ []) =
    if f == 0xFFFF
    then v4 (a / 256) (a % 256) (b / 256) (b % 256)
    else v6 (0 ∷ 0 ∷ 0 ∷ 0 ∷ 0 ∷ f ∷ a ∷ b ∷ [])
of_groups gs = v6 gs

abbrev pub expand : Option Groups → Option Ip
expand none = none
expand (some (gs, none, [])) = if length gs == 8 then some (of_groups gs) else none
expand (some (gs, some g, [])) =
    if ltb (length gs) 8
    then some (of_groups (take g gs ++ (replicate (8 - length gs) 0 ++ drop g gs)))
    else none
expand (some (gs, gap, c ∷ s)) = none

abbrev pub parse_v6 : Bytes → Option Ip
parse_v6 (c ∷ d ∷ s) =
    if c == b':' && d == b':'
    then (if is_empty s then some (v6 (replicate 8 0)) else expand (read_groups 9 [] (some 0) s))
    else expand (read_groups 9 [] none (c ∷ d ∷ s))
parse_v6 s = expand (read_groups 9 [] none s)

-- Which of `.` and `:` comes first decides.
unfoldable pub parse_ip_from : Bytes → Bytes → Option Ip
unfolding parse_v4 read_groups
parse_ip_from whole [] = none
parse_ip_from whole (c ∷ s) =
    if c == b'.'
    then parse_v4 whole
    else if c == b':'
    then parse_v6 whole
    else parse_ip_from whole s

unfoldable pub parse_ip : Bytes → Option Ip
unfolding parse_ip_from
parse_ip s = parse_ip_from s s

abbrev pub dotted : ℕ → ℕ → ℕ → ℕ → Bytes
dotted a b c d = format_ℕ a ++ b'.' ∷ (format_ℕ b ++ b'.' ∷ (format_ℕ c ++ b'.' ∷ format_ℕ d))

abbrev pub is_one : List ℕ → Bool
is_one (zero ∷ zero ∷ zero ∷ zero ∷ zero ∷ zero ∷ zero ∷ n ∷ []) = n == 1
is_one _ = false

-- IP.IsLoopback and IP.String together: the text of a loopback address, none for another one.
unfoldable pub loopback_text : Ip → Option Bytes
unfolding format_ℕ
loopback_text (v4 a b c d) = if a == 127 then some (dotted a b c d) else none
loopback_text (v6 gs) = if is_one gs then some (codes "::1") else none

-- net.JoinHostPort: brackets round a host with a colon in it.
unfoldable pub has_colon : Bytes → Bool
has_colon [] = false
has_colon (c ∷ s) = if c == b':' then true else has_colon s

unfoldable pub join_host_port : Bytes → ℕ → Bytes
unfolding has_colon format_ℕ
join_host_port host port =
    if has_colon host
    then (b'[' ∷ host) ++ (codes "]:" ++ format_ℕ port)
    else host ++ (codes ":" ++ format_ℕ port)
