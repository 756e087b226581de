-- ===== src/Admission/Config/RoundTrip.antt =====
-- Loopback addresses that are written and read back (admission/config.go: ParseLoopbackAddr;
-- admission/client.go: dial, by net.JoinHostPort).
use mitrity_go.Base.{
  ℕ, ◌+◌, ◌-◌, ◌*◌, ◌≤◌, ◌<◌, ◌≡◌, refl, ap, ◌∙◌, Bool, true, false, ◌||◌, [], ◌∷◌, ◌++◌, some,
  Bytes, codes, length, All, All-append, ltb, arith, ◌==◌, ok, same,
}
use mitrity_go.Std.Strings.{format_ℕ}
use mitrity_go.Std.Strings.Decimal.{
  IsDigit, value_from, value_from-format_ℕ, All-format_ℕ, length-format_ℕ_five,
  length-format_ℕ_some,
}
use mitrity_go.Std.Ip.{v6, Ip, v4, parse_ip, loopback_text, dotted}
use mitrity_go.Std.Ip.Dotted.{parse_ip-dotted}
use mitrity_go.Admission.Config.Addr.{
  is_name_char, is_digit, span, match_port, match_tcp, port_number, literal_host, check_host_port,
  parse_loopback_addr,
}
use mitrity_go.Std.Ip.{has_colon, join_host_port}

port_number-eq-value_from : (n : ℕ) (s : Bytes) → port_number n s ≡ value_from n s
unfolding port_number value_from
port_number-eq-value_from n [] = refl
port_number-eq-value_from n (c ∷ s) = port_number-eq-value_from (n * 10 + (c - 48)) s

-- A run of a class that ends at a character outside of it.
pub span-run :
    (p : ℕ → Bool) (s : Bytes) (c : ℕ) (t : Bytes)
    → All (λ d. p d ≡ true) s
    → p c ≡ false
    → span p (s ++ c ∷ t) ≡ (s, c ∷ t)
unfolding span
span-run p [] c t h k = rw (k) refl
span-run p (d ∷ s) c t (h, hs) k = rw (h, span-run p s c t hs k) refl

span-All : (p : ℕ → Bool) (s : Bytes) → All (λ d. p d ≡ true) s → span p s ≡ (s, [])
unfolding span
span-All p [] h = refl
span-All p (d ∷ s) (h, hs) = rw (h, span-All p s hs) refl

pub match_port-digits :
    (s : Bytes) → All IsDigit s → 1 ≤ length s → length s ≤ 5 → match_port (b':' ∷ s) ≡ some s
unfolding match_port
match_port-digits [] h k l = ground (arith, k)
match_port-digits (c ∷ s) h k l = rw (span-All is_digit (c ∷ s) h) (ground (arith, l))

-- What the match gives for a name and a port.
pub match_tcp-named :
    (c : ℕ) (host digits : Bytes)
    → All (λ d. is_name_char d ≡ true) (c ∷ host)
    → All IsDigit digits
    → 1 ≤ length digits
    → length digits ≤ 5
    → match_tcp ((c ∷ host) ++ b':' ∷ digits) ≡ some (c ∷ host, digits)
unfolding match_tcp
match_tcp-named c host digits (h, hs) d k l =
    let bracket : (c == b'[') ≡ false = ground (arith, h) in
    rw
      (
        bracket,
        span-run is_name_char (c ∷ host) b':' digits (h, hs) refl,
        match_port-digits digits d k l,
      )
      refl

IsName-of_IsDigit : (s : Bytes) → All IsDigit s → All (λ c. is_name_char c ≡ true) s
IsName-of_IsDigit [] h = tt
IsName-of_IsDigit (c ∷ s) (h, hs) = (ground (arith, h), IsName-of_IsDigit s hs)

has_colon-names : (s : Bytes) → All (λ c. is_name_char c ≡ true) s → has_colon s ≡ false
unfolding has_colon
has_colon-names [] h = refl
has_colon-names (c ∷ s) (h, hs) =
    let other : (c == b':') ≡ false = ground (arith, h) in
    rw (other, has_colon) (has_colon-names s hs)

-- The text of a dotted address consists of digits and dots.
pub All-dotted : (a b c d : ℕ) → All (λ e. is_name_char e ≡ true) (dotted a b c d)
All-dotted a b c d =
    field (format_ℕ a) _ (name a)
      (field (format_ℕ b) _ (name b) (field (format_ℕ c) _ (name c) (name d)))
  where
    name : (n : ℕ) → All (λ e. is_name_char e ≡ true) (format_ℕ n)
    name n = IsName-of_IsDigit (format_ℕ n) (All-format_ℕ n)

    field :
        (s t : Bytes)
        → All (λ e. is_name_char e ≡ true) s
        → All (λ e. is_name_char e ≡ true) t
        → All (λ e. is_name_char e ≡ true) (s ++ b'.' ∷ t)
    field s t h k = All-append (λ e. is_name_char e ≡ true) s (b'.' ∷ t) h (refl, k)

-- The text of an address that String gives for a loopback one.
pub data IsLiteral : Bytes → Type 0 where
  quad : (b c d : ℕ) → b < 256 → c < 256 → d < 256 → IsLiteral (dotted 127 b c d)
  one : IsLiteral (codes "::1")

pub check_host_port-eq-ok :
    (address host : Bytes) (ip : Ip) (port : ℕ)
    → parse_ip (literal_host host) ≡ some ip
    → loopback_text ip ≡ some host
    → 1 ≤ port
    → port ≤ 65535
    → check_host_port address host (format_ℕ port) ≡ ok (host, port)
unfolding check_host_port
check_host_port-eq-ok address host ip port p t low high =
    let value : port_number 0 (format_ℕ port) ≡ port =
      port_number-eq-value_from 0 (format_ℕ port) ∙ value_from-format_ℕ port in
    let in_range : (ltb port 1 || ltb 65535 port) ≡ false = ground (arith, low, high) in
    rw (value, in_range, p, t) refl

match_tcp-quad :
    (b c d port : ℕ)
    → port ≤ 65535
    → match_tcp (dotted 127 b c d ++ b':' ∷ format_ℕ port) ≡ some (dotted 127 b c d, format_ℕ port)
unfolding format_ℕ
match_tcp-quad b c d port high =
    match_tcp-named b'1' _ (format_ℕ port) (All-dotted 127 b c d) (All-format_ℕ port)
      (length-format_ℕ_some port) (length-format_ℕ_five port (omega (arith, high)))

match_tcp-one :
    (port : ℕ)
    → port ≤ 65535
    → match_tcp (join_host_port (codes "::1") port) ≡ some (codes "::1", format_ℕ port)
unfolding match_tcp join_host_port has_colon span
match_tcp-one port high =
    rw
      (match_port-digits (format_ℕ port) (All-format_ℕ port) (length-format_ℕ_some port)
        (length-format_ℕ_five port (omega (arith, high))))
      refl

pub join_host_port-quad :
    (b c d port : ℕ)
    → join_host_port (dotted 127 b c d) port ≡ dotted 127 b c d ++ b':' ∷ format_ℕ port
unfolding join_host_port
join_host_port-quad b c d port = rw (has_colon-names (dotted 127 b c d) (All-dotted 127 b c d)) refl

literal_host-quad : (b c d : ℕ) → literal_host (dotted 127 b c d) ≡ dotted 127 b c d
unfolding same format_ℕ
literal_host-quad b c d = refl

pub parse_ip-one :
    parse_ip (literal_host (codes "::1")) ≡ some (v6 (0 ∷ 0 ∷ 0 ∷ 0 ∷ 0 ∷ 0 ∷ 0 ∷ 1 ∷ []))
unfolding same parse_ip
parse_ip-one = refl

-- The address that the client dials, net.JoinHostPort of the text 127.b.c.d or ::1 of a loopback
-- IP and of a port between 1 and 65535, is one that ParseLoopbackAddr accepts, and gives this
-- host and this port back.
pub parse_loopback_addr-join_host_port :
    (host : Bytes) (port : ℕ)
    → IsLiteral host
    → 1 ≤ port
    → port ≤ 65535
    → parse_loopback_addr (join_host_port host port) ≡ ok (host, port)
unfolding parse_loopback_addr loopback_text
parse_loopback_addr-join_host_port _ port (quad b c d hb hc hd) low high =
    let host = dotted 127 b c d in
    let parsed : parse_ip (literal_host host) ≡ some (v4 127 b c d) =
      ap parse_ip (literal_host-quad b c d) ∙ parse_ip-dotted 127 b c d (omega arith) hb hc hd in
    rw (join_host_port-quad b c d port, match_tcp-quad b c d port high)
      (check_host_port-eq-ok (host ++ b':' ∷ format_ℕ port) host (v4 127 b c d) port parsed refl low
        high)
parse_loopback_addr-join_host_port _ port one low high = rw (match_tcp-one port high) (
    check_host_port-eq-ok (join_host_port (codes "::1") port) (codes "::1")
      (v6 (0 ∷ 0 ∷ 0 ∷ 0 ∷ 0 ∷ 0 ∷ 0 ∷ 1 ∷ [])) port parse_ip-one refl low high)
