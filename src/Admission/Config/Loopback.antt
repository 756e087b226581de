-- ===== src/Admission/Config/Loopback.antt =====
-- What an accepted TCP address can be (admission/config.go: ParseLoopbackAddr, ValidateAddr).
use mitrity_go.Base.{
  ◌||◌, ℕ, ◌≤◌, ◌≡◌, refl, sym, ap, ◌∙◌, true, false, [], ◌∷◌, Option, none, some, arith, Bytes,
  codes, length, All, ok, inl, inr, Bool-cases, ltb, ◌==◌,
}
use mitrity_go.Std.Ip.{Ip, v4, v6, parse_ip, loopback_text, dotted}
use mitrity_go.Base.{eq_of_same, same, zero, suc, ◌<◌, List}
use mitrity_go.Std.Ip.Bounds.{IsQuad, parse_ip-IsQuad}
use mitrity_go.Std.Ip.{is_one}
use mitrity_go.Admission.Config.Addr.{
  check_match, text_of_ip, with_text, is_digit, match_tcp, port_number, literal_host,
  check_host_port, parse_loopback_addr,
}
use mitrity_go.Admission.Config.Match.{IsPlain, match_tcp-IsMatch}

-- A loopback address and its text: 127.b.c.d, each number a byte, or ::1.
pub data IsLoopback (ip : Ip) (host : Bytes) : Type 0 where
  ipv4 :
      (b c d : ℕ)
      → b < 256
      → c < 256
      → d < 256
      → ip ≡ v4 127 b c d
      → host ≡ dotted 127 b c d
      → IsLoopback ip host
  ipv6 : ip ≡ v6 (0 ∷ 0 ∷ 0 ∷ 0 ∷ 0 ∷ 0 ∷ 0 ∷ 1 ∷ []) → host ≡ codes "::1" → IsLoopback ip host

-- The IP address that the host of an address names: localhost is 127.0.0.1, and any other host is the
-- address that its text is.
pub data IsNamed (literal : Bytes) (ip : Ip) : Type 0 where
  localhost : literal ≡ codes "localhost" → ip ≡ v4 127 0 0 1 → IsNamed literal ip
  numeric : parse_ip literal ≡ some ip → IsNamed literal ip

eq_of_is_one : (gs : List ℕ) → is_one gs ≡ true → gs ≡ 0 ∷ 0 ∷ 0 ∷ 0 ∷ 0 ∷ 0 ∷ 0 ∷ 1 ∷ []
eq_of_is_one ([]) h = cc
eq_of_is_one (suc m ∷ gs) h = cc
eq_of_is_one (zero ∷ []) h = cc
eq_of_is_one (zero ∷ suc m ∷ gs) h = cc
eq_of_is_one (zero ∷ zero ∷ []) h = cc
eq_of_is_one (zero ∷ zero ∷ suc m ∷ gs) h = cc
eq_of_is_one (zero ∷ zero ∷ zero ∷ []) h = cc
eq_of_is_one (zero ∷ zero ∷ zero ∷ suc m ∷ gs) h = cc
eq_of_is_one (zero ∷ zero ∷ zero ∷ zero ∷ []) h = cc
eq_of_is_one (zero ∷ zero ∷ zero ∷ zero ∷ suc m ∷ gs) h = cc
eq_of_is_one (zero ∷ zero ∷ zero ∷ zero ∷ zero ∷ []) h = cc
eq_of_is_one (zero ∷ zero ∷ zero ∷ zero ∷ zero ∷ suc m ∷ gs) h = cc
eq_of_is_one (zero ∷ zero ∷ zero ∷ zero ∷ zero ∷ zero ∷ []) h = cc
eq_of_is_one (zero ∷ zero ∷ zero ∷ zero ∷ zero ∷ zero ∷ suc m ∷ gs) h = cc
eq_of_is_one (zero ∷ zero ∷ zero ∷ zero ∷ zero ∷ zero ∷ zero ∷ []) h = cc
eq_of_is_one (zero ∷ zero ∷ zero ∷ zero ∷ zero ∷ zero ∷ zero ∷ n ∷ []) h = ground (arith, h)
eq_of_is_one (zero ∷ zero ∷ zero ∷ zero ∷ zero ∷ zero ∷ zero ∷ n ∷ m ∷ gs) h = cc

loopback_text-IsLoopback :
    (ip : Ip) (text : Bytes) → IsQuad ip → loopback_text ip ≡ some text → IsLoopback ip text
unfolding loopback_text
loopback_text-IsLoopback (v4 a b c d) text (ha, hb, hc, hd) h = elim (Bool-cases (a == 127)) [
  | inl local ↦
      let first : a ≡ 127 = ground arith in
      ipv4 b c d hb hc hd (ap (λ n. v4 n b c d) first) (ground arith)
  | inr other ↦ absurd (ground arith)
]
loopback_text-IsLoopback (v6 gs) text tt h = elim (Bool-cases (is_one gs)) [
  | inl one ↦ ipv6 (ap v6 (eq_of_is_one gs one)) (ground arith)
  | inr other ↦ absurd (ground arith)
]

option_injective : {a b : Ip} → some a ≡ some b → a ≡ b
option_injective h = cc

pub parse_ip_localhost : parse_ip (codes "127.0.0.1") ≡ some (v4 127 0 0 1)
unfolding parse_ip
parse_ip_localhost = refl

-- The address that the code parses is the one that the host names.
parse_ip-IsNamed :
    (literal : Bytes) (ip : Ip) → parse_ip (literal_host literal) ≡ some ip → IsNamed literal ip
parse_ip-IsNamed literal ip h = elim (Bool-cases (same literal (codes "localhost"))) [
  | inl local ↦
      let text : literal_host literal ≡ codes "127.0.0.1" = rw (local) refl in
      localhost (eq_of_same literal (codes "localhost") local)
        (option_injective (sym h ∙ ap parse_ip text ∙ parse_ip_localhost))
  | inr other ↦
      let text : literal_host literal ≡ literal = rw (other) refl in
      numeric (ap parse_ip (sym text) ∙ h)
]

-- What an accepted address is, and what is made of it.
pub record IsAccepted (address host : Bytes) (port : ℕ) : Type 0 where
  pub literal : Bytes
  pub digits : Bytes
  pub plain : IsPlain address literal digits
  pub digits_only : All (λ c. is_digit c ≡ true) digits
  pub few_digits : length digits ≤ 5
  pub port_value : port ≡ port_number 0 digits
  pub port_positive : 1 ≤ port
  pub port_capped : port ≤ 65535
  pub ip : Ip
  pub named_ip : IsNamed literal ip
  pub loopback : IsLoopback ip host

-- The parsed address, where its text is some.
text_of_ip-IsLoopback :
    (literal : Bytes) (o : Option Ip) {text : Bytes}
    → parse_ip (literal_host literal) ≡ o
    → text_of_ip o ≡ some text
    → (ip : Ip) × IsNamed literal ip × IsLoopback ip text
text_of_ip-IsLoopback literal none e h = cc
text_of_ip-IsLoopback literal (some ip) {text} e h = (
  ip,
  parse_ip-IsNamed literal ip e,
  loopback_text-IsLoopback ip text (parse_ip-IsQuad (literal_host literal) ip e) h,
)

with_text-eq-ok :
    (address : Bytes) (n : ℕ) (text : Option Bytes) {host : Bytes} {port : ℕ}
    → with_text address n text ≡ ok (host, port)
    → (text ≡ some host) × (port ≡ n)
with_text-eq-ok address n none h = cc
with_text-eq-ok address n (some text) h = ground arith

check_match-IsAccepted :
    (address : Bytes) (m : Option (Bytes × Bytes)) {host : Bytes} {port : ℕ}
    → match_tcp address ≡ m
    → check_match address m ≡ ok (host, port)
    → IsAccepted address host port
unfolding check_host_port
check_match-IsAccepted address none e h = cc
check_match-IsAccepted address (some (literal, digits)) {host} {port} e h =
    let n = port_number 0 digits in
    let in_range : ltb n 1 || ltb 65535 n ≡ false = ground arith in
    let checked : with_text address n (text_of_ip (parse_ip (literal_host literal)))
        ≡ ok (host, port) =
      ground arith in
    let (is_text, same_port) =
      with_text-eq-ok address n (text_of_ip (parse_ip (literal_host literal))) checked in
    let m = match_tcp-IsMatch address e in
    let (ip, named_ip, loopback) = text_of_ip-IsLoopback literal _ refl is_text in
    record {
      literal = literal;
      digits = digits;
      plain = m.plain;
      digits_only = m.digits_only;
      few_digits = m.few_digits;
      port_value = same_port;
      port_positive = rw same_port (ground arith);
      port_capped = rw same_port (ground arith);
      ip = ip;
      named_ip = named_ip;
      loopback = loopback;
    }

-- An address that ParseLoopbackAddr accepts is a plain host:port, the host in brackets or of name
-- characters, with a port of one to five digits between 1 and 65535 that is the port returned;
-- the host names an IP address, localhost 127.0.0.1 and any other host the address that
-- net.ParseIP reads from it; this address is 127.b.c.d, with b, c and d below 256, or ::1; and
-- the host returned is the text of this address.
pub parse_loopback_addr-IsAccepted :
    (address host : Bytes) (port : ℕ)
    → parse_loopback_addr address ≡ ok (host, port)
    → IsAccepted address host port
unfolding parse_loopback_addr
parse_loopback_addr-IsAccepted address host port h =
    check_match-IsAccepted address (match_tcp address) refl h
