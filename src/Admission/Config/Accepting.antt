-- ===== src/Admission/Config/Accepting.antt =====
-- The addresses that ParseLoopbackAddr accepts (admission/config.go: ParseLoopbackAddr).
use mitrity_go.Base.{
  ℕ, ◌≤◌, ◌≡◌, refl, sym, ap, ◌∙◌, subst, false, [], ◌∷◌, none, some, arith, Bytes, codes, length,
  All, ok, inl, inr, Bool-cases, ltb, ◌||◌, same, eq_of_same,
}
use mitrity_go.Std.Strings.Decimal.{IsDigit}
use mitrity_go.Std.Ip.{Ip, parse_ip, loopback_text}
use mitrity_go.Admission.Config.Addr.{
  match_tcp, port_number, literal_host, check_host_port, parse_loopback_addr, is_bracket_char,
}
use mitrity_go.Admission.Config.Loopback.{
  IsNamed, localhost, numeric, IsLoopback, ipv4, ipv6, IsAccepted, parse_ip_localhost,
}
use mitrity_go.Admission.Config.Match.{IsPlain, named, bracketed}
use mitrity_go.Admission.Config.RoundTrip.{match_port-digits, match_tcp-named, span-run}

-- The match finds the parts of a plain host:port.
match_tcp-plain :
    (address literal digits : Bytes)
    → IsPlain address literal digits
    → 1 ≤ length literal
    → All IsDigit digits
    → 1 ≤ length digits
    → length digits ≤ 5
    → match_tcp address ≡ some (literal, digits)
unfolding match_tcp
match_tcp-plain address [] digits plain nonempty d k l = ground (arith, nonempty)
match_tcp-plain address (c ∷ host) digits (named e all) nonempty d k l =
    ap match_tcp e ∙ match_tcp-named c host digits all d k l
match_tcp-plain address (c ∷ host) digits (bracketed e all) nonempty d k l =
    ap match_tcp e
    ∙ rw
        (
          span-run is_bracket_char (c ∷ host) b']' (b':' ∷ digits) all refl,
          match_port-digits digits d k l,
        )
        refl

parse_ip_of_name : parse_ip (codes "localhost") ≡ none
unfolding parse_ip
parse_ip_of_name = refl

-- The code parses the address that the host names.
parse_ip-named :
    (literal : Bytes) (ip : Ip) → IsNamed literal ip → parse_ip (literal_host literal) ≡ some ip
unfolding same
parse_ip-named literal ip (localhost e i) =
    ap (λ l. parse_ip (literal_host l)) e ∙ parse_ip_localhost ∙ ap some (sym i)
parse_ip-named literal ip (numeric p) = elim (Bool-cases (same literal (codes "localhost"))) [
  | inl local ↦
      let text : literal ≡ codes "localhost" = eq_of_same literal (codes "localhost") local in
      let unread : parse_ip literal ≡ none = ap parse_ip text ∙ parse_ip_of_name in cc
  | inr other ↦ rw (other) p
]

IsNamed-nonempty : (literal : Bytes) (ip : Ip) → IsNamed literal ip → 1 ≤ length literal
unfolding parse_ip
IsNamed-nonempty [] ip (localhost e i) = cc
IsNamed-nonempty [] ip (numeric p) = cc
IsNamed-nonempty (c ∷ s) ip h = omega arith

loopback_text_lem : (ip : Ip) (host : Bytes) → IsLoopback ip host → loopback_text ip ≡ some host
unfolding loopback_text
loopback_text_lem ip host (ipv4 b c d _ _ _ i e) = ap loopback_text i ∙ ap some (sym e)
loopback_text_lem ip host (ipv6 i e) = ap loopback_text i ∙ ap some (sym e)

check_accepted :
    (address literal digits host : Bytes) (ip : Ip) (port : ℕ)
    → port ≡ port_number 0 digits
    → 1 ≤ port
    → port ≤ 65535
    → parse_ip (literal_host literal) ≡ some ip
    → loopback_text ip ≡ some host
    → check_host_port address literal digits ≡ ok (host, port)
unfolding check_host_port
check_accepted address literal digits host ip port value low high p t =
    let in_range : (ltb port 1 || ltb 65535 port) ≡ false = ground (arith, low, high) in
    rw (sym value, in_range, p, t) refl

some_digits : (digits : Bytes) → 1 ≤ port_number 0 digits → 1 ≤ length digits
unfolding port_number
some_digits [] h = h
some_digits (c ∷ s) h = omega arith

-- ParseLoopbackAddr accepts every plain host:port, the host in brackets or of name characters,
-- whose port of one to five digits is between 1 and 65535, and whose host names a loopback IP
-- address, as localhost or as a text that net.ParseIP reads as 127.b.c.d or ::1; and it returns
-- the text of this IP address and the port.
pub parse_loopback_addr-accepted :
    (address host : Bytes) (port : ℕ)
    → IsAccepted address host port
    → parse_loopback_addr address ≡ ok (host, port)
unfolding parse_loopback_addr
parse_loopback_addr-accepted address host port a =
    let found =
      match_tcp-plain address a.literal a.digits a.plain
        (IsNamed-nonempty a.literal a.ip a.named_ip) a.digits_only
        (some_digits a.digits (subst (λ n. 1 ≤ n) a.port_value a.port_positive)) a.few_digits in
    rw (found) (
      check_accepted address a.literal a.digits host a.ip port a.port_value a.port_positive
        a.port_capped (parse_ip-named a.literal a.ip a.named_ip)
        (loopback_text_lem a.ip host a.loopback))
