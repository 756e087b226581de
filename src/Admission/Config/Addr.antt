-- ===== src/Admission/Config/Addr.antt =====
-- admission/config.go: SplitAddr, ParseLoopbackAddr and ValidateAddr.
use mitrity_go.Base.{
  ℕ, ◌+◌, ◌*◌, ◌-◌, Bool, false, not, ◌&&◌, ◌||◌, [], ◌∷◌, ◌++◌, Option, none, some, leb, ltb,
  within, ◌==◌, if◌then◌else◌, Bytes, length, codes, same, is_empty, Result, ok, err,
}
use mitrity_go.Std.Strings.{cut_prefix, quote}
use mitrity_go.Std.Ip.{Ip, parse_ip, loopback_text}
use mitrity_go.Admission.Errors.{Kind, GoError, failure}

pub data Network : Type 0 where
  unix tcp : Network

abbrev starts_with_slash : Bytes → Bool
starts_with_slash [] = false
starts_with_slash (c ∷ s) = c == b'/'

-- SplitAddr
unfoldable pub split_addr : Bytes → Network × Bytes
split_addr addr = elim (cut_prefix (codes "unix://") addr) [
  | some path ↦ (unix, path)
  | none ↦ elim (cut_prefix (codes "unix:") addr) [
    | some path ↦ (unix, path)
    | none ↦ if starts_with_slash addr then (unix, addr) else (tcp, addr)
  ]
]

-- The character classes of tcpAddr: between brackets, and for a name.
abbrev pub is_bracket_char : ℕ → Bool
is_bracket_char c =
    within 48 57 c || within b'A' b'F' c || within b'a' b'f' c || c == b':' || c == b'.'

abbrev pub is_name_char : ℕ → Bool
is_name_char c =
    within 48 57 c || within b'A' b'Z' c || within b'a' b'z' c || c == b'.' || c == b'-'

abbrev pub is_digit : ℕ → Bool
is_digit c = within 48 57 c

-- The longest run of a class, and the rest.
unfoldable pub span : (ℕ → Bool) → Bytes → Bytes × Bytes
span p [] = ([], [])
span p (c ∷ s) = let more = span p s in if p c then (c ∷ more.0, more.1) else ([], c ∷ s)

-- `:(\d{1,5})$`
abbrev pub port_of : ℕ → Bytes × Bytes → Option Bytes
port_of c (ds, rest) =
    if c == b':' && not (is_empty ds) && leb (length ds) 5 && is_empty rest then some ds else none

unfoldable pub match_port : Bytes → Option Bytes
match_port [] = none
match_port (c ∷ s) = port_of c (span is_digit s)

abbrev pub with_host : Bytes → Option Bytes → Option (Bytes × Bytes)
with_host host none = none
with_host host (some port) = if is_empty host then none else some (host, port)

abbrev pub after_bracket : Bytes × Bytes → Option (Bytes × Bytes)
after_bracket (host, []) = none
after_bracket (host, c ∷ s) = if c == b']' then with_host host (match_port s) else none

abbrev pub after_name : Bytes × Bytes → Option (Bytes × Bytes)
after_name (host, rest) = with_host host (match_port rest)

-- tcpAddr.FindStringSubmatch: the host, of either form, and the port.
unfoldable pub match_tcp : Bytes → Option (Bytes × Bytes)
match_tcp [] = none
match_tcp (c ∷ s) =
    if c == b'['
    then after_bracket (span is_bracket_char s)
    else after_name (span is_name_char (c ∷ s))

-- strconv.Atoi of digits.
unfoldable pub port_number : ℕ → Bytes → ℕ
port_number n [] = n
port_number n (c ∷ s) = port_number (n * 10 + (c - 48)) s

-- An em dash, in UTF-8.
abbrev pub dash : Bytes
dash = 0xE2 ∷ 0x80 ∷ 0x94 ∷ []

unfoldable pub about_addr : Bytes → Bytes → GoError
about_addr address why =
    failure Kind.config (codes "MITRITY_ADMISSION_ADDR=" ++ (quote address ++ why))

abbrev pub literal_host : Bytes → Bytes
literal_host host = if same host (codes "localhost") then codes "127.0.0.1" else host

abbrev pub text_of_ip : Option Ip → Option Bytes
text_of_ip none = none
text_of_ip (some ip) = loopback_text ip

unfoldable pub not_loopback : Bytes → GoError
not_loopback address = about_addr address (
    codes
      " is neither loopback nor a Unix socket: the admission API carries the command this agent is about to run and its token, and a routable address would send both to whatever answers there")

abbrev pub with_text : Bytes → ℕ → Option Bytes → Result GoError (Bytes × ℕ)
with_text address port none = err (not_loopback address)
with_text address port (some text) = ok (text, port)

-- The part of ParseLoopbackAddr behind the match.
unfoldable pub check_host_port : Bytes → Bytes → Bytes → Result GoError (Bytes × ℕ)
check_host_port address host digits =
    let port = port_number 0 digits in
    if ltb port 1 || ltb 65535 port
    then err (about_addr address (codes " has an invalid port"))
    else with_text address port (text_of_ip (parse_ip (literal_host host)))

unfoldable pub not_plain : Bytes → GoError
not_plain address = about_addr address (
    codes
      " is not a plain host:port: the admission address may carry no userinfo, path, query, fragment or whitespace")

abbrev pub check_match : Bytes → Option (Bytes × Bytes) → Result GoError (Bytes × ℕ)
check_match address none = err (not_plain address)
check_match address (some (host, digits)) = check_host_port address host digits

-- ParseLoopbackAddr
unfoldable pub parse_loopback_addr : Bytes → Result GoError (Bytes × ℕ)
parse_loopback_addr address = check_match address (match_tcp address)

abbrev pub ignore_value : Result GoError (Bytes × ℕ) → Option GoError
ignore_value (ok a) = none
ignore_value (err e) = some e

abbrev pub validate_split : Bytes → Network × Bytes → Option GoError
validate_split addr (unix, address) =
    if is_empty address then some (about_addr addr (codes " names no socket path")) else none
validate_split addr (tcp, address) = ignore_value (parse_loopback_addr address)

-- ValidateAddr; none is the nil error.
unfoldable pub validate_addr : Bytes → Option GoError
validate_addr addr = validate_split addr (split_addr addr)
