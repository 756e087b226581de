-- ===== src/Admission/Config.antt =====
-- admission/config.go: where the edge is and how long to wait for it. The address is in Addr.
pub mod Addr
pub mod Bounds
pub mod Match
pub mod Loopback
pub mod Accepting
pub mod RoundTrip
use mitrity_go.Base.{
  ℕ, ◌+◌, ◌*◌, ◌^◌, ◌-◌, Bool, true, false, not, ◌||◌, List, [], ◌∷◌, Option, none, some, leb, ltb,
  ◌==◌, if◌then◌else◌, Bytes, length, codes, is_empty, ◌++◌,
}
use mitrity_go.Base.Int.{ℤ, pos, negsuc, ltb_ℤ, leb_ℤ}
use mitrity_go.Admission.Config.Addr.{Network, split_addr}
use mitrity_go.Std.Strings.{trim_space}
use mitrity_go.Std.Float.{Float, nan, inf, finite, of_decimal, of_ℕ, times, whole}
use mitrity_go.Std.Duration.{Duration, second, is_digit, parse_duration as go_parse_duration}

abbrev pub env_addr : Bytes
env_addr = codes "MITRITY_ADMISSION_ADDR"

abbrev pub env_token_file : Bytes
env_token_file = codes "MITRITY_ADMISSION_TOKEN_FILE"

abbrev pub env_timeout : Bytes
env_timeout = codes "MITRITY_HOOK_TIMEOUT"

abbrev pub env_hold_timeout : Bytes
env_hold_timeout = codes "MITRITY_HOOK_HOLD_TIMEOUT"

abbrev pub default_timeout : Duration
default_timeout = pos 500000000

abbrev pub max_timeout : Duration
max_timeout = pos (30 * second)

abbrev pub default_hold_timeout : Duration
default_hold_timeout = pos (540 * second)

abbrev pub max_hold_timeout : Duration
max_hold_timeout = pos (570 * second)

abbrev pub hold_margin : Duration
hold_margin = pos (5 * second)

abbrev pub attest_timeout : Duration
attest_timeout = pos (5 * second)

-- What the program asks of the operating system: runtime.GOOS, os.Getenv and filepath.Join.
pub record Platform : Type 0 where
  pub is_windows : Bool
  pub getenv : Bytes → Bytes
  pub join : List Bytes → Bytes

abbrev program_data : Platform → Bytes
program_data p =
    let v = p.getenv (codes "PROGRAMDATA") in if is_empty v then codes "C:\\ProgramData" else v

-- PlatformDefaults
unfoldable pub platform_defaults : Platform → Bytes × Bytes
platform_defaults p =
    if p.is_windows
    then (
      codes "127.0.0.1:8777",
      p.join (program_data p ∷ codes "Mitrity" ∷ codes "admission.token" ∷ []),
    )
    else (codes "unix:/run/mitrity/admission.sock", codes "/run/mitrity/admission.token")

unfoldable pub span_digits : Bytes → Bytes × Bytes
span_digits [] = ([], [])
span_digits (c ∷ s) =
    let more = span_digits s in if is_digit c then (c ∷ more.0, more.1) else ([], c ∷ s)

-- A bare number: its sign, the digits before and those after the point.
abbrev fraction_digits : Bytes → Bytes → Option (Bytes × Bytes)
fraction_digits ds [] = if is_empty ds then none else some (ds, [])
fraction_digits ds (c ∷ s) =
    let (fs, rest) = span_digits s in
    if not (c == b'.') || not (is_empty rest)
    then none
    else if is_empty ds
    then (if is_empty fs then none else some (ds, fs))
    else some (ds, fs)

abbrev unsigned_number : Bool → Bytes → Option (Bool × Bytes × Bytes)
unsigned_number neg s =
    let (ds, rest) = span_digits s in
    elim (fraction_digits ds rest) [ none ↦ none | some (w, fs) ↦ some (neg, w, fs) ]

-- bareNumber.MatchString, with the parts of the match.
unfoldable pub bare_number : Bytes → Option (Bool × Bytes × Bytes)
unfolding span_digits
bare_number [] = none
bare_number (c ∷ s) =
    if c == b'-'
    then unsigned_number true s
    else if c == b'+'
    then unsigned_number false s
    else unsigned_number false (c ∷ s)

unfoldable pub decimal : ℕ → Bytes → ℕ
decimal n [] = n
decimal n (c ∷ s) = decimal (n * 10 + (c - 48)) s

abbrev signed_whole : Bool → ℕ → Duration
signed_whole false n = if leb (2 ^ 63) n then pos (2 ^ 63 - 1) else pos n
signed_whole true n =
    if leb (2 ^ 63) n
    then negsuc (2 ^ 63 - 1)
    else elim (leb n 0) [ true ↦ pos 0 | false ↦ negsuc (n - 1) ]

-- Truncation to int64 nanoseconds, with what is out of range at the ends.
unfoldable pub nanos_to_duration : Float → Duration
unfolding whole
nanos_to_duration nan = pos 0
nanos_to_duration (inf false) = pos (2 ^ 63 - 1)
nanos_to_duration (inf true) = negsuc (2 ^ 63 - 1)
nanos_to_duration (finite s m e) = signed_whole s (whole m e)

-- secondsToDuration
unfoldable pub seconds_to_duration : Float → Duration
unfolding nanos_to_duration times of_ℕ
seconds_to_duration seconds = nanos_to_duration (times seconds (of_ℕ second))

abbrev parsed_number : Bool × Bytes × Bytes → Option Float
parsed_number (neg, w, fs) = of_decimal neg (length (w ++ fs)) (decimal 0 (w ++ fs)) 0 (length fs)

abbrev or_else {ℓ} : {A : Type ℓ} → A → Option A → A
or_else d none = d
or_else d (some a) = a

-- ParseDuration
unfoldable pub parse_duration : Bytes → Duration → Duration
unfolding bare_number seconds_to_duration go_parse_duration decimal of_decimal trim_space
parse_duration value fallback =
    let text = trim_space value in
    if is_empty text then fallback else elim (bare_number text) [
      | some parts ↦ elim (parsed_number parts) [ none ↦ fallback | some x ↦ seconds_to_duration x ]
      | none ↦ or_else fallback (go_parse_duration text)
    ]

pub record Config : Type 0 where
  pub addr : Bytes
  pub token_file : Bytes
  pub timeout : Duration
  pub hold_timeout : Duration

-- The clamps of Config.Normalized, one for each timeout.
unfoldable pub clamp_timeout : Duration → Duration
clamp_timeout t =
    let t' = if leb_ℤ t (pos 0) then default_timeout else t in
    if ltb_ℤ max_timeout t' then max_timeout else t'

unfoldable pub clamp_hold : Duration → Duration
clamp_hold t =
    let t' = if ltb_ℤ t (pos 0) then pos 0 else t in
    if ltb_ℤ max_hold_timeout t' then max_hold_timeout else t'

-- Config.Normalized
unfoldable pub normalized : Config → Config
normalized c = record c {
  timeout = clamp_timeout c.timeout;
  hold_timeout = clamp_hold c.hold_timeout;
}

-- Config.Network
unfoldable pub config_network : Config → Network
unfolding split_addr
config_network c = (split_addr c.addr).0

-- Config.Address
unfoldable pub config_address : Config → Bytes
unfolding split_addr
config_address c = (split_addr c.addr).1

abbrev non_empty_or : Bytes → Bytes → Bytes
non_empty_or s d = if is_empty s then d else s

abbrev lookup_in : Platform → Option (Bytes → Bytes) → Bytes → Bytes
lookup_in p lookup key = elim lookup [ none ↦ p.getenv key | some f ↦ f key ]

-- FromEnviron; no lookup function reads the process environment.
unfoldable pub from_environ : Platform → Option (Bytes → Bytes) → Config
from_environ p lookup =
    let (default_addr, default_token) = platform_defaults p in
    normalized (record {
      addr = non_empty_or (trim_space (lookup_in p lookup env_addr)) default_addr;
      token_file = non_empty_or (trim_space (lookup_in p lookup env_token_file)) default_token;
      timeout = parse_duration (lookup_in p lookup env_timeout) default_timeout;
      hold_timeout = parse_duration (lookup_in p lookup env_hold_timeout) default_hold_timeout;
    })

-- FromEnv
unfoldable pub from_env : Platform → Config
from_env p = from_environ p none
