-- ===== src/Admission/Config/Match.antt =====
-- What tcpAddr matches (admission/config.go: tcpAddr, ParseLoopbackAddr).
use mitrity_go.Base.{
  ℕ, ◌≤◌, ◌≡◌, refl, sym, ap, ◌∙◌, Bool, true, [], ◌∷◌, ◌++◌, Option, none, some, arith, Bytes,
  length, All, inl, inr, Bool-cases, ◌==◌, ◌≢◌,
}
use mathlib.Core.Path.{subst, ap₂}
use mathlib.Core.List.{append-nil}
use mitrity_go.Admission.Config.Addr.{
  after_name, port_of, is_bracket_char, is_name_char, is_digit, span, match_port, match_tcp,
  with_host, after_bracket,
}

-- A plain host:port: a name or a bracketed host, a colon, a text for the port, and nothing else.
pub data IsPlain (address host digits : Bytes) : Type 0 where
  named :
      address ≡ host ++ b':' ∷ digits
      → All (λ c. is_name_char c ≡ true) host
      → IsPlain address host digits
  bracketed :
      address ≡ b'[' ∷ (host ++ b']' ∷ b':' ∷ digits)
      → All (λ c. is_bracket_char c ≡ true) host
      → IsPlain address host digits

append-span : (p : ℕ → Bool) (s : Bytes) → s ≡ (span p s).0 ++ (span p s).1
unfolding span
append-span p [] = refl
append-span p (c ∷ s) = ground (arith, append-span p s)

All-span : (p : ℕ → Bool) (s : Bytes) → All (λ c. p c ≡ true) (span p s).0
unfolding span
All-span p [] = tt
All-span p (c ∷ s) = elim (Bool-cases (p c)) [
  | inl h ↦ rw (h, span) (h, All-span p s)
  | inr h ↦ rw (h, span) tt
]

record IsPort (s digits : Bytes) : Type 0 where
  shape : s ≡ b':' ∷ digits
  digits_only : All (λ c. is_digit c ≡ true) digits
  some_digits : digits ≢ []
  few_digits : length digits ≤ 5

port_of-IsPort :
    (c : ℕ) (s : Bytes) (parts : Bytes × Bytes) (digits : Bytes)
    → s ≡ parts.0 ++ parts.1
    → All (λ d. is_digit d ≡ true) parts.0
    → port_of c parts ≡ some digits
    → IsPort (c ∷ s) digits
port_of-IsPort c s ([], rest) digits e all h = absurd (ground arith)
port_of-IsPort c s (d ∷ ds, x ∷ rest) digits e all h = absurd (ground arith)
port_of-IsPort c s (d ∷ ds, []) digits e all h =
    let same_digits : digits ≡ d ∷ ds = ground arith in
    let colon : c ≡ b':' = ground arith in
    record {
      shape = rw (colon, same_digits) (ap (λ t. b':' ∷ t) (e ∙ append-nil (d ∷ ds)));
      digits_only = rw same_digits all;
      some_digits = rw same_digits (λ k. cc);
      few_digits = rw same_digits (ground arith);
    }

match_port-IsPort : (s digits : Bytes) → match_port s ≡ some digits → IsPort s digits
unfolding match_port
match_port-IsPort [] digits h = cc
match_port-IsPort (c ∷ s) digits h =
    port_of-IsPort c s (span is_digit s) digits (append-span is_digit s) (All-span is_digit s) h

with_host-eq-some :
    (host : Bytes) (port : Option Bytes) {host' digits : Bytes}
    → with_host host port ≡ some (host', digits)
    → (port ≡ some digits) × (host' ≡ host)
with_host-eq-some host none h = cc
with_host-eq-some [] (some port) h = cc
with_host-eq-some (c ∷ host) (some port) h = ground arith

-- The address is a plain one, and its port one to five digits.
pub record IsMatch (address host digits : Bytes) : Type 0 where
  pub plain : IsPlain address host digits
  pub digits_only : All (λ c. is_digit c ≡ true) digits
  pub some_digits : digits ≢ []
  pub few_digits : length digits ≤ 5

IsMatch-of_IsPort :
    {address host digits rest : Bytes}
    → IsPort rest digits
    → IsPlain address host digits
    → IsMatch address host digits
IsMatch-of_IsPort port plain = record {
  plain = plain;
  digits_only = port.digits_only;
  some_digits = port.some_digits;
  few_digits = port.few_digits;
}

after_name-IsMatch :
    (address : Bytes) (parts : Bytes × Bytes) {host digits : Bytes}
    → address ≡ parts.0 ++ parts.1
    → All (λ c. is_name_char c ≡ true) parts.0
    → after_name parts ≡ some (host, digits)
    → IsMatch address host digits
after_name-IsMatch address (name, rest) {host} {digits} e all h =
    let (ported, same_host) = with_host-eq-some name (match_port rest) h in
    let port = match_port-IsPort rest digits ported in
    IsMatch-of_IsPort port (
      named (e ∙ ap₂ ◌++◌ (sym same_host) port.shape)
        (subst (All (λ c. is_name_char c ≡ true)) (sym same_host) all))

after_bracket-IsMatch :
    (s : Bytes) (parts : Bytes × Bytes) {host digits : Bytes}
    → s ≡ parts.0 ++ parts.1
    → All (λ c. is_bracket_char c ≡ true) parts.0
    → after_bracket parts ≡ some (host, digits)
    → IsMatch (b'[' ∷ s) host digits
after_bracket-IsMatch s (inside, []) {host} {digits} e all h = cc
after_bracket-IsMatch s (inside, c ∷ rest) {host} {digits} e all h =
    let close : c ≡ b']' = ground arith in
    let inner : with_host inside (match_port rest) ≡ some (host, digits) = ground arith in
    let (ported, same_host) = with_host-eq-some inside (match_port rest) inner in
    let port = match_port-IsPort rest digits ported in
    IsMatch-of_IsPort port (
      bracketed (ap (λ t. b'[' ∷ t) (e ∙ ap₂ ◌++◌ (sym same_host) (ap₂ ◌∷◌ close port.shape)))
        (subst (All (λ c. is_bracket_char c ≡ true)) (sym same_host) all))

pub match_tcp-IsMatch :
    (address : Bytes) {host digits : Bytes}
    → match_tcp address ≡ some (host, digits)
    → IsMatch address host digits
unfolding match_tcp
match_tcp-IsMatch [] h = cc
match_tcp-IsMatch (c ∷ s) {host} {digits} h = elim (Bool-cases (c == b'[')) [
  | inl bracket ↦
      let is_bracket : c ≡ b'[' = ground arith in
      let inner : after_bracket (span is_bracket_char s) ≡ some (host, digits) = ground arith in
      subst (λ d. IsMatch (d ∷ s) host digits) (sym is_bracket)
        (after_bracket-IsMatch s (span is_bracket_char s) (append-span is_bracket_char s)
          (All-span is_bracket_char s) inner)
  | inr other ↦
      let inner : after_name (span is_name_char (c ∷ s)) ≡ some (host, digits) = ground arith in
      after_name-IsMatch (c ∷ s) (span is_name_char (c ∷ s)) (append-span is_name_char (c ∷ s))
        (All-span is_name_char (c ∷ s)) inner
]
