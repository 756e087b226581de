-- ===== src/Admission/Client/Interpret.antt =====
-- Which responses interpret turns into a body, and what its errors are (admission/client.go).
use mitrity_go.Base.{
  ℕ, ◌≡◌, ◌≢◌, refl, true, List, [], ◌∷◌, Option, none, some, arith, Bytes, is_some, ok, ◌⊎◌, inl,
  inr, eq_of_same,
}
use mitrity_go.Std.Json.{valid, unmarshal}
use mitrity_go.Admission.Types.{Decision, parse_decision}
use mitrity_go.Admission.Config.{Config}
use mitrity_go.Admission.Client.Messages.{
  interpret, interpret_version, interpret_status, wrong_version, header_values, header_version,
  protocol_version,
}

-- The version header is there, and its first value is the version of this adapter.
pub data SpeaksVersion (header : List (Bytes × List Bytes)) : Type 0 where
  first_value :
      (more : List Bytes)
      → header_values header_version header ≡ some (protocol_version ∷ more)
      → SpeaksVersion header
  no_value : header_values header_version header ≡ some [] → SpeaksVersion header

module _ (cfg : Config) (status : ℕ) (body : Bytes) where
  interpret_status-ok :
      (versions : Option (List Bytes)) (out : Bytes)
      → interpret_status cfg status body versions ≡ ok out
      → ((status ≡ 204) × (out ≡ []))
        ⊎ ((status ≡ 200) × (is_some versions ≡ true) × (valid body ≡ true) × (out ≡ body))
  unfolding interpret_status
  interpret_status-ok versions out h = ground arith

  SpeaksVersion_of :
      (header : List (Bytes × List Bytes)) (versions : Option (List Bytes))
      → header_values header_version header ≡ versions
      → is_some versions ≡ true
      → wrong_version versions ≡ none
      → SpeaksVersion header
  SpeaksVersion_of header none e h k = cc
  SpeaksVersion_of header (some []) e h k = no_value e
  SpeaksVersion_of header (some (v ∷ vs)) e h k =
      first_value vs (rw (← eq_of_same v protocol_version (ground arith)) e)

  interpret_version-ok :
      (header : List (Bytes × List Bytes)) (versions : Option (List Bytes)) (wrong : Option Bytes)
      (out : Bytes)
      → header_values header_version header ≡ versions
      → wrong_version versions ≡ wrong
      → interpret_version cfg status body versions wrong ≡ ok out
      → ((status ≡ 204) × (out ≡ []))
        ⊎ ((status ≡ 200) × SpeaksVersion header × (valid body ≡ true) × (out ≡ body))
  interpret_version-ok header versions (some v) out e k h = cc
  interpret_version-ok header versions none out e k h = elim (interpret_status-ok versions out h) [
    | inl (a, b) ↦ inl (a, b)
    | inr (a, b, v, d) ↦ inr (a, SpeaksVersion_of header versions e b k, v, d)
  ]

  -- interpret returns bytes only for a 204, and then none, or for a 200 whose version header names
  -- this adapter's protocol and whose body is valid JSON, and then that body.
  pub interpret-eq-ok :
      (header : List (Bytes × List Bytes)) (out : Bytes)
      → interpret cfg status body header ≡ ok out
      → ((status ≡ 204) × (out ≡ []))
        ⊎ ((status ≡ 200) × SpeaksVersion header × (valid body ≡ true) × (out ≡ body))
  unfolding interpret
  interpret-eq-ok header out h = interpret_version-ok header _ _ out refl refl h

pub parse_decision-nil : (d : Decision) → parse_decision [] ≢ ok d
unfolding parse_decision unmarshal
parse_decision-nil d h = cc
