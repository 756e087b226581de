-- ===== src/Admission/Client/Messages.antt =====
-- admission/client.go: summarize, reasonOr, interpret and the verdicts.
use mitrity_go.Base.{
  ℕ, Bool, true, false, not, ◌||◌, List, [], ◌∷◌, ◌++◌, Option, none, some, ltb, ◌==◌,
  if◌then◌else◌, Bytes, codes, same, is_empty, is_some, length, take, Result, ok, err,
}
use mitrity_go.Std.Utf8.{runes, encode_runes}
use mitrity_go.Std.Strings.{trim_space, quote, format_ℕ}
use mitrity_go.Std.Value.{Fields, get, string_or_empty}
use mitrity_go.Std.Json.{unmarshal_object, valid}
use mitrity_go.Admission.Errors.{Kind, GoError, failure, error_text}
use mitrity_go.Admission.Types.{Decision, Verdict}
use mitrity_go.Admission.Requests.{allow, deny, held}
use mitrity_go.Admission.Config.{Config}
use mitrity_go.Admission.Config.Addr.{dash}

abbrev pub protocol_version : Bytes
protocol_version = codes "1"

abbrev pub header_token : Bytes
header_token = codes "X-Mitrity-Admission-Token"

abbrev pub header_version : Bytes
header_version = codes "X-Mitrity-Admission-Version"

abbrev pub summary_limit : ℕ
summary_limit = 200

-- UnreachableHint
unfoldable pub unreachable_hint : Bytes
unreachable_hint =
    codes "This is not a policy decision "
    ++ (dash
        ++ codes
            " the governance edge could not be reached. Check that the MITRITY edge is running and that MITRITY_ADMISSION_ADDR names its admission socket.")

unfoldable pub blank_controls : List ℕ → List ℕ
blank_controls [] = []
blank_controls (r ∷ rs) = (if ltb r 0x20 || r == 0x7F then 0x20 else r) ∷ blank_controls rs

-- The cut of summarize: at most the limit, and an ellipsis behind it.
unfoldable pub cut_summary : Bytes → Bytes
cut_summary text =
    if ltb summary_limit (length text)
    then take summary_limit text ++ 0xE2 ∷ 0x80 ∷ 0xA6 ∷ []
    else text

-- summarize
unfoldable pub summarize : Bytes → Bytes
unfolding trim_space runes encode_runes blank_controls cut_summary
summarize body = cut_summary (encode_runes (blank_controls (runes (trim_space body))))

abbrev first_reason : Bytes → Fields → Bytes
first_reason body m =
    let reason = string_or_empty (get (codes "reason") m) in
    let error = string_or_empty (get (codes "error") m) in
    if not (is_empty reason)
    then summarize reason
    else if not (is_empty error)
    then summarize error
    else summarize body

-- reasonOr
unfoldable pub reason_or : Bytes → Bytes
unfolding unmarshal_object summarize
reason_or body = elim (unmarshal_object body) [
  | none ↦ summarize body
  | some m ↦ first_reason body m
]

-- header[k], and whether it is there.
unfoldable pub header_values : Bytes → List (Bytes × List Bytes) → Option (List Bytes)
header_values k [] = none
header_values k ((j, vs) ∷ h) = if same j k then some vs else header_values k h

-- `present && len(versions) > 0 && versions[0] != ProtocolVersion`
abbrev pub wrong_version : Option (List Bytes) → Option Bytes
wrong_version (some (v ∷ vs)) = if same v protocol_version then none else some v
wrong_version _ = none

unfoldable pub version_error : Config → Bytes → GoError
version_error cfg v = failure Kind.protocol (
    codes "admission API at "
    ++ (cfg.addr
        ++ (codes " speaks protocol version "
            ++ (quote v
                ++ (codes "; this adapter speaks "
                    ++ (quote protocol_version
                        ++ (codes " " ++ (dash ++ codes " upgrade the edge or the adapter"))))))))

unfoldable pub no_version_error : Config → GoError
no_version_error cfg = failure Kind.protocol (
    codes "admission API at "
    ++ (cfg.addr
        ++ (codes " answered without an "
            ++ (header_version
                ++ (codes " header "
                    ++ (dash
                        ++ codes
                            " not a MITRITY edge, or a protocol the adapter does not speak"))))))

unfoldable pub not_ready_error : Bytes → GoError
not_ready_error body =
    failure Kind.not_ready
      (codes "the MITRITY edge is not ready to judge (" ++ (reason_or body ++ codes ")"))

unfoldable pub bad_request_error : Bytes → GoError
bad_request_error body =
    failure Kind.protocol (codes "admission API rejected the request (400): " ++ reason_or body)

unfoldable pub status_error : ℕ → Bytes → GoError
status_error status body =
    failure Kind.protocol
      (codes "admission API returned " ++ (format_ℕ status ++ (codes ": " ++ summarize body)))

abbrev pub checked_body : Bytes → Result GoError Bytes
checked_body body =
    if valid body
    then ok body
    else err (failure Kind.protocol (codes "admission response was not valid JSON"))

-- The switch of interpret; `versions` is the version header.
unfoldable pub interpret_status : Config → ℕ → Bytes → Option (List Bytes) → Result GoError Bytes
interpret_status cfg status body versions =
    if status == 204
    then ok []
    else if status == 200
    then (if is_some versions then checked_body body else err (no_version_error cfg))
    else if status == 503
    then err (not_ready_error body)
    else if status == 400
    then err (bad_request_error body)
    else err (status_error status body)

abbrev pub interpret_version :
    Config → ℕ → Bytes → Option (List Bytes) → Option Bytes → Result GoError Bytes
interpret_version cfg status body versions (some v) = err (version_error cfg v)
interpret_version cfg status body versions none = interpret_status cfg status body versions

-- interpret
unfoldable pub interpret : Config → ℕ → Bytes → List (Bytes × List Bytes) → Result GoError Bytes
interpret cfg status body header =
    let versions = header_values header_version header in
    interpret_version cfg status body versions (wrong_version versions)

-- approvalOr
unfoldable pub approval_or : Decision → Bytes
approval_or d = if is_empty d.approval_id then codes "unknown" else d.approval_id

abbrev allow_verdict : Decision → Verdict
allow_verdict d = record {
  allowed = true;
  reason = d.reason;
  decision = some d;
  error = none;
  updated_input = d.updated_input;
  routed_to = d.routed_to;
  held = false;
}

-- A verdict that allows nothing.
abbrev refusal : Bytes → Option Decision → Option GoError → Bool → Verdict
refusal reason decision error on_hold = record {
  allowed = false;
  reason = reason;
  decision = decision;
  error = error;
  updated_input = none;
  routed_to = [];
  held = on_hold;
}

abbrev deny_reason : Decision → Bytes
deny_reason d = if is_empty d.reason then codes "MITRITY policy denied this action" else d.reason

abbrev held_reason : Decision → Bytes
held_reason d =
    codes "MITRITY is holding this action for human approval (approval "
    ++ (approval_or d
        ++ codes
            ") and it has not been approved. Ask the operator to approve it in the MITRITY console, then try again.")

-- verdictFor
unfoldable pub verdict_for : Decision → Verdict
verdict_for d = elim d.decision [
  | allow ↦ allow_verdict d
  | held ↦ refusal (held_reason d) (some d) none true
  | deny ↦ refusal (codes "MITRITY denied this action: " ++ deny_reason d) (some d) none false
]

-- unreachableVerdict
unfoldable pub unreachable_verdict : GoError → Verdict
unreachable_verdict e =
    refusal
      (codes "MITRITY could not authorize this action and blocked it: "
        ++ (error_text e ++ (codes ". " ++ unreachable_hint)))
      none (some e) false

-- holdFailedVerdict
unfoldable pub hold_failed_verdict : Decision → GoError → Verdict
hold_failed_verdict d e =
    refusal
      (codes "MITRITY held this action for human approval (approval "
        ++ (approval_or d
            ++ (codes ") and waiting on the approval failed: "
                ++ (error_text e ++ codes ". The action has not been approved."))))
      (some d) (some e) true
