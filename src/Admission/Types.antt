-- ===== src/Admission/Types.antt =====
-- admission/types.go: the decision and its parser, the verdict, the attestation and its wire form.
use mitrity_go.Base.{
  Bool, true, false, not, ◌&&◌, List, ◌++◌, Option, none, some, if◌then◌else◌, Bytes, codes, same,
  is_empty, is_some, Result, ok, err, ◌>>=◌,
}
use mitrity_go.Std.Strings.{quote}
use mitrity_go.Std.Float.{Float, finite}
use mitrity_go.Std.Value.{
  Value, Fields, nil, bool, str, float, strings, object, end, get, put, string_or_empty,
}
use mitrity_go.Std.Json.{unmarshal}
use mitrity_go.Admission.Errors.{Kind, GoError, failure, wrapping, plain}
use mitrity_go.Admission.Requests.{DecisionKind, allow, deny, held, put_string}

pub record Decision : Type 0 where
  pub decision : DecisionKind
  pub reason : Bytes
  pub admission_id : Bytes
  pub risk_score : Float
  pub approval_id : Bytes
  pub updated_input : Option Fields
  pub routed_to : Bytes

-- Decision.Allowed
abbrev pub decision_allowed : Decision → Bool
decision_allowed d = elim d.decision [ allow ↦ true | _ ↦ false ]

unfoldable pub decision_kind : Bytes → Option DecisionKind
decision_kind s =
    if same s (codes "allow")
    then some allow
    else if same s (codes "deny")
    then some deny
    else if same s (codes "held")
    then some held
    else none

abbrev pub as_object : Value → Result GoError Fields
as_object (object m) = ok m
as_object _ = err (failure Kind.protocol (codes "admission response was not a JSON object"))

abbrev pub zero_float : Float
zero_float = finite false 0 0

-- `risk_score`, 0 where it is absent.
abbrev pub parse_risk : Option Value → Result GoError Float
parse_risk none = ok zero_float
parse_risk (some (float x)) = ok x
parse_risk (some _) = err (failure Kind.protocol (codes "risk_score was not a number"))

-- `updated_input`, none where it is absent or null.
abbrev pub parse_updated : Option Value → Result GoError (Option Fields)
parse_updated none = ok none
parse_updated (some nil) = ok none
parse_updated (some (object m)) = ok (some m)
parse_updated (some _) = err (failure Kind.protocol (codes "updated_input was not an object"))

abbrev json_error : GoError
json_error = plain (codes "invalid JSON")

abbrev pub decoded : Option Value → Result GoError Value
decoded none =
    err (wrapping Kind.protocol (codes "admission response was not valid JSON") json_error)
decoded (some v) = ok v

abbrev pub parse_body : Bytes → Result GoError Value
parse_body body = decoded (unmarshal body)

abbrev pub recognized : Bytes → Option DecisionKind → Result GoError DecisionKind
recognized s none =
    err (failure Kind.protocol (codes "admission returned an unrecognized decision " ++ quote s))
recognized s (some k) = ok k

abbrev pub parse_kind : Bytes → Result GoError DecisionKind
parse_kind s = recognized s (decision_kind s)

abbrev pub string_member : Fields → Bytes → Bytes
string_member m key = string_or_empty (get key m)

-- The part of parseDecision that reads a JSON object.
unfoldable pub decision_of_object : Fields → Result GoError Decision
decision_of_object m = do
  kind ← parse_kind (string_member m (codes "decision"))
  risk ← parse_risk (get (codes "risk_score") m)
  updated ← parse_updated (get (codes "updated_input") m)
  ok (record {
    decision = kind;
    reason = string_member m (codes "reason");
    admission_id = string_member m (codes "admission_id");
    risk_score = risk;
    approval_id = string_member m (codes "approval_id");
    updated_input = updated;
    routed_to = string_member m (codes "routed_to");
  })

-- parseDecision
unfoldable pub parse_decision : Bytes → Result GoError Decision
parse_decision body = do data' ← parse_body body; m ← as_object data'; decision_of_object m

pub record Verdict : Type 0 where
  pub allowed : Bool
  pub reason : Bytes
  pub decision : Option Decision
  pub error : Option GoError
  pub updated_input : Option Fields
  pub routed_to : Bytes
  pub held : Bool

-- Verdict.PolicyDenied
abbrev pub policy_denied : Verdict → Bool
policy_denied v = not v.allowed && not (is_some v.error) && not v.held

-- Verdict.Unreachable
abbrev pub is_unreachable : Verdict → Bool
is_unreachable v = is_some v.error

pub record SandboxPosture : Type 0 where
  pub enabled : Option Bool
  pub allow_unsandboxed_commands : Option Bool
  pub fail_if_unavailable : Option Bool

-- nullableBool
unfoldable pub nullable_bool : Option Bool → Value
nullable_bool none = nil
nullable_bool (some b) = bool b

-- SandboxPosture.wire
unfoldable pub sandbox_wire : SandboxPosture → Fields
unfolding nullable_bool put
sandbox_wire s = put (codes "fail_if_unavailable") (nullable_bool s.fail_if_unavailable) (
    put (codes "allow_unsandboxed_commands") (nullable_bool s.allow_unsandboxed_commands)
      (put (codes "enabled") (nullable_bool s.enabled) end))

pub record Attestation : Type 0 where
  pub framework : Bytes
  pub framework_version : Bytes
  pub adapter : Bytes
  pub adapter_version : Bytes
  pub hooked_tools : List Bytes
  pub unhooked_exec_tools : List Bytes
  pub disallowed_tools : List Bytes
  pub other_mcp_servers : List Bytes
  pub permission_mode : Bytes
  pub sandbox : Option SandboxPosture
  pub config_hash : Bytes

-- `if len(value) > 0 { body[key] = value }`
unfoldable pub put_strings : Bytes → List Bytes → Fields → Fields
unfolding put
put_strings key l body = if is_empty l then body else put key (strings l) body

abbrev put_sandbox : Option SandboxPosture → Fields → Fields
put_sandbox none body = body
put_sandbox (some s) body = put (codes "sandbox") (object (sandbox_wire s)) body

-- Attestation.wire
unfoldable pub attestation_wire : Attestation → Fields
unfolding put_strings put_string sandbox_wire put
attestation_wire a =
    let base =
      put (codes "adapter_version") (str a.adapter_version)
        (put (codes "adapter") (str a.adapter) (put (codes "framework") (str a.framework) end)) in
    let lists = put_strings (codes "other_mcp_servers") a.other_mcp_servers (
      put_strings (codes "disallowed_tools") a.disallowed_tools (
        put_strings (codes "unhooked_exec_tools") a.unhooked_exec_tools (
          put_strings (codes "hooked_tools") a.hooked_tools
            (put_string (codes "framework_version") a.framework_version base)))) in
    put_string (codes "config_hash") a.config_hash
      (put_sandbox a.sandbox (put_string (codes "permission_mode") a.permission_mode lists))
