-- ===== src/Admission/Requests.antt =====
-- admission/types.go: the surfaces, the kinds of decision, and the request with its wire form.
use mitrity_go.Base.{
  not, List, [], ◌∷◌, ◌++◌, Option, none, some, if◌then◌else◌, Bytes, codes, same, is_empty,
  is_some, Result, ok, err,
}
use mitrity_go.Base.Int.{ℤ, pos, negsuc}
use mitrity_go.Std.Strings.{trim_space, quote}
use mitrity_go.Std.Value.{Fields, str, int, object, end, put}
use mitrity_go.Admission.Errors.{Kind, GoError, failure}

abbrev pub surface_custom : Bytes
surface_custom = codes "custom"

-- FrameworkForSurface
abbrev pub framework_for_surface : List (Bytes × Bytes)
framework_for_surface =
    (codes "claude_code", codes "claude-code")
    ∷ (codes "claude_agent_sdk", codes "claude-agent-sdk")
    ∷ (codes "langchain", codes "langchain")
    ∷ (codes "openai_agents", codes "openai-agents")
    ∷ (codes "crewai", codes "crewai")
    ∷ (surface_custom, codes "custom")
    ∷ []

unfoldable pub framework_of : Bytes → List (Bytes × Bytes) → Option Bytes
framework_of s [] = none
framework_of s ((k, v) ∷ l) = if same k s then some v else framework_of s l

-- ExecCapableTools
abbrev pub exec_capable_tools : List Bytes
exec_capable_tools =
    codes "Bash"
    ∷ codes "Write"
    ∷ codes "Edit"
    ∷ codes "MultiEdit"
    ∷ codes "NotebookEdit"
    ∷ codes "WebFetch"
    ∷ codes "WebSearch"
    ∷ []

abbrev pub adapter_name : Bytes
adapter_name = codes "mitrity-go"

pub data DecisionKind : Type 0 where
  allow deny held : DecisionKind

abbrev pub decision_text : DecisionKind → Bytes
decision_text allow = codes "allow"
decision_text deny = codes "deny"
decision_text held = codes "held"

-- `tool_input` none is the nil map; `hold_timeout_seconds` none is the nil pointer.
pub record Request : Type 0 where
  pub tool_name : Bytes
  pub tool_input : Option Fields
  pub surface : Bytes
  pub framework_version : Bytes
  pub session_id : Bytes
  pub cwd : Bytes
  pub tool_use_id : Bytes
  pub hold_timeout_seconds : Option ℤ

abbrev pub object_or_empty : Option Fields → Fields
object_or_empty none = end
object_or_empty (some m) = m

-- `if s != "" { body[key] = s }`
unfoldable pub put_string : Bytes → Bytes → Fields → Fields
unfolding put
put_string key s body = if is_empty s then body else put key (str s) body

abbrev pub put_hold : Option ℤ → Fields → Result GoError Fields
put_hold none body = ok body
put_hold (some (negsuc n)) body =
    err (failure Kind.protocol (codes "hold_timeout_seconds must not be negative"))
put_hold (some (pos n)) body = ok (put (codes "hold_timeout_seconds") (int (pos n)) body)

-- The surface that a request is sent with.
abbrev pub effective_surface : Request → Bytes
effective_surface r = if is_empty r.surface then surface_custom else r.surface

-- The members that every request has.
abbrev pub request_base : Request → Fields
request_base r = put (codes "tool_input") (object (object_or_empty r.tool_input)) (
    put (codes "tool_name") (str r.tool_name)
      (put (codes "surface") (str (effective_surface r)) end))

-- The members that are omitted when empty.
abbrev pub request_strings : Request → Fields → Fields
request_strings r body = put_string (codes "tool_use_id") r.tool_use_id (
    put_string (codes "cwd") r.cwd (
      put_string (codes "session_id") r.session_id
        (put_string (codes "framework_version") r.framework_version body)))

-- Request.wire
unfoldable pub request_wire : Request → Result GoError Fields
unfolding framework_of put_string put trim_space quote
request_wire r =
    if not (is_some (framework_of (effective_surface r) framework_for_surface))
    then err (failure Kind.protocol (codes "unknown surface " ++ quote (effective_surface r)))
    else if is_empty (trim_space r.tool_name)
    then err (failure Kind.protocol (codes "tool_name is required"))
    else put_hold r.hold_timeout_seconds (request_strings r (request_base r))

-- Request.withHold
abbrev pub with_hold : Request → ℤ → Request
with_hold r seconds = record r { hold_timeout_seconds = some seconds }
