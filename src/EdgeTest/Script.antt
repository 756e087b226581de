-- ===== src/EdgeTest/Script.antt =====
-- internal/edgetest/edge.go: the recorded requests and the scripted responses.
use mitrity_go.Base.{
  ℕ, zero, suc, Bool, true, false, List, [], Option, none, some, ◌==◌, if◌then◌else◌, Bytes, codes,
  is_empty,
}
use mitrity_go.Base.Int.{ℤ, pos, negsuc}
use mitrity_go.Std.Float.{Float, finite, whole}
use mitrity_go.Std.Value.{Value, Fields, nil, str, float, object, end, field, get, copy}

pub record Recorded : Type 0 where
  pub method : Bytes
  pub path : Bytes
  pub host : Bytes
  pub header : List (Bytes × Bytes)
  pub body : Option Fields
  pub raw : Bytes

abbrev body_or_empty : Option Fields → Fields
body_or_empty none = end
body_or_empty (some m) = m

abbrev truncated : Float → ℤ
truncated (finite true m e) = elim (whole m e) [ zero ↦ pos 0 | suc n ↦ negsuc n ]
truncated (finite false m e) = pos (whole m e)
truncated _ = pos 0

abbrev budget_of : Option Value → ℤ
budget_of (some (float x)) = truncated x
budget_of _ = negsuc 0

-- Recorded.HoldBudget
unfoldable pub hold_budget : Recorded → ℤ
hold_budget r = budget_of (get (codes "hold_timeout_seconds") (body_or_empty r.body))

-- Scripted.Body: nil, bytes as they are, or a value sent as JSON.
pub data ScriptedBody : Type 0 where
  no_body : ScriptedBody
  verbatim : Bytes → ScriptedBody
  json : Value → ScriptedBody

pub record Scripted : Type 0 where
  pub status : ℕ
  pub body : ScriptedBody
  pub delay : ℕ
  pub version : Bytes
  pub omit_version : Bool
  pub content_type : Bytes
  pub omit_content_type : Bool

-- A Scripted with a status and a body.
abbrev pub scripted : ℕ → ScriptedBody → Scripted
scripted status body = record {
  status = status;
  body = body;
  delay = 0;
  version = [];
  omit_version = false;
  content_type = [];
  omit_content_type = false;
}

-- A Response: a Scripted answers with itself, a ResponderFunc by its function.
abbrev pub Response : Type 0
Response = Recorded → Scripted

abbrev pub always : Scripted → Response
always s r = s

-- The values of risk_score that the scripts send: 0.1, 0.9 and 0.5.
abbrev tenth : Value
tenth = float (finite false 7205759403792794 1018)

abbrev nine_tenths : Value
nine_tenths = float (finite false 8106479329266893 1021)

abbrev half : Value
half = float (finite false 4503599627370496 1021)

abbrev decision_body : (decision reason : Bytes) → (approval risk : Value) → Bytes → Fields
decision_body decision reason approval risk id = field (codes "decision") (str decision) (
    field (codes "reason") (str reason) (
      field (codes "approval_id") approval (
        field (codes "risk_score") risk
          (field (codes "admission_id") (str id) (field (codes "updated_input") nil end)))))

-- Allow
unfoldable pub allow : Fields → Scripted
unfolding copy
allow extra = scripted 200 (
    json (
      object (
        copy (decision_body (codes "allow") (codes "allowed") nil tenth (codes "adm-allow"))
          extra)))

-- DenyReason
unfoldable pub deny_reason : Bytes
deny_reason = codes "policy rule \"no destructive commands\" denied resolved command: rm"

-- Deny
unfoldable pub deny : Bytes → Scripted
unfolding deny_reason
deny reason = scripted 200 (
    json (
      object (
        decision_body (codes "deny") (if is_empty reason then deny_reason else reason) nil
          nine_tenths (codes "adm-deny"))))

-- Held
unfoldable pub held : Bytes → Scripted
held approval = scripted 200 (
    json (
      object (
        decision_body (codes "held") (codes "policy requires human approval")
          (str (if is_empty approval then codes "apr-1" else approval)) half (codes "adm-held"))))

pub record HoldScript : Type 0 where
  pub outcome : Scripted
  pub wait : ℕ
  pub approval : Bytes

abbrev is_zero : ℤ → Bool
is_zero (pos n) = n == 0
is_zero (negsuc n) = false

-- HoldScript.Respond
unfoldable pub hold_respond : HoldScript → Response
unfolding hold_budget held allow
hold_respond h r =
    let approval = if is_empty h.approval then codes "apr-hold" else h.approval in
    if is_zero (hold_budget r)
    then held approval
    else record (if h.outcome.status == 0 then allow end else h.outcome) { delay = h.wait }
