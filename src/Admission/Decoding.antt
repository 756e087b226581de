-- ===== src/Admission/Decoding.antt =====
-- What parseDecision reads of a response (admission/types.go).
use mitrity_go.Base.{
  ◌∙◌, ap, ◌↔◌, ok_injective, Option-cases, subst, ◌≡◌, refl, Option, none, some, Bytes, codes,
  same, eq_of_same, inl, inr, ok, >>=-eq-ok, arith, Bool-cases,
}
use mitrity_go.Std.Float.{Float}
use mitrity_go.Std.Value.{Value, Fields, float, nil, object, get}
use mitrity_go.Std.Json.{unmarshal}
use mitrity_go.Admission.Types.{
  zero_float, Decision, decision_kind, decision_of_object, parse_decision, parse_kind, parse_risk,
  parse_updated, parse_body, as_object, string_member,
}
use mitrity_go.Admission.Requests.{DecisionKind, allow, deny, held, decision_text}

-- A member of type Float, 0 when absent.
pub data IsRisk : Option Value → Float → Type 0 where
  risk_absent : IsRisk none zero_float
  risk_given : (x : Float) → IsRisk (some (float x)) x

-- A member that is an object; none when absent or null.
pub data IsUpdate : Option Value → Option Fields → Type 0 where
  no_update : IsUpdate none none
  null_update : IsUpdate (some nil) none
  update : (m : Fields) → IsUpdate (some (object m)) (some m)

-- The decision that a JSON object stands for.
pub record IsDecision (m : Fields) (d : Decision) : Type 0 where
  pub kind : string_member m (codes "decision") ≡ decision_text d.decision
  pub reason : d.reason ≡ string_member m (codes "reason")
  pub admission_id : d.admission_id ≡ string_member m (codes "admission_id")
  pub risk_score : IsRisk (get (codes "risk_score") m) d.risk_score
  pub approval_id : d.approval_id ≡ string_member m (codes "approval_id")
  pub updated_input : IsUpdate (get (codes "updated_input") m) d.updated_input
  pub routed_to : d.routed_to ≡ string_member m (codes "routed_to")

decision_kind-text : (s : Bytes) (k : DecisionKind) → decision_kind s ≡ some k → s ≡ decision_text k
unfolding decision_kind
decision_kind-text s k h = elim (Bool-cases (same s (codes "allow"))) [
  | inl e ↦ ground (arith, eq_of_same s (codes "allow") e)
  | inr e ↦ elim (Bool-cases (same s (codes "deny"))) [
    | inl e' ↦ ground (arith, eq_of_same s (codes "deny") e')
    | inr e' ↦ ground (arith, eq_of_same s (codes "held"))
  ]
]

decision_text-kind : (k : DecisionKind) → decision_kind (decision_text k) ≡ some k
unfolding decision_kind same
decision_text-kind allow = refl
decision_text-kind deny = refl
decision_text-kind held = refl

parse_risk-IsRisk : (v : Option Value) (x : Float) → parse_risk v ≡ ok x → IsRisk v x
parse_risk-IsRisk none x h = subst (λ y. IsRisk none y) (ok_injective _ _ h) risk_absent
parse_risk-IsRisk (some (float y)) x h =
    subst (λ z. IsRisk (some (float y)) z) (ok_injective _ _ h) (risk_given y)
parse_risk-IsRisk (some v) x h = cc

IsRisk-parse_risk : (v : Option Value) (x : Float) → IsRisk v x → parse_risk v ≡ ok x
IsRisk-parse_risk _ _ risk_absent = refl
IsRisk-parse_risk _ _ (risk_given x) = refl

parse_updated-IsUpdate :
    (v : Option Value) (m : Option Fields) → parse_updated v ≡ ok m → IsUpdate v m
parse_updated-IsUpdate none m h = subst (λ y. IsUpdate none y) (ok_injective _ _ h) no_update
parse_updated-IsUpdate (some nil) m h =
    subst (λ y. IsUpdate (some nil) y) (ok_injective _ _ h) null_update
parse_updated-IsUpdate (some (object o)) m h =
    subst (λ y. IsUpdate (some (object o)) y) (ok_injective _ _ h) (update o)
parse_updated-IsUpdate (some v) m h = cc

IsUpdate-parse_updated :
    (v : Option Value) (m : Option Fields) → IsUpdate v m → parse_updated v ≡ ok m
IsUpdate-parse_updated _ _ no_update = refl
IsUpdate-parse_updated _ _ null_update = refl
IsUpdate-parse_updated _ _ (update m) = refl

parse_kind-text : (s : Bytes) (k : DecisionKind) → parse_kind s ≡ ok k → s ≡ decision_text k
parse_kind-text s k h = elim (Option-cases (decision_kind s)) [
  | inl e ↦ ground arith
  | inr (k', e) ↦ ground (arith, decision_kind-text s k)
]

text-parse_kind : (s : Bytes) (k : DecisionKind) → s ≡ decision_text k → parse_kind s ≡ ok k
text-parse_kind s k h = rw (h, parse_kind, decision_text-kind k) refl

module _ (m : Fields) (d : Decision) where
  -- The decision with these parts, and the strings of the object.
  abbrev built : DecisionKind → Float → Option Fields → Decision
  built kind risk updated = record {
    decision = kind;
    reason = string_member m (codes "reason");
    admission_id = string_member m (codes "admission_id");
    risk_score = risk;
    approval_id = string_member m (codes "approval_id");
    updated_input = updated;
    routed_to = string_member m (codes "routed_to");
  }

  built-IsDecision :
      (kind : DecisionKind) (risk : Float) (updated : Option Fields)
      → parse_kind (string_member m (codes "decision")) ≡ ok kind
      → parse_risk (get (codes "risk_score") m) ≡ ok risk
      → parse_updated (get (codes "updated_input") m) ≡ ok updated
      → built kind risk updated ≡ d
      → IsDecision m d
  built-IsDecision kind risk updated k r u e = subst (IsDecision m) e (record {
    kind = parse_kind-text _ kind k;
    reason = refl;
    admission_id = refl;
    risk_score = parse_risk-IsRisk _ risk r;
    approval_id = refl;
    updated_input = parse_updated-IsUpdate _ updated u;
    routed_to = refl;
  })

  decision_of_object-IsDecision : decision_of_object m ≡ ok d → IsDecision m d
  unfolding decision_of_object
  decision_of_object-IsDecision h =
      let (kind, k, h1) = >>=-eq-ok _ _ h in
      let (risk, r, h2) = >>=-eq-ok _ _ h1 in
      let (updated, u, h3) = >>=-eq-ok _ _ h2 in
      built-IsDecision kind risk updated k r u (ok_injective _ _ h3)

  IsDecision-decision_of_object : IsDecision m d → decision_of_object m ≡ ok d
  unfolding decision_of_object
  IsDecision-decision_of_object h =
      rw
        (
          text-parse_kind _ d.decision h.kind,
          IsRisk-parse_risk _ d.risk_score h.risk_score,
          IsUpdate-parse_updated _ d.updated_input h.updated_input,
          ← h.reason,
          ← h.admission_id,
          ← h.approval_id,
          ← h.routed_to,
        )
        refl

parse_body-ok : (body : Bytes) (v : Value) → (parse_body body ≡ ok v) ↔ (unmarshal body ≡ some v)
parse_body-ok body v = elim (Option-cases (unmarshal body)) [
  | inl e ↦ (λ h. ground arith, λ h. ground arith)
  | inr (w, e) ↦ (λ h. ground arith, λ h. ground arith)
]

as_object-ok : (v : Value) (m : Fields) → as_object v ≡ ok m → v ≡ object m
as_object-ok (object o) m h = ap object (ok_injective _ _ h)
as_object-ok v m h = cc

-- parseDecision accepts a body as a decision exactly when the body is JSON for an object whose
-- decision member is the string allow, deny or held of that decision, whose risk_score is absent
-- (read as 0) or that number, whose updated_input is absent, null (both read as none) or that
-- object, and whose string members are the decision's, empty where they are not strings.
pub parse_decision-IsDecision :
    (body : Bytes) (d : Decision)
    → (parse_decision body ≡ ok d)
      ↔ ((m : Fields) × (unmarshal body ≡ some (object m)) × IsDecision m d)
unfolding parse_decision
parse_decision-IsDecision body d = (
  λ h.
      let (v, read, h1) = >>=-eq-ok _ _ h in
      let (m, is_object, h2) = >>=-eq-ok _ _ h1 in
      (
        m,
        (parse_body-ok body v).0 read ∙ ap some (as_object-ok v m is_object),
        decision_of_object-IsDecision m d h2,
      ),
  λ (m, read, h). rw ((parse_body-ok body (object m)).1 read) (IsDecision-decision_of_object m d h),
)
