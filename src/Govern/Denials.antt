-- ===== src/Govern/Denials.antt =====
-- What a caller of Admit learns from its error (govern/governor.go: Admit; govern/errors.go).
use mitrity_go.Base.{
  is_some, ◌+◌, ◌≡◌, refl, Bool, true, false, Option, none, some, Bytes, Result, ok, err, arith,
  Bool-cases, inl, inr, is_empty,
}
use mitrity_go.Std.Value.{Fields}
use mitrity_go.Admission.Errors.{GoError, errors_is}
use mitrity_go.Admission.Types.{Verdict, Decision}
use mitrity_go.Admission.Requests.{deny, held}
use mitrity_go.Admission.World.{World}
use mitrity_go.Admission.Client.Decide.{decide}
use mitrity_go.Admission.Client.Outcomes.{
  Outcome, permitted, denied, on_hold, no_decision, hold_failed, decide_within-Outcome,
}
use mitrity_go.Govern.Denied.{
  DeniedError, err_denied, other_error, denied_error_is, unwrap_denied, cause_is, denied_is,
  denied_by_policy, denied_on_hold, denied_unreachable, denied_decision,
}
use mitrity_go.Govern.Admit.{
  GovernorEnv, State, Context, conclude, judge, admit, session_for, tool_use_id_for, cwd_for,
  request_for,
}

-- What the methods of the error say.
pub record Says (e : DeniedError) (by_policy on_hold unreachable : Bool) (cause : Option GoError)
    : Type 0 where
  pub is_policy : denied_by_policy e ≡ by_policy
  pub is_held : denied_on_hold e ≡ on_hold
  pub is_unreachable : denied_unreachable e ≡ unreachable
  pub unwraps : unwrap_denied e ≡ cause

-- The four reasons of a denial.
pub data Reason (e : DeniedError) : Type 0 where
  policy :
      (d : Decision)
      → d.decision ≡ deny
      → denied_decision e ≡ some d
      → Says e true false false none
      → Reason e
  unanswered :
      (d : Decision)
      → d.decision ≡ held
      → denied_decision e ≡ some d
      → Says e false true false none
      → Reason e
  undecided :
      (cause : GoError) → denied_decision e ≡ none → Says e false false true (some cause) → Reason e
  hold_broken :
      (d : Decision) (cause : GoError)
      → d.decision ≡ held
      → denied_decision e ≡ some d
      → Says e false true true (some cause)
      → Reason e

-- The error matches ErrDenied, and another error exactly when its cause does.
pub record Matches (e : DeniedError) : Type 0 where
  pub denied : denied_is e err_denied ≡ true
  pub by_cause :
      (target : GoError)
      → denied_is e (other_error target)
        ≡ elim (unwrap_denied e) [ none ↦ false | some cause ↦ errors_is cause target ]

cause_is_lem :
    (e : DeniedError) (cause : Option GoError) (target : GoError)
    → cause_is e cause (other_error target)
      ≡ elim cause [ none ↦ false | some found ↦ errors_is found target ]
cause_is_lem e none target = refl
cause_is_lem e (some found) target = refl

no_error : (o : Option GoError) → is_some o ≡ false → o ≡ none
no_error none h = refl
no_error (some e) h = cc

Matches-all : (e : DeniedError) → Matches e
unfolding denied_is denied_error_is unwrap_denied
Matches-all e = record { denied = refl; by_cause = λ target. cause_is_lem e e.verdict.error target }

Reason-of_Outcome : (e : DeniedError) → e.verdict.allowed ≡ false → Outcome e.verdict → Reason e
unfolding denied_by_policy denied_on_hold denied_unreachable unwrap_denied denied_decision
Reason-of_Outcome e h (permitted d k r) = absurd (ground (arith, h, r.is_allowed))
Reason-of_Outcome e h (denied d k r) = policy d k r.has_decision (record {
  is_policy = r.is_policy;
  is_held = r.is_held;
  is_unreachable = r.is_unreachable;
  unwraps = no_error e.verdict.error r.is_unreachable;
})
Reason-of_Outcome e h (on_hold d k r) = unanswered d k r.has_decision (record {
  is_policy = r.is_policy;
  is_held = r.is_held;
  is_unreachable = r.is_unreachable;
  unwraps = no_error e.verdict.error r.is_unreachable;
})
Reason-of_Outcome e h (no_decision cause k r) = undecided cause r.has_decision (record {
  is_policy = r.is_policy;
  is_held = r.is_held;
  is_unreachable = r.is_unreachable;
  unwraps = k;
})
Reason-of_Outcome e h (hold_failed d cause k q r) = hold_broken d cause k r.has_decision (record {
  is_policy = r.is_policy;
  is_held = r.is_held;
  is_unreachable = r.is_unreachable;
  unwraps = q;
})

-- A result that is an input, or a denial with a reason.
abbrev pub Explained : Result DeniedError Fields → Type 0
Explained (ok out) = Unit
Explained (err e) = Matches e × Reason e

module _ {W : Type 0} (ge : GovernorEnv W) where
  conclude-Explained :
      (tool : Bytes) (input : Option Fields) (s : State W) (v : Verdict) (w : World W)
      → Outcome v
      → Explained (conclude ge tool input s (v, w)).0
  conclude-Explained tool input s v w h = elim (Bool-cases v.allowed) [
    | inl e ↦ elim (Bool-cases (is_empty v.routed_to)) [
      | inl r ↦ rw (e, r) tt
      | inr r ↦ rw (e, r) tt
    ]
    | inr e ↦
        let denial : DeniedError = record { tool = tool; verdict = v } in
        simp (e) (Matches-all denial, Reason-of_Outcome denial e h)
  ]

  judge-Explained :
      (session tool : Bytes) (input : Option Fields) (ctx : Context) (s : State W)
      → Explained (judge ge session tool input ctx s).0
  unfolding decide
  judge-Explained session tool input ctx s =
      let (id, w) = tool_use_id_for ge ctx s.world in
      let g = record s.governor {
        stats = record s.governor.stats { admitted = s.governor.stats.admitted + 1 };
      } in
      let req = request_for ge g session (cwd_for ge g s.world.outside) tool input id in
      let r = decide ge.env g.client req w in
      conclude-Explained tool input (record s { governor = g; world = w }) r.0 r.1
        (decide_within-Outcome ge.env g.client req g.client.cfg.hold_timeout w)

  -- An error that Admit returns matches ErrDenied, and any other error exactly when it wraps a
  -- cause that matches it; and its methods tell one of four reasons: a deny of the edge
  -- (PolicyDenied, the decision, no cause), a hold nobody answered (Held, the decision, no
  -- cause), no decision because of an error (Unreachable, its cause, no decision), or a hold
  -- whose second request failed (Held and Unreachable, the held decision and the cause).
  pub admit-Explained :
      (ctx : Context) (tool : Bytes) (input : Option Fields) (s : State W)
      → Explained (admit ge ctx tool input s).0
  unfolding admit
  admit-Explained ctx tool input s = judge-Explained (session_for s.governor ctx) tool input ctx _
