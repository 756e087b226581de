-- ===== src/Admission/Client/Outcomes.antt =====
-- The kinds of verdict, and the client of a refused address (admission/client.go: decide, request,
-- verdictFor, unreachableVerdict, holdFailedVerdict).
use mitrity_go.Base.{
  ℕ, zero, suc, ◌≡◌, refl, ap, Bool, true, false, [], Option, none, some, arith, Bytes, codes,
  Result, ok, err, ◌⊎◌, inl, inr,
}
use mitrity_go.Base.Int.{pos}
use mitrity_go.Std.Duration.{Duration}
use mitrity_go.Std.Value.{Value, Fields, object}
use mitrity_go.Admission.Errors.{GoError}
use mitrity_go.Admission.Types.{Decision, Verdict, policy_denied, is_unreachable}
use mitrity_go.Admission.Requests.{
  Request, DecisionKind, allow, deny, held, with_hold, request_wire,
}
use mitrity_go.Admission.World.{Env, World}
use mitrity_go.Admission.Client.Messages.{verdict_for, unreachable_verdict, hold_failed_verdict}
use mitrity_go.Admission.Client.Construct.{Client}
use mitrity_go.Admission.Client.Decide.{
  request, request_unless, admit_wire, admit_within, admit, wait_on_hold, second_verdict,
  seconds_timeout, whole_seconds, after_first, first_verdict, decide_within, decide,
}

-- What a caller can read off a verdict.
pub record Reads (v : Verdict) (allowed by_policy unreachable on_hold : Bool)
    (input : Option Fields) (routed : Bytes) (d : Option Decision) : Type 0 where
  pub is_allowed : v.allowed ≡ allowed
  pub is_policy : policy_denied v ≡ by_policy
  pub is_unreachable : is_unreachable v ≡ unreachable
  pub is_held : v.held ≡ on_hold
  pub has_input : v.updated_input ≡ input
  pub has_routing : v.routed_to ≡ routed
  pub has_decision : v.decision ≡ d

-- The five kinds of verdict.
pub data Outcome (v : Verdict) : Type 0 where
  permitted :
      (d : Decision)
      → d.decision ≡ allow
      → Reads v true false false false d.updated_input d.routed_to (some d)
      → Outcome v
  denied :
      (d : Decision)
      → d.decision ≡ deny
      → Reads v false true false false none [] (some d)
      → Outcome v
  on_hold :
      (d : Decision)
      → d.decision ≡ held
      → Reads v false false false true none [] (some d)
      → Outcome v
  no_decision :
      (e : GoError) → v.error ≡ some e → Reads v false false true false none [] none → Outcome v
  hold_failed :
      (d : Decision) (e : GoError)
      → d.decision ≡ held
      → v.error ≡ some e
      → Reads v false false true true none [] (some d)
      → Outcome v

verdict_for-Outcome :
    (d : Decision) (kind : DecisionKind) → d.decision ≡ kind → Outcome (verdict_for d)
unfolding verdict_for
verdict_for-Outcome d allow h = permitted d h (ground arith)
verdict_for-Outcome d deny h = denied d h (ground arith)
verdict_for-Outcome d held h = on_hold d h (ground arith)

unreachable_verdict-Outcome : (e : GoError) → Outcome (unreachable_verdict e)
unfolding unreachable_verdict
unreachable_verdict-Outcome e = no_decision e refl (ground arith)

module _ {W : Type 0} (env : Env W) (c : Client) (req : Request) where
  second_verdict-Outcome :
      (first : Decision) (r : Result GoError Decision × World W)
      → first.decision ≡ held
      → Outcome (second_verdict env c first r).0
  unfolding hold_failed_verdict
  second_verdict-Outcome first (err e, w) h = hold_failed first e h refl (ground arith)
  second_verdict-Outcome first (ok d, w) h = verdict_for-Outcome d d.decision refl

  after_first-Outcome :
      (budget : Duration) (d : Decision) (w : World W) (kind : DecisionKind)
      → d.decision ≡ kind
      → Outcome (after_first env c req budget d w kind).0
  after_first-Outcome budget d w allow h = verdict_for-Outcome d allow h
  after_first-Outcome budget d w deny h = verdict_for-Outcome d deny h
  after_first-Outcome budget d w held h = wait (whole_seconds budget)
    where
      wait : (n : ℕ) → Outcome (wait_on_hold env c req d n w).0
      wait zero = verdict_for-Outcome d held h
      wait (suc n) =
          second_verdict-Outcome d
            (admit_within env c (with_hold req (pos (suc n))) (seconds_timeout (suc n)) w) h

  first_verdict-Outcome :
      (budget : Duration) (r : Result GoError Decision × World W)
      → Outcome (first_verdict env c req budget r).0
  first_verdict-Outcome budget (err e, w) = unreachable_verdict-Outcome e
  first_verdict-Outcome budget (ok d, w) = after_first-Outcome budget d w d.decision refl

  -- Every verdict of the two-phase decision is of one of five kinds, which PolicyDenied,
  -- Unreachable and the hold flag tell apart: permitted by an allow, with that decision's input
  -- and routing; denied by policy; on hold; without a decision because of an error; or held, with
  -- an error while waiting. In all but the first nothing is allowed, no input is changed and
  -- nothing is routed.
  pub decide_within-Outcome :
      (budget : Duration) (w : World W) → Outcome (decide_within env c req budget w).0
  unfolding decide_within
  decide_within-Outcome budget w =
      first_verdict-Outcome budget (admit env c (with_hold req (pos 0)) w)

  -- A client whose address was refused.
  module _ (e : GoError) (refused : c.cfg_err ≡ some e) where
    request_refused :
        (method path : Bytes) (body : Option Value) (timeout : Duration) (auth : Bool) (w : World W)
        → request env c method path body timeout auth w ≡ (err e, w)
    unfolding request
    request_refused method path body timeout auth w =
        ap (request_unless env c method path body timeout auth w) refused

    admit_wire_refused :
        (r : Request) (wire : Result GoError Fields) (timeout : Duration) (w : World W)
        → request_wire r ≡ wire
        → (e' : GoError) × (admit_wire env c r timeout w wire ≡ (err e', w))
          × ((request_wire r ≡ err e') ⊎ (e' ≡ e))
    admit_wire_refused r (err e') timeout w h = (e', refl, inl h)
    admit_wire_refused r (ok body) timeout w h = (
      e,
      rw (request_refused (codes "POST") (codes "/v1/admit") (some (object body)) timeout true w),
      inr refl,
    )

    -- With a client whose address was refused, Decide sends nothing and changes nothing outside:
    -- it returns the unreachable verdict of an error, which is the configuration error or the
    -- reason why the request has no body on the wire.
    pub decide_refused :
        (w : World W)
        → (e' : GoError) × (decide env c req w ≡ (unreachable_verdict e', w))
          × ((request_wire (with_hold req (pos 0)) ≡ err e') ⊎ (e' ≡ e))
    unfolding decide decide_within admit admit_within
    decide_refused w =
        let (e', stopped, why) =
          admit_wire_refused (with_hold req (pos 0)) _ c.cfg.timeout w refl in
        (e', ap (first_verdict env c req c.cfg.hold_timeout) stopped, why)
