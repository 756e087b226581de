-- ===== src/Admission/Client/FailClosed.antt =====
-- The guarantees of the two-phase decision (admission/client.go: decide, Decide,
-- DecideWithHoldBudget): no allow that the edge did not send, and bounds on what is sent.
use mitrity_go.Base.{
  ℕ, ◌+◌, ◌*◌, ◌≤◌, ◌≡◌, refl, ap, subst, ◌∙◌, Bool, true, false, List, ◌∷◌, Option, some, arith,
  Bytes, codes, length, Result, ok, ◌⊎◌, inl, inr, is_empty, if◌then◌else◌,
}
use mitrity_go.Base.Int.{ℤ, pos, negsuc, ltb_ℤ, ◌≤ℤ◌, pos_part}
use mitrity_go.Std.Duration.{Duration, second}
use mitrity_go.Std.Value.{Fields, object}
use mitrity_go.Admission.Errors.{GoError}
use mitrity_go.Admission.Types.{Decision, Verdict, parse_decision}
use mitrity_go.Admission.Requests.{Request, allow, with_hold, request_wire}
use mitrity_go.Admission.Config.{max_hold_timeout, hold_margin}
use mitrity_go.Admission.World.{Env, World, Exchange}
use mitrity_go.Admission.Client.Messages.{verdict_for}
use mitrity_go.Admission.Client.Request.{Answer, encode, answer_of, http_request}
use mitrity_go.Admission.Client.Construct.{Client}
use mitrity_go.Admission.Client.Decide.{
  decide, decide_with_hold_budget, seconds_timeout, whole_seconds, request_loop,
}
use mitrity_go.Admission.Client.Loop.{request_loop-LoopRan}
use mitrity_go.Admission.Client.Interpret.{SpeaksVersion, interpret-eq-ok, parse_decision-nil}
use mitrity_go.Admission.Client.Verdicts.{AllowedBy, decide_within-AllowedBy, length-decide_within}

-- An allow of the edge for this request: the newest exchange posted it, authenticated, to /v1/admit,
-- and was Answered by a 200 that names the protocol version and reads as an allow, whose input and
-- routing are those of the verdict.
pub record EdgeAllowed (c : Client) (req : Request) (seconds : ℕ) (v : Verdict)
    (after : List Exchange) : Type 0 where
  pub exchange : Exchange
  pub earlier : List Exchange
  pub newest : after ≡ exchange ∷ earlier
  pub hold : ℤ
  pub budgeted : (hold ≡ pos 0) ⊎ (hold ≡ pos seconds)
  pub body : Fields
  pub wired : request_wire (with_hold req hold) ≡ ok body
  pub payload : Option Bytes
  pub encoded : encode (some (object body)) ≡ ok payload
  pub token : Bytes
  pub token_present : is_empty token ≡ false
  pub posted : exchange.request ≡ http_request c (codes "POST") (codes "/v1/admit") payload token
  pub answer : Answer
  pub arrived : answer_of exchange.outcome ≡ ok answer
  pub status : answer.status ≡ 200
  pub version : SpeaksVersion answer.header
  pub decision : Decision
  pub parsed : parse_decision answer.body ≡ ok decision
  pub allows : decision.decision ≡ allow
  pub input : v.updated_input ≡ decision.updated_input
  pub routed : v.routed_to ≡ decision.routed_to

input-verdict_for :
    (d : Decision)
    → d.decision ≡ allow
    → ((verdict_for d).updated_input ≡ d.updated_input) × ((verdict_for d).routed_to ≡ d.routed_to)
unfolding verdict_for
input-verdict_for d h = ground arith

module _ (c : Client) (req : Request) (seconds : ℕ) {v : Verdict} {after : List Exchange}
    (a : AllowedBy c req seconds v after) where
  abbrev Answered : Type 0
  Answered =
      (a.admitted.delivered.accepted.answer.status ≡ 200)
      × SpeaksVersion a.admitted.delivered.accepted.answer.header
      × (parse_decision a.admitted.delivered.accepted.answer.body ≡ ok a.answer)

  AllowedBy-Answered : Answered
  AllowedBy-Answered =
      let got = a.admitted.delivered.accepted in
      elim (interpret-eq-ok c.cfg got.answer.status got.answer.body got.answer.header
        a.admitted.bytes got.interpreted) [
          | inl (status, empty) ↦ absurd (
              parse_decision-nil a.answer
                (subst (λ b. parse_decision b ≡ ok a.answer) empty a.admitted.parsed))
          | inr (status, version, is_json, same) ↦
              (status, version, subst (λ b. parse_decision b ≡ ok a.answer) same a.admitted.parsed)
        ]

  EdgeAllowed-of_AllowedBy : EdgeAllowed c req seconds v after
  EdgeAllowed-of_AllowedBy =
      let sent = a.admitted.delivered in
      let (status, version, parsed) = AllowedBy-Answered in
      let (input, routed) = input-verdict_for a.answer a.allows in
      record {
        exchange = sent.exchange;
        earlier = sent.earlier;
        newest = sent.newest;
        hold = a.hold;
        budgeted = a.budgeted;
        body = a.admitted.body;
        wired = a.admitted.wired;
        payload = sent.payload;
        encoded = sent.encoded;
        token = sent.sent_for.token;
        token_present = sent.sent_for.authenticated refl;
        posted = sent.sent_for.request;
        answer = sent.accepted.answer;
        arrived = sent.accepted.arrived;
        status = status;
        version = version;
        decision = a.answer;
        parsed = parsed;
        allows = a.allows;
        input = ap (λ (u : Verdict). u.updated_input) a.verdict ∙ input;
        routed = ap (λ (u : Verdict). u.routed_to) a.verdict ∙ routed;
      }

-- The budget that DecideWithHoldBudget waits for.
abbrev pub capped : Duration → Duration → Duration
capped budget configured = min_of (if ltb_ℤ budget (pos 0) then pos 0 else budget) configured
  where
    min_of : Duration → Duration → Duration
    min_of a b = if ltb_ℤ b a then b else a

pub whole_seconds-le : (d : Duration) → whole_seconds d * second ≤ pos_part d
whole_seconds-le (pos n) = omega arith
whole_seconds-le (negsuc n) = omega arith

pos_part-capped :
    (budget configured : Duration)
    → (pos_part (capped budget configured) ≤ pos_part budget)
      × (pos_part (capped budget configured) ≤ pos_part configured)
pos_part-capped budget configured = ground arith

capped-le_budget :
    (budget configured : Duration)
    → whole_seconds (capped budget configured) * second ≤ pos_part budget
capped-le_budget budget configured =
    omega
      (arith, whole_seconds-le (capped budget configured), (pos_part-capped budget configured).0)

capped-le_configured :
    (budget configured : Duration)
    → whole_seconds (capped budget configured) * second ≤ pos_part configured
capped-le_configured budget configured =
    omega
      (arith, whole_seconds-le (capped budget configured), (pos_part-capped budget configured).1)

module _ {W : Type 0} (env : Env W) (c : Client) (req : Request) where
  -- When Decide returns a verdict that allows, the newest exchange of the client is one that
  -- permits it: it posted the request's own body (with a hold budget of 0, or of the client's
  -- whole seconds), with a non-empty token, to /v1/admit; the edge answered 200 with no other
  -- protocol version than this adapter's in a version header that is there, and the body reads as
  -- an allow whose input and routing are the verdict's.
  pub decide-EdgeAllowed :
      (w : World W)
      → (decide env c req w).0.allowed ≡ true
      → EdgeAllowed c req
          (whole_seconds c.cfg.hold_timeout)
          (decide env c req w).0
          (decide env c req w).1.sent
  unfolding decide
  decide-EdgeAllowed w h =
      EdgeAllowed-of_AllowedBy c req (whole_seconds c.cfg.hold_timeout)
        (decide_within-AllowedBy env c req c.cfg.hold_timeout w h)

  -- When DecideWithHoldBudget returns a verdict that allows, the newest exchange of the client
  -- permits it as for Decide, and the hold budget that it was sent with, if any, is a whole
  -- number of seconds that exceeds neither the caller's budget (0 for a negative one) nor the
  -- configured hold timeout.
  pub decide_with_hold_budget-EdgeAllowed :
      (budget : Duration) (w : World W)
      → (decide_with_hold_budget env c req budget w).0.allowed ≡ true
      → (seconds : ℕ) × EdgeAllowed c req seconds
          (decide_with_hold_budget env c req budget w).0
          (decide_with_hold_budget env c req budget w).1.sent
        × (seconds * second ≤ pos_part budget)
        × (seconds * second ≤ pos_part c.cfg.hold_timeout)
  unfolding decide_with_hold_budget
  decide_with_hold_budget-EdgeAllowed budget w h = (
    whole_seconds (capped budget c.cfg.hold_timeout),
    EdgeAllowed-of_AllowedBy c req (whole_seconds (capped budget c.cfg.hold_timeout))
        (decide_within-AllowedBy env c req (capped budget c.cfg.hold_timeout) w h),
    capped-le_budget budget c.cfg.hold_timeout,
    capped-le_configured budget c.cfg.hold_timeout,
  )

  -- Decide makes at most four exchanges with the edge.
  pub length-decide : (w : World W) → length (decide env c req w).1.sent ≤ length w.sent + 4
  unfolding decide
  length-decide w = length-decide_within env c req c.cfg.hold_timeout w

-- Two rounds are enough for the retry loop of request: from its first attempt it returns a
-- result, whatever the edge answers.
pub request_loop-IsSome :
    {W : Type 0} (env : Env W) (c : Client) (deadline : ℕ) (timeout : Duration)
    (method path : Bytes) (payload : Option Bytes) (auth : Bool) (w : World W)
    → (result : Result GoError Bytes) × ((request_loop env c 2 1 deadline timeout method path
          payload auth w).0
        ≡ some result)
request_loop-IsSome env c deadline timeout method path payload auth w =
    let (result, returned, ran) =
      request_loop-LoopRan env c deadline timeout method path payload auth w in
    (result, returned)

-- For a hold budget of at most the cap, the deadline of the second request is the whole seconds
-- of the budget and the margin: the multiplication to nanoseconds does not overflow.
pub seconds_timeout_exact :
    (budget : Duration)
    → budget ≤ℤ max_hold_timeout
    → seconds_timeout (whole_seconds budget)
      ≡ pos (whole_seconds budget * second + pos_part hold_margin)
unfolding seconds_timeout
seconds_timeout_exact (pos n) h = ground arith
seconds_timeout_exact (negsuc n) h = refl
