-- ===== src/Admission/Client/Decide.antt =====
-- admission/client.go: the retry loop of request, Admit, Attest, Health and the two-phase decision.
use mitrity_go.Base.{
  ℕ, zero, suc, ◌+◌, ◌-◌, ◌*◌, ◌/◌, Bool, true, false, not, ◌&&◌, [], ◌∷◌, Option, none, some, ◌==◌,
  if◌then◌else◌, Bytes, codes, is_some, Result, ok, err,
}
use mitrity_go.Base.Int.{ℤ, pos, negsuc, ltb_ℤ, pos_part}
use mitrity_go.Std.Duration.{Duration, second, wrap_int64}
use mitrity_go.Std.Value.{Value, Fields, object}
use mitrity_go.Std.Json.{unmarshal_object}
use mitrity_go.Admission.Errors.{Kind, GoError, failure, wrapping, plain}
use mitrity_go.Admission.Types.{Decision, parse_decision, Verdict, Attestation, attestation_wire}
use mitrity_go.Admission.Requests.{
  Request, request_wire, with_hold, DecisionKind, allow, deny, held,
}
use mitrity_go.Admission.Config.{hold_margin, attest_timeout}
use mitrity_go.Admission.World.{Env, World, context_err, deadline_after}
use mitrity_go.Admission.Client.Messages.{
  interpret, verdict_for, unreachable_verdict, hold_failed_verdict,
}
use mitrity_go.Admission.Client.Request.{
  Answer, encode, read_token, round_trip, context_error, transport_error,
}
use mitrity_go.Admission.Client.Construct.{Client}

-- How a round of the loop ends: with a result, or by `continue`.
pub data Round : Type 0 where
  done : Result GoError Bytes → Round
  again : Round

abbrev pub token_rejected : GoError
token_rejected =
    failure Kind.unauthorized
      (codes "admission token rejected (401) after re-reading the token file")

-- time.Duration(seconds)*time.Second + HoldMargin
unfoldable pub seconds_timeout : ℕ → Duration
seconds_timeout n = wrap_int64 (n * second + pos_part hold_margin)

-- int(d / time.Second), at 0 for what is not positive.
abbrev pub whole_seconds : Duration → ℕ
whole_seconds (pos n) = n / second
whole_seconds (negsuc n) = 0

module _ {W : Type 0} (env : Env W) (c : Client) where
  abbrev pub State : Type 0
  State = World W

  -- What a round does with the answer of roundTrip; `ended` is ctx.Err() after it.
  unfoldable pub judge_answer :
      (attempt : ℕ) (timeout : Duration) → Option GoError → Result GoError Answer → Round
  judge_answer attempt timeout ended (err e) = done (err (transport_error c.cfg ended e timeout))
  judge_answer attempt timeout ended (ok a) =
      if a.status == 401
      then (if attempt == 1 && not (is_some ended) then again else done (err token_rejected))
      else done (interpret c.cfg a.status a.body a.header)

  abbrev pub token_for : Bool → State → Result GoError Bytes × State
  token_for auth w = if auth then read_token env c w else (ok [], w)

  abbrev pub send :
      (attempt deadline : ℕ)
      → (timeout : Duration) → (method path : Bytes) → (payload : Option Bytes)
      → Result GoError Bytes × State
      → Round × State
  send attempt deadline timeout method path payload (err e, w) = (done (err e), w)
  send attempt deadline timeout method path payload (ok token, w) =
      let (a, w') = round_trip env c deadline method path payload token w in
      (judge_answer attempt timeout (context_err env deadline w'.outside) a, w')

  abbrev pub round_under :
      (attempt deadline : ℕ)
      → (timeout : Duration) → (method path : Bytes) → (payload : Option Bytes) → (auth : Bool)
      → State
      → Option GoError
      → Round × State
  round_under attempt deadline timeout method path payload auth w (some e) =
      (done (err (context_error c.cfg e timeout)), w)
  round_under attempt deadline timeout method path payload auth w none =
      send attempt deadline timeout method path payload (token_for auth w)

  -- The body of the loop.
  unfoldable pub attempt_round :
      (attempt deadline : ℕ)
      → (timeout : Duration) → (method path : Bytes) → (payload : Option Bytes) → (auth : Bool)
      → State
      → Round × State
  attempt_round attempt deadline timeout method path payload auth w =
      round_under attempt deadline timeout method path payload auth w
        (context_err env deadline w.outside)

  -- `for attempt := 1; ; attempt++`, for a number of rounds; none means that they ran out.
  unfoldable pub request_loop :
      (rounds attempt deadline : ℕ)
      → (timeout : Duration) → (method path : Bytes) → (payload : Option Bytes) → (auth : Bool)
      → State
      → Option (Result GoError Bytes) × State
  request_loop zero attempt deadline timeout method path payload auth w = (none, w)
  request_loop (suc rounds) attempt deadline timeout method path payload auth w =
      let (r, w') = attempt_round attempt deadline timeout method path payload auth w in
      elim r [
        | done result ↦ (some result, w')
        | again ↦ request_loop rounds (suc attempt) deadline timeout method path payload auth w'
      ]

  -- Two rounds are enough (Client/Loop), so the error here is never returned.
  abbrev pub settle : Option (Result GoError Bytes) × State → Result GoError Bytes × State
  settle (none, w) = (err (plain (codes "out of rounds")), w)
  settle (some r, w) = (r, w)

  abbrev pub send_payload :
      Bytes
      → Bytes
      → Duration
      → Bool
      → State
      → Result GoError (Option Bytes)
      → Result GoError Bytes × State
  send_payload method path timeout auth w (err e) = (err e, w)
  send_payload method path timeout auth w (ok payload) =
      settle
        (request_loop 2 1 (deadline_after env timeout w.outside) timeout method path payload auth w)

  abbrev pub request_unless :
      (method path : Bytes)
      → Option Value
      → Duration
      → (auth : Bool) → State
      → Option GoError
      → Result GoError Bytes × State
  request_unless method path body timeout auth w (some e) = (err e, w)
  request_unless method path body timeout auth w none =
      send_payload method path timeout auth w (encode body)

  -- request
  unfoldable pub request :
      (method path : Bytes)
      → Option Value
      → Duration
      → (auth : Bool) → State
      → Result GoError Bytes × State
  request method path body timeout auth w = request_unless method path body timeout auth w c.cfg_err

  -- log
  unfoldable pub log_decision : Request → Decision → (started : ℕ) → State → State
  log_decision req d started w =
      if c.has_logger
      then record w {
        logs =
            record {
              tool = req.tool_name;
              decision = d.decision;
              admission_id = d.admission_id;
              risk = d.risk_score;
              routed_to = d.routed_to;
              nanoseconds = env.now w.outside - started;
            }
            ∷ w.logs;
      }
      else w

  abbrev pub conclude :
      Request → ℕ → State → Result GoError Decision → Result GoError Decision × State
  conclude req started w (err e) = (err e, w)
  conclude req started w (ok d) = (ok d, log_decision req d started w)

  abbrev pub read_decision :
      Request → ℕ → Result GoError Bytes × State → Result GoError Decision × State
  read_decision req started (err e, w) = (err e, w)
  read_decision req started (ok body, w) = conclude req started w (parse_decision body)

  abbrev pub admit_wire :
      Request → Duration → State → Result GoError Fields → Result GoError Decision × State
  admit_wire req timeout w (err e) = (err e, w)
  admit_wire req timeout w (ok body) =
      read_decision req (env.now w.outside)
        (request (codes "POST") (codes "/v1/admit") (some (object body)) timeout true w)

  -- admit
  unfoldable pub admit_within : Request → Duration → State → Result GoError Decision × State
  admit_within req timeout w = admit_wire req timeout w (request_wire req)

  -- Admit
  unfoldable pub admit : Request → State → Result GoError Decision × State
  admit req w = admit_within req c.cfg.timeout w

  abbrev pub error_of : Result GoError Bytes × State → Option GoError × State
  error_of (err e, w) = (some e, w)
  error_of (ok b, w) = (none, w)

  -- Attest; none is the nil error.
  unfoldable pub attest : Attestation → State → Option GoError × State
  attest att w = error_of (
      request (codes "POST") (codes "/v1/attest") (some (object (attestation_wire att)))
        attest_timeout true w)

  abbrev health_body : Result GoError Bytes × State → Result GoError Fields × State
  health_body (err e, w) = (err e, w)
  health_body (ok body, w) = elim (unmarshal_object body) [
    | some m ↦ (ok m, w)
    | none ↦ (
      err (
          wrapping Kind.protocol (codes "health response was not a JSON object")
            (plain (codes "invalid JSON"))),
      w,
    )
  ]

  -- Health
  unfoldable pub health : State → Result GoError Fields × State
  health w = health_body (request (codes "GET") (codes "/healthz") none c.cfg.timeout false w)

  abbrev pub second_verdict : Decision → Result GoError Decision × State → Verdict × State
  second_verdict first (err e, w) = (hold_failed_verdict first e, w)
  second_verdict first (ok d, w) = (verdict_for d, w)

  -- The second call, with the hold budget in whole seconds.
  abbrev pub wait_on_hold : Request → Decision → ℕ → State → Verdict × State
  wait_on_hold req first zero w = (verdict_for first, w)
  wait_on_hold req first (suc n) w =
      second_verdict first (admit_within (with_hold req (pos (suc n))) (seconds_timeout (suc n)) w)

  -- Only a held decision starts the second call.
  abbrev pub after_first : Request → Duration → Decision → State → DecisionKind → Verdict × State
  after_first req budget d w held = wait_on_hold req d (whole_seconds budget) w
  after_first req budget d w allow = (verdict_for d, w)
  after_first req budget d w deny = (verdict_for d, w)

  abbrev pub first_verdict : Request → Duration → Result GoError Decision × State → Verdict × State
  first_verdict req budget (err e, w) = (unreachable_verdict e, w)
  first_verdict req budget (ok d, w) = after_first req budget d w d.decision

  -- decide
  unfoldable pub decide_within : Request → Duration → State → Verdict × State
  decide_within req budget w = first_verdict req budget (admit (with_hold req (pos 0)) w)

  -- Decide
  unfoldable pub decide : Request → State → Verdict × State
  decide req w = decide_within req c.cfg.hold_timeout w

  abbrev pub min_ℤ : ℤ → ℤ → ℤ
  min_ℤ a b = if ltb_ℤ b a then b else a

  -- DecideWithHoldBudget
  unfoldable pub decide_with_hold_budget : Request → Duration → State → Verdict × State
  decide_with_hold_budget req budget w =
      let budget' = if ltb_ℤ budget (pos 0) then pos 0 else budget in
      decide_within req (min_ℤ budget' c.cfg.hold_timeout) w
