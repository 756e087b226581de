-- ===== src/Admission/Client/Deadlines.antt =====
-- How long a call of the client takes (admission/client.go: request, admit, decide).
use mitrity_go.Base.{
  ◌⊎◌, ℕ, zero, suc, ◌+◌, ◌-◌, ◌*◌, ◌≤◌, ◌<◌, ◌≡◌, refl, sym, ap, ◌∙◌, Bool, true, false, Option,
  none, some, Bytes, codes, Result, ok, err, arith, is_empty, Bool-cases, inl, inr,
}
use mitrity_go.Base.Int.{◌≤ℤ◌, pos, pos_part}
use mitrity_go.Std.Duration.{Duration, second}
use mitrity_go.Std.Value.{Value, Fields, object}
use mitrity_go.Admission.Errors.{GoError}
use mitrity_go.Admission.Types.{Decision, parse_decision}
use mitrity_go.Admission.Requests.{
  Request, DecisionKind, allow, deny, held, with_hold, request_wire,
}
use mitrity_go.Admission.Config.{hold_margin, max_hold_timeout}
use mitrity_go.Admission.Config.Bounds.{InBounds}
use mitrity_go.Admission.World.{Env, World, HttpRequest, context_err, deadline_after}
use mitrity_go.Admission.Client.Request.{encode, read_token, round_trip}
use mitrity_go.Admission.Client.Construct.{Client}
use mitrity_go.Admission.Client.FailClosed.{seconds_timeout_exact, whole_seconds-le}
use mitrity_go.Admission.Client.Decide.{
  Round, done, again, token_for, round_under, send, attempt_round, request_loop, settle,
  send_payload, request_unless, request, log_decision, conclude, read_decision, admit_wire,
  admit_within, admit, second_verdict, wait_on_hold, after_first, first_verdict, decide_within,
  decide, seconds_timeout, whole_seconds,
}

-- The surroundings keep the time: reading the token file takes `io` at most, and an exchange has come
-- back by its deadline, or at once where that has passed.
pub record Punctual {W : Type 0} (env : Env W) (io : ℕ) : Type 0 where
  pub reads : (path : Bytes) (o : W) → env.now (env.read_file path o).1 ≤ env.now o + io
  pub exchanges :
      (deadline : ℕ) (req : HttpRequest) (o : W)
      → env.now (env.exchange deadline req o).1 ≤ deadline + (env.now o - deadline)

Round-cases : (r : Round) → ((result : Result GoError Bytes) × (r ≡ done result)) ⊎ (r ≡ again)
Round-cases (done result) = inl (result, refl)
Round-cases again = inr refl

module _ {W : Type 0} (env : Env W) (c : Client) (io : ℕ) (h : Punctual env io) where
  abbrev time : World W → ℕ
  time w = env.now w.outside

  time-read_token : (w : World W) → time (read_token env c w).1 ≤ time w + io
  unfolding read_token
  time-read_token w = elim (Bool-cases (is_empty c.cfg.token_file)) [
    | inl e ↦ rw (e) (omega arith)
    | inr e ↦ rw (e) (h.reads c.cfg.token_file w.outside)
  ]

  time-token_for : (auth : Bool) (w : World W) → time (token_for env c auth w).1 ≤ time w + io
  time-token_for true w = time-read_token w
  time-token_for false w = omega arith

  -- A context that has not ended is before its deadline.
  time-context_err :
      (deadline : ℕ) (o : W) → context_err env deadline o ≡ none → env.now o < deadline
  unfolding context_err
  time-context_err deadline o e = ground arith

  module _ (deadline : ℕ) (timeout : Duration) (method path : Bytes) (payload : Option Bytes)
      (auth : Bool) (bound : ℕ) (enough : deadline + io ≤ bound) where
    time-send :
        (attempt : ℕ) (r : Result GoError Bytes × World W)
        → time r.1 ≤ bound
        → time (send env c attempt deadline timeout method path payload r).1 ≤ bound
    unfolding round_trip
    time-send attempt (err e, w) k = k
    time-send attempt (ok token, w) k = omega (arith, enough, k, h.exchanges deadline _ w.outside)

    time-round_under :
        (attempt : ℕ) (w : World W) (ended : Option GoError)
        → context_err env deadline w.outside ≡ ended
        → time w ≤ bound
        → time (round_under env c attempt deadline timeout method path payload auth w ended).1
          ≤ bound
    time-round_under attempt w (some e) q k = k
    time-round_under attempt w none q k =
        time-send attempt (token_for env c auth w)
          (omega (arith, enough, time-context_err deadline w.outside q, time-token_for auth w))

    time-attempt_round :
        (attempt : ℕ) (w : World W)
        → time w ≤ bound
        → time (attempt_round env c attempt deadline timeout method path payload auth w).1 ≤ bound
    unfolding attempt_round
    time-attempt_round attempt w k = time-round_under attempt w _ refl k

    time-request_loop :
        (rounds attempt : ℕ) (w : World W)
        → time w ≤ bound
        → time (request_loop env c rounds attempt deadline timeout method path payload auth w).1
          ≤ bound
    unfolding request_loop
    time-request_loop zero attempt w k = k
    time-request_loop (suc rounds) attempt w k =
        let run = attempt_round env c attempt deadline timeout method path payload auth w in
        let after = time-attempt_round attempt w k in
        elim (Round-cases run.0) [
          | inl (result, e) ↦ rw (request_loop, e) after
          | inr e ↦ rw (request_loop, e) (time-request_loop rounds (suc attempt) run.1 after)
        ]

  time-settle : (r : Option (Result GoError Bytes) × World W) → time (settle env c r).1 ≡ time r.1
  time-settle (none, w) = refl
  time-settle (some r, w) = refl

  module _ (method path : Bytes) (body : Option Value) (timeout : Duration) (auth : Bool)
      (w : World W) where
    time-send_payload :
        (enc : Result GoError (Option Bytes))
        → time (send_payload env c method path timeout auth w enc).1
          ≤ time w + pos_part timeout + io
    time-send_payload (err e) = omega arith
    time-send_payload (ok payload) = omega (
      arith,
      time-settle (
          request_loop env c 2 1 (deadline_after env timeout w.outside) timeout method path payload
            auth w),
      time-request_loop (deadline_after env timeout w.outside) timeout method path payload auth
          (time w + pos_part timeout + io) (omega arith) 2 1 w (omega arith),
    )

    time-request_unless :
        (e : Option GoError)
        → time (request_unless env c method path body timeout auth w e).1
          ≤ time w + pos_part timeout + io
    time-request_unless (some e) = omega arith
    time-request_unless none = time-send_payload (encode body)

    -- A request is over by its deadline, up to one read of the token file.
    time-request :
        time (request env c method path body timeout auth w).1 ≤ time w + pos_part timeout + io
    unfolding request
    time-request = time-request_unless c.cfg_err

  module _ (req : Request) where
    time-conclude :
        (started : ℕ) (w : World W) (r : Result GoError Decision)
        → time (conclude env c req started w r).1 ≡ time w
    unfolding log_decision
    time-conclude started w (err e) = refl
    time-conclude started w (ok d) = ground arith

    time-read_decision :
        (started : ℕ) (r : Result GoError Bytes × World W)
        → time (read_decision env c req started r).1 ≡ time r.1
    time-read_decision started (err e, w) = refl
    time-read_decision started (ok bytes, w) = time-conclude started w (parse_decision bytes)

    module _ (timeout : Duration) (w : World W) where
      time-admit_wire :
          (r : Result GoError Fields)
          → time (admit_wire env c req timeout w r).1 ≤ time w + pos_part timeout + io
      time-admit_wire (err e) = omega arith
      time-admit_wire (ok body) = omega (
        arith,
        time-read_decision (env.now w.outside)
            (request env c (codes "POST") (codes "/v1/admit") (some (object body)) timeout true w),
        time-request (codes "POST") (codes "/v1/admit") (some (object body)) timeout true w,
      )

      time-admit_within : time (admit_within env c req timeout w).1 ≤ time w + pos_part timeout + io
      unfolding admit_within
      time-admit_within = time-admit_wire (request_wire req)

  -- The time that waiting on a hold may take.
  abbrev hold_time : Duration → ℕ
  hold_time budget = pos_part budget + pos_part hold_margin + io

  module _ (req : Request) (budget : Duration) (capped : budget ≤ℤ max_hold_timeout) where
    time-second_verdict :
        (first : Decision) (r : Result GoError Decision × World W)
        → time (second_verdict env c first r).1 ≡ time r.1
    time-second_verdict first (err e, w) = refl
    time-second_verdict first (ok d, w) = refl

    time-wait_on_hold :
        (first : Decision) (seconds : ℕ) (w : World W)
        → whole_seconds budget ≡ seconds
        → time (wait_on_hold env c req first seconds w).1 ≤ time w + hold_time budget
    time-wait_on_hold first zero w e = omega arith
    time-wait_on_hold first (suc n) w e =
        let exact : pos_part (seconds_timeout (suc n))
            ≡ whole_seconds budget * second + pos_part hold_margin =
          ap (λ s. pos_part (seconds_timeout s)) (sym e)
          ∙ ap pos_part (seconds_timeout_exact budget capped) in
        omega (
          arith,
          exact,
          whole_seconds-le budget,
          time-second_verdict first
              (admit_within env c (with_hold req (pos (suc n))) (seconds_timeout (suc n)) w),
          time-admit_within (with_hold req (pos (suc n))) (seconds_timeout (suc n)) w,
        )

    time-after_first :
        (d : Decision) (w : World W) (kind : DecisionKind)
        → time (after_first env c req budget d w kind).1 ≤ time w + hold_time budget
    time-after_first d w held = time-wait_on_hold d (whole_seconds budget) w refl
    time-after_first d w allow = omega arith
    time-after_first d w deny = omega arith

    time-first_verdict :
        (r : Result GoError Decision × World W)
        → time (first_verdict env c req budget r).1 ≤ time r.1 + hold_time budget
    time-first_verdict (err e, w) = omega arith
    time-first_verdict (ok d, w) = time-after_first d w d.decision

    time-decide_within :
        (w : World W)
        → time (decide_within env c req budget w).1
          ≤ time w + pos_part c.cfg.timeout + io + hold_time budget
    unfolding decide_within admit
    time-decide_within w = omega (
      arith,
      time-first_verdict (admit_within env c (with_hold req (pos 0)) c.cfg.timeout w),
      time-admit_within (with_hold req (pos 0)) c.cfg.timeout w,
    )

-- When a read of the token file takes at most a time io, an exchange has come back by its
-- deadline (or at once where that has passed), and the timeouts of the client are within their
-- bounds, Decide returns within the timeout, the hold timeout, the hold margin and twice io,
-- whatever the edge answers.
pub decide-Punctual :
    {W : Type 0} (env : Env W) (c : Client) (io : ℕ) (req : Request) (w : World W)
    → Punctual env io
    → InBounds c.cfg
    → env.now (decide env c req w).1.outside
      ≤ env.now w.outside
        + pos_part c.cfg.timeout
        + pos_part c.cfg.hold_timeout
        + pos_part hold_margin
        + 2 * io
unfolding decide
decide-Punctual env c io req w h b =
    omega (arith, time-decide_within env c io h req c.cfg.hold_timeout b.hold_capped w)
