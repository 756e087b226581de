-- ===== src/Admission/Client/Retry.antt =====
-- The second attempt, with the token that is in the file by then (admission/client.go: request).
use mitrity_go.Base.{
  subst, ok_injective, err, sym, suc, Result, ℕ, ◌≡◌, ◌≢◌, refl, ap, ◌∙◌, true, List, ◌∷◌, Option,
  none, some, Bytes, codes, ok,
}
use mitrity_go.Base.Int.{pos}
use mitrity_go.Std.Duration.{Duration}
use mitrity_go.Std.Json.{valid}
use mitrity_go.Std.Value.{Fields, object}
use mitrity_go.Admission.Errors.{GoError}
use mitrity_go.Admission.Types.{Decision, parse_decision}
use mitrity_go.Admission.Requests.{Request, held, with_hold, request_wire}
use mitrity_go.Admission.World.{Env, World, HttpResponse, Exchange, deadline_after, context_err}
use mitrity_go.Admission.Client.Messages.{
  header_values, header_version, protocol_version, verdict_for,
}
use mitrity_go.Admission.Client.Request.{
  round_trip, Answer, encode, read_token, read_body, http_request,
}
use mitrity_go.Admission.Client.Construct.{Client}
use mitrity_go.Admission.Client.Decide.{
  settle, again, attempt_round, request_loop, judge_answer, Round, done, send, request, decide,
}
use mitrity_go.Admission.Client.InOrder.{
  round_trip-received, send-received, loop-done, round-open, settle-some, request-sends,
  read_token-sent,
}
use mitrity_go.Admission.Client.Settled.{decide-settled}

-- The edge refuses the token of the first attempt, and answers the second attempt, in time and in
-- order, with a decision that is not held.
pub record Rotates {W : Type 0} (env : Env W) (c : Client) (req : Request) (w : World W)
    (d : Decision) : Type 0 where
  pub usable : c.cfg_err ≡ none
  pub body : Fields
  pub wired : request_wire (with_hold req (pos 0)) ≡ ok body
  pub payload : Option Bytes
  pub encoded : encode (some (object body)) ≡ ok payload
  pub in_time : context_err env (deadline_after env c.cfg.timeout w.outside) w.outside ≡ none
  pub old_token : Bytes
  pub old_read : (read_token env c w).0 ≡ ok old_token
  pub rejection : HttpResponse
  pub rejected :
      (env.exchange
        (deadline_after env c.cfg.timeout w.outside)
        (http_request c (codes "POST") (codes "/v1/admit") payload old_token)
        (read_token env c w).1.outside).0
      ≡ ok rejection
  pub rejection_bounded : read_body rejection ≡ ok rejection.body
  pub unauthorized : rejection.status ≡ 401
  -- The state behind the first attempt.
  pub between : World W
  pub is_between :
      (send env c 1
        (deadline_after env c.cfg.timeout w.outside)
        c.cfg.timeout
        (codes "POST")
        (codes "/v1/admit")
        payload
        (read_token env c w)).1
      ≡ between
  pub still_in_time :
      context_err env (deadline_after env c.cfg.timeout w.outside) between.outside ≡ none
  pub token : Bytes
  pub token_read : (read_token env c between).0 ≡ ok token
  pub response : HttpResponse
  pub arrived :
      (env.exchange
        (deadline_after env c.cfg.timeout w.outside)
        (http_request c (codes "POST") (codes "/v1/admit") payload token)
        (read_token env c between).1.outside).0
      ≡ ok response
  pub bounded : read_body response ≡ ok response.body
  pub status : response.status ≡ 200
  pub more_versions : List Bytes
  pub version :
      header_values header_version response.header ≡ some (protocol_version ∷ more_versions)
  pub is_json : valid response.body ≡ true
  pub parsed : parse_decision response.body ≡ ok d
  pub settled : d.decision ≢ held

module _ {W : Type 0} (env : Env W) (c : Client) where
  judge_answer-again :
      (timeout : Duration) (ended : Option GoError) (a : Answer)
      → a.status ≡ 401
      → ended ≡ none
      → judge_answer env c 1 timeout ended (ok a) ≡ again
  unfolding judge_answer
  judge_answer-again timeout ended a h e = rw (h, e) refl

  send-rejected :
      (deadline : ℕ) (timeout : Duration) (method path : Bytes) (payload : Option Bytes)
      (read : Result GoError Bytes × World W) (token : Bytes) (r : HttpResponse)
      → read.0 ≡ ok token
      → (env.exchange deadline (http_request c method path payload token) read.1.outside).0 ≡ ok r
      → read_body r ≡ ok r.body
      → r.status ≡ 401
      → context_err env deadline (send env c 1 deadline timeout method path payload read).1.outside
        ≡ none
      → ((send env c 1 deadline timeout method path payload read).0 ≡ again)
        × ((send env c 1 deadline timeout method path payload read).1.sent
            ≡ record { request = http_request c method path payload token; outcome = ok r }
              ∷ read.1.sent)
  send-rejected deadline timeout method path payload (err e, w) token r t h b s o = cc
  send-rejected deadline timeout method path payload (ok token', w) token r t h b s o =
      let same_token : token' ≡ token = ok_injective _ _ t in
      let answered =
        subst
          (λ x. (env.exchange deadline (http_request c method path payload x) w.outside).0 ≡ ok r)
          (sym same_token) h in
      let (received, recorded) =
        round_trip-received env c deadline method path payload token' w r answered b in
      (
        ap
              (judge_answer env c 1 timeout (
                context_err env deadline
                  (round_trip env c deadline method path payload token' w).1.outside))
              received
            ∙ judge_answer-again timeout _ _ s o,
        recorded
            ∙ ap
                (λ x.
                  record { request = http_request c method path payload x; outcome = ok r }
                  ∷ w.sent)
                same_token,
      )

  loop-again :
      (deadline : ℕ) (timeout : Duration) (method path : Bytes) (payload : Option Bytes)
      (rounds attempt : ℕ) (w : World W)
      → (attempt_round env c attempt deadline timeout method path payload true w).0 ≡ again
      → request_loop env c (suc rounds) attempt deadline timeout method path payload true w
        ≡ request_loop env c rounds
            (suc attempt)
            deadline
            timeout
            method
            path
            payload
            true
            (attempt_round env c attempt deadline timeout method path payload true w).1
  unfolding request_loop
  loop-again deadline timeout method path payload rounds attempt w h = rw (request_loop, h) refl

module _ {W : Type 0} (env : Env W) (c : Client) (req : Request) (w : World W) (d : Decision)
    (a : Rotates env c req w d) where
  abbrev deadline : ℕ
  deadline = deadline_after env c.cfg.timeout w.outside

  -- The exchanges that are made, with either token.
  abbrev posted : Bytes → HttpResponse → Exchange
  posted token response = record {
    request = http_request c (codes "POST") (codes "/v1/admit") a.payload token;
    outcome = ok response;
  }

  abbrev first : Round × World W
  first =
      send env c 1 deadline c.cfg.timeout (codes "POST") (codes "/v1/admit") a.payload
        (read_token env c w)

  abbrev second : Round × World W
  second =
      send env c 2 deadline c.cfg.timeout (codes "POST") (codes "/v1/admit") a.payload
        (read_token env c a.between)

  first-again : (first.0 ≡ again) × (a.between.sent ≡ posted a.old_token a.rejection ∷ w.sent)
  first-again =
      let (ended, recorded) =
        send-rejected env c deadline c.cfg.timeout (codes "POST") (codes "/v1/admit") a.payload
          (read_token env c w) a.old_token a.rejection a.old_read a.rejected a.rejection_bounded
          a.unauthorized
          (ap (λ (v : World W). context_err env deadline v.outside) a.is_between
            ∙ a.still_in_time) in
      (
        ended,
        ap (λ (v : World W). v.sent) (sym a.is_between)
            ∙ recorded
            ∙ ap (λ l. posted a.old_token a.rejection ∷ l) (read_token-sent env c w),
      )

  second-done :
      (second.0 ≡ done (ok a.response.body))
      × (second.1.sent ≡ posted a.token a.response ∷ posted a.old_token a.rejection ∷ w.sent)
  second-done =
      let (ended, recorded) =
        send-received env c 2 deadline c.cfg.timeout (codes "POST") (codes "/v1/admit") a.payload
          (read_token env c a.between) a.token a.response a.more_versions a.token_read a.arrived
          a.bounded a.status a.version a.is_json in
      (
        ended,
        recorded
            ∙ ap (λ l. posted a.token a.response ∷ l)
                (read_token-sent env c a.between ∙ first-again.1),
      )

  request-retried :
      request env c (codes "POST") (codes "/v1/admit") (some (object a.body)) c.cfg.timeout true w
      ≡ (ok a.response.body, second.1)
  request-retried =
      let opened =
        round-open env c deadline c.cfg.timeout (codes "POST") (codes "/v1/admit") a.payload 1 w
          a.in_time in
      let reopened =
        round-open env c deadline c.cfg.timeout (codes "POST") (codes "/v1/admit") a.payload 2
          a.between a.still_in_time in
      let moved =
        loop-again env c deadline c.cfg.timeout (codes "POST") (codes "/v1/admit") a.payload 1 1 w
          (ap (λ (r : Round × World W). r.0) opened ∙ first-again.0)
        ∙ ap
            (request_loop env c 1 2 deadline c.cfg.timeout (codes "POST") (codes "/v1/admit")
              a.payload true)
            (ap (λ (r : Round × World W). r.1) opened ∙ a.is_between) in
      let (looped, state) =
        loop-done env c deadline c.cfg.timeout (codes "POST") (codes "/v1/admit") a.payload 0 2 true
          a.between (ok a.response.body)
          (ap (λ (r : Round × World W). r.0) reopened ∙ second-done.0) in
      request-sends env c (codes "POST") (codes "/v1/admit") a.body c.cfg.timeout w a.payload
        a.usable a.encoded
      ∙ ap (settle env c) moved
      ∙ settle-some env c _ (ok a.response.body) looped
      ∙ ap (λ v. (ok a.response.body, v)) (state ∙ ap (λ (r : Round × World W). r.1) reopened)

  -- When the client is usable and the request can be sent, the edge answers the first exchange
  -- with a 401, neither the caller's context nor the deadline has ended before either attempt,
  -- and the second exchange, posted with the token that is in the file by then, is answered in
  -- order with a decision other than held, Decide returns the verdict of that decision after
  -- exactly these two exchanges.
  pub decide-retried :
      ((decide env c req w).0 ≡ verdict_for d)
      × ((decide env c req w).1.sent
          ≡ record {
            request = http_request c (codes "POST") (codes "/v1/admit") a.payload a.token;
            outcome = ok a.response;
          }
            ∷ record {
              request = http_request c (codes "POST") (codes "/v1/admit") a.payload a.old_token;
              outcome = ok a.rejection;
            }
            ∷ w.sent)
  decide-retried =
      let (verdict, sent, outside) =
        decide-settled env c req w second.1 a.body a.response.body d a.wired request-retried
          a.parsed a.settled in
      (verdict, sent ∙ second-done.1)
