-- ===== src/Admission/Client/InOrder.antt =====
-- The steps of one round whose answer is in order (admission/client.go: request, roundTrip, interpret).
use mitrity_go.Base.{
  ok_injective, ℕ, suc, ◌≡◌, refl, sym, ap, subst, ◌∙◌, Bool, true, List, ◌∷◌, Option, none, some,
  Bytes, Result, ok, err, arith, same,
}
use mitrity_go.Std.Duration.{Duration}
use mitrity_go.Std.Json.{valid}
use mitrity_go.Std.Value.{Fields, object}
use mitrity_go.Admission.Errors.{GoError}
use mitrity_go.Admission.Config.{Config}
use mitrity_go.Admission.World.{Env, World, HttpResponse, deadline_after, context_err}
use mitrity_go.Admission.Client.Messages.{
  interpret, interpret_status, header_values, header_version, protocol_version,
}
use mitrity_go.Admission.Client.Request.{
  Answer, encode, read_token, read_body, http_request, round_trip,
}
use mitrity_go.Admission.Client.Construct.{Client}
use mitrity_go.Admission.Client.Decide.{
  done, judge_answer, send, round_under, attempt_round, request_loop, settle, send_payload,
  request_unless, request,
}

interpret-in_order :
    (cfg : Config) (body : Bytes) (header : List (Bytes × List Bytes)) (more : List Bytes)
    → header_values header_version header ≡ some (protocol_version ∷ more)
    → valid body ≡ true
    → interpret cfg 200 body header ≡ ok body
unfolding interpret interpret_status same
interpret-in_order cfg body header more h v = rw (h, v) refl

pub judge_answer-in_order :
    {W : Type 0} (env : Env W) (c : Client) (attempt : ℕ) (timeout : Duration)
    (ended : Option GoError) (a : Answer) (more : List Bytes)
    → a.status ≡ 200
    → header_values header_version a.header ≡ some (protocol_version ∷ more)
    → valid a.body ≡ true
    → judge_answer env c attempt timeout ended (ok a) ≡ done (ok a.body)
unfolding judge_answer
judge_answer-in_order env c attempt timeout ended a more s h v =
    rw (s) (ap done (interpret-in_order c.cfg a.body a.header more h v))

module _ {W : Type 0} (env : Env W) (c : Client) where
  pub round_trip-received :
      (deadline : ℕ) (method path : Bytes) (payload : Option Bytes) (token : Bytes) (w : World W)
      (r : HttpResponse)
      → (env.exchange deadline (http_request c method path payload token) w.outside).0 ≡ ok r
      → read_body r ≡ ok r.body
      → ((round_trip env c deadline method path payload token w).0
          ≡ ok (record { status = r.status; header = r.header; body = r.body }))
        × ((round_trip env c deadline method path payload token w).1.sent
            ≡ record { request = http_request c method path payload token; outcome = ok r }
              ∷ w.sent)
  unfolding round_trip
  round_trip-received deadline method path payload token w r h b = rw (h) (rw (b) refl, refl)

  pub send-received :
      (attempt deadline : ℕ) (timeout : Duration) (method path : Bytes) (payload : Option Bytes)
      (read : Result GoError Bytes × World W) (token : Bytes) (r : HttpResponse) (more : List Bytes)
      → read.0 ≡ ok token
      → (env.exchange deadline (http_request c method path payload token) read.1.outside).0 ≡ ok r
      → read_body r ≡ ok r.body
      → r.status ≡ 200
      → header_values header_version r.header ≡ some (protocol_version ∷ more)
      → valid r.body ≡ true
      → ((send env c attempt deadline timeout method path payload read).0 ≡ done (ok r.body))
        × ((send env c attempt deadline timeout method path payload read).1.sent
            ≡ record { request = http_request c method path payload token; outcome = ok r }
              ∷ read.1.sent)
  send-received attempt deadline timeout method path payload (err e, w) token r more t h b s v k =
      cc
  send-received attempt deadline timeout method path payload (ok token', w) token r more t h b s v
        k =
      let same_token : token' ≡ token = ok_injective _ _ t in
      let answered =
        subst
          (λ x. (env.exchange deadline (http_request c method path payload x) w.outside).0 ≡ ok r)
          (sym same_token) h in
      let (received, recorded) =
        round_trip-received deadline method path payload token' w r answered b in
      (
        rw (received) (judge_answer-in_order env c attempt timeout _ _ more s v k),
        recorded
            ∙ ap
                (λ x.
                  record { request = http_request c method path payload x; outcome = ok r }
                  ∷ w.sent)
                same_token,
      )

  module _ (deadline : ℕ) (timeout : Duration) (method path : Bytes) (payload : Option Bytes) where
    pub loop-done :
        (rounds attempt : ℕ) (auth : Bool) (w : World W) (result : Result GoError Bytes)
        → (attempt_round env c attempt deadline timeout method path payload auth w).0 ≡ done result
        → ((request_loop env c (suc rounds) attempt deadline timeout method path payload auth w).0
            ≡ some result)
          × ((request_loop env c (suc rounds) attempt deadline timeout method path payload auth w).1
              ≡ (attempt_round env c attempt deadline timeout method path payload auth w).1)
    unfolding request_loop
    loop-done rounds attempt auth w result h = rw (request_loop, h) (refl, refl)

    pub round-open :
        (attempt : ℕ) (w : World W)
        → context_err env deadline w.outside ≡ none
        → attempt_round env c attempt deadline timeout method path payload true w
          ≡ send env c attempt deadline timeout method path payload (read_token env c w)
    unfolding attempt_round
    round-open attempt w h =
        ap (round_under env c attempt deadline timeout method path payload true w) h

  pub settle-some :
      (r : Option (Result GoError Bytes) × World W) (result : Result GoError Bytes)
      → r.0 ≡ some result
      → settle env c r ≡ (result, r.1)
  settle-some (none, w) result h = cc
  settle-some (some x, w) result h = ground arith

  pub request-sends :
      (method path : Bytes) (body : Fields) (timeout : Duration) (w : World W)
      (payload : Option Bytes)
      → c.cfg_err ≡ none
      → encode (some (object body)) ≡ ok payload
      → request env c method path (some (object body)) timeout true w
        ≡ settle env c (
            request_loop env c 2 1
              (deadline_after env timeout w.outside)
              timeout
              method
              path
              payload
              true
              w)
  unfolding request
  request-sends method path body timeout w payload h e =
      ap (request_unless env c method path (some (object body)) timeout true w) h
      ∙ ap (send_payload env c method path timeout true w) e

  pub read_token-sent : (w : World W) → (read_token env c w).1.sent ≡ w.sent
  unfolding read_token
  read_token-sent w = ground arith
