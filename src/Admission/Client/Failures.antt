-- ===== src/Admission/Client/Failures.antt =====
-- The errors that the client returns (admission/client.go, admission/errors.go).
use mitrity_go.Admission.Client.Request.{round_trip}
use mitrity_go.Base.{
  length, ltb, ◌≢◌, is_empty, ℕ, zero, suc, Bool, true, false, not, ◌&&◌, Bytes, List, Option, none,
  some, Result, ok, err, ◌≡◌, refl, subst, Bool-cases, inl, inr, if◌then◌else◌, is_some, arith,
  ◌==◌,
}
use mitrity_go.Std.Strings.{trim_space}
use mitrity_go.Std.Duration.{Duration}
use mitrity_go.Std.Json.{valid, encode_value}
use mitrity_go.Std.Value.{Value}
use mitrity_go.Admission.Errors.{GoError}
use mitrity_go.Admission.Config.{Config}
use mitrity_go.Admission.World.{deadline_after, World, Env, context_err}
use mitrity_go.Admission.Client.Messages.{
  header_version, header_values, interpret, interpret_version, interpret_status, checked_body,
  wrong_version, version_error, no_version_error, not_ready_error, bad_request_error, status_error,
}
use mitrity_go.Admission.Client.Request.{
  http_request, serialized, Answer, encode, read_token, token_of_file, too_large_error,
  unreadable_error,
}
use mitrity_go.Admission.Client.Construct.{max_request_bytes, Client}
use mitrity_go.Admission.Client.FailClosed.{request_loop-IsSome}
use mitrity_go.Admission.Client.Decide.{
  Round, done, again, judge_answer, token_for, send, round_under, attempt_round, request_loop,
  settle, send_payload, request_unless, request,
}
use mitrity_go.Admission.Client.Reported.{
  IsError, plain_error, with_cause, Foreign, Transported, FailsWell, if-FailsWell,
  answer_of-Transported, transport_error-IsError, context_error-IsError,
}

checked_body-FailsWell : (body : Bytes) → FailsWell (checked_body body)
checked_body-FailsWell body = if-FailsWell (valid body) _ _ tt (plain_error _ _ refl refl)

interpret_status-FailsWell :
    (cfg : Config) (status : ℕ) (body : Bytes) (versions : Option (List Bytes))
    → FailsWell (interpret_status cfg status body versions)
unfolding interpret_status no_version_error not_ready_error bad_request_error status_error
interpret_status-FailsWell cfg status body versions = if-FailsWell (status == 204) _ _ tt (
    if-FailsWell (status == 200) _ _
      (if-FailsWell (is_some versions) _ _ (checked_body-FailsWell body)
        (plain_error _ _ refl refl))
      (if-FailsWell (status == 503) _ _ (plain_error _ _ refl refl)
        (if-FailsWell (status == 400) _ _ (plain_error _ _ refl refl) (plain_error _ _ refl refl))))

interpret-FailsWell :
    (cfg : Config) (status : ℕ) (body : Bytes) (header : List (Bytes × List Bytes))
    → FailsWell (interpret cfg status body header)
unfolding interpret version_error
interpret-FailsWell cfg status body header =
    by_version (header_values header_version header)
      (wrong_version (header_values header_version header))
  where
    by_version :
        (versions : Option (List Bytes)) (wrong : Option Bytes)
        → FailsWell (interpret_version cfg status body versions wrong)
    by_version versions (some v) = plain_error _ _ refl refl
    by_version versions none = interpret_status-FailsWell cfg status body versions

-- A round that ends the loop does so with a result of that kind.
abbrev pub EndsWell : Round → Type 0
EndsWell (done r) = FailsWell r
EndsWell again = Unit

abbrev HasWell : Option (Result GoError Bytes) → Type 0
HasWell none = Unit
HasWell (some r) = FailsWell r

if-EndsWell : (b : Bool) (r s : Round) → EndsWell r → EndsWell s → EndsWell (if b then r else s)
if-EndsWell true r s h k = h
if-EndsWell false r s h k = k

module _ {W : Type 0} (env : Env W) (c : Client) (foreign : Foreign env) where
  judge_answer-EndsWell :
      (attempt : ℕ) (timeout : Duration) (ended : Option GoError) (r : Result GoError Answer)
      → Transported r
      → EndsWell (judge_answer env c attempt timeout ended r)
  unfolding judge_answer
  judge_answer-EndsWell attempt timeout ended (err e) h =
      transport_error-IsError c.cfg ended e timeout h
  judge_answer-EndsWell attempt timeout ended (ok a) h =
      if-EndsWell (a.status == 401) _ _
        (if-EndsWell (attempt == 1 && not (is_some ended)) _ _ tt (plain_error _ _ refl refl))
        (interpret-FailsWell c.cfg a.status a.body a.header)

  read_token-FailsWell : (w : World W) → FailsWell (read_token env c w).0
  unfolding read_token unreadable_error
  read_token-FailsWell w = elim (Bool-cases (is_empty c.cfg.token_file)) [
    | inl h ↦ rw (h) (plain_error _ _ refl refl)
    | inr h ↦ rw (h) (of_file (env.read_file c.cfg.token_file w.outside).0)
  ]
    where
      of_file : (r : Result GoError Bytes) → FailsWell (token_of_file c.cfg.token_file r)
      of_file (err e) = with_cause _ _ _ refl refl
      of_file (ok raw) = if-FailsWell (is_empty (trim_space raw)) _ _ (plain_error _ _ refl refl) tt

  token_for-FailsWell : (auth : Bool) (w : World W) → FailsWell (token_for env c auth w).0
  token_for-FailsWell true w = read_token-FailsWell w
  token_for-FailsWell false w = tt

  module _ (deadline : ℕ) (timeout : Duration) (method path : Bytes) (payload : Option Bytes)
      (auth : Bool) where
    send-EndsWell :
        (attempt : ℕ) (r : Result GoError Bytes × World W)
        → FailsWell r.0
        → EndsWell (send env c attempt deadline timeout method path payload r).0
    unfolding round_trip
    send-EndsWell attempt (err e, w) h = h
    send-EndsWell attempt (ok token, w) h = judge_answer-EndsWell attempt timeout _ _ (
        answer_of-Transported _
          (foreign.exchanges deadline (http_request c method path payload token) w.outside))

    round_under-EndsWell :
        (attempt : ℕ) (w : World W) (ended : Option GoError)
        → EndsWell (round_under env c attempt deadline timeout method path payload auth w ended).0
    round_under-EndsWell attempt w (some e) = context_error-IsError c.cfg e timeout
    round_under-EndsWell attempt w none =
        send-EndsWell attempt (token_for env c auth w) (token_for-FailsWell auth w)

    attempt_round-EndsWell :
        (attempt : ℕ) (w : World W)
        → EndsWell (attempt_round env c attempt deadline timeout method path payload auth w).0
    unfolding attempt_round
    attempt_round-EndsWell attempt w =
        round_under-EndsWell attempt w (context_err env deadline w.outside)

    request_loop-FailsWell :
        (rounds attempt : ℕ) (w : World W)
        → HasWell (request_loop env c rounds attempt deadline timeout method path payload auth w).0
    unfolding request_loop
    request_loop-FailsWell zero attempt w = tt
    request_loop-FailsWell (suc rounds) attempt w =
        by_round (attempt_round env c attempt deadline timeout method path payload auth w).0 refl
          (attempt_round-EndsWell attempt w) (request_loop-FailsWell rounds (suc attempt) _)
      where
        by_round :
            (r : Round)
            → (attempt_round env c attempt deadline timeout method path payload auth w).0 ≡ r
            → EndsWell (attempt_round env c attempt deadline timeout method path payload auth w).0
            → HasWell
                (request_loop env c rounds
                  (suc attempt)
                  deadline
                  timeout
                  method
                  path
                  payload
                  auth
                  (attempt_round env c attempt deadline timeout method path payload auth w).1).0
            → HasWell
                (request_loop env c
                  (suc rounds)
                  attempt
                  deadline
                  timeout
                  method
                  path
                  payload
                  auth
                  w).0
        by_round (done x) e h more = rw (request_loop, e) (subst EndsWell e h)
        by_round again e h more = rw (request_loop, e) more

  settle-FailsWell :
      (r : Option (Result GoError Bytes) × World W)
      → r.0 ≢ none
      → HasWell r.0
      → FailsWell (settle env c r).0
  settle-FailsWell (none, w) some_result h = absurd (some_result refl)
  settle-FailsWell (some r, w) some_result h = h

  serialized-FailsWell : (o : Option Bytes) → FailsWell (serialized o)
  unfolding too_large_error
  serialized-FailsWell none = with_cause _ _ _ refl refl
  serialized-FailsWell (some payload) =
      if-FailsWell (ltb max_request_bytes (length payload)) _ _ (plain_error _ _ refl refl) tt

  encode-FailsWell : (body : Option Value) → FailsWell (encode body)
  unfolding encode
  encode-FailsWell none = tt
  encode-FailsWell (some body) = serialized-FailsWell (encode_value body)

  send_payload-FailsWell :
      (method path : Bytes) (timeout : Duration) (auth : Bool) (w : World W)
      (r : Result GoError (Option Bytes))
      → FailsWell r
      → FailsWell (send_payload env c method path timeout auth w r).0
  send_payload-FailsWell method path timeout auth w (err e) h = h
  send_payload-FailsWell method path timeout auth w (ok payload) h =
      let deadline = deadline_after env timeout w.outside in
      let (result, returned) =
        request_loop-IsSome env c deadline timeout method path payload auth w in
      settle-FailsWell _ (λ e. ground arith)
        (request_loop-FailsWell deadline timeout method path payload auth 2 1 w)

  request_unless-FailsWell :
      (method path : Bytes) (body : Option Value) (timeout : Duration) (auth : Bool) (w : World W)
      (o : Option GoError)
      → ((e : GoError) → o ≡ some e → IsError e)
      → FailsWell (request_unless env c method path body timeout auth w o).0
  request_unless-FailsWell method path body timeout auth w (some e) h = h e refl
  request_unless-FailsWell method path body timeout auth w none h =
      send_payload-FailsWell method path timeout auth w (encode body) (encode-FailsWell body)

  pub request-FailsWell :
      (method path : Bytes) (body : Option Value) (timeout : Duration) (auth : Bool) (w : World W)
      → ((e : GoError) → c.cfg_err ≡ some e → IsError e)
      → FailsWell (request env c method path body timeout auth w).0
  unfolding request
  request-FailsWell method path body timeout auth w h =
      request_unless-FailsWell method path body timeout auth w c.cfg_err h
