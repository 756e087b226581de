-- ===== src/Admission/Client/Loop.antt =====
-- What a call of `request` sends, and what its result rests on (admission/client.go).
use mitrity_go.Base.{
  ℕ, ◌≡◌, refl, ap, subst, Bool, true, false, not, ◌&&◌, List, ◌∷◌, Option, none, some, arith,
  Bytes, is_empty, is_some, Result, ok, err, ◌⊎◌, inl, inr, Bool-cases, ◌==◌,
}
use mitrity_go.Std.Duration.{Duration}
use mitrity_go.Admission.Errors.{GoError}
use mitrity_go.Admission.World.{Env, World, Exchange, context_err}
use mitrity_go.Admission.Client.Messages.{interpret}
use mitrity_go.Admission.Client.Request.{Answer, answer_of, http_request, read_token, round_trip}
use mitrity_go.Admission.Client.Construct.{Client}
use mitrity_go.Admission.Client.Decide.{
  Round, done, again, token_for, round_under, send, judge_answer, attempt_round, request_loop,
}

-- The outcome of an exchange is an answer that interpret turns into `body`.
pub record Accepts (c : Client) (x : Exchange) (body : Bytes) : Type 0 where
  pub answer : Answer
  pub arrived : answer_of x.outcome ≡ ok answer
  pub interpreted : interpret c.cfg answer.status answer.body answer.header ≡ ok body

-- The edge rejected the token.
pub record IsRejected (x : Exchange) : Type 0 where
  pub answer : Answer
  pub arrived : answer_of x.outcome ≡ ok answer
  pub status : answer.status ≡ 401

-- The exchange carries this payload, with a token where the call is authenticated.
pub record IsFor (c : Client) (method path : Bytes) (payload : Option Bytes) (auth : Bool)
    (x : Exchange) : Type 0 where
  pub token : Bytes
  pub request : x.request ≡ http_request c method path payload token
  pub authenticated : auth ≡ true → is_empty token ≡ false

module _ (c : Client) (method path : Bytes) (payload : Option Bytes) (auth : Bool) where
  -- An end of the loop, without an exchange or on the outcome of one.
  pub data Ended (result : Result GoError Bytes) (before after : List Exchange) : Type 0 where
    quiet : (e : GoError) → result ≡ err e → after ≡ before → Ended result before after
    heard :
        (x : Exchange)
        → after ≡ x ∷ before
        → IsFor c method path payload auth x
        → ((body : Bytes) → result ≡ ok body → Accepts c x body)
        → Ended result before after

  -- What one round does.
  pub data RoundRan (attempt : ℕ) (r : Round) (before after : List Exchange) : Type 0 where
    stopped :
        (result : Result GoError Bytes)
        → r ≡ done result
        → Ended result before after
        → RoundRan attempt r before after
    retried :
        (x : Exchange)
        → r ≡ again
        → attempt ≡ 1
        → after ≡ x ∷ before
        → IsFor c method path payload auth x
        → IsRejected x
        → RoundRan attempt r before after

  -- What a whole call does: it ends in its first round, or in the one behind a rejected token.
  pub data RequestRan (result : Result GoError Bytes) (before after : List Exchange) : Type 0 where
    at_once : Ended result before after → RequestRan result before after
    second_try :
        (x : Exchange)
        → IsFor c method path payload auth x
        → IsRejected x
        → Ended result (x ∷ before) after
        → RequestRan result before after

abbrev Judged : Client → ℕ → Result GoError Answer → Round → Type 0
Judged c attempt a r =
    ((result : Result GoError Bytes) × (r ≡ done result)
      × ((body : Bytes)
          → result ≡ ok body
          → (ans : Answer) × (a ≡ ok ans)
            × (interpret c.cfg ans.status ans.body ans.header ≡ ok body)))
    ⊎ ((ans : Answer) × (a ≡ ok ans) × (ans.status ≡ 401) × (r ≡ again) × (attempt ≡ 1))

module _ {W : Type 0} (env : Env W) (c : Client) where
  judge_answer-Judged :
      (attempt : ℕ) (timeout : Duration) (reason : Option GoError) (a : Result GoError Answer)
      → Judged c attempt a (judge_answer env c attempt timeout reason a)
  unfolding judge_answer
  judge_answer-Judged attempt timeout reason (err e) = inl (_, refl, λ body p. cc)
  judge_answer-Judged attempt timeout reason (ok a) = elim (Bool-cases (a.status == 401)) [
    | inr other ↦ rw other (inl (_, refl, λ body p. (a, refl, p)))
    | inl rejected ↦ elim (Bool-cases (attempt == 1 && not (is_some reason))) [
      | inl retry ↦ rw (rejected, retry) (inr (a, refl, ground arith, refl, ground arith))
      | inr stop ↦ rw (rejected, stop) (inl (_, refl, λ body p. cc))
    ]
  ]

  read_token-nonempty :
      (w : World W) {token : Bytes} → (read_token env c w).0 ≡ ok token → is_empty token ≡ false
  unfolding read_token
  read_token-nonempty w h = ground arith

  sent-read_token : (w : World W) → (read_token env c w).1.sent ≡ w.sent
  unfolding read_token
  sent-read_token w = ground arith

  token_for-nonempty :
      (auth : Bool) (w : World W) (token : Bytes)
      → (token_for env c auth w).0 ≡ ok token
      → auth ≡ true
      → is_empty token ≡ false
  token_for-nonempty true w token h p = read_token-nonempty w h
  token_for-nonempty false w token h p = cc

  sent-token_for : (auth : Bool) (w : World W) → (token_for env c auth w).1.sent ≡ w.sent
  sent-token_for true w = sent-read_token w
  sent-token_for false w = refl

  module _ (attempt deadline : ℕ) (timeout : Duration) (method path : Bytes)
      (payload : Option Bytes) (auth : Bool) (before : List Exchange) where
    send-RoundRan :
        (t : Result GoError Bytes × World W)
        → t.1.sent ≡ before
        → ((token : Bytes) → t.0 ≡ ok token → auth ≡ true → is_empty token ≡ false)
        → RoundRan c method path payload auth attempt
            (send env c attempt deadline timeout method path payload t).0
            before
            (send env c attempt deadline timeout method path payload t).1.sent
    unfolding round_trip
    send-RoundRan (err e, w) same nonempty = stopped _ refl (quiet e refl same)
    send-RoundRan (ok token, w) same nonempty =
        let req = http_request c method path payload token in
        let r = env.exchange deadline req w.outside in
        let x : Exchange = record { request = req; outcome = r.0 } in
        let for_x : IsFor c method path payload auth x = record {
          token = token;
          request = refl;
          authenticated = nonempty token refl;
        } in
        elim (judge_answer-Judged attempt timeout (context_err env deadline r.1) (answer_of r.0)) [
          | inl (result, is_done, sound) ↦ stopped result is_done (
              heard x (ap (λ l. x ∷ l) same) for_x (λ body p.
                let (ans, arrived, interpreted) = sound body p in
                record { answer = ans; arrived = arrived; interpreted = interpreted }))
          | inr (ans, arrived, status, is_again, first) ↦
              retried x is_again first (ap (λ l. x ∷ l) same) for_x
                (record { answer = ans; arrived = arrived; status = status })
        ]

  module _ (deadline : ℕ) (timeout : Duration) (method path : Bytes) (payload : Option Bytes)
      (auth : Bool) where
    round_under-RoundRan :
        (attempt : ℕ) (w : World W) (over : Option GoError)
        → RoundRan c method path payload auth attempt
            (round_under env c attempt deadline timeout method path payload auth w over).0
            w.sent
            (round_under env c attempt deadline timeout method path payload auth w over).1.sent
    round_under-RoundRan attempt w (some e) = stopped _ refl (quiet _ refl refl)
    round_under-RoundRan attempt w none =
        send-RoundRan attempt deadline timeout method path payload auth w.sent
          (token_for env c auth w) (sent-token_for auth w) (token_for-nonempty auth w)

    attempt_round-RoundRan :
        (attempt : ℕ) (w : World W)
        → RoundRan c method path payload auth attempt
            (attempt_round env c attempt deadline timeout method path payload auth w).0
            w.sent
            (attempt_round env c attempt deadline timeout method path payload auth w).1.sent
    unfolding attempt_round
    attempt_round-RoundRan attempt w =
        round_under-RoundRan attempt w (context_err env deadline w.outside)

    -- Behind a first round the loop makes one more at most, and has its result.
    abbrev LoopRan : Option (Result GoError Bytes) × World W → List Exchange → Type 0
    LoopRan run before =
        (result : Result GoError Bytes) × (run.0 ≡ some result)
        × RequestRan c method path payload auth result before run.1.sent

    second_round :
        (w : World W)
        → (result : Result GoError Bytes) × ((request_loop env c 1 2 deadline timeout method path
              payload auth w).0
            ≡ some result)
          × Ended c method path payload auth result w.sent
              (request_loop env c 1 2 deadline timeout method path payload auth w).1.sent
    unfolding request_loop
    second_round w = elim (attempt_round-RoundRan 2 w) [
      | stopped result is_done e ↦ rw (is_done, request_loop) (result, refl, e)
      | retried x is_again first e for_x rejected ↦ absurd (omega arith)
    ]

    pub request_loop-LoopRan :
        (w : World W)
        → LoopRan (request_loop env c 2 1 deadline timeout method path payload auth w) w.sent
    unfolding request_loop
    request_loop-LoopRan w = elim (attempt_round-RoundRan 1 w) [
      | stopped result is_done e ↦ rw (is_done, request_loop) (result, refl, at_once e)
      | retried x is_again first grown for_x rejected ↦
          let (result, returned, e) =
            second_round (attempt_round env c 1 deadline timeout method path payload auth w).1 in
          rw (is_again, request_loop)
            (
              result,
              returned,
              second_try x for_x rejected (
                  subst
                    (λ l.
                      Ended c method path payload auth result l
                        (request_loop env c 1 2 deadline timeout method path payload auth
                          (attempt_round env c 1 deadline timeout method path payload auth
                            w).1).1.sent)
                    grown e),
            )
    ]
