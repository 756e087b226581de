-- ===== src/Admission/Client/Delivers.antt =====
-- A call of admit whose request the edge answers in order (admission/client.go: admit).
use mitrity_go.Base.{
  arith, err, ok_injective, Result, ℕ, ◌≡◌, ap, ◌∙◌, true, List, ◌∷◌, Option, none, some, Bytes,
  codes, ok,
}
use mitrity_go.Std.Json.{valid}
use mitrity_go.Std.Value.{Fields, object}
use mitrity_go.Admission.Types.{Decision, parse_decision}
use mitrity_go.Admission.Requests.{Request, request_wire}
use mitrity_go.Admission.Errors.{GoError}
use mitrity_go.Admission.World.{Env, World, HttpResponse, Exchange, deadline_after, context_err}
use mitrity_go.Admission.Client.Messages.{header_values, header_version, protocol_version}
use mitrity_go.Admission.Client.Request.{round_trip, encode, read_token, read_body, http_request}
use mitrity_go.Admission.Client.Construct.{Client}
use mitrity_go.Std.Duration.{Duration}
use mitrity_go.Admission.Client.Decide.{
  Round, done, send, request, admit_within, admit_wire, read_decision, conclude, log_decision,
}
use mitrity_go.Admission.Client.InOrder.{
  send-received, loop-done, round-open, settle-some, request-sends, read_token-sent,
}

-- The edge answers a call of admit, in time and in order, with a decision.
pub record Delivers {W : Type 0} (env : Env W) (c : Client) (req : Request) (timeout : Duration)
    (w : World W) (d : Decision) : Type 0 where
  pub usable : c.cfg_err ≡ none
  pub body : Fields
  pub wired : request_wire req ≡ ok body
  pub payload : Option Bytes
  pub encoded : encode (some (object body)) ≡ ok payload
  pub in_time : context_err env (deadline_after env timeout w.outside) w.outside ≡ none
  pub token : Bytes
  pub token_read : (read_token env c w).0 ≡ ok token
  pub response : HttpResponse
  pub arrived :
      (env.exchange
        (deadline_after env timeout w.outside)
        (http_request c (codes "POST") (codes "/v1/admit") payload token)
        (read_token env c w).1.outside).0
      ≡ ok response
  pub bounded : read_body response ≡ ok response.body
  pub status : response.status ≡ 200
  pub more_versions : List Bytes
  pub version :
      header_values header_version response.header ≡ some (protocol_version ∷ more_versions)
  pub is_json : valid response.body ≡ true
  pub parsed : parse_decision response.body ≡ ok d

module _ {W : Type 0} (env : Env W) (c : Client) (req : Request) (timeout : Duration) (w : World W)
    (d : Decision) (a : Delivers env c req timeout w d) where
  -- The exchange that is made.
  abbrev pub made : Exchange
  made = record {
    request = http_request c (codes "POST") (codes "/v1/admit") a.payload a.token;
    outcome = ok a.response;
  }

  abbrev deadline : ℕ
  deadline = deadline_after env timeout w.outside

  abbrev sending : Round × World W
  sending =
      send env c 1 deadline timeout (codes "POST") (codes "/v1/admit") a.payload
        (read_token env c w)

  sending-done : (sending.0 ≡ done (ok a.response.body)) × (sending.1.sent ≡ made ∷ w.sent)
  sending-done =
      let (ended, recorded) =
        send-received env c 1 deadline timeout (codes "POST") (codes "/v1/admit") a.payload
          (read_token env c w) a.token a.response a.more_versions a.token_read a.arrived a.bounded
          a.status a.version a.is_json in
      (ended, recorded ∙ ap (λ l. made ∷ l) (read_token-sent env c w))

  request-answered :
      request env c (codes "POST") (codes "/v1/admit") (some (object a.body)) timeout true w
      ≡ (ok a.response.body, sending.1)
  request-answered =
      let opened =
        round-open env c deadline timeout (codes "POST") (codes "/v1/admit") a.payload 1 w
          a.in_time in
      let (looped, state) =
        loop-done env c deadline timeout (codes "POST") (codes "/v1/admit") a.payload 1 1 true w
          (ok a.response.body) (ap (λ (r : Round × World W). r.0) opened ∙ sending-done.0) in
      request-sends env c (codes "POST") (codes "/v1/admit") a.body timeout w a.payload a.usable
        a.encoded
      ∙ settle-some env c _ (ok a.response.body) looped
      ∙ ap (λ v. (ok a.response.body, v)) (state ∙ ap (λ (r : Round × World W). r.1) opened)

  send-outside :
      (read : Result GoError Bytes × World W) (token : Bytes)
      → read.0 ≡ ok token
      → (send env c 1 deadline timeout (codes "POST") (codes "/v1/admit") a.payload read).1.outside
        ≡ (env.exchange deadline
            (http_request c (codes "POST") (codes "/v1/admit") a.payload token)
            read.1.outside).1
  unfolding round_trip
  send-outside (err e, v) token h = cc
  send-outside (ok t, v) token h =
      ap
        (λ x.
          (env.exchange deadline (http_request c (codes "POST") (codes "/v1/admit") a.payload x)
            v.outside).1)
        (ok_injective _ _ h)

  log_decision-kept :
      (started : ℕ) (v : World W)
      → ((log_decision env c req d started v).sent ≡ v.sent)
        × ((log_decision env c req d started v).outside ≡ v.outside)
  unfolding log_decision
  log_decision-kept started v = (ground arith, ground arith)

  -- The decision, after exactly this exchange.
  pub admit_within-Delivers :
      ((admit_within env c req timeout w).0 ≡ ok d)
      × ((admit_within env c req timeout w).1.sent ≡ made ∷ w.sent)
      × ((admit_within env c req timeout w).1.outside
          ≡ (env.exchange
              (deadline_after env timeout w.outside)
              (http_request c (codes "POST") (codes "/v1/admit") a.payload a.token)
              (read_token env c w).1.outside).1)
  unfolding admit_within
  admit_within-Delivers =
      let started = env.now w.outside in
      let admitted =
        ap (admit_wire env c req timeout w) a.wired
        ∙ ap (read_decision env c req started) request-answered
        ∙ ap (conclude env c req started sending.1) a.parsed in
      let (sent, outside) = log_decision-kept started sending.1 in
      (
        ap (λ (r : Result GoError Decision × World W). r.0) admitted,
        ap (λ (r : Result GoError Decision × World W). r.1.sent) admitted ∙ sent ∙ sending-done.1,
        ap (λ (r : Result GoError Decision × World W). r.1.outside) admitted
            ∙ outside
            ∙ send-outside (read_token env c w) a.token a.token_read,
      )
