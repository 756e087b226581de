-- ===== src/Admission/Client/Complete.antt =====
-- Decide when the edge answers its first request in order (admission/client.go: decide).
use mitrity_go.Base.{
  err, ok_injective, Result, ◌≡◌, ◌≢◌, ap, ◌∙◌, true, List, ◌∷◌, Option, none, some, Bytes, codes,
  ok,
}
use mitrity_go.Base.Int.{pos}
use mitrity_go.Std.Json.{valid}
use mitrity_go.Std.Value.{Fields, object}
use mitrity_go.Admission.Types.{Verdict, Decision, parse_decision}
use mitrity_go.Admission.Requests.{Request, held, with_hold, request_wire}
use mitrity_go.Admission.Errors.{GoError}
use mitrity_go.Admission.World.{Env, World, HttpResponse, deadline_after, context_err}
use mitrity_go.Admission.Client.Messages.{
  header_values, header_version, protocol_version, verdict_for,
}
use mitrity_go.Admission.Client.Request.{encode, read_token, read_body, http_request}
use mitrity_go.Admission.Client.Construct.{Client}
use mitrity_go.Admission.Client.Decide.{
  first_verdict, after_first, admit, admit_within, decide_within, decide,
}
use mitrity_go.Admission.Client.Settled.{after_first-settled}
use mitrity_go.Admission.Client.Delivers.{Delivers, admit_within-Delivers}

-- The edge answers the first request of Decide, in time and in order, with a decision that is not held.
pub record Answers {W : Type 0} (env : Env W) (c : Client) (req : Request) (w : World W)
    (d : Decision) : Type 0 where
  pub usable : c.cfg_err ≡ none
  pub body : Fields
  pub wired : request_wire (with_hold req (pos 0)) ≡ ok body
  pub payload : Option Bytes
  pub encoded : encode (some (object body)) ≡ ok payload
  pub in_time : context_err env (deadline_after env c.cfg.timeout w.outside) w.outside ≡ none
  pub token : Bytes
  pub token_read : (read_token env c w).0 ≡ ok token
  pub response : HttpResponse
  pub arrived :
      (env.exchange
        (deadline_after env c.cfg.timeout w.outside)
        (http_request c (codes "POST") (codes "/v1/admit") payload token)
        (read_token env c w).1.outside).0
      ≡ ok response
  pub bounded : read_body response ≡ ok response.body
  pub status : response.status ≡ 200
  pub more_versions : List Bytes
  pub version :
      header_values header_version response.header ≡ some (protocol_version ∷ more_versions)
  pub is_json : valid response.body ≡ true
  pub parsed : parse_decision response.body ≡ ok d
  pub settled : d.decision ≢ held

module _ {W : Type 0} (env : Env W) (c : Client) (req : Request) (w : World W) where
  abbrev delivered :
      (d : Decision)
      → Answers env c req w d
      → Delivers env c (with_hold req (pos 0)) c.cfg.timeout w d
  delivered d a = record {
    usable = a.usable;
    body = a.body;
    wired = a.wired;
    payload = a.payload;
    encoded = a.encoded;
    in_time = a.in_time;
    token = a.token;
    token_read = a.token_read;
    response = a.response;
    arrived = a.arrived;
    bounded = a.bounded;
    status = a.status;
    more_versions = a.more_versions;
    version = a.version;
    is_json = a.is_json;
    parsed = a.parsed;
  }

  pub first_verdict_lem :
      (d : Decision) (r : Result GoError Decision × World W)
      → r.0 ≡ ok d
      → first_verdict env c req c.cfg.hold_timeout r
        ≡ after_first env c req c.cfg.hold_timeout d r.1 d.decision
  first_verdict_lem d (err e, v) h = cc
  first_verdict_lem d (ok d', v) h =
      ap (λ (x : Decision). after_first env c req c.cfg.hold_timeout x v x.decision)
        (ok_injective _ _ h)

  decided :
      (d : Decision) (a : Answers env c req w d)
      → decide env c req w
        ≡ (verdict_for d, (admit_within env c (with_hold req (pos 0)) c.cfg.timeout w).1)
  unfolding decide decide_within admit
  decided d a =
      first_verdict_lem d _
        (admit_within-Delivers env c (with_hold req (pos 0)) c.cfg.timeout w d (delivered d a)).0
      ∙ after_first-settled env c req c.cfg.hold_timeout d _ d.decision a.settled

  module _ (d : Decision) (a : Answers env c req w d) where
    -- When the client is usable and the request can be sent, the caller's context and the
    -- deadline have not ended, the token is readable, and the edge answers the first exchange
    -- with a decision other than held (status 200, this protocol version, valid JSON within the
    -- size bound), Decide returns the verdict of that decision after exactly this exchange.
    pub decide-decided :
        ((decide env c req w).0 ≡ verdict_for d)
        × ((decide env c req w).1.sent
            ≡ record {
              request = http_request c (codes "POST") (codes "/v1/admit") a.payload a.token;
              outcome = ok a.response;
            }
              ∷ w.sent)
    decide-decided =
        let (_, sent, _) =
          admit_within-Delivers env c (with_hold req (pos 0)) c.cfg.timeout w d (delivered d a) in
        (
          ap (λ (r : Verdict × World W). r.0) (decided d a),
          ap (λ (r : Verdict × World W). r.1.sent) (decided d a) ∙ sent,
        )

    -- What the exchange leaves of the surroundings is what Decide leaves of them.
    pub outside-decide :
        (decide env c req w).1.outside
        ≡ (env.exchange
            (deadline_after env c.cfg.timeout w.outside)
            (http_request c (codes "POST") (codes "/v1/admit") a.payload a.token)
            (read_token env c w).1.outside).1
    outside-decide =
        let (_, _, outside) =
          admit_within-Delivers env c (with_hold req (pos 0)) c.cfg.timeout w d (delivered d a) in
        ap (λ (r : Verdict × World W). r.1.outside) (decided d a) ∙ outside
