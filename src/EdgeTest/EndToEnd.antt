-- ===== src/EdgeTest/EndToEnd.antt =====
-- The admission client against the fake edge (admission/client.go: Decide; internal/edgetest/edge.go:
-- serve), as the tests of the module run them.
use mitrity_go.Base.{
  ◌==◌, Bool, if◌then◌else◌, ℕ, ◌+◌, ◌<◌, ◌≤◌, ◌≡◌, ◌≢◌, refl, sym, subst, ap, ◌∙◌, true, false,
  not, ◌||◌, List, [], ◌∷◌, ◌++◌, none, some, Bytes, codes, length, Result, ok, arith, same,
  same_refl, is_empty, leb, ltb,
}
use mitrity_go.Base.Int.{pos, pos_part, ◌≤ℤ◌}
use mitrity_go.Std.Strings.{trim_space}
use mitrity_go.Std.Value.{Value, Fields, object}
use mitrity_go.Std.Json.{marshal, valid}
use mitrity_go.Admission.Errors.{GoError}
use mitrity_go.Admission.Config.Addr.{unix}
use mitrity_go.Admission.Client.Construct.{dial_address}
use mitrity_go.Admission.Client.Target.{dial_address-unix}
use mitrity_go.Admission.Types.{Decision, parse_decision}
use mitrity_go.Admission.Requests.{Request, held, with_hold, request_wire}
use mitrity_go.Admission.World.{World, HttpRequest, HttpResponse, context_err, deadline_after}
use mitrity_go.Admission.Client.Messages.{
  header_token, header_version, header_values, protocol_version, verdict_for,
}
use mitrity_go.Admission.Client.Request.{
  encode, read_token, read_body, http_request, request_header,
}
use mitrity_go.Admission.Client.Construct.{dial_address, Client, max_response_bytes}
use mitrity_go.Admission.Client.Decide.{decide}
use mitrity_go.Admission.Client.Complete.{Answers, decide-decided, outside-decide}
use mitrity_go.EdgeTest.Script.{scripted, no_body, Response, Scripted, json}
use mitrity_go.EdgeTest.Edge.{
  payload_of, refresh, authorize, route, admit_response, Edge, serve, respond, written, recorded_of,
  header_get,
}
use mitrity_go.EdgeTest.Serving.{HoldsToken}
use mitrity_go.Admission.Errors.{deadline_exceeded}
use mitrity_go.EdgeTest.Link.{answers_at, world_of, in_time, Linked, link}
use mitrity_go.EdgeTest.OnTime.{
  listening_lem, if-true, in_time-ok, if-false, neg_part_positive, payload_of_json,
}

module _ (random : ℕ → Bytes) where
  -- A JSON response on time, that reads as a decision, is next in the script of an edge whose token
  -- file the client reads.
  pub record Scene (c : Client) (req : Request) (e : Edge) (clock : ℕ) (d : Decision) : Type 0 where
    pub usable : c.cfg_err ≡ none
    pub timeout_positive : pos 1 ≤ℤ c.cfg.timeout
    pub body : Fields
    pub wired : request_wire (with_hold req (pos 0)) ≡ ok body
    pub payload : Bytes
    pub encoded : encode (some (object body)) ≡ ok (some payload)
    pub by_socket : c.network ≡ unix
    pub same_socket : c.address ≡ e.socket_path
    pub running : e.closed ≡ false
    pub same_file : c.cfg.token_file ≡ e.token_file
    pub file_named : is_empty e.token_file ≡ false
    pub holds_token : HoldsToken e
    pub token_plain : trim_space (e.token ++ 10 ∷ []) ≡ e.token
    pub token_present : is_empty e.token ≡ false
    pub not_rotating : e.rotate_on_next_request ≡ false
    pub accepting : e.reject_all_tokens ≡ false
    pub response : Response
    pub rest : List Response
    pub queued : e.script ≡ response ∷ rest
    pub value : Value
    pub text : Bytes
    pub marshalled : marshal value ≡ some text
    pub answer : Scripted
    pub answers :
        response (
          recorded_of random
            (http_request c (codes "POST") (codes "/v1/admit") (some payload) e.token))
        ≡ answer
    pub status : answer.status ≡ 200
    pub content : answer.body ≡ json value
    pub version : answer.version ≡ []
    pub versioned : answer.omit_version ≡ false
    pub prompt : answer.delay < pos_part c.cfg.timeout
    pub bounded : length text ≤ max_response_bytes
    pub is_json : valid text ≡ true
    pub parsed : parse_decision text ≡ ok d
    pub settled : d.decision ≢ held

  module _ (c : Client) (req : Request) (e : Edge) (clock : ℕ) (d : Decision)
      (s : Scene c req e clock d) where
    abbrev asked : HttpRequest
    asked = http_request c (codes "POST") (codes "/v1/admit") (some s.payload) e.token

    abbrev linked : Linked
    linked = record { edge = e; clock = clock }

    abbrev here : World Linked
    here = record { outside = linked; sent = []; logs = [] }

    abbrev noted : Edge
    noted = record e { requests = e.requests ++ recorded_of random asked ∷ [] }

    refresh-Scene : refresh random noted ≡ noted
    refresh-Scene = simp (s.not_rotating) refl

    token-Scene : header_get header_token (recorded_of random asked).header ≡ e.token
    unfolding header_get http_request request_header same
    token-Scene = simp (s.token_present) refl

    admit_response-Scene :
        admit_response random (recorded_of random asked) noted noted.script
        ≡ (s.answer, record noted { script = s.rest })
    admit_response-Scene =
        simp (s.queued) (ap (λ a. (a, record noted { script = s.rest })) s.answers)

    route-Scene :
        route random (recorded_of random asked) noted ≡ (s.answer, record noted { script = s.rest })
    unfolding header_get http_request request_header same
    route-Scene = admit_response-Scene

    authorize-Scene :
        authorize random (recorded_of random asked) noted
        ≡ (s.answer, record noted { script = s.rest })
    authorize-Scene =
        let wrong =
          not (same (header_get header_token (recorded_of random asked).header) e.token) in
        let accepted : (e.reject_all_tokens || wrong) ≡ false =
          ground (arith, s.accepting, token-Scene, same_refl e.token) in
        ap
          (λ (b : Bool).
            if b
            then (scripted 401 no_body, noted)
            else route random (recorded_of random asked) noted)
          accepted
        ∙ route-Scene

    respond-Scene :
        respond random (recorded_of random asked) noted
        ≡ (s.answer, record noted { script = s.rest })
    unfolding respond http_request same
    respond-Scene = ap (authorize random (recorded_of random asked)) refresh-Scene ∙ authorize-Scene

    serve-Scene :
        serve random asked e
        ≡ (written random s.answer, s.answer.delay, record noted { script = s.rest })
    unfolding serve
    serve-Scene = ap (λ (r : Scripted × Edge). (written random r.0, r.0.delay, r.1)) respond-Scene

    read_token-Scene : read_token (link random) c here ≡ (ok e.token, here)
    unfolding read_token link
    read_token-Scene =
        simp
          (
            s.same_file,
            s.file_named,
            s.running,
            same_refl e.token_file,
            s.holds_token,
            s.token_plain,
            s.token_present,
          )
          refl

    on_time : clock + s.answer.delay < deadline_after (link random) c.cfg.timeout linked
    unfolding link
    on_time = omega (arith, s.prompt, neg_part_positive c.cfg.timeout s.timeout_positive)

    listens : answers_at e asked ≡ true
    unfolding http_request
    listens =
        listening_lem e.closed c.network (dial_address c) e.socket_path s.running s.by_socket
          (dial_address-unix c s.by_socket ∙ s.same_socket)

    exchange-Scene :
        (link random).exchange (deadline_after (link random) c.cfg.timeout linked) asked linked ≡ (
          ok (written random s.answer),
          record { edge = record noted { script = s.rest }; clock = clock + s.answer.delay },
        )
    unfolding link
    exchange-Scene =
        let deadline = deadline_after (link random) c.cfg.timeout linked in
        if-true (answers_at e asked) _ _ listens
        ∙ ap (in_time deadline clock) serve-Scene
        ∙ in_time-ok deadline clock (written random s.answer) s.answer.delay
            (record noted { script = s.rest }) on_time

    body-Scene : (written random s.answer).body ≡ s.text
    body-Scene =
        let with_body : (s.answer.status == 204 || s.answer.status == 304) ≡ false =
          ground (arith, s.status) in
        if-false (s.answer.status == 204 || s.answer.status == 304) []
          (payload_of random s.answer.body) with_body
        ∙ ap (payload_of random) s.content
        ∙ payload_of_json random s.value s.text s.marshalled

    written-Scene :
        ((written random s.answer).status ≡ 200)
        × (header_values header_version (written random s.answer).header
            ≡ some (protocol_version ∷ []))
    unfolding header_values same
    written-Scene = (simp (s.status) refl, simp (s.versioned, s.version) refl)

    read_body-Scene : read_body (written random s.answer) ≡ ok (written random s.answer).body
    unfolding read_body
    read_body-Scene =
        let small : ltb max_response_bytes (length (written random s.answer).body) ≡ false =
          ground (arith, s.bounded, ap length body-Scene) in
        simp (small) refl

    reached :
        (link random).exchange
          (deadline_after (link random) c.cfg.timeout linked)
          asked
          (read_token (link random) c here).1.outside
        ≡ (
          ok (written random s.answer),
          record { edge = record noted { script = s.rest }; clock = clock + s.answer.delay },
        )
    reached =
        ap
          (λ (r : Result GoError Bytes × World Linked).
            (link random).exchange (deadline_after (link random) c.cfg.timeout linked) asked
              r.1.outside)
          read_token-Scene
        ∙ exchange-Scene

    answered_scene : Answers (link random) c req here d
    unfolding link context_err
    answered_scene = record {
      usable = s.usable;
      body = s.body;
      wired = s.wired;
      payload = some s.payload;
      encoded = s.encoded;
      in_time =
          if-false (leb (deadline_after (link random) c.cfg.timeout linked) clock)
            (some deadline_exceeded) none (ground (arith, on_time));
      token = e.token;
      token_read = ap (λ (r : Result GoError Bytes × World Linked). r.0) read_token-Scene;
      response = written random s.answer;
      arrived = ap (λ (r : Result GoError HttpResponse × Linked). r.0) reached;
      bounded = read_body-Scene;
      status = written-Scene.0;
      more_versions = [];
      version = written-Scene.1;
      is_json = subst (λ b. valid b ≡ true) (sym body-Scene) s.is_json;
      parsed = subst (λ b. parse_decision b ≡ ok d) (sym body-Scene) s.parsed;
      settled = s.settled;
    }

    -- A client and the fake edge together. The client has no configuration error and a positive
    -- timeout, reaches the edge by the edge's Unix socket, and reads the edge's token file, whose
    -- path is not empty; the request with a hold budget of 0 has a body on the wire, and the
    -- encoded body is within the request limit. The edge is running, its token file holds its
    -- token, which is not empty and without space around it, and it neither rotates nor rejects
    -- the token. The next response of the script answers this request with status 200, this
    -- protocol version, a delay below the client's timeout, and a JSON document that is valid,
    -- within the response limit, and reads as a decision other than held. Then Decide returns the
    -- verdict of that decision, and leaves the edge with this request recorded behind the earlier
    -- ones and the script without this response, and the clock on by the delay.
    pub decide-Scene :
        ((decide (link random) c req (world_of (record { edge = e; clock = clock }))).0
          ≡ verdict_for d)
        × ((decide (link random) c req (world_of (record { edge = e; clock = clock }))).1.outside
            ≡ record {
              edge = record e {
                requests =
                    e.requests
                    ++ recorded_of random
                        (http_request c (codes "POST") (codes "/v1/admit") (some s.payload) e.token)
                      ∷ [];
                script = s.rest;
              };
              clock = clock + s.answer.delay;
            })
    unfolding answered_scene link http_request
    decide-Scene = (
      (decide-decided (link random) c req here d answered_scene).0,
      outside-decide (link random) c req here d answered_scene
          ∙ ap (λ (r : Result GoError HttpResponse × Linked). r.1) reached,
    )
