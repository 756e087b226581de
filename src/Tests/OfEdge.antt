-- ===== src/Tests/OfEdge.antt =====
-- The client against the fake edge, at a request that the edge allows.
use mitrity_go.Tests.Open.{program}
use mitrity_go.Tests.Runs.{random, client, edge, connected, bash}
use mitrity_go.Base.{
  ◌≡◌, refl, ◌+◌, ◌*◌, ◌≤◌, [], ◌∷◌, ◌++◌, Option, none, some, Bytes, codes, arith,
}
use mitrity_go.Base.Int.{pos, pos_part}
use mitrity_go.Std.Value.{Fields, object, Value, end, nil}
use mitrity_go.Std.Json.{marshal}
use mitrity_go.Admission.Types.{Decision, parse_decision}
use mitrity_go.Admission.Config.{hold_margin}
use mitrity_go.Admission.Config.Bounds.{InBounds}
use mitrity_go.Admission.Client.Request.{http_request}
use mitrity_go.Admission.Client.Messages.{verdict_for}
use mitrity_go.Admission.Client.Decide.{decide}
use mitrity_go.Admission.Client.Deadlines.{decide-Punctual}
use mitrity_go.Admission.Client.HoldAnswered.{AnswersHold, decide-held}
use mitrity_go.Admission.World.{HttpResponse}
use mitrity_go.Admission.Requests.{request_wire, with_hold}
use mitrity_go.Admission.Client.Request.{encode}
use mitrity_go.EdgeTest.Edge.{written}
use mitrity_go.Base.{ok}
use mitrity_go.EdgeTest.Script as Script
use mitrity_go.EdgeTest.Edge.{Edge, add_script, recorded_of}
use mitrity_go.EdgeTest.Link.{link, world_of}
use mitrity_go.EdgeTest.EndToEnd.{Scene, decide-Scene}
use mitrity_go.EdgeTest.OnTime.{link-Punctual}
use mitrity_go.Tests.Fixtures.{allow_decision, bash_body, bash_payload, ok_or}

abbrev some_or {ℓ} : {A : Type ℓ} → A → Option A → A
some_or default none = default
some_or default (some a) = a

abbrev content : Script.ScriptedBody → Value
content (Script.json v) = v
content _ = nil

abbrev reply : Script.Scripted
reply = Script.allow end

abbrev allowing_edge : Edge
allowing_edge = add_script (Script.always reply ∷ []) edge

abbrev reply_text : Bytes
reply_text = some_or [] (marshal (content reply.body))

abbrev reply_decision : Decision
reply_decision = ok_or allow_decision (parse_decision reply_text)

abbrev sent_payload : Bytes
sent_payload = some_or [] bash_payload

allowing_scene : Scene random client bash allowing_edge 1000 reply_decision
unfolding program
allowing_scene = record {
  usable = refl;
  timeout_positive = omega arith;
  body = bash_body;
  wired = refl;
  payload = sent_payload;
  encoded = refl;
  by_socket = refl;
  same_socket = refl;
  running = refl;
  same_file = refl;
  file_named = refl;
  holds_token = refl;
  token_plain = refl;
  token_present = refl;
  not_rotating = refl;
  accepting = refl;
  response = Script.always reply;
  rest = [];
  queued = refl;
  value = content reply.body;
  text = reply_text;
  marshalled = refl;
  answer = reply;
  answers = refl;
  status = refl;
  content = refl;
  version = refl;
  versioned = refl;
  prompt = omega arith;
  bounded = omega arith;
  is_json = refl;
  parsed = refl;
  settled = λ e. cc;
}

decide-Scene_example :
    ((decide (link random) client bash (world_of (record { edge = allowing_edge; clock = 1000 }))).0
      ≡ verdict_for reply_decision)
    × ((decide
          (link random)
          client
          bash
          (world_of (record { edge = allowing_edge; clock = 1000 }))).1.outside
        ≡ record {
          edge = record allowing_edge {
            requests =
                allowing_edge.requests
                ++ recorded_of random (
                    http_request client
                      (codes "POST")
                      (codes "/v1/admit")
                      (some sent_payload)
                      allowing_edge.token)
                  ∷ [];
            script = [];
          };
          clock = 1000 + 0;
        })
unfolding program allowing_scene
decide-Scene_example =
    decide-Scene random client bash allowing_edge 1000 reply_decision allowing_scene

client-InBounds : InBounds client.cfg
unfolding program
client-InBounds = record {
  timeout_positive = omega arith;
  timeout_capped = omega arith;
  hold_nonnegative = omega arith;
  hold_capped = omega arith;
}

decide-Punctual_example :
    (decide (link random) client bash (connected edge)).1.outside.clock
    ≤ 1000
      + pos_part client.cfg.timeout
      + pos_part client.cfg.hold_timeout
      + pos_part hold_margin
      + 2 * 0
unfolding link
decide-Punctual_example =
    decide-Punctual (link random) client 0 bash (connected edge) (link-Punctual random)
      client-InBounds

-- A hold that the edge answers with an allow.
abbrev script_hold : Script.HoldScript
script_hold = record { outcome = Script.scripted 0 Script.no_body; wait = 0; approval = [] }

abbrev holding_edge : Edge
holding_edge =
    add_script (Script.hold_respond script_hold ∷ Script.hold_respond script_hold ∷ []) edge

abbrev held_reply : HttpResponse
held_reply = written random (Script.held (codes "apr-hold"))

abbrev held_decision : Decision
held_decision = ok_or allow_decision (parse_decision held_reply.body)

abbrev waiting_body : Fields
waiting_body = ok_or end (request_wire (with_hold bash (pos 2)))

abbrev waiting_payload : Option Bytes
waiting_payload = ok_or none (encode (some (object waiting_body)))

holding :
    AnswersHold (link random) client bash (connected holding_edge) 1 held_decision reply_decision
unfolding program
holding = record {
  budget = refl;
  asked = record {
    usable = refl;
    body = bash_body;
    wired = refl;
    payload = bash_payload;
    encoded = refl;
    in_time = refl;
    token = edge.token;
    token_read = refl;
    response = held_reply;
    arrived = refl;
    bounded = refl;
    status = refl;
    more_versions = [];
    version = refl;
    is_json = refl;
    parsed = refl;
  };
  on_hold = refl;
  waited = record {
    usable = refl;
    body = waiting_body;
    wired = refl;
    payload = waiting_payload;
    encoded = refl;
    in_time = refl;
    token = edge.token;
    token_read = refl;
    response = written random reply;
    arrived = refl;
    bounded = refl;
    status = refl;
    more_versions = [];
    version = refl;
    is_json = refl;
    parsed = refl;
  };
}

decide-held_example :
    ((decide (link random) client bash (connected holding_edge)).0 ≡ verdict_for reply_decision)
    × ((decide (link random) client bash (connected holding_edge)).1.sent
        ≡ record {
          request =
              http_request client (codes "POST") (codes "/v1/admit") waiting_payload edge.token;
          outcome = ok (written random reply);
        }
          ∷ record {
            request =
                http_request client (codes "POST") (codes "/v1/admit") bash_payload edge.token;
            outcome = ok held_reply;
          }
          ∷ [])
unfolding program holding
decide-held_example =
    decide-held (link random) client bash (connected holding_edge) 1 held_decision reply_decision
      holding
