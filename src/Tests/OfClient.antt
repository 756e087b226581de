-- ===== src/Tests/OfClient.antt =====
-- The theorems on the admission client, at a client and the fake edge.
use mitrity_go.Tests.Open.{program}
use mitrity_go.Tests.Runs.{random, config, client, edge, connected, bash, run}
use mitrity_go.Base.{
  arith, ◌⊎◌, ◌↔◌, ℕ, ◌*◌, ◌+◌, ◌≤◌, ◌≡◌, refl, false, [], ◌∷◌, none, some, Bytes, codes, length,
  Result, ok, err,
}
use mitrity_go.Base.Int.{pos, pos_part}
use mitrity_go.Std.Duration.{second}
use mitrity_go.Std.Value.{nil, str, end, field, Fields, object}
use mitrity_go.Std.Json.{unmarshal}
use mitrity_go.Admission.Errors.{GoError}
use mitrity_go.Admission.Types.{parse_decision}
use mitrity_go.Admission.Requests.{request_wire, with_hold}
use mitrity_go.Admission.Config.{normalized, from_environ}
use mitrity_go.Admission.Config.RoundTrip.{quad, parse_loopback_addr-join_host_port}
use mitrity_go.Std.Ip.{dotted}
use mitrity_go.Std.Ip.{join_host_port}
use mitrity_go.Admission.Config.Addr.{parse_loopback_addr}
use mitrity_go.Admission.Config.Addr.{validate_addr}
use mitrity_go.Admission.Config.Bounds.{InBounds, normalized-InBounds, from_environ-InBounds}
use mitrity_go.Std.Ip.{v4}
use mitrity_go.Admission.Config.Accepting.{parse_loopback_addr-accepted}
use mitrity_go.Admission.Config.Loopback.{
  localhost, ipv4, IsAccepted, parse_loopback_addr-IsAccepted,
}
use mitrity_go.Admission.Config.Match.{named}
use mitrity_go.Admission.Decoding.{IsDecision, parse_decision-IsDecision}
use mitrity_go.Admission.Wire.{IsSendable, IsWire, request_wire-IsWire}
use mitrity_go.Admission.Canonical.{config_hash, canonical_json}
use mitrity_go.Admission.Canonical.Order.{canonical_json-SameValue, in_object, exchanged}
use mitrity_go.Admission.Canonical.Total.{length-config_hash, IsSimple}
use mitrity_go.Std.Value.{strings}
use mitrity_go.Admission.Client.Retry.{Rotates, decide-retried}
use mitrity_go.Tests.Fixtures.{tool_first, command_first, rotating, rejecting, first_sent}
use mitrity_go.Admission.Client.Faults.{admit-FailsWell}
use mitrity_go.Admission.Client.Reported.{FailsWell}
use mitrity_go.EdgeTest.OnTime.{link-Foreign}
use mitrity_go.Admission.Client.Decide.{admit}
use mitrity_go.Admission.Client.Request.{http_request}
use mitrity_go.Admission.Client.Construct.{new_with_config, new_with_config}
use mitrity_go.Admission.Client.Decide.{
  decide, decide_within, decide_with_hold_budget, request_loop, whole_seconds,
}
use mitrity_go.Admission.Client.FailClosed.{
  EdgeAllowed, decide-EdgeAllowed, decide_with_hold_budget-EdgeAllowed, length-decide,
  request_loop-IsSome,
}
use mitrity_go.Admission.Client.Outcomes.{Outcome, decide_within-Outcome, decide_refused}
use mitrity_go.Admission.Client.Complete.{Answers, decide-decided}
use mitrity_go.Admission.Client.Target.{Target, new_with_config-Target}
use mitrity_go.Admission.Client.Messages.{verdict_for, unreachable_verdict}
use mitrity_go.EdgeTest.Link.{link}
use mitrity_go.Tests.Fixtures.{
  unusable, address_error, allow_body, allow_decision, ok_or, bash_body, bash_payload, allowing,
  platform,
}

decide-EdgeAllowed_example :
    EdgeAllowed client bash (whole_seconds client.cfg.hold_timeout) (run edge).0 (run edge).1.sent
unfolding program
decide-EdgeAllowed_example = decide-EdgeAllowed (link random) client bash (connected edge) refl

decide_with_hold_budget-EdgeAllowed_example :
    (seconds : ℕ) × EdgeAllowed client bash seconds
      (decide_with_hold_budget (link random) client bash (pos second) (connected edge)).0
      (decide_with_hold_budget (link random) client bash (pos second) (connected edge)).1.sent
    × (seconds * second ≤ second)
    × (seconds * second ≤ pos_part client.cfg.hold_timeout)
unfolding program
decide_with_hold_budget-EdgeAllowed_example =
    decide_with_hold_budget-EdgeAllowed (link random) client bash (pos second) (connected edge) refl

length-decide_example : length (run edge).1.sent ≤ 0 + 4
length-decide_example = length-decide (link random) client bash (connected edge)

decide_within-Outcome_example :
    Outcome (decide_within (link random) client bash (pos second) (connected edge)).0
decide_within-Outcome_example =
    decide_within-Outcome (link random) client bash (pos second) (connected edge)

decide_refused_example :
    (e : GoError) × (decide (link random) unusable bash (connected edge)
      ≡ (unreachable_verdict e, connected edge))
    × ((request_wire (with_hold bash (pos 0)) ≡ err e) ⊎ (e ≡ address_error))
unfolding program
decide_refused_example =
    decide_refused (link random) unusable bash address_error refl (connected edge)

request_loop-IsSome_example :
    (result : Result GoError Bytes) × ((request_loop
        (link random)
        client
        2
        1
        500001000
        (pos 500000000)
        (codes "GET")
        (codes "/healthz")
        none
        false
        (connected edge)).0
      ≡ some result)
request_loop-IsSome_example =
    request_loop-IsSome (link random) client 500001000 (pos 500000000) (codes "GET")
      (codes "/healthz") none false (connected edge)

new_with_config-Target_example :
    Target
      (new_with_config config [])
      (http_request (new_with_config config []) (codes "GET") (codes "/healthz") none [])
    × InBounds (new_with_config config []).cfg
    × ((new_with_config config []).cfg_err ≡ validate_addr (new_with_config config []).cfg.addr)
new_with_config-Target_example =
    new_with_config-Target config [] (codes "GET") (codes "/healthz") none []

normalized-InBounds_example : InBounds (normalized (record config { timeout = pos 0 }))
normalized-InBounds_example = normalized-InBounds (record config { timeout = pos 0 })

parse_loopback_addr-IsAccepted_example :
    IsAccepted (codes "127.0.0.1:9700") (codes "127.0.0.1") 9700
unfolding program
parse_loopback_addr-IsAccepted_example =
    parse_loopback_addr-IsAccepted (codes "127.0.0.1:9700") (codes "127.0.0.1") 9700 refl

-- A host by its name.
local_address : IsAccepted (codes "localhost:9700") (codes "127.0.0.1") 9700
unfolding program
local_address = record {
  literal = codes "localhost";
  digits = codes "9700";
  plain = named refl (refl, (refl, (refl, (refl, (refl, (refl, (refl, (refl, (refl, tt)))))))));
  digits_only = (refl, (refl, (refl, (refl, tt))));
  few_digits = omega arith;
  port_value = refl;
  port_positive = omega arith;
  port_capped = omega arith;
  ip = v4 127 0 0 1;
  named_ip = localhost refl refl;
  loopback = ipv4 0 0 1 (omega arith) (omega arith) (omega arith) refl refl;
}

parse_loopback_addr-accepted_example :
    parse_loopback_addr (codes "localhost:9700") ≡ ok (codes "127.0.0.1", 9700)
parse_loopback_addr-accepted_example =
    parse_loopback_addr-accepted (codes "localhost:9700") (codes "127.0.0.1") 9700 local_address

parse_decision-IsDecision_example :
    (parse_decision allow_body ≡ ok allow_decision)
    ↔ ((m : Fields) × (unmarshal allow_body ≡ some (object m)) × IsDecision m allow_decision)
parse_decision-IsDecision_example = parse_decision-IsDecision allow_body allow_decision

request_wire-IsWire_example :
    ((body : Fields) → request_wire bash ≡ ok body → IsSendable bash × IsWire bash body)
    × (IsSendable bash → (body : Fields) × (request_wire bash ≡ ok body))
request_wire-IsWire_example = request_wire-IsWire bash

edge_answers :
    Answers
      (link random)
      client
      bash
      (connected edge)
      (ok_or allow_decision (parse_decision allowing.body))
unfolding program
edge_answers = record {
  usable = refl;
  body = bash_body;
  wired = refl;
  payload = bash_payload;
  encoded = refl;
  in_time = refl;
  token = edge.token;
  token_read = refl;
  response = allowing;
  arrived = refl;
  bounded = refl;
  status = refl;
  more_versions = [];
  version = refl;
  is_json = refl;
  parsed = refl;
  settled = λ h. ground arith;
}

decide-decided_example :
    ((decide (link random) client bash (connected edge)).0
      ≡ verdict_for (ok_or allow_decision (parse_decision allowing.body)))
    × ((decide (link random) client bash (connected edge)).1.sent
        ≡ record {
          request = http_request client (codes "POST") (codes "/v1/admit") bash_payload edge.token;
          outcome = ok allowing;
        }
          ∷ [])
unfolding edge_answers
decide-decided_example =
    decide-decided (link random) client bash (connected edge)
      (ok_or allow_decision (parse_decision allowing.body)) edge_answers

from_environ-InBounds_example : InBounds (from_environ platform none)
from_environ-InBounds_example = from_environ-InBounds platform none

admit-FailsWell_example :
    FailsWell
      (admit
        (link random)
        (new_with_config config [])
        (record bash { tool_name = codes " " })
        (connected edge)).0
admit-FailsWell_example =
    admit-FailsWell (link random) config [] (record bash { tool_name = codes " " }) (connected edge)
      (link-Foreign random)

length-config_hash_example :
    (hash : Bytes) × (config_hash (object (field (codes "a") (strings (codes "b" ∷ [])) end))
      ≡ ok hash)
    × (length hash ≡ 64)
unfolding IsSimple
length-config_hash_example =
    length-config_hash (object (field (codes "a") (strings (codes "b" ∷ [])) end)) (tt, tt)

rotating_edge :
    Rotates
      (link random)
      client
      bash
      (connected rotating)
      (ok_or allow_decision (parse_decision allowing.body))
unfolding program
rotating_edge = record {
  usable = refl;
  body = bash_body;
  wired = refl;
  payload = bash_payload;
  encoded = refl;
  in_time = refl;
  old_token = rotating.token;
  old_read = refl;
  rejection = rejecting;
  rejected = refl;
  rejection_bounded = refl;
  unauthorized = refl;
  between = first_sent;
  is_between = refl;
  still_in_time = refl;
  token = first_sent.outside.edge.token;
  token_read = refl;
  response = allowing;
  arrived = refl;
  bounded = refl;
  status = refl;
  more_versions = [];
  version = refl;
  is_json = refl;
  parsed = refl;
  settled = λ h. ground arith;
}

decide-retried_example :
    ((decide (link random) client bash (connected rotating)).0
      ≡ verdict_for (ok_or allow_decision (parse_decision allowing.body)))
    × ((decide (link random) client bash (connected rotating)).1.sent
        ≡ record {
          request =
              http_request client
                (codes "POST")
                (codes "/v1/admit")
                bash_payload
                first_sent.outside.edge.token;
          outcome = ok allowing;
        }
          ∷ record {
            request =
                http_request client (codes "POST") (codes "/v1/admit") bash_payload rotating.token;
            outcome = ok rejecting;
          }
          ∷ [])
unfolding rotating_edge
decide-retried_example =
    decide-retried (link random) client bash (connected rotating)
      (ok_or allow_decision (parse_decision allowing.body)) rotating_edge

canonical_json-SameValue_example :
    (canonical_json command_first ≡ canonical_json tool_first)
    × (config_hash command_first ≡ config_hash tool_first)
unfolding program
canonical_json-SameValue_example =
    canonical_json-SameValue command_first tool_first
      (in_object _ _ (exchanged (codes "command") (codes "tool") (str (codes "ls")) nil end refl))

parse_loopback_addr-join_host_port_example :
    parse_loopback_addr (join_host_port (dotted 127 0 0 1) 8777) ≡ ok (dotted 127 0 0 1, 8777)
parse_loopback_addr-join_host_port_example =
    parse_loopback_addr-join_host_port (dotted 127 0 0 1) 8777
      (quad 0 0 1 (omega arith) (omega arith) (omega arith)) (omega arith) (omega arith)
