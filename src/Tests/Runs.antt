-- ===== src/Tests/Runs.antt =====
-- The client and the fake edge together, as in admission/client_test.go and admission/decide_test.go.
use mitrity_go.Tests.Open.{program}
use mitrity_go.Base.{
  same, false, Result, ok, err, ◌∷◌, length, ◌*◌, ℕ, ◌≡◌, refl, true, [], none, some, Bytes, codes,
  replicate,
}
use mitrity_go.Base.Int.{pos}
use mitrity_go.Std.Duration.{second}
use mitrity_go.Std.Value.{bool, object, str, field, end}
use mitrity_go.Admission.Canonical.{CanonicalError, canonical_json}
use mitrity_go.Admission.Types.{policy_denied, is_unreachable, Verdict}
use mitrity_go.Admission.Requests.{Request}
use mitrity_go.Admission.Config.{Config}
use mitrity_go.Admission.World.{World}
use mitrity_go.Admission.Client.Construct.{Client, new_with_config}
use mitrity_go.Admission.Client.Decide.{decide}
use mitrity_go.EdgeTest.Edge.{
  addr, admits, attests, close, add_script, set_reject_all_tokens, Edge, new_edge,
}
use mitrity_go.EdgeTest.Script.{scripted, no_body, hold_respond, deny, always}
use mitrity_go.EdgeTest.Link.{Linked, link, world_of}

abbrev pub random : ℕ → Bytes
random n = replicate 12 n

abbrev pub edge : Edge
edge = new_edge random

abbrev pub config : Config
config = record {
  addr = addr edge;
  token_file = edge.token_file;
  timeout = pos 500000000;
  hold_timeout = pos (2 * second);
}

abbrev pub client : Client
client = new_with_config config []

abbrev pub connected : Edge → World Linked
connected e = world_of (record { edge = e; clock = 1000 })

abbrev pub bash : Request
bash = record {
  tool_name = codes "Bash";
  tool_input = some (field (codes "command") (str (codes "ls")) end);
  surface = [];
  framework_version = [];
  session_id = codes "s";
  cwd = [];
  tool_use_id = [];
  hold_timeout_seconds = none;
}

abbrev pub run : Edge → Verdict × World Linked
run e = decide (link random) client bash (connected e)

allow_test : (run edge).0.allowed ≡ true
unfolding program
allow_test = refl

abbrev refused_by : Edge → Verdict
refused_by e = (run e).0

-- A deny is a policy denial, with one request.
deny_test : policy_denied (refused_by (add_script (always (deny []) ∷ []) edge)) ≡ true
unfolding program
deny_test = refl

-- A hold that a human approves within the budget: two requests, and the tool may run.
hold_test :
    let r = run (
      add_script
        (hold_respond (record { outcome = scripted 0 no_body; wait = 0; approval = [] })
          ∷ hold_respond (record { outcome = scripted 0 no_body; wait = 0; approval = [] })
          ∷ [])
        edge) in
    (r.0.allowed ≡ true) × (length r.1.sent ≡ 2)
unfolding program
hold_test = (refl, refl)

-- A token that is never accepted: two requests, and an error.
rejected_test :
    let r = run (set_reject_all_tokens true edge) in
    (is_unreachable r.0 ≡ true) × (length r.1.sent ≡ 2)
unfolding program
rejected_test = (refl, refl)

-- A closed edge is unreachable: its token file is gone.
closed_test : is_unreachable (refused_by (close edge)) ≡ true
unfolding program
closed_test = refl

-- The edge records what it was asked.
admits_test :
    (length (admits (run edge).1.outside.edge) ≡ 1) × (attests (run edge).1.outside.edge ≡ [])
unfolding program
admits_test = (refl, refl)

abbrev text_of : Result CanonicalError Bytes → Bytes
text_of (ok s) = s
text_of (err e) = []

-- Two names that are not UTF-8 read as the same runes, and the order of the map shows.
same_names_test :
    same
      (text_of (
        canonical_json
          (object (field (0x80 ∷ []) (bool true) (field (0x81 ∷ []) (bool false) end)))))
      (text_of (
        canonical_json
          (object (field (0x81 ∷ []) (bool false) (field (0x80 ∷ []) (bool true) end)))))
    ≡ false
unfolding program
same_names_test = refl
