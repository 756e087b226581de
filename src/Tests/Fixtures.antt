-- ===== src/Tests/Fixtures.antt =====
-- The inputs of the runs and of the theorems at concrete inputs.
use mitrity_go.Tests.Runs.{random, config, client, edge, connected, bash}
use mitrity_go.Base.{
  List, true, ℕ, ◌+◌, false, [], ◌∷◌, Option, none, some, Bytes, codes, replicate, Result, ok, err,
}
use mitrity_go.Base.Int.{pos}
use mitrity_go.Std.Value.{Value, Fields, object, str, nil, field, end}
use mitrity_go.Std.Float.{finite}
use mitrity_go.Admission.Errors.{plain, GoError}
use mitrity_go.Admission.Types.{Decision}
use mitrity_go.Admission.Requests.{allow, request_wire, with_hold}
use mitrity_go.Admission.Config.{Platform}
use mitrity_go.Admission.Config.Addr.{unix}
use mitrity_go.Admission.World.{World, HttpResponse, HttpRequest}
use mitrity_go.EdgeTest.Edge.{Edge, set_rotate_on_next_request}
use mitrity_go.EdgeTest.Script.{scripted, no_body}
use mitrity_go.Admission.Client.Decide.{send}
use mitrity_go.Admission.Client.Request.{read_token}
use mitrity_go.Admission.Client.Request.{encode}
use mitrity_go.Admission.Client.Construct.{Client, new_with_config}
use mitrity_go.Govern.State.{Governor, new_governor}
use mitrity_go.Govern.Admit.{GovernorEnv, State, Context, session_key, admit}
use mitrity_go.Govern.Tool.{Tool, Caller, func}
use mitrity_go.Govern.Toolset.{Change, registering}
use mitrity_go.EdgeTest.Edge.{written, recorded_of}
use mitrity_go.EdgeTest.Link.{Linked, link}

abbrev pub surroundings : GovernorEnv Linked
surroundings = record {
  env = link random;
  getwd = λ w. some (codes "/work");
  random = λ n w. (replicate n 7, w);
}

abbrev pub governor : Governor
governor = new_governor [] client (replicate 16 1)

abbrev pub governed : State Linked
governed = record { governor = governor; world = connected edge; lines = [] }

abbrev pub session : Context
session = (session_key, codes "s") ∷ []

abbrev pub command : Fields
command = field (codes "command") (str (codes "ls")) end

-- A tool that counts its calls.
abbrev pub counter : Tool ℕ Bytes Bytes
counter = func (codes "Bash") (λ ctx input n. (ok (codes "done"), n + 1))

abbrev pub remote : Caller ℕ Bytes Bytes
remote ctx tool input n = (ok tool, n + 1)

abbrev pub unusable : Client
unusable = new_with_config (record config { addr = codes "0.0.0.0:80" }) []

abbrev pub address_error : GoError
address_error = get_error unusable.cfg_err
  where
    get_error : Option GoError → GoError
    get_error (some e) = e
    get_error none = plain []

abbrev pub allow_body : Bytes
allow_body = codes "{\"decision\":\"allow\"}"

abbrev pub allow_decision : Decision
allow_decision = record {
  decision = allow;
  reason = [];
  admission_id = [];
  risk_score = finite false 0 0;
  approval_id = [];
  updated_input = none;
  routed_to = [];
}

abbrev pub change : Fields
change = field (codes "command") (str (codes "ls -l")) end

abbrev pub admitted : State Linked
admitted = (admit surroundings session (codes "Bash") (some command) governed).1

abbrev pub bad_token : HttpRequest
bad_token = record {
  network = unix;
  dial_address = codes "/tmp/me-1/admission.sock";
  method = codes "POST";
  path = codes "/v1/admit";
  host = codes "mitrity-admission";
  header =
      (codes "X-Mitrity-Admission-Version", codes "1")
      ∷ (codes "X-Mitrity-Admission-Token", codes "old")
      ∷ [];
  payload = some (codes "{}");
}

abbrev pub ok_or : {E A : Type 0} → A → Result E A → A
ok_or default (ok a) = a
ok_or default (err e) = default

abbrev pub bash_body : Fields
bash_body = ok_or end (request_wire (with_hold bash (pos 0)))

abbrev pub bash_payload : Option Bytes
bash_payload = ok_or none (encode (some (object bash_body)))

abbrev pub allowing : HttpResponse
allowing = written random (edge.default_admit (recorded_of random bad_token))

abbrev pub platform : Platform
platform = record { is_windows = false; getenv = λ key. codes "9999h"; join = λ parts. [] }

-- The fake edge restarts on the first request: the token of the file is another from then on.
abbrev pub rotating : Edge
rotating = set_rotate_on_next_request true edge

abbrev pub rejecting : HttpResponse
rejecting = written random (scripted 401 no_body)

abbrev pub first_sent : World Linked
first_sent =
    (send (link random) client 1 500001000 client.cfg.timeout (codes "POST") (codes "/v1/admit")
      bash_payload (read_token (link random) client (connected rotating))).1

abbrev pub bash_then_read : List Change
bash_then_read = registering (codes "Bash") ∷ registering (codes "Read") ∷ []

abbrev pub read_then_bash : List Change
read_then_bash = registering (codes "Read") ∷ registering (codes "Bash") ∷ []

abbrev pub command_first : Value
command_first = object (field (codes "command") (str (codes "ls")) (field (codes "tool") nil end))

abbrev pub tool_first : Value
tool_first = object (field (codes "tool") nil (field (codes "command") (str (codes "ls")) end))
