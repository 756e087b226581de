-- ===== src/EdgeTest/Edge.antt =====
-- internal/edgetest/edge.go: the state of the fake edge, and its handler.
use mitrity_go.Base.{
  ℕ, suc, Bool, true, false, not, ◌||◌, List, [], ◌∷◌, ◌++◌, Option, none, some, ◌==◌,
  if◌then◌else◌, Bytes, codes, same, is_empty,
}
use mitrity_go.Base.Int.{pos}
use mitrity_go.Std.Strings.{hex_encode}
use mitrity_go.Std.Value.{str, int, object, end, field}
use mitrity_go.Std.Json.{unmarshal_object, marshal}
use mitrity_go.Admission.World.{HttpRequest, HttpResponse}
use mitrity_go.Admission.Client.Messages.{header_token, header_version}
use mitrity_go.EdgeTest.Script.{
  Recorded, ScriptedBody, no_body, verbatim, json, Scripted, scripted, Response, always, allow,
}

-- The fake edge. `file` is the content of the token file, `minted` counts the tokens made so far;
-- behind `closed` the server is stopped and the files are gone.
pub record Edge : Type 0 where
  pub closed : Bool
  pub socket_path : Bytes
  pub token_file : Bytes
  pub token : Bytes
  pub file : Bytes
  pub minted : ℕ
  pub requests : List Recorded
  pub script : List Response
  pub default_admit : Response
  pub default_attest : Scripted
  pub default_health : Scripted
  pub rotate_on_next_request : Bool
  pub reject_all_tokens : Bool

unfoldable pub header_get : Bytes → List (Bytes × Bytes) → Bytes
header_get k [] = []
header_get k ((j, v) ∷ h) = if same j k then v else header_get k h

unfoldable pub bad_version : Bytes → Scripted
bad_version version = scripted 400 (
    json (
      object (
        field (codes "error")
          (str (header_version ++ (codes " must be \"1\", got \"" ++ (version ++ codes "\""))))
          end)))

unfoldable pub not_found : Scripted
not_found = scripted 404 (json (object (field (codes "error") (str (codes "not found")) end)))

-- byPath
unfoldable pub by_path : Bytes → List Recorded → List Recorded
by_path path [] = []
by_path path (r ∷ rs) = if same r.path path then r ∷ by_path path rs else by_path path rs

-- Close
unfoldable pub close : Edge → Edge
close e = record e { closed = true }

-- Addr: what a client has in MITRITY_ADMISSION_ADDR for this edge.
unfoldable pub addr : Edge → Bytes
addr e = codes "unix:" ++ e.socket_path

-- Admits and Attests
unfoldable pub admits : Edge → List Recorded
unfolding by_path
admits e = by_path (codes "/v1/admit") e.requests

unfoldable pub attests : Edge → List Recorded
unfolding by_path
attests e = by_path (codes "/v1/attest") e.requests

-- Script
unfoldable pub add_script : List Response → Edge → Edge
add_script responses e = record e { script = e.script ++ responses }

-- The setters of the test.
unfoldable pub set_default_admit : Response → Edge → Edge
set_default_admit r e = record e { default_admit = r }

unfoldable pub set_default_attest : Scripted → Edge → Edge
set_default_attest s e = record e { default_attest = s }

unfoldable pub set_rotate_on_next_request : Bool → Edge → Edge
set_rotate_on_next_request v e = record e { rotate_on_next_request = v }

unfoldable pub set_reject_all_tokens : Bool → Edge → Edge
set_reject_all_tokens v e = record e { reject_all_tokens = v }

-- `random n` is what the n-th call of crypto/rand gives.
module _ (random : ℕ → Bytes) where
  -- writeToken
  abbrev pub write_token : Edge → Bytes × Edge
  write_token e =
      let token = codes "tok-" ++ hex_encode (random e.minted) in
      (token, record e { file = token ++ 10 ∷ []; minted = suc e.minted })

  -- RotateToken
  unfoldable pub rotate_token : Edge → Edge
  rotate_token e = let (token, e') = write_token e in record e' { token = token }

  -- New, before the listener is started.
  unfoldable pub new_edge : Edge
  unfolding rotate_token allow
  new_edge = rotate_token (record {
    closed = false;
    socket_path = codes "/tmp/me-1/admission.sock";
    token_file = codes "/tmp/me-1/admission.token";
    token = [];
    file = [];
    minted = 0;
    requests = [];
    script = [];
    default_admit = always (allow end);
    default_attest = scripted 204 no_body;
    default_health = scripted 200 (
        json (
          object (
            field (codes "status") (str (codes "ok"))
              (field (codes "profile_age_seconds") (int (pos 3)) end))));
    rotate_on_next_request = false;
    reject_all_tokens = false;
  })

  -- The scripted response of an admit, or the default one.
  abbrev pub admit_response : Recorded → Edge → List Response → Scripted × Edge
  admit_response r e [] = (e.default_admit r, e)
  admit_response r e (next ∷ rest) = (next r, record e { script = rest })

  abbrev pub refresh : Edge → Edge
  refresh e =
      if e.rotate_on_next_request
      then rotate_token (record e { rotate_on_next_request = false })
      else e

  -- respond behind the tests of path and token.
  abbrev pub route : Recorded → Edge → Scripted × Edge
  route r e =
      if not (same (header_get header_version r.header) (codes "1"))
      then (bad_version (header_get header_version r.header), e)
      else if same r.path (codes "/v1/attest")
      then (e.default_attest, e)
      else if same r.path (codes "/v1/admit")
      then admit_response r e e.script
      else (not_found, e)

  abbrev pub authorize : Recorded → Edge → Scripted × Edge
  authorize r e =
      if e.reject_all_tokens || not (same (header_get header_token r.header) e.token)
      then (scripted 401 no_body, e)
      else route r e

  -- respond
  unfoldable pub respond : Recorded → Edge → Scripted × Edge
  respond r e =
      if same r.path (codes "/healthz") then (e.default_health, e) else authorize r (refresh e)

  abbrev pub payload_of : ScriptedBody → Bytes
  payload_of no_body = []
  payload_of (verbatim s) = s
  payload_of (json v) = elim (marshal v) [ none ↦ [] | some s ↦ s ]

  abbrev pub response_header : Scripted → Bytes → List (Bytes × List Bytes)
  response_header s payload =
      (if s.omit_version
        then []
        else (header_version, (if is_empty s.version then codes "1" else s.version) ∷ []) ∷ [])
      ++ (if is_empty payload || s.omit_content_type
          then []
          else (
            codes "Content-Type",
            (if is_empty s.content_type then codes "application/json" else s.content_type) ∷ [],
          )
            ∷ [])

  -- What serve writes for a scripted response.
  -- Behind the status 204 or 304, the server of net/http drops what the handler writes.
  abbrev pub written : Scripted → HttpResponse
  written s =
      let payload = payload_of s.body in
      record {
        status = if s.status == 0 then 200 else s.status;
        header = response_header s payload;
        body = if s.status == 204 || s.status == 304 then [] else payload;
        broken = none;
      }

  abbrev raw_body : Option Bytes → Bytes
  raw_body none = []
  raw_body (some s) = s

  abbrev pub recorded_of : HttpRequest → Recorded
  recorded_of req =
      let raw = raw_body req.payload in
      record {
        method = req.method;
        path = req.path;
        host = req.host;
        header = req.header;
        body = if is_empty raw then none else unmarshal_object raw;
        raw = raw;
      }

  -- serve: the response, how long it waits, and the edge behind it.
  unfoldable pub serve : HttpRequest → Edge → HttpResponse × ℕ × Edge
  serve req e =
      let r = recorded_of req in
      let (s, e') = respond r (record e { requests = e.requests ++ r ∷ [] }) in
      (written s, s.delay, e')
