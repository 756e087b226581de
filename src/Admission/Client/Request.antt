-- ===== src/Admission/Client/Request.antt =====
-- admission/client.go: readToken, encode and roundTrip, and the errors of a request.
use mitrity_go.Base.{
  ℕ, ◌/◌, List, [], ◌∷◌, ◌++◌, Option, none, some, ltb, if◌then◌else◌, Bytes, codes, is_empty,
  is_some, length, Result, ok, err, ◌>>=◌,
}
use mitrity_go.Base.Int.{pos_part}
use mitrity_go.Std.Strings.{trim_space, quote, format_ℕ}
use mitrity_go.Std.Duration.{Duration}
use mitrity_go.Std.Value.{Value}
use mitrity_go.Std.Json.{encode_value}
use mitrity_go.Admission.Errors.{
  Kind, GoError, failure, wrapping, deadline_exceeded, plain, error_text, errors_is, as_error,
  as_path_error,
}
use mitrity_go.Admission.Config.{Config}
use mitrity_go.Admission.World.{HttpRequest, HttpResponse, Env, World}
use mitrity_go.Admission.Client.Messages.{header_token, header_version, protocol_version}
use mitrity_go.Admission.Client.Construct.{
  Client, dial_address, host_name, max_request_bytes, max_response_bytes,
}

-- errorText
unfoldable pub error_text_of : GoError → Bytes
unfolding as_path_error error_text
error_text_of e = elim (as_path_error e) [ none ↦ error_text e | some inner ↦ error_text inner ]

unfoldable pub unreadable_error : Bytes → GoError → GoError
unfolding error_text_of
unreadable_error path e =
    wrapping Kind.unreachable
      (codes "admission token file "
        ++ (quote path
            ++ (codes " could not be read ("
                ++ (error_text_of e
                    ++ codes
                        "): the MITRITY edge is not running here, or is not configured to serve admission"))))
      e

abbrev pub token_of_file : Bytes → Result GoError Bytes → Result GoError Bytes
token_of_file path (err e) = err (unreadable_error path e)
token_of_file path (ok raw) =
    let token = trim_space raw in
    if is_empty token
    then err (
        failure Kind.unreachable
          (codes "admission token file " ++ (quote path ++ codes " is empty")))
    else ok token

unfoldable pub too_large_error : ℕ → GoError
too_large_error n = failure Kind.payload_too_large (
    codes "the tool input is larger than MITRITY will judge ("
    ++ (format_ℕ n ++ (codes " bytes, cap " ++ (format_ℕ max_request_bytes ++ codes ")"))))

abbrev pub within_cap : Bytes → Result GoError (Option Bytes)
within_cap payload =
    if ltb max_request_bytes (length payload)
    then err (too_large_error (length payload))
    else ok (some payload)

abbrev pub serialized : Option Bytes → Result GoError (Option Bytes)
serialized none = err (
    wrapping Kind.protocol (codes "the request could not be serialized as JSON")
      (plain (codes "json: unsupported value")))
serialized (some payload) = within_cap payload

-- encode; a nil body is no payload.
unfoldable pub encode : Option Value → Result GoError (Option Bytes)
unfolding encode_value too_large_error
encode none = ok none
encode (some body) = serialized (encode_value body)

module _ {W : Type 0} (env : Env W) (c : Client) where
  -- readToken
  unfoldable pub read_token : World W → Result GoError Bytes × World W
  read_token w =
      if is_empty c.cfg.token_file
      then (
        err (
            failure Kind.config
              (codes "no admission token file configured (set MITRITY_ADMISSION_TOKEN_FILE)")),
        w,
      )
      else let (r, o) = env.read_file c.cfg.token_file w.outside in
        (token_of_file c.cfg.token_file r, record w { outside = o })

-- contextError
unfoldable pub context_error : Config → GoError → Duration → GoError
unfolding errors_is
context_error cfg e timeout =
    if errors_is e deadline_exceeded
    then wrapping Kind.timeout
        (codes "admission API at "
          ++ (cfg.addr
              ++ (codes " did not answer within "
                  ++ (format_ℕ (pos_part timeout / 1000000) ++ codes " ms"))))
        e
    else wrapping Kind.canceled (codes "the call was canceled before the MITRITY edge answered") e

-- transportError for an error that is none of the package; `ended` is ctx.Err().
abbrev pub other_error : Config → Option GoError → GoError → Duration → GoError
other_error cfg (some ctx) e timeout = context_error cfg ctx timeout
other_error cfg none e timeout =
    if errors_is e deadline_exceeded
    then context_error cfg deadline_exceeded timeout
    else wrapping Kind.unreachable
        (codes "admission API at " ++ (cfg.addr ++ (codes " unreachable: " ++ error_text e))) e

abbrev pub found_error :
    Config → (found : Option GoError) → (ended : Option GoError) → GoError → Duration → GoError
found_error cfg (some adm) ended e timeout = adm
found_error cfg none ended e timeout = other_error cfg ended e timeout

-- transportError
unfoldable pub transport_error : Config → Option GoError → GoError → Duration → GoError
unfolding as_error context_error errors_is
transport_error cfg ended e timeout = found_error cfg (as_error e) ended e timeout

-- The headers of a request.
unfoldable pub request_header : Bytes → Option Bytes → List (Bytes × Bytes)
request_header token payload =
    (header_version, protocol_version)
    ∷ ((if is_empty token then [] else (header_token, token) ∷ [])
        ++ (if is_some payload then (codes "Content-Type", codes "application/json") ∷ [] else []))

-- The request that roundTrip sends.
unfoldable pub http_request :
    Client → (method path : Bytes) → (payload : Option Bytes) → (token : Bytes) → HttpRequest
unfolding request_header dial_address
http_request c method path payload token = record {
  network = c.network;
  dial_address = dial_address c;
  method = method;
  path = path;
  host = host_name;
  header = request_header token payload;
  payload = payload;
}

-- io.ReadAll of the body, limited to one byte more than the bound, and the test of its length.
unfoldable pub read_body : HttpResponse → Result GoError Bytes
read_body r =
    if ltb max_response_bytes (length r.body)
    then err
        (failure Kind.protocol (codes "admission response exceeded the size an adapter will read"))
    else elim r.broken [ some e ↦ err e | none ↦ ok r.body ]

pub record Answer : Type 0 where
  pub status : ℕ
  pub header : List (Bytes × List Bytes)
  pub body : Bytes

abbrev pub answer_of : Result GoError HttpResponse → Result GoError Answer
answer_of (err e) = err e
answer_of (ok r) = do
  body ← read_body r
  ok (record { status = r.status; header = r.header; body = body })

module _ {W : Type 0} (env : Env W) (c : Client) where
  -- roundTrip
  unfoldable pub round_trip :
      (deadline : ℕ)
      → (method path : Bytes) → (payload : Option Bytes) → (token : Bytes) → World W
      → Result GoError Answer × World W
  unfolding http_request read_body
  round_trip deadline method path payload token w =
      let req = http_request c method path payload token in
      let (r, o) = env.exchange deadline req w.outside in
      (answer_of r, record w { outside = o; sent = record { request = req; outcome = r } ∷ w.sent })
