-- ===== src/Admission/Client/Faults.antt =====
-- The errors of Admit (admission/client.go: admit, NewWithConfig; admission/types.go: wire,
-- parseDecision).
use mitrity_go.Base.{
  refl, ◌||◌, ltb, ℕ, true, not, Bytes, List, [], ◌∷◌, codes, Option, none, some, Result, ok, err,
  ◌≡◌, sym, ◌∙◌, subst, is_some, is_empty,
}
use mitrity_go.Base.Int.{ℤ, pos, negsuc}
use mitrity_go.Std.Duration.{Duration}
use mitrity_go.Std.Strings.{trim_space}
use mitrity_go.Std.Ip.{parse_ip}
use mitrity_go.Std.Json.{unmarshal}
use mitrity_go.Std.Value.{Value, Fields, object, nil, float, get}
use mitrity_go.Admission.Errors.{GoError}
use mitrity_go.Admission.Types.{
  Decision, parse_decision, decision_of_object, as_object, decoded, recognized, decision_kind,
  parse_risk, parse_updated, string_member,
}
use mitrity_go.Admission.Requests.{
  DecisionKind, Request, request_wire, request_base, request_strings, put_hold, effective_surface,
  framework_of, framework_for_surface,
}
use mitrity_go.Admission.Config.{Config}
use mitrity_go.Admission.Config.Addr.{
  Network, unix, tcp, validate_addr, validate_split, split_addr, parse_loopback_addr, check_match,
  check_host_port, match_tcp, about_addr, not_plain, not_loopback, ignore_value, with_text,
  text_of_ip, literal_host, port_number,
}
use mitrity_go.Admission.World.{World, Env}
use mitrity_go.Admission.Client.Construct.{Client, ClientOption, new_with_config}
use mitrity_go.Admission.Client.Target.{new_with_config-validated}
use mitrity_go.Admission.Client.Decide.{conclude, read_decision, admit_wire, admit_within, admit}
use mitrity_go.Admission.Client.Failures.{request-FailsWell}
use mitrity_go.Admission.Client.Reported.{
  Foreign, IsError, plain_error, with_cause, FailsWell, if-FailsWell, bind-FailsWell,
}

parse_risk-FailsWell : (v : Option Value) → FailsWell (parse_risk v)
parse_risk-FailsWell none = tt
parse_risk-FailsWell (some (float x)) = tt
parse_risk-FailsWell (some v) = plain_error _ _ refl refl

parse_updated-FailsWell : (v : Option Value) → FailsWell (parse_updated v)
parse_updated-FailsWell none = tt
parse_updated-FailsWell (some nil) = tt
parse_updated-FailsWell (some (object m)) = tt
parse_updated-FailsWell (some v) = plain_error _ _ refl refl

recognized-FailsWell : (s : Bytes) (k : Option DecisionKind) → FailsWell (recognized s k)
recognized-FailsWell s none = plain_error _ _ refl refl
recognized-FailsWell s (some k) = tt

decoded-FailsWell : (v : Option Value) → FailsWell (decoded v)
decoded-FailsWell none = with_cause _ _ _ refl refl
decoded-FailsWell (some v) = tt

as_object-FailsWell : (v : Value) → FailsWell (as_object v)
as_object-FailsWell (object m) = tt
as_object-FailsWell v = plain_error _ _ refl refl

decision_of_object-FailsWell : (m : Fields) → FailsWell (decision_of_object m)
unfolding decision_of_object
decision_of_object-FailsWell m =
    bind-FailsWell _ _ (recognized-FailsWell _ (decision_kind (string_member m (codes "decision"))))
      (λ kind. bind-FailsWell _ _ (parse_risk-FailsWell (get (codes "risk_score") m)) (λ score.
        bind-FailsWell _ _ (parse_updated-FailsWell (get (codes "updated_input") m))
          (λ updated. tt)))

parse_decision-FailsWell : (body : Bytes) → FailsWell (parse_decision body)
unfolding parse_decision
parse_decision-FailsWell body =
    bind-FailsWell _ _ (decoded-FailsWell (unmarshal body))
      (λ v. bind-FailsWell _ _ (as_object-FailsWell v) (λ m. decision_of_object-FailsWell m))

put_hold-FailsWell : (hold : Option ℤ) (body : Fields) → FailsWell (put_hold hold body)
put_hold-FailsWell none body = tt
put_hold-FailsWell (some (pos n)) body = tt
put_hold-FailsWell (some (negsuc n)) body = plain_error _ _ refl refl

request_wire-FailsWell : (r : Request) → FailsWell (request_wire r)
unfolding request_wire
request_wire-FailsWell r =
    if-FailsWell (not (is_some (framework_of (effective_surface r) framework_for_surface))) _ _
      (plain_error _ _ refl refl)
      (if-FailsWell (is_empty (trim_space r.tool_name)) _ _ (plain_error _ _ refl refl)
        (put_hold-FailsWell r.hold_timeout_seconds (request_strings r (request_base r))))

check_match-FailsWell :
    (address : Bytes) (m : Option (Bytes × Bytes)) → FailsWell (check_match address m)
unfolding check_host_port about_addr not_plain not_loopback
check_match-FailsWell address none = plain_error _ _ refl refl
check_match-FailsWell address (some (host, digits)) =
    if-FailsWell (ltb (port_number 0 digits) 1 || ltb 65535 (port_number 0 digits)) _ _
      (plain_error _ _ refl refl) (at_ip (text_of_ip (parse_ip (literal_host host))))
  where
    at_ip : (o : Option Bytes) → FailsWell (with_text address (port_number 0 digits) o)
    at_ip none = plain_error _ _ refl refl
    at_ip (some text) = tt

-- The error of a configuration is an error of the package.
abbrev HasError : Option GoError → Type 0
HasError none = Unit
HasError (some e) = IsError e

validate_split-HasError :
    (addr : Bytes) (split : Network × Bytes) → HasError (validate_split addr split)
unfolding about_addr parse_loopback_addr
validate_split-HasError addr (unix, []) = plain_error _ _ refl refl
validate_split-HasError addr (unix, b ∷ path) = tt
validate_split-HasError addr (tcp, address) =
    ignored (check_match address (match_tcp address))
      (check_match-FailsWell address (match_tcp address))
  where
    ignored : (r : Result GoError (Bytes × ℕ)) → FailsWell r → HasError (ignore_value r)
    ignored (ok a) h = tt
    ignored (err e) h = h

validate_addr-HasError : (addr : Bytes) → HasError (validate_addr addr)
unfolding validate_addr
validate_addr-HasError addr = validate_split-HasError addr (split_addr addr)

IsError-of_HasError : (o : Option GoError) (e : GoError) → HasError o → o ≡ some e → IsError e
IsError-of_HasError o e h p = subst HasError p h

module _ {W : Type 0} (env : Env W) (c : Client) (foreign : Foreign env)
    (sound : (e : GoError) → c.cfg_err ≡ some e → IsError e) where
  read_decision-FailsWell :
      (req : Request) (started : ℕ) (r : Result GoError Bytes × World W)
      → FailsWell r.0
      → FailsWell (read_decision env c req started r).0
  read_decision-FailsWell req started (err e, w) h = h
  read_decision-FailsWell req started (ok body, w) h =
      concluded (parse_decision body) (parse_decision-FailsWell body)
    where
      concluded :
          (r : Result GoError Decision) → FailsWell r → FailsWell (conclude env c req started w r).0
      concluded (err e) k = k
      concluded (ok d) k = tt

  admit_wire-FailsWell :
      (req : Request) (timeout : Duration) (w : World W) (r : Result GoError Fields)
      → FailsWell r
      → FailsWell (admit_wire env c req timeout w r).0
  admit_wire-FailsWell req timeout w (err e) h = h
  admit_wire-FailsWell req timeout w (ok body) h =
      read_decision-FailsWell req (env.now w.outside) _ (
        request-FailsWell env c foreign (codes "POST") (codes "/v1/admit") (some (object body))
          timeout true w sound)

  admit_within-FailsWell :
      (req : Request) (timeout : Duration) (w : World W)
      → FailsWell (admit_within env c req timeout w).0
  unfolding admit_within
  admit_within-FailsWell req timeout w =
      admit_wire-FailsWell req timeout w (request_wire req) (request_wire-FailsWell req)

-- With a client that NewWithConfig builds, and an HTTP client none of whose errors has an *Error
-- in its chain, an error that Admit returns is an *Error whose kind is set and whose message is
-- not empty, whatever else the surroundings do.
pub admit-FailsWell :
    {W : Type 0} (env : Env W) (cfg : Config) (opts : List ClientOption) (req : Request)
    (w : World W)
    → Foreign env
    → FailsWell (admit env (new_with_config cfg opts) req w).0
unfolding admit
admit-FailsWell env cfg opts req w foreign =
    let c = new_with_config cfg opts in
    admit_within-FailsWell env c foreign
      (λ e h.
        IsError-of_HasError (validate_addr c.cfg.addr) e (validate_addr-HasError c.cfg.addr)
          (sym (new_with_config-validated cfg opts) ∙ h))
      req c.cfg.timeout w
