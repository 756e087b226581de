-- ===== src/Admission/Client/Safety.antt =====
-- What a result of Admit, Attest and Health rests on, and how much a call sends
-- (admission/client.go).
use mitrity_go.Base.{
  ℕ, ◌+◌, ◌≤◌, ◌≡◌, refl, sym, ap, subst, Bool, true, List, ◌∷◌, Option, none, some, arith, Bytes,
  codes, length, Result, ok, err,
}
use mitrity_go.Std.Duration.{Duration}
use mitrity_go.Std.Value.{Value, Fields, object}
use mitrity_go.Admission.Errors.{GoError}
use mitrity_go.Admission.Types.{Decision, parse_decision}
use mitrity_go.Admission.Requests.{Request, request_wire}
use mitrity_go.Admission.World.{Env, World, Exchange, deadline_after}
use mitrity_go.Admission.Client.Request.{encode}
use mitrity_go.Admission.Client.Construct.{Client}
use mitrity_go.Admission.Client.Decide.{
  request_loop, settle, send_payload, conclude, request_unless, request, read_decision, admit_wire,
  admit_within, log_decision,
}
use mitrity_go.Admission.Client.Loop.{
  Accepts, IsFor, Ended, quiet, heard, RequestRan, at_once, second_try, request_loop-LoopRan,
}

-- The last exchange of a call carried this body, and its answer was turned into these bytes.
pub record Delivered (c : Client) (method path : Bytes) (body : Option Value) (auth : Bool)
    (bytes : Bytes) (after : List Exchange) : Type 0 where
  pub payload : Option Bytes
  pub encoded : encode body ≡ ok payload
  pub exchange : Exchange
  pub earlier : List Exchange
  pub newest : after ≡ exchange ∷ earlier
  pub sent_for : IsFor c method path payload auth exchange
  pub accepted : Accepts c exchange bytes

module _ (c : Client) (method path : Bytes) (body : Option Value) (auth : Bool)
    (payload : Option Bytes) (encoded : encode body ≡ ok payload) where
  Ended-Delivered :
      (before after : List Exchange) (bytes : Bytes)
      → Ended c method path payload auth (ok bytes) before after
      → Delivered c method path body auth bytes after
  Ended-Delivered before after bytes (quiet e failed same) = cc
  Ended-Delivered before after bytes (heard x newest for_x sound) = record {
    payload = payload;
    encoded = encoded;
    exchange = x;
    earlier = before;
    newest = newest;
    sent_for = for_x;
    accepted = sound bytes refl;
  }

  RequestRan-Delivered :
      (before after : List Exchange) (bytes : Bytes)
      → RequestRan c method path payload auth (ok bytes) before after
      → Delivered c method path body auth bytes after
  RequestRan-Delivered before after bytes (at_once e) = Ended-Delivered before after bytes e
  RequestRan-Delivered before after bytes (second_try x for_x rejected e) =
      Ended-Delivered (x ∷ before) after bytes e

module _ {c : Client} {method path : Bytes} {payload : Option Bytes} {auth : Bool} where
  length-Ended :
      {result : Result GoError Bytes} {before after : List Exchange}
      → Ended c method path payload auth result before after
      → length after ≤ length before + 1
  length-Ended (quiet e failed same) = omega (arith, ap length same)
  length-Ended (heard x newest for_x sound) = omega (arith, ap length newest)

  length-RequestRan :
      {result : Result GoError Bytes} {before after : List Exchange}
      → RequestRan c method path payload auth result before after
      → length after ≤ length before + 2
  length-RequestRan (at_once e) = omega (arith, length-Ended e)
  length-RequestRan (second_try x for_x rejected e) = omega (arith, length-Ended e)

module _ {W : Type 0} (env : Env W) (c : Client) where
  settle-some :
      (run : Option (Result GoError Bytes) × World W) (result : Result GoError Bytes)
      → run.0 ≡ some result
      → settle env c run ≡ (result, run.1)
  settle-some (none, w) result h = cc
  settle-some (some r, w) result h = ground arith

  module _ (method path : Bytes) (body : Option Value) (timeout : Duration) (auth : Bool)
      (w : World W) where
    abbrev pub Ran : Option Bytes → Result GoError Bytes × World W → Type 0
    Ran payload r = RequestRan c method path payload auth r.0 w.sent r.1.sent

    pub send_payload-Ran :
        (payload : Option Bytes)
        → Ran payload (send_payload env c method path timeout auth w (ok payload))
    send_payload-Ran payload =
        let deadline = deadline_after env timeout w.outside in
        let run = request_loop env c 2 1 deadline timeout method path payload auth w in
        let (result, returned, ran) =
          request_loop-LoopRan env c deadline timeout method path payload auth w in
        subst (Ran payload) (sym (settle-some run result returned)) ran

    send_payload-Delivered :
        (enc : Result GoError (Option Bytes)) (bytes : Bytes)
        → encode body ≡ enc
        → (send_payload env c method path timeout auth w enc).0 ≡ ok bytes
        → Delivered c method path body auth bytes
            (send_payload env c method path timeout auth w enc).1.sent
    send_payload-Delivered (err e) bytes encoded h = cc
    send_payload-Delivered (ok payload) bytes encoded h =
        RequestRan-Delivered c method path body auth payload encoded w.sent _ bytes (
          subst
            (λ r.
              RequestRan c method path payload auth r w.sent
                (send_payload env c method path timeout auth w (ok payload)).1.sent)
            h (send_payload-Ran payload))

    length-send_payload :
        (enc : Result GoError (Option Bytes))
        → length (send_payload env c method path timeout auth w enc).1.sent ≤ length w.sent + 2
    length-send_payload (err e) = omega arith
    length-send_payload (ok payload) = length-RequestRan (send_payload-Ran payload)

    request_unless-Delivered :
        (e : Option GoError) (bytes : Bytes)
        → (request_unless env c method path body timeout auth w e).0 ≡ ok bytes
        → Delivered c method path body auth bytes
            (request_unless env c method path body timeout auth w e).1.sent
    request_unless-Delivered (some e) bytes h = cc
    request_unless-Delivered none bytes h = send_payload-Delivered (encode body) bytes refl h

    -- Bytes that request returns came with its last exchange.
    pub request-Delivered :
        (bytes : Bytes)
        → (request env c method path body timeout auth w).0 ≡ ok bytes
        → Delivered c method path body auth bytes
            (request env c method path body timeout auth w).1.sent
    unfolding request
    request-Delivered bytes h = request_unless-Delivered c.cfg_err bytes h

    length-request_unless :
        (e : Option GoError)
        → length (request_unless env c method path body timeout auth w e).1.sent ≤ length w.sent + 2
    length-request_unless (some e) = omega arith
    length-request_unless none = length-send_payload (encode body)

    pub length-request :
        length (request env c method path body timeout auth w).1.sent ≤ length w.sent + 2
    unfolding request
    length-request = length-request_unless c.cfg_err

  pub sent-conclude :
      (req : Request) (started : ℕ) (w : World W) (r : Result GoError Decision)
      → (conclude env c req started w r).1.sent ≡ w.sent
  unfolding log_decision
  sent-conclude req started w (err e) = refl
  sent-conclude req started w (ok d) = ground arith

  conclude-eq-ok :
      (req : Request) (started : ℕ) (w : World W) (r : Result GoError Decision) {d : Decision}
      → (conclude env c req started w r).0 ≡ ok d
      → r ≡ ok d
  conclude-eq-ok req started w (err e) h = cc
  conclude-eq-ok req started w (ok d) h = h

-- What a decision that Admit returns rests on: the last exchange carried this request, and its
-- answer reads as the decision.
pub record Admitted (c : Client) (req : Request) (d : Decision) (after : List Exchange)
    : Type 0 where
  pub body : Fields
  pub wired : request_wire req ≡ ok body
  pub bytes : Bytes
  pub parsed : parse_decision bytes ≡ ok d
  pub delivered :
      Delivered c (codes "POST") (codes "/v1/admit") (some (object body)) true bytes after

module _ {W : Type 0} (env : Env W) (c : Client) (req : Request) where
  read_decision-Admitted :
      (started : ℕ) {d : Decision} (body : Fields)
      → request_wire req ≡ ok body
      → (r : Result GoError Bytes × World W)
      → ((bytes : Bytes)
          → r.0 ≡ ok bytes
          → Delivered c (codes "POST") (codes "/v1/admit") (some (object body)) true bytes r.1.sent)
      → (read_decision env c req started r).0 ≡ ok d
      → Admitted c req d (read_decision env c req started r).1.sent
  read_decision-Admitted started body wired (err e, w) got h = cc
  read_decision-Admitted started body wired (ok bytes, w) got h = record {
    body = body;
    wired = wired;
    bytes = bytes;
    parsed = conclude-eq-ok env c req started w (parse_decision bytes) h;
    delivered =
        subst (Delivered c (codes "POST") (codes "/v1/admit") (some (object body)) true bytes)
          (sym (sent-conclude env c req started w (parse_decision bytes))) (got bytes refl);
  }

  length-read_decision :
      (started : ℕ) (r : Result GoError Bytes × World W)
      → length (read_decision env c req started r).1.sent ≡ length r.1.sent
  length-read_decision started (err e, w) = refl
  length-read_decision started (ok bytes, w) =
      ap length (sent-conclude env c req started w (parse_decision bytes))

  module _ (timeout : Duration) (w : World W) where
    abbrev post : Fields → Result GoError Bytes × World W
    post body = request env c (codes "POST") (codes "/v1/admit") (some (object body)) timeout true w

    admit_wire-Admitted :
        (r : Result GoError Fields) {d : Decision}
        → request_wire req ≡ r
        → (admit_wire env c req timeout w r).0 ≡ ok d
        → Admitted c req d (admit_wire env c req timeout w r).1.sent
    admit_wire-Admitted (err e) wired h = cc
    admit_wire-Admitted (ok body) wired h =
        read_decision-Admitted (env.now w.outside) body wired (post body)
          (request-Delivered env c (codes "POST") (codes "/v1/admit") (some (object body)) timeout
            true w)
          h

    pub admit_within-Admitted :
        {d : Decision}
        → (admit_within env c req timeout w).0 ≡ ok d
        → Admitted c req d (admit_within env c req timeout w).1.sent
    unfolding admit_within
    admit_within-Admitted h = admit_wire-Admitted (request_wire req) refl h

    length-admit_wire :
        (r : Result GoError Fields)
        → length (admit_wire env c req timeout w r).1.sent ≤ length w.sent + 2
    length-admit_wire (err e) = omega arith
    length-admit_wire (ok body) = omega (
      arith,
      length-read_decision (env.now w.outside) (post body),
      length-request env c (codes "POST") (codes "/v1/admit") (some (object body)) timeout true w,
    )

    -- One call of admit sends two requests at most.
    pub length-admit_within : length (admit_within env c req timeout w).1.sent ≤ length w.sent + 2
    unfolding admit_within
    length-admit_within = length-admit_wire (request_wire req)
