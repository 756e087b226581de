-- ===== src/Admission/Client/Sent.antt =====
-- The record of the exchanges (admission/client.go: request, Attest, admit, Decide).
use mitrity_go.Base.{
  true, Bool, ℕ, zero, suc, ◌≡◌, refl, ap, ◌∙◌, List, [], ◌∷◌, ◌++◌, Option, none, some, Bytes,
  codes, Result, ok, err,
}
use mitrity_go.Base.Int.{pos}
use mitrity_go.Std.Duration.{Duration}
use mitrity_go.Std.Value.{Value, Fields, object}
use mitrity_go.Admission.Errors.{GoError}
use mitrity_go.Admission.Types.{Decision, parse_decision, Attestation, attestation_wire}
use mitrity_go.Admission.Requests.{
  Request, DecisionKind, allow, deny, held, with_hold, request_wire,
}
use mitrity_go.Admission.Config.{attest_timeout}
use mitrity_go.Admission.World.{Env, World, Exchange}
use mitrity_go.Admission.Client.Request.{encode}
use mitrity_go.Admission.Client.Construct.{Client}
use mitrity_go.Admission.Client.Loop.{RequestRan, at_once, second_try, Ended, quiet, heard}
use mitrity_go.Admission.Client.Decide.{
  send_payload, request_unless, request, read_decision, admit_wire, admit_within, admit, attest,
  error_of, second_verdict, wait_on_hold, after_first, first_verdict, decide_within, decide,
  seconds_timeout, whole_seconds,
}
use mitrity_go.Admission.Client.Safety.{send_payload-Ran, sent-conclude}

-- The exchanges `after` are those `before`, and newer ones in front.
pub record Extends (before after : List Exchange) : Type 0 where
  pub newer : List Exchange
  pub grown : after ≡ newer ++ before

pub Extends-refl : (l : List Exchange) → Extends l l
Extends-refl l = record { newer = []; grown = refl }

append_assoc : (a b c : List Exchange) → a ++ (b ++ c) ≡ (a ++ b) ++ c
append_assoc [] b c = refl
append_assoc (x ∷ a) b c = ap (λ l. x ∷ l) (append_assoc a b c)

pub Extends-trans : {a b c : List Exchange} → Extends a b → Extends b c → Extends a c
Extends-trans {a} h k = record {
  newer = k.newer ++ h.newer;
  grown = k.grown ∙ ap (λ l. k.newer ++ l) h.grown ∙ append_assoc k.newer h.newer a;
}

pub Extends-of_eq : {a b c : List Exchange} → Extends a b → c ≡ b → Extends a c
Extends-of_eq h e = record { newer = h.newer; grown = e ∙ h.grown }

module _ {c : Client} {method path : Bytes} {payload : Option Bytes} {auth : Bool}
    {result : Result GoError Bytes} where
  Ended-Extends :
      {before after : List Exchange}
      → Ended c method path payload auth result before after
      → Extends before after
  Ended-Extends (quiet e h eq) = record { newer = []; grown = eq }
  Ended-Extends (heard x eq h k) = record { newer = x ∷ []; grown = eq }

  RequestRan-Extends :
      {before after : List Exchange}
      → RequestRan c method path payload auth result before after
      → Extends before after
  RequestRan-Extends (at_once h) = Ended-Extends h
  RequestRan-Extends (second_try x f r h) =
      Extends-trans (record { newer = x ∷ []; grown = refl }) (Ended-Extends h)

module _ {W : Type 0} (env : Env W) (c : Client) where
  module _ (method path : Bytes) (body : Option Value) (timeout : Duration) (auth : Bool)
      (w : World W) where
    send_payload-Extends :
        (enc : Result GoError (Option Bytes))
        → Extends w.sent (send_payload env c method path timeout auth w enc).1.sent
    send_payload-Extends (err e) = Extends-refl w.sent
    send_payload-Extends (ok payload) =
        RequestRan-Extends (send_payload-Ran env c method path body timeout auth w payload)

    request_unless-Extends :
        (e : Option GoError)
        → Extends w.sent (request_unless env c method path body timeout auth w e).1.sent
    request_unless-Extends (some e) = Extends-refl w.sent
    request_unless-Extends none = send_payload-Extends (encode body)

    request-Extends : Extends w.sent (request env c method path body timeout auth w).1.sent
    unfolding request
    request-Extends = request_unless-Extends c.cfg_err

  error_of-sent : (r : Result GoError Bytes × World W) → (error_of env c r).1.sent ≡ r.1.sent
  error_of-sent (err e, w) = refl
  error_of-sent (ok b, w) = refl

  pub attest-Extends :
      (att : Attestation) (w : World W) → Extends w.sent (attest env c att w).1.sent
  unfolding attest
  attest-Extends att w =
      Extends-of_eq
        (request-Extends (codes "POST") (codes "/v1/attest") (some (object (attestation_wire att)))
          attest_timeout true w)
        (error_of-sent _)

  module _ (req : Request) where
    read_decision-sent :
        (started : ℕ) (r : Result GoError Bytes × World W)
        → (read_decision env c req started r).1.sent ≡ r.1.sent
    read_decision-sent started (err e, w) = refl
    read_decision-sent started (ok bytes, w) =
        sent-conclude env c req started w (parse_decision bytes)

    admit_wire-Extends :
        (timeout : Duration) (w : World W) (r : Result GoError Fields)
        → Extends w.sent (admit_wire env c req timeout w r).1.sent
    admit_wire-Extends timeout w (err e) = Extends-refl w.sent
    admit_wire-Extends timeout w (ok body) =
        Extends-of_eq
          (request-Extends (codes "POST") (codes "/v1/admit") (some (object body)) timeout true w)
          (read_decision-sent (env.now w.outside) _)

    admit_within-Extends :
        (timeout : Duration) (w : World W)
        → Extends w.sent (admit_within env c req timeout w).1.sent
    unfolding admit_within
    admit_within-Extends timeout w = admit_wire-Extends timeout w (request_wire req)

  module _ (req : Request) where
    second_verdict-sent :
        (first : Decision) (r : Result GoError Decision × World W)
        → (second_verdict env c first r).1.sent ≡ r.1.sent
    second_verdict-sent first (err e, w) = refl
    second_verdict-sent first (ok d, w) = refl

    wait_on_hold-Extends :
        (first : Decision) (seconds : ℕ) (w : World W)
        → Extends w.sent (wait_on_hold env c req first seconds w).1.sent
    wait_on_hold-Extends first zero w = Extends-refl w.sent
    wait_on_hold-Extends first (suc n) w =
        Extends-of_eq
          (admit_within-Extends (with_hold req (pos (suc n))) (seconds_timeout (suc n)) w)
          (second_verdict-sent first _)

    after_first-Extends :
        (budget : Duration) (d : Decision) (w : World W) (kind : DecisionKind)
        → Extends w.sent (after_first env c req budget d w kind).1.sent
    after_first-Extends budget d w held = wait_on_hold-Extends d (whole_seconds budget) w
    after_first-Extends budget d w allow = Extends-refl w.sent
    after_first-Extends budget d w deny = Extends-refl w.sent

    first_verdict-Extends :
        (budget : Duration) (r : Result GoError Decision × World W)
        → Extends r.1.sent (first_verdict env c req budget r).1.sent
    first_verdict-Extends budget (err e, w) = Extends-refl w.sent
    first_verdict-Extends budget (ok d, w) = after_first-Extends budget d w d.decision

    pub decide-Extends : (w : World W) → Extends w.sent (decide env c req w).1.sent
    unfolding decide decide_within admit
    decide-Extends w =
        Extends-trans (admit_within-Extends (with_hold req (pos 0)) c.cfg.timeout w)
          (first_verdict-Extends c.cfg.hold_timeout _)
