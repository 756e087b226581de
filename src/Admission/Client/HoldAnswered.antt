-- ===== src/Admission/Client/HoldAnswered.antt =====
-- Decide when the edge answers behind a hold (admission/client.go: decide).
use mitrity_go.Base.{ok_injective, ℕ, suc, ◌≡◌, ap, ◌∙◌, ◌∷◌, codes, Result, ok, err}
use mitrity_go.Base.Int.{pos}
use mitrity_go.Admission.Errors.{GoError}
use mitrity_go.Admission.Types.{Decision, Verdict}
use mitrity_go.Admission.Requests.{Request, DecisionKind, allow, deny, held, with_hold}
use mitrity_go.Admission.World.{Env, World}
use mitrity_go.Admission.Client.Messages.{verdict_for}
use mitrity_go.Admission.Client.Request.{http_request}
use mitrity_go.Admission.Client.Construct.{Client}
use mitrity_go.Admission.Client.Decide.{
  after_first, wait_on_hold, second_verdict, admit_within, admit, decide_within, decide,
  seconds_timeout, whole_seconds,
}
use mitrity_go.Admission.Client.Delivers.{Delivers, made, admit_within-Delivers}
use mitrity_go.Admission.Client.Complete.{first_verdict_lem}

-- The edge holds the first request, and answers the second one, which carries the hold budget, in time
-- and in order.
pub record AnswersHold {W : Type 0} (env : Env W) (c : Client) (req : Request) (w : World W) (n : ℕ)
    (first last : Decision) : Type 0 where
  pub budget : whole_seconds c.cfg.hold_timeout ≡ suc n
  pub asked : Delivers env c (with_hold req (pos 0)) c.cfg.timeout w first
  pub on_hold : first.decision ≡ held
  pub waited :
      Delivers env c
        (with_hold req (pos (suc n)))
        (seconds_timeout (suc n))
        (admit_within env c (with_hold req (pos 0)) c.cfg.timeout w).1
        last

module _ {W : Type 0} (env : Env W) (c : Client) (req : Request) (w : World W) (n : ℕ)
    (first last : Decision) (a : AnswersHold env c req w n first last) where
  abbrev after_hold : World W
  after_hold = (admit_within env c (with_hold req (pos 0)) c.cfg.timeout w).1

  abbrev second : Result GoError Decision × World W
  second = admit_within env c (with_hold req (pos (suc n))) (seconds_timeout (suc n)) after_hold

  second_verdict_lem :
      (r : Result GoError Decision × World W)
      → r.0 ≡ ok last
      → second_verdict env c first r ≡ (verdict_for last, r.1)
  second_verdict_lem (err e, v) h = cc
  second_verdict_lem (ok d, v) h = ap (λ x. (verdict_for x, v)) (ok_injective _ _ h)

  after_first-held :
      (kind : DecisionKind)
      → kind ≡ held
      → after_first env c req c.cfg.hold_timeout first after_hold kind
        ≡ second_verdict env c first second
  after_first-held held h = ap (λ k. wait_on_hold env c req first k after_hold) a.budget
  after_first-held allow h = cc
  after_first-held deny h = cc

  waiting : decide env c req w ≡ (verdict_for last, second.1)
  unfolding decide decide_within admit
  waiting =
      first_verdict_lem env c req w first _
        (admit_within-Delivers env c (with_hold req (pos 0)) c.cfg.timeout w first a.asked).0
      ∙ after_first-held first.decision a.on_hold
      ∙ second_verdict_lem second
          (admit_within-Delivers env c (with_hold req (pos (suc n))) (seconds_timeout (suc n))
            after_hold last a.waited).0

  -- When the edge holds the first request of Decide, the client's hold timeout is at least a
  -- second, and the edge answers the second request, which carries the whole seconds of that
  -- timeout, in time and in order with a decision, Decide returns the verdict of this second
  -- decision after exactly the two exchanges.
  pub decide-held :
      ((decide env c req w).0 ≡ verdict_for last)
      × ((decide env c req w).1.sent
          ≡ record {
            request =
                http_request c (codes "POST") (codes "/v1/admit") a.waited.payload a.waited.token;
            outcome = ok a.waited.response;
          }
            ∷ record {
              request =
                  http_request c (codes "POST") (codes "/v1/admit") a.asked.payload a.asked.token;
              outcome = ok a.asked.response;
            }
            ∷ w.sent)
  decide-held =
      let (_, sent, _) =
        admit_within-Delivers env c (with_hold req (pos 0)) c.cfg.timeout w first a.asked in
      let (_, sent', _) =
        admit_within-Delivers env c (with_hold req (pos (suc n))) (seconds_timeout (suc n))
          after_hold last a.waited in
      (
        ap (λ (r : Verdict × World W). r.0) waiting,
        ap (λ (r : Verdict × World W). r.1.sent) waiting
            ∙ sent'
            ∙ ap
                (λ l.
                  made env c (with_hold req (pos (suc n))) (seconds_timeout (suc n)) after_hold last
                    a.waited
                  ∷ l)
                sent,
      )
