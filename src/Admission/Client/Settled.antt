-- ===== src/Admission/Client/Settled.antt =====
-- Decide behind the answer to its first request (admission/client.go: admit, decide).
use mitrity_go.Base.{ℕ, ◌≡◌, ◌≢◌, refl, ap, ◌∙◌, true, some, Bytes, codes, ok, arith}
use mitrity_go.Base.Int.{pos}
use mitrity_go.Std.Duration.{Duration}
use mitrity_go.Std.Value.{Fields, object}
use mitrity_go.Admission.Types.{Verdict, Decision, parse_decision}
use mitrity_go.Admission.Requests.{
  Request, DecisionKind, allow, deny, held, with_hold, request_wire,
}
use mitrity_go.Admission.World.{Env, World}
use mitrity_go.Admission.Client.Messages.{verdict_for}
use mitrity_go.Admission.Client.Construct.{Client}
use mitrity_go.Admission.Client.Decide.{
  conclude, request, read_decision, admit_wire, admit_within, admit, after_first, first_verdict,
  decide_within, decide, log_decision,
}

module _ {W : Type 0} (env : Env W) (c : Client) (req : Request) where
  pub after_first-settled :
      (budget : Duration) (d : Decision) (v : World W) (kind : DecisionKind)
      → kind ≢ held
      → after_first env c req budget d v kind ≡ (verdict_for d, v)
  after_first-settled budget d v allow h = refl
  after_first-settled budget d v deny h = refl
  after_first-settled budget d v held h = absurd (h refl)

  log_decision-kept :
      (r : Request) (d : Decision) (started : ℕ) (v : World W)
      → ((log_decision env c r d started v).sent ≡ v.sent)
        × ((log_decision env c r d started v).outside ≡ v.outside)
  unfolding log_decision
  log_decision-kept r d started v = (ground arith, ground arith)

  abbrev asked : Request
  asked = with_hold req (pos 0)

  pub decide-settled :
      (w v : World W) (body : Fields) (bytes : Bytes) (d : Decision)
      → request_wire asked ≡ ok body
      → request env c (codes "POST") (codes "/v1/admit") (some (object body)) c.cfg.timeout true w
        ≡ (ok bytes, v)
      → parse_decision bytes ≡ ok d
      → d.decision ≢ held
      → ((decide env c req w).0 ≡ verdict_for d)
        × ((decide env c req w).1.sent ≡ v.sent)
        × ((decide env c req w).1.outside ≡ v.outside)
  unfolding decide decide_within admit admit_within
  decide-settled w v body bytes d wired answered parsed settled =
      let started = env.now w.outside in
      let admitted =
        ap (admit_wire env c asked c.cfg.timeout w) wired
        ∙ ap (read_decision env c asked started) answered
        ∙ ap (conclude env c asked started v) parsed in
      let decided =
        ap (first_verdict env c req c.cfg.hold_timeout) admitted
        ∙ after_first-settled c.cfg.hold_timeout d _ d.decision settled in
      (
        ap (λ (r : Verdict × World W). r.0) decided,
        ap (λ (r : Verdict × World W). r.1.sent) decided ∙ (log_decision-kept asked d started v).0,
        ap (λ (r : Verdict × World W). r.1.outside) decided
            ∙ (log_decision-kept asked d started v).1,
      )
