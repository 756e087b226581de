-- ===== src/Admission/Client/Verdicts.antt =====
-- What the verdicts of the two-phase decision rest on (admission/client.go: decide, Decide,
-- DecideWithHoldBudget).
use mitrity_go.Base.{
  ℕ, zero, suc, ◌+◌, ◌≤◌, ◌≡◌, ◌≢◌, refl, true, List, arith, length, Result, ok, err, ◌⊎◌, inl, inr,
}
use mitrity_go.Base.Int.{ℤ, pos}
use mitrity_go.Std.Duration.{Duration}
use mitrity_go.Admission.Errors.{GoError}
use mitrity_go.Admission.Types.{Decision, Verdict}
use mitrity_go.Admission.Requests.{Request, DecisionKind, allow, deny, held, with_hold}
use mitrity_go.Admission.World.{Env, World, Exchange}
use mitrity_go.Admission.Client.Messages.{verdict_for, unreachable_verdict, hold_failed_verdict}
use mitrity_go.Admission.Client.Construct.{Client}
use mitrity_go.Admission.Client.Decide.{
  admit, admit_within, decide_within, after_first, first_verdict, second_verdict, wait_on_hold,
  seconds_timeout, whole_seconds,
}
use mitrity_go.Admission.Client.Safety.{Admitted, admit_within-Admitted, length-admit_within}

-- The verdict is that of an allow which the edge sent: the last exchange carried this request, with
-- a hold budget of 0 or of `seconds`, and its answer reads as the allow.
pub record AllowedBy (c : Client) (req : Request) (seconds : ℕ) (v : Verdict)
    (after : List Exchange) : Type 0 where
  pub hold : ℤ
  pub budgeted : (hold ≡ pos 0) ⊎ (hold ≡ pos seconds)
  pub answer : Decision
  pub admitted : Admitted c (with_hold req hold) answer after
  pub allows : answer.decision ≡ allow
  pub verdict : v ≡ verdict_for answer

allow_of_allowed : (d : Decision) → (verdict_for d).allowed ≡ true → d.decision ≡ allow
unfolding verdict_for
allow_of_allowed d h = ground arith

not-unreachable_allowed : (e : GoError) → (unreachable_verdict e).allowed ≢ true
unfolding unreachable_verdict
not-unreachable_allowed e h = cc

not-hold_failed_allowed : (d : Decision) (e : GoError) → (hold_failed_verdict d e).allowed ≢ true
unfolding hold_failed_verdict
not-hold_failed_allowed d e h = cc

module _ {W : Type 0} (env : Env W) (c : Client) (req : Request) where
  abbrev AdmittedRun : ℤ → Result GoError Decision × World W → Type 0
  AdmittedRun hold r = (d : Decision) → r.0 ≡ ok d → Admitted c (with_hold req hold) d r.1.sent

  second_verdict-AllowedBy :
      (seconds : ℕ) (first : Decision) (r : Result GoError Decision × World W)
      → AdmittedRun (pos seconds) r
      → (second_verdict env c first r).0.allowed ≡ true
      → AllowedBy c req seconds
          (second_verdict env c first r).0
          (second_verdict env c first r).1.sent
  second_verdict-AllowedBy seconds first (err e, w) got h =
      absurd (not-hold_failed_allowed first e h)
  second_verdict-AllowedBy seconds first (ok d, w) got h = record {
    hold = pos seconds;
    budgeted = inr refl;
    answer = d;
    admitted = got d refl;
    allows = allow_of_allowed d h;
    verdict = refl;
  }

  wait_on_hold-AllowedBy :
      (first : Decision) (seconds : ℕ) (w : World W)
      → Admitted c (with_hold req (pos 0)) first w.sent
      → (wait_on_hold env c req first seconds w).0.allowed ≡ true
      → AllowedBy c req seconds
          (wait_on_hold env c req first seconds w).0
          (wait_on_hold env c req first seconds w).1.sent
  wait_on_hold-AllowedBy first zero w got h = record {
    hold = pos 0;
    budgeted = inl refl;
    answer = first;
    admitted = got;
    allows = allow_of_allowed first h;
    verdict = refl;
  }
  wait_on_hold-AllowedBy first (suc n) w got h =
      second_verdict-AllowedBy (suc n) first
        (admit_within env c (with_hold req (pos (suc n))) (seconds_timeout (suc n)) w)
        (λ d. admit_within-Admitted env c (with_hold req (pos (suc n))) (seconds_timeout (suc n)) w)
        h

  at_first :
      (seconds : ℕ) (d : Decision) (w : World W)
      → Admitted c (with_hold req (pos 0)) d w.sent
      → (verdict_for d).allowed ≡ true
      → AllowedBy c req seconds (verdict_for d) w.sent
  at_first seconds d w got h = record {
    hold = pos 0;
    budgeted = inl refl;
    answer = d;
    admitted = got;
    allows = allow_of_allowed d h;
    verdict = refl;
  }

  after_first-AllowedBy :
      (budget : Duration) (d : Decision) (w : World W) (kind : DecisionKind)
      → Admitted c (with_hold req (pos 0)) d w.sent
      → (after_first env c req budget d w kind).0.allowed ≡ true
      → AllowedBy c req
          (whole_seconds budget)
          (after_first env c req budget d w kind).0
          (after_first env c req budget d w kind).1.sent
  after_first-AllowedBy budget d w held got h =
      wait_on_hold-AllowedBy d (whole_seconds budget) w got h
  after_first-AllowedBy budget d w allow got h = at_first (whole_seconds budget) d w got h
  after_first-AllowedBy budget d w deny got h = at_first (whole_seconds budget) d w got h

  first_verdict-AllowedBy :
      (budget : Duration) (r : Result GoError Decision × World W)
      → AdmittedRun (pos 0) r
      → (first_verdict env c req budget r).0.allowed ≡ true
      → AllowedBy c req
          (whole_seconds budget)
          (first_verdict env c req budget r).0
          (first_verdict env c req budget r).1.sent
  first_verdict-AllowedBy budget (err e, w) got h = absurd (not-unreachable_allowed e h)
  first_verdict-AllowedBy budget (ok d, w) got h =
      after_first-AllowedBy budget d w d.decision (got d refl) h

  pub decide_within-AllowedBy :
      (budget : Duration) (w : World W)
      → (decide_within env c req budget w).0.allowed ≡ true
      → AllowedBy c req
          (whole_seconds budget)
          (decide_within env c req budget w).0
          (decide_within env c req budget w).1.sent
  unfolding decide_within admit
  decide_within-AllowedBy budget w h =
      first_verdict-AllowedBy budget (admit env c (with_hold req (pos 0)) w)
        (λ d. admit_within-Admitted env c (with_hold req (pos 0)) c.cfg.timeout w) h

  -- The length of the record of exchanges, by the parts of decide.
  length-second_verdict :
      (first : Decision) (r : Result GoError Decision × World W)
      → length (second_verdict env c first r).1.sent ≡ length r.1.sent
  length-second_verdict first (err e, w) = refl
  length-second_verdict first (ok d, w) = refl

  length-wait_on_hold :
      (first : Decision) (seconds : ℕ) (w : World W)
      → length (wait_on_hold env c req first seconds w).1.sent ≤ length w.sent + 2
  length-wait_on_hold first zero w = omega arith
  length-wait_on_hold first (suc n) w = omega (
    arith,
    length-second_verdict first
        (admit_within env c (with_hold req (pos (suc n))) (seconds_timeout (suc n)) w),
    length-admit_within env c (with_hold req (pos (suc n))) (seconds_timeout (suc n)) w,
  )

  length-after_first :
      (budget : Duration) (d : Decision) (w : World W) (kind : DecisionKind)
      → length (after_first env c req budget d w kind).1.sent ≤ length w.sent + 2
  length-after_first budget d w held = length-wait_on_hold d (whole_seconds budget) w
  length-after_first budget d w allow = omega arith
  length-after_first budget d w deny = omega arith

  length-first_verdict :
      (budget : Duration) (r : Result GoError Decision × World W)
      → length (first_verdict env c req budget r).1.sent ≤ length r.1.sent + 2
  length-first_verdict budget (err e, w) = omega arith
  length-first_verdict budget (ok d, w) = length-after_first budget d w d.decision

  pub length-decide_within :
      (budget : Duration) (w : World W)
      → length (decide_within env c req budget w).1.sent ≤ length w.sent + 4
  unfolding decide_within admit
  length-decide_within budget w = omega (
    arith,
    length-first_verdict budget (admit env c (with_hold req (pos 0)) w),
    length-admit_within env c (with_hold req (pos 0)) c.cfg.timeout w,
  )
