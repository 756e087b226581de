-- ===== src/Govern/Denied.antt =====
-- govern/errors.go: the error that a denied call returns, and its methods.
use mitrity_go.Base.{if◌then◌else◌, Bool, true, false, Option, some, Bytes}
use mitrity_go.Admission.Errors.{GoError, errors_is}
use mitrity_go.Admission.Types.{Verdict, Decision, policy_denied, is_unreachable}

-- DeniedError
pub record DeniedError : Type 0 where
  pub tool : Bytes
  pub verdict : Verdict

-- What a caller may compare the error with: ErrDenied, or an error of another package.
pub data DeniedTarget : Type 0 where
  err_denied : DeniedTarget
  other_error : GoError → DeniedTarget

module _ (e : DeniedError) where
  -- DeniedError.Error
  abbrev pub denied_text : Bytes
  denied_text = e.verdict.reason

  -- DeniedError.Is
  unfoldable pub denied_error_is : DeniedTarget → Bool
  denied_error_is err_denied = true
  denied_error_is (other_error target) = false

  -- DeniedError.Unwrap
  unfoldable pub unwrap_denied : Option GoError
  unwrap_denied = e.verdict.error

  abbrev pub cause_is : Option GoError → DeniedTarget → Bool
  cause_is (some cause) (other_error target) = errors_is cause target
  cause_is _ _ = false

  -- errors.Is of the error: its Is method, and the cause that it unwraps to.
  unfoldable pub denied_is : DeniedTarget → Bool
  unfolding denied_error_is unwrap_denied errors_is
  denied_is target = if denied_error_is target then true else cause_is unwrap_denied target

  -- DeniedError.PolicyDenied
  unfoldable pub denied_by_policy : Bool
  denied_by_policy = policy_denied e.verdict

  -- DeniedError.Held
  unfoldable pub denied_on_hold : Bool
  denied_on_hold = e.verdict.held

  -- DeniedError.Unreachable
  unfoldable pub denied_unreachable : Bool
  denied_unreachable = is_unreachable e.verdict

  -- DeniedError.Decision
  unfoldable pub denied_decision : Option Decision
  denied_decision = e.verdict.decision
