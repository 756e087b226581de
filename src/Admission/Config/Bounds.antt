-- ===== src/Admission/Config/Bounds.antt =====
-- The timeouts of a normalized configuration (admission/config.go: Normalized, FromEnviron).
use mitrity_go.Base.{◌≡◌, Bytes, Option, arith}
use mitrity_go.Base.Int.{pos, ◌≤ℤ◌}
use mitrity_go.Std.Duration.{Duration}
use mitrity_go.Admission.Config.{
  Config, Platform, normalized, clamp_timeout, clamp_hold, from_environ, max_timeout,
  max_hold_timeout,
}

-- The timeouts are usable.
pub record InBounds (c : Config) : Type 0 where
  pub timeout_positive : pos 1 ≤ℤ c.timeout
  pub timeout_capped : c.timeout ≤ℤ max_timeout
  pub hold_nonnegative : pos 0 ≤ℤ c.hold_timeout
  pub hold_capped : c.hold_timeout ≤ℤ max_hold_timeout

clamp_timeout_bounds :
    (t : Duration) → (pos 1 ≤ℤ clamp_timeout t) × (clamp_timeout t ≤ℤ max_timeout)
unfolding clamp_timeout
clamp_timeout_bounds t = ground arith

clamp_hold_bounds : (t : Duration) → (pos 0 ≤ℤ clamp_hold t) × (clamp_hold t ≤ℤ max_hold_timeout)
unfolding clamp_hold
clamp_hold_bounds t = ground arith

clamp_timeout_within : (t : Duration) → pos 1 ≤ℤ t → t ≤ℤ max_timeout → clamp_timeout t ≡ t
unfolding clamp_timeout
clamp_timeout_within t h k = ground arith

clamp_hold_within : (t : Duration) → pos 0 ≤ℤ t → t ≤ℤ max_hold_timeout → clamp_hold t ≡ t
unfolding clamp_hold
clamp_hold_within t h k = ground arith

pub normalized-InBounds : (c : Config) → InBounds (normalized c)
unfolding normalized
normalized-InBounds c = record {
  timeout_positive = (clamp_timeout_bounds c.timeout).0;
  timeout_capped = (clamp_timeout_bounds c.timeout).1;
  hold_nonnegative = (clamp_hold_bounds c.hold_timeout).0;
  hold_capped = (clamp_hold_bounds c.hold_timeout).1;
}

-- Normalized changes nothing in a configuration whose timeouts are within their bounds.
normalized_of_InBounds : (c : Config) → InBounds c → normalized c ≡ c
unfolding normalized
normalized_of_InBounds c h = λ i. record {
  addr = c.addr;
  token_file = c.token_file;
  timeout = clamp_timeout_within c.timeout h.timeout_positive h.timeout_capped i;
  hold_timeout = clamp_hold_within c.hold_timeout h.hold_nonnegative h.hold_capped i;
}

-- FromEnviron gives a configuration whose timeout is positive and at most its cap and whose hold
-- timeout is between 0 and its cap, whatever the environment says.
pub from_environ-InBounds :
    (p : Platform) (lookup : Option (Bytes → Bytes)) → InBounds (from_environ p lookup)
unfolding from_environ
from_environ-InBounds p lookup = normalized-InBounds _
