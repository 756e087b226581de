-- ===== src/Admission/World.antt =====
-- What the client asks of its surroundings (the clock, the caller's context, the token file, the
-- HTTP exchange with the edge), and the record of what it sent.
use mitrity_go.Base.{ℕ, ◌+◌, ◌-◌, List, Option, none, some, leb, ltb, if◌then◌else◌, Bytes, Result}
use mitrity_go.Base.Int.{pos_part, neg_part}
use mitrity_go.Std.Float.{Float}
use mitrity_go.Std.Duration.{Duration}
use mitrity_go.Admission.Errors.{GoError, deadline_exceeded}
use mitrity_go.Admission.Requests.{DecisionKind}
use mitrity_go.Admission.Config.Addr.{Network}

-- One HTTP request, with the place that it is dialled at. The transport has no proxy and keeps no
-- connection, and no redirect is followed.
pub record HttpRequest : Type 0 where
  pub network : Network
  pub dial_address : Bytes
  pub method : Bytes
  pub path : Bytes
  pub host : Bytes
  pub header : List (Bytes × Bytes)
  pub payload : Option Bytes

-- A response: `broken` is the error that a read of the body meets behind its last byte.
pub record HttpResponse : Type 0 where
  pub status : ℕ
  pub header : List (Bytes × List Bytes)
  pub body : Bytes
  pub broken : Option GoError

pub record Exchange : Type 0 where
  pub request : HttpRequest
  pub outcome : Result GoError HttpResponse

-- One debug line of the client's logger.
pub record LogLine : Type 0 where
  pub tool : Bytes
  pub decision : DecisionKind
  pub admission_id : Bytes
  pub risk : Float
  pub routed_to : Bytes
  pub nanoseconds : ℕ

-- The surroundings, over a state `W` of their own. `now` is in nanoseconds. `caller_end` tells when
-- and why the caller's context ended, if it has. `exchange` is http.Client.Do under a deadline, with
-- the reading of the body.
pub record Env (W : Type 0) : Type 0 where
  pub now : W → ℕ
  pub caller_end : W → Option (ℕ × GoError)
  pub read_file : Bytes → W → Result GoError Bytes × W
  pub exchange : ℕ → HttpRequest → W → Result GoError HttpResponse × W

-- The state of the surroundings, what was exchanged (the last first), and the log.
pub record World (W : Type 0) : Type 0 where
  pub outside : W
  pub sent : List Exchange
  pub logs : List LogLine

module _ {W : Type 0} (env : Env W) where
  -- The deadline of context.WithTimeout.
  abbrev pub deadline_after : Duration → W → ℕ
  deadline_after timeout w = env.now w + pos_part timeout - neg_part timeout

  -- ctx.Err() of a context with that deadline, under the caller's: what ended it first.
  abbrev pub end_of : ℕ → W → Option (ℕ × GoError) → Option GoError
  end_of deadline w none = if leb deadline (env.now w) then some deadline_exceeded else none
  end_of deadline w (some (t, e)) = if ltb deadline t then some deadline_exceeded else some e

  unfoldable pub context_err : ℕ → W → Option GoError
  context_err deadline w = end_of deadline w (env.caller_end w)
