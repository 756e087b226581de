-- ===== src/Govern/Concurrent/Call.antt =====
-- One call of Admit on its goroutine, by the steps that other goroutines see (govern/governor.go:
-- Admit, ensureAttested, shouldAttest, register, Attestation). What runs under the mutex is one step,
-- and so is an Add of an atomic counter, an Attest and a Decide: the client has no state of its own.
use mitrity_go.Base.{
  ℕ, zero, suc, ◌+◌, Bool, true, false, not, Option, none, some, if◌then◌else◌, Bytes, is_empty,
  Result, ok, err,
}
use mitrity_go.Std.Value.{Fields}
use mitrity_go.Admission.Errors.{GoError, error_text}
use mitrity_go.Admission.Types.{Verdict, Attestation, is_unreachable}
use mitrity_go.Admission.Requests.{Request}
use mitrity_go.Admission.World.{World}
use mitrity_go.Admission.Client.Decide.{attest, decide}
use mitrity_go.Govern.Governor.{register, attestation, should_attest, mark_attested}
use mitrity_go.Govern.State.{Governor, Stats}
use mitrity_go.Govern.Admit.{
  GovernorEnv, State, Context, session_for, cwd_for, tool_use_id_for, request_for, merge_input,
  attest_failed, routed_call, log_line, with_stats,
}
use mitrity_go.Govern.Denied.{DeniedError}

-- The arguments of the call.
pub record Call : Type 0 where
  pub ctx : Context
  pub tool : Bytes
  pub input : Option Fields

-- Where a call stands, with the variables that it needs from there on.
pub data Point : Type 0 where
  -- before register
  entered : Point
  -- before Attestation
  registered : (session : Bytes) → Point
  -- before shouldAttest
  attesting : (session : Bytes) → Attestation → Point
  -- before Attest
  due : (session : Bytes) → Attestation → Point
  -- before the session's hash is stored
  received : (session hash : Bytes) → Point
  -- before the request is made
  attested : (session : Bytes) → Point
  -- before the Add of admitted
  prepared : Request → Point
  -- before Decide
  asking : Request → Point
  -- before the Add of the switch
  answered : Verdict → Point
  -- behind the Add of unreachable, before `if verdict.Held`
  missed : Verdict → Point
  -- behind the switch
  counted : Verdict → Point
  -- behind the Add of routed, before the line of the log
  routed : Verdict → Point
  returned : Result DeniedError Fields → Point

-- A counter's Add.
abbrev pub add_admitted : Stats → Stats
add_admitted n = record n { admitted = n.admitted + 1 }

abbrev pub add_allowed : Stats → Stats
add_allowed n = record n { allowed = n.allowed + 1 }

abbrev pub add_denied : Stats → Stats
add_denied n = record n { denied = n.denied + 1 }

abbrev pub add_held : Stats → Stats
add_held n = record n { held = n.held + 1 }

abbrev pub add_unreachable : Stats → Stats
add_unreachable n = record n { unreachable = n.unreachable + 1 }

abbrev pub add_routed : Stats → Stats
add_routed n = record n { routed = n.routed + 1 }

module _ {W : Type 0} where
  abbrev pub counting : (Stats → Stats) → State W → State W
  counting add s = record s { governor = with_stats s.governor (add s.governor.stats) }

  abbrev pub attest_next :
      (session : Bytes) → Attestation → State W → Bool × Governor → Point × State W
  attest_next session att s (false, g) = (attested session, record s { governor = g })
  attest_next session att s (true, g) = (due session att, record s { governor = g })

  abbrev pub attest_sent :
      (session hash : Bytes) → State W → Option GoError × World W → Point × State W
  attest_sent session hash s (some e, w) = (
    attested session,
    record s { world = w; lines = log_line s.governor (attest_failed (error_text e)) s.lines },
  )
  attest_sent session hash s (none, w) = (received session hash, record s { world = w })

  -- The switch.
  abbrev pub count_next : Verdict → State W → Point × State W
  count_next v s =
      if v.allowed
      then (counted v, counting add_allowed s)
      else if is_unreachable v
      then (missed v, counting add_unreachable s)
      else if v.held
      then (counted v, counting add_held s)
      else (counted v, counting add_denied s)

  -- Behind the switch.
  abbrev pub return_next : Call → Verdict → State W → Point × State W
  return_next call v s =
      if not v.allowed
      then (returned (err (record { tool = call.tool; verdict = v })), s)
      else if is_empty v.routed_to
      then (returned (ok (merge_input call.input v.updated_input)), s)
      else (routed v, counting add_routed s)

module _ {W : Type 0} (ge : GovernorEnv W) (call : Call) where
  -- The next step of the call.
  unfoldable pub advance : Point → State W → Point × State W
  advance entered s = (
    registered (session_for s.governor call.ctx),
    record s { governor = (register call.tool s.governor).1 },
  )
  advance (registered session) s = (attesting session (attestation s.governor), s)
  advance (attesting session att) s =
      attest_next session att s
        (should_attest session att.config_hash (ge.env.now s.world.outside) s.governor)
  advance (due session att) s =
      attest_sent session att.config_hash s (attest ge.env s.governor.client att s.world)
  advance (received session hash) s =
      (attested session, record s { governor = mark_attested session hash s.governor })
  advance (attested session) s =
      let (id, w) = tool_use_id_for ge call.ctx s.world in
      (
        prepared (
            request_for ge s.governor session (cwd_for ge s.governor s.world.outside) call.tool
              call.input id),
        record s { world = w },
      )
  advance (prepared req) s = (asking req, counting add_admitted s)
  advance (asking req) s =
      let (v, w) = decide ge.env s.governor.client req s.world in
      (answered v, record s { world = w })
  advance (answered v) s = count_next v s
  advance (missed v) s = (counted v, if v.held then counting add_held s else s)
  advance (counted v) s = return_next call v s
  advance (routed v) s = (
    returned (ok (merge_input call.input v.updated_input)),
    record s { lines = log_line s.governor (routed_call call.tool v.routed_to) s.lines },
  )
  advance (returned r) s = (returned r, s)

  -- A number of steps of this call with no other goroutine between them.
  unfoldable pub advance_times : ℕ → Point × State W → Point × State W
  unfolding advance
  advance_times zero p = p
  advance_times (suc n) (p, s) = advance_times n (advance p s)
